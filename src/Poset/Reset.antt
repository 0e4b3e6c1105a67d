-- ===== src/Poset/Reset.antt =====
-- src/poset/poset.go: `GetAnchorBlockWithFrame` and `Reset`, which starts from a block and its frame.
pub mod Base
use gource.Prelude.{
  ℕ, String, Bool, false, List, [], ◌∷◌, none, some, ℤ, pos, Map, insert, string_eq,
}
use gource.Common.Errors.{Result, ok, err, message, panic}
use gource.Common.Exec.{Exec, pure, raise, lift, gets, modify, for_each, ◌>>=◌, ◌>>◌}
use gource.Peers.Peer.{Peer}
use gource.Peers.Registry.{to_peer_slice}
use gource.Poset.Block.{Block, Frame, Root}
use gource.Poset.State.{Env, Poset, Key, on_store, set_last_consensus_round}
use gource.Poset.Frames.{get_frame}
use gource.Poset.Insert.{insert_event}

-- The roots of a frame are in the order of the participants; one root too many has no participant.
unfoldable pub root_map : List Peer → List Root → Map String Root → Result (Map String Root)
root_map ps [] m = ok m
root_map [] (root ∷ roots) m = err panic
root_map (p ∷ ps) (root ∷ roots) m = root_map ps roots (insert p.pub_key_hex root m)

module _ {env : Env} where
  unfoldable pub get_anchor_block_with_frame : ℕ → Exec (Poset env) (Block × Frame)
  get_anchor_block_with_frame fuel = do
    anchor ← gets (λ s. s.anchor_block)
    elim anchor [
      | none ↦ raise (message "no Anchor Block")
      | some i ↦ do
        block ← on_store (env.store.get_block i)
        frame ← get_frame fuel block.round_received
        pure (block, frame)
    ]

  -- The state that `Reset` clears. The pool of signatures, the counter of transactions and the cache
  -- of timestamps stay.
  unfoldable pub clear : Poset env → Poset env
  clear s = record s {
    last_consensus_round = none;
    first_consensus_round = none;
    anchor_block = none;
    undetermined_events = [];
    pending_rounds = [];
    pending_loaded_events = pos 0;
    topological_index = pos 0;
    ancestor_cache = env.lru.new Key Bool (env.store.cache_size s.store);
    self_ancestor_cache = env.lru.new Key Bool (env.store.cache_size s.store);
    strongly_see_cache = env.lru.new Key Bool (env.store.cache_size s.store);
    round_cache = env.lru.new String ℤ (env.store.cache_size s.store);
  }

  unfoldable pub reset : Block → Frame → Exec (Poset env) Unit
  reset block frame = do
    modify clear
    participants ← gets (λ s. to_peer_slice s.participants)
    roots ← lift (root_map participants frame.roots [])
    on_store (env.store.reset roots)
    on_store (env.store.set_block block)
    modify (set_last_consensus_round block.round_received)
    for_each frame.events (λ ev. insert_event ev false)
