-- ===== src/Node/Core.antt =====
-- src/node/core.go: the head of the node's own chain of events and its pools, over the poset. The poset
-- holds the core by pointer (`SetCore`), so that a new head shows in its view of the core too.
pub mod Sync
pub mod Diff
pub mod Moves
use gource.Prelude.{
  ℕ, ◌+◌, ◌%◌, ◌^◌, String, Bool, true, false, List, [], ◌∷◌, ◌++◌, map, Option, none, some, ℤ, pos,
  negsuc, add64, Map, lookup, insert, string_eq, length, ◌==◌, if◌then◌else◌,
}
use gource.Common.Errors.{ok, err}
use gource.Common.Exec.{Exec, pure, gets, modify, lift, attempt, on, for_each, ◌>>=◌, ◌>>◌}
use gource.Peers.Peer.{Peer}
use gource.Peers.Registry.{Peers}
use gource.Poset.Event.{
  Event, InternalTransaction, BlockSignature, format_hex, creator, other_parent, index,
  transactions,
}
use gource.Poset.Block.{Block, Frame, set_signature}
use gource.Poset.State.{Env, Poset, CoreView, on_store, new_poset}
use gource.Poset.Rounds.{hex}
use gource.Poset.Insert
use gource.Poset.Insert.{with_wire_info}
use gource.Poset.Bootstrap
use gource.Poset.Reset.{get_anchor_block_with_frame}
use gource.Node.Signer.{Signer}

module _ (env : Env) where
  pub record Core : Type 0 where
    pub id : ℤ
    pub poset : Poset env
    pub in_degrees : Map String ℕ
    pub head : String
    pub seq : ℤ
    pub transaction_pool : List (List ℕ)
    pub internal_transaction_pool : List InternalTransaction
    pub block_signature_pool : List BlockSignature
    pub max_transactions_in_event : ℕ

zero_degrees : Map String Peer → Map String ℕ
zero_degrees [] = []
zero_degrees ((pk, peer) ∷ ps) = insert pk 0 (zero_degrees ps)

-- `m[key]++` on an `uint64`.
unfoldable pub increment : String → Map String ℕ → Map String ℕ
increment key m = elim (lookup key m) [
  | none ↦ insert key 1 m
  | some n ↦ insert key ((n + 1) % 2 ^ 64) m
]

abbrev pub hex_id : Signer → String
hex_id signer = format_hex signer.public_key

abbrev pub core_view : Signer → String → CoreView
core_view signer head = record { head = head; hex_id = hex_id signer }

module _ {env : Env} where
  unfoldable pub on_poset : {A : Type 0} → Exec (Poset env) A → Exec (Core env) A
  unfolding on
  on_poset m = on (λ c. c.poset) (λ p c. record c { poset = p }) m

  unfoldable pub on_store_of : {A : Type 0} → Exec env.store.State A → Exec (Core env) A
  on_store_of m = on_poset (on_store m)

  abbrev pub get_event : String → Exec (Core env) Event
  get_event hash = on_store_of (env.store.get_event hash)

  abbrev pub known_events : Exec (Core env) (Map ℤ ℤ)
  known_events = on_store_of env.store.known_events

  -- The loop of `Heights`: an error counts as no events.
  heights_of : List (String × Peer) → Map String ℕ → Exec (Core env) (Map String ℕ)
  heights_of [] heights = pure heights
  heights_of ((pk, _) ∷ ps) heights =
      attempt (on_store_of (env.store.participant_events pk (negsuc 0))) λ res. elim res [
        | ok events ↦ heights_of ps (insert pk (length events) heights)
        | err _ ↦ heights_of ps (insert pk 0 heights)
      ]

  unfoldable pub heights : Exec (Core env) (Map String ℕ)
  unfolding heights_of
  heights = do ps ← gets (λ c. c.poset.participants.by_pub_key); heights_of ps []

  abbrev set_degree : String → ℕ → Core env → Core env
  set_degree pk n c = record c { in_degrees = insert pk n c.in_degrees }

  abbrev bump_degree : String → Core env → Core env
  bump_degree pk c = record c { in_degrees = increment pk c.in_degrees }

  -- The events of another participant whose other-parent is the event.
  count_children : String → String → List String → Exec (Core env) Unit
  count_children pk event_hash events = for_each events λ eh. attempt (get_event eh) λ res.
      elim res [
        | err _ ↦ pure tt
        | ok event ↦ if other_parent event == event_hash then modify (bump_degree pk) else pure tt
      ]

  count_from : String → String → String × Peer → Exec (Core env) Unit
  unfolding count_children
  count_from pk event_hash (other, _) =
      if other == pk
      then pure tt
      else attempt (on_store_of (env.store.participant_events other (negsuc 0)))
          λ res. elim res [ err _ ↦ pure tt | ok events ↦ count_children pk event_hash events ]

  unfoldable pub bootstrap_in_degrees : Exec (Core env) Unit
  unfolding count_from
  bootstrap_in_degrees = do
    ps ← gets (λ c. c.poset.participants.by_pub_key)
    for_each ps λ p. (do
      modify (set_degree p.0 0)
      attempt (on_store_of (env.store.last_event_from p.0))
          λ res. elim res [ err _ ↦ pure tt | ok last ↦ for_each ps (count_from p.0 last.0) ])

  unfoldable pub bootstrap : ℕ → Option (Exec env.store.State (List Event)) → Exec (Core env) Unit
  bootstrap fuel topological_events = do
    on_poset (Bootstrap.bootstrap fuel topological_events)
    bootstrap_in_degrees

  unfoldable pub run_consensus : ℕ → Exec (Core env) Unit
  run_consensus fuel = on_poset (Bootstrap.consensus_steps fuel)

  unfoldable pub add_transactions : List (List ℕ) → Core env → Core env
  add_transactions txs c = record c { transaction_pool = c.transaction_pool ++ txs }

  unfoldable pub add_internal_transactions : List InternalTransaction → Core env → Core env
  add_internal_transactions txs c = record c {
    internal_transaction_pool = c.internal_transaction_pool ++ txs;
  }

  unfoldable pub add_block_signature : BlockSignature → Core env → Core env
  add_block_signature bs c = record c { block_signature_pool = c.block_signature_pool ++ bs ∷ [] }

  unfoldable pub get_event_transactions : String → Exec (Core env) (List (List ℕ))
  get_event_transactions hash = do e ← get_event hash; pure (transactions e)

module _ {env : Env} (signer : Signer) where
  unfoldable pub new_core : ℤ → Peers → env.store.State → Core env
  unfolding zero_degrees
  new_core id participants store = record {
    id = id;
    poset = record (new_poset {env = env} participants store) { core = some (core_view signer "") };
    in_degrees = zero_degrees participants.by_pub_key;
    head = "";
    seq = negsuc 0;
    transaction_pool = [];
    internal_transaction_pool = [];
    block_signature_pool = [];
    max_transactions_in_event = 16384;
  }

  unfoldable pub set_head : String → ℤ → Core env → Core env
  set_head head seq c = record c {
    head = head;
    seq = seq;
    poset = record c.poset { core = some (core_view signer head) };
  }

  -- The head is the last event of the node, or what the self-parent of its root names.
  unfoldable pub set_head_and_seq : Exec (Core env) Unit
  set_head_and_seq = do
    (last, is_root) ← on_store_of (env.store.last_event_from (hex_id signer))
    (if is_root
        then (do
          root ← on_store_of (env.store.get_root (hex_id signer))
          modify (set_head root.self_parent.hash root.self_parent.index))
        else (do last_event ← get_event last; modify (set_head last (index last_event))))

  -- What `InsertEvent` notes of an event that the poset has taken: a new head, and who refers to whom.
  unfoldable pub note_event : Event → Exec (Core env) Unit
  note_event event = do
    (if creator event == hex_id signer
        then modify (set_head (hex env event) (index event))
        else pure tt)
    modify (set_degree (creator event) 0)
    attempt (get_event (other_parent event))
        λ res. elim res [ ok other ↦ modify (bump_degree (creator other)) | err _ ↦ pure tt ]

  unfoldable pub insert_event : Event → Bool → Exec (Core env) Unit
  insert_event event wire_info = do on_poset (Insert.insert_event event wire_info); note_event event

  -- `SetWireInfoAndSign`
  unfoldable pub wire_info_and_sign : Event → Exec (Core env) Event
  wire_info_and_sign event = do
    full ← on_poset (with_wire_info event)
    signature ← lift (signer.sign_body full.body)
    pure (record full { signature = signature })

  unfoldable pub sign_and_insert_self_event : Event → Exec (Core env) Unit
  sign_and_insert_self_event event = do signed ← wire_info_and_sign event; insert_event signed true

  unfoldable pub sign_block : Block → Exec (Core env) BlockSignature
  sign_block block = do
    signature ← lift (signer.sign_block_body block)
    let bs : BlockSignature = record {
      validator = signer.public_key;
      index = block.index;
      signature = signature;
    }
    on_store_of (env.store.set_block (set_signature block bs))
    pure bs
