-- ===== src/Poset/Frames.antt =====
-- src/poset/poset.go: `GetFrame`, the events received in a round with roots for every participant.
pub mod Order
use gource.Prelude.{
  ℕ, String, Bool, true, false, List, [], ◌∷◌, Option, none, some, ℤ, pos, sub64, ltb_ℤ, eqb_ℤ, Map,
  lookup, insert, string_eq, ◌==◌, if◌then◌else◌,
}
use gource.Common.Errors.{ok, err, is, key_not_found, panic}
use gource.Common.Exec.{Exec, pure, raise, gets, attempt, ◌>>=◌, ◌>>◌}
use gource.Common.Sort.{sort_by}
use gource.Peers.Peer.{Peer}
use gource.Peers.Registry.{to_pub_key_slice, to_peer_slice}
use gource.Poset.Event.{Event, creator, self_parent, other_parent, index}
use gource.Poset.Block.{Root, RootEvent, Frame}
use gource.Poset.RoundInfo.{consensus_events}
use gource.Poset.State.{Env, Codec, Poset, on_store, or_panic, peer_by_key}
use gource.Poset.Graph.{lamport_timestamp}
use gource.Poset.Rounds.{round, hex}

-- `ByLamportTimestamp.Less`
unfoldable pub less : Codec → Event → Event → Bool
less codec a b =
    if eqb_ℤ a.lamport_timestamp b.lamport_timestamp
    then codec.signature_before a b
    else ltb_ℤ a.lamport_timestamp b.lamport_timestamp

-- sort.Stable(ByLamportTimestamp(events))
unfoldable pub sort_by_time : Codec → List Event → List Event
sort_by_time codec es = sort_by (less codec) es

unfoldable pub has : String → List String → Bool
has x [] = false
has x (y ∷ ys) = if y == x then true else has x ys

-- `root.Others[ev.Hex()]`, where it is the other-parent.
unfoldable pub kept_other : Root → String → String → Option RootEvent
kept_other root x op = elim (lookup x root.others) [
  | none ↦ none
  | some other ↦ if other.hash == op then some other else none
]

module _ {env : Env} where
  module _ (fuel : ℕ) where
    unfoldable pub create_self_parent_root_event : Event → Exec (Poset env) RootEvent
    create_self_parent_root_event ev = do
      lt ← lamport_timestamp fuel (self_parent ev)
      r ← round fuel (self_parent ev)
      peer ← peer_by_key (creator ev)
      pure (record {
        hash = self_parent ev;
        creator_id = peer.id;
        index = sub64 (index ev) (pos 1);
        lamport_timestamp = lt;
        round = r;
      })

    unfoldable pub create_other_parent_root_event : Event → Exec (Poset env) RootEvent
    create_other_parent_root_event ev = do
      root ← on_store (env.store.get_root (creator ev))
      elim (kept_other root (hex env ev) (other_parent ev)) [
        | some other ↦ pure other
        | none ↦ do
          op ← on_store (env.store.get_event (other_parent ev))
          lt ← lamport_timestamp fuel (other_parent ev)
          r ← round fuel (other_parent ev)
          peer ← peer_by_key (creator op)
          pure (record {
            hash = other_parent ev;
            creator_id = peer.id;
            index = index op;
            lamport_timestamp = lt;
            round = r;
          })
      ]

    unfoldable pub create_root : Event → Exec (Poset env) Root
    create_root ev = do
      ev_round ← round fuel (hex env ev)
      sp ← create_self_parent_root_event ev
      others ←
          (if other_parent ev == ""
            then pure []
            else (do op ← create_other_parent_root_event ev; pure ((hex env ev, op) ∷ [])))
      pure (record { next_round = ev_round; self_parent = sp; others = others })

    -- A root for the first event of each participant.
    unfoldable pub roots_of_events :
        List Event → Map String Root → Exec (Poset env) (Map String Root)
    roots_of_events [] roots = pure roots
    roots_of_events (ev ∷ evs) roots = elim (lookup (creator ev) roots) [
      | some _ ↦ roots_of_events evs roots
      | none ↦ do root ← create_root ev; roots_of_events evs (insert (creator ev) root roots)
    ]

    -- The root of a participant with no event in the frame. The code drops the error of `GetRoot`,
    -- and goes on with a root whose self-parent is a nil pointer.
    unfoldable pub last_root : String → Exec (Poset env) Root
    last_root participant = do
      (last, is_root) ← on_store (env.store.last_consensus_event_from participant)
      if is_root
          then attempt (on_store (env.store.get_root participant))
              (λ res. elim res [ ok root ↦ pure root | err _ ↦ raise panic ])
          else (do ev ← on_store (env.store.get_event last); create_root ev)

    unfoldable pub roots_of_others :
        List String → Map String Root → Exec (Poset env) (Map String Root)
    roots_of_others [] roots = pure roots
    roots_of_others (p ∷ ps) roots = elim (lookup p roots) [
      | some _ ↦ roots_of_others ps roots
      | none ↦ do root ← last_root p; roots_of_others ps (insert p root roots)
    ]

    -- The other-parent of `ev`, where it is outside of the frame, goes into the creator's root.
    unfoldable pub keep_other_parent :
        Event → List String → Map String Root → Exec (Poset env) (Map String Root)
    keep_other_parent ev treated roots =
        if other_parent ev == ""
        then pure roots
        else if has (other_parent ev) treated
        then pure roots
        else do
          root ← or_panic (lookup (creator ev) roots)
          if self_parent ev == root.self_parent.hash then pure roots else do
            other ← create_other_parent_root_event ev
            pure (
                insert (creator ev) (record root { others = insert (hex env ev) other root.others })
                  roots)

    unfoldable pub keep_other_parents :
        List Event → List String → Map String Root → Exec (Poset env) (Map String Root)
    keep_other_parents [] treated roots = pure roots
    keep_other_parents (ev ∷ evs) treated roots = do
      roots' ← keep_other_parent ev (hex env ev ∷ treated) roots
      keep_other_parents evs (hex env ev ∷ treated) roots'

  unfoldable pub events_of : List String → Exec (Poset env) (List Event)
  events_of [] = pure []
  events_of (x ∷ xs) = do e ← on_store (env.store.get_event x); rest ← events_of xs; pure (e ∷ rest)

  -- The roots in the order of the participants, each of which has one by now.
  unfoldable pub order_roots : List Peer → Map String Root → Exec (Poset env) (List Root)
  order_roots [] roots = pure []
  order_roots (p ∷ ps) roots = do
    root ← or_panic (lookup p.pub_key_hex roots)
    rest ← order_roots ps roots
    pure (root ∷ rest)

  unfoldable pub compute_frame : ℕ → ℤ → Exec (Poset env) Frame
  compute_frame fuel round_received = do
    info ← on_store (env.store.get_round round_received)
    unsorted ← events_of (consensus_events info)
    let events = sort_by_time env.codec unsorted
    first ← roots_of_events fuel events []
    participants ← gets (λ s. s.participants)
    all ← roots_of_others fuel (to_pub_key_slice participants) first
    roots ← keep_other_parents fuel events [] all
    ordered ← order_roots (to_peer_slice participants) roots
    let frame : Frame = record { round = round_received; roots = ordered; events = events }
    on_store (env.store.set_frame frame)
    pure frame

  unfoldable pub get_frame : ℕ → ℤ → Exec (Poset env) Frame
  get_frame fuel round_received = attempt (on_store (env.store.get_frame round_received)) λ res.
      elim res [
        | ok frame ↦ pure frame
        | err e ↦ if is e key_not_found then compute_frame fuel round_received else raise e
      ]
