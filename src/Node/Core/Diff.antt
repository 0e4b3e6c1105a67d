-- ===== src/Node/Core/Diff.antt =====
-- src/node/core.go: what a node knows that another one does not. `OverSyncLimit`, `EventDiff`, and the
-- conversion of events from and to their wire forms.
pub mod Limit
pub mod Order
pub mod Sends
use gource.Prelude.{
  Bool, String, List, [], ◌∷◌, ◌++◌, map, Option, none, some, ℤ, pos, add64, sub64, ltb_ℤ, Map,
  lookup, int_eq, if◌then◌else◌,
}
use gource.Common.Exec.{Exec, pure, gets, ◌>>=◌}
use gource.Common.Sort.{sort_by}
use gource.Peers.Peer.{Peer}
use gource.Poset.Event.{Event}
use gource.Poset.State.{Env}
use gource.Poset.Wire.{WireEvent, read_wire_info}
use gource.Poset.Wire
use gource.Node.Core.{Core, on_poset, on_store_of, get_event, known_events}

-- `known[id]`, which is 0 for an id that is not there.
unfoldable pub known_at : Map ℤ ℤ → ℤ → ℤ
known_at known id = elim (lookup id known) [ none ↦ pos 0 | some i ↦ i ]

-- The loop of `OverSyncLimit`, with its sum so far.
unfoldable pub total_unknown : Map ℤ ℤ → Map ℤ ℤ → ℤ → ℤ
total_unknown known [] tot = tot
total_unknown known ((i, li) ∷ mine) tot =
    total_unknown known mine
      (if ltb_ℤ (known_at known i) li then add64 tot (sub64 li (known_at known i)) else tot)

-- `ByTopologicalOrder.Less`
unfoldable pub earlier : Event → Event → Bool
earlier f e = ltb_ℤ f.topological_index e.topological_index

-- sort.Stable(ByTopologicalOrder(events))
unfoldable pub sort_topologically : List Event → List Event
sort_topologically es = sort_by earlier es

module _ {env : Env} where
  unfoldable pub over_sync_limit : Map ℤ ℤ → ℤ → Exec (Core env) Bool
  over_sync_limit known sync_limit = do
    mine ← known_events
    pure (ltb_ℤ sync_limit (total_unknown known mine (pos 0)))

  unfoldable pub get_events : List String → Exec (Core env) (List Event)
  get_events [] = pure []
  get_events (e ∷ es) = do ev ← get_event e; rest ← get_events es; pure (ev ∷ rest)

  -- The events of one participant above the index; an unknown participant has none.
  unfoldable pub events_above : Option Peer → ℤ → Exec (Core env) (List Event)
  events_above none ct = pure []
  events_above (some peer) ct = do
    hashes ← on_store_of (env.store.participant_events peer.pub_key_hex ct)
    get_events hashes

  -- The loop over what the other one knows.
  unfoldable pub collect_unknown : Map ℤ ℤ → Exec (Core env) (List Event)
  collect_unknown [] = pure []
  collect_unknown ((id, ct) ∷ known) = do
    peer ← gets (λ c. lookup id c.poset.participants.by_id)
    events ← events_above peer ct
    rest ← collect_unknown known
    pure (events ++ rest)

  unfoldable pub event_diff : Map ℤ ℤ → Exec (Core env) (List Event)
  event_diff known = do unknown ← collect_unknown known; pure (sort_topologically unknown)

  unfoldable pub from_wire : List WireEvent → Exec (Core env) (List Event)
  from_wire [] = pure []
  from_wire (w ∷ ws) = do ev ← on_poset (read_wire_info w); rest ← from_wire ws; pure (ev ∷ rest)

-- It never fails.
unfoldable pub to_wire : List Event → List WireEvent
to_wire events = map Wire.to_wire events
