-- ===== src/Poset/Queries/Frames.antt =====
-- `GetFrame`: the lemmas on what the questions leave alone.
use gource.Prelude.{ℕ, String, List, [], ◌∷◌, ℤ, Map, lookup, string_eq}
use gource.Peers.Peer.{Peer}
use gource.Poset.Event.{Event, creator, other_parent}
use gource.Poset.Block.{Root}
use gource.Poset.State.{Env}
use gource.Poset.Frames.{
  create_self_parent_root_event, create_other_parent_root_event, create_root, roots_of_events,
  last_root, roots_of_others, keep_other_parent, keep_other_parents, events_of, order_roots,
  compute_frame, get_frame, kept_other,
}
use gource.Poset.Rounds.{hex}
use gource.Poset.Queries.Caches.{asks, Asks, bind-Asks, option-Asks, on_store-Asks, pure-Asks}
use gource.Poset.Queries.Graph.{lamport_timestamp-Asks}
use gource.Poset.Queries.Rounds.{round-Asks}

module _ {env : Env} where
  module _ (fuel : ℕ) where
    self_parent-Asks : (ev : Event) → Asks (create_self_parent_root_event {env = env} fuel ev)
    unfolding create_self_parent_root_event
    self_parent-Asks ev = search (asks, lamport_timestamp-Asks, round-Asks) depth 8

    other_parent-Asks : (ev : Event) → Asks (create_other_parent_root_event {env = env} fuel ev)
    unfolding create_other_parent_root_event
    other_parent-Asks ev = bind-Asks _ _ (on_store-Asks _) (λ root.
        option-Asks (kept_other root (hex env ev) (other_parent ev)) _ _
          (search (asks, lamport_timestamp-Asks, round-Asks) depth 9) (λ other. search asks))

    create_root-Asks : (ev : Event) → Asks (create_root {env = env} fuel ev)
    unfolding create_root
    create_root-Asks ev = search (asks, round-Asks, self_parent-Asks, other_parent-Asks) depth 8

    pub of_events-Asks :
        (evs : List Event) (roots : Map String Root)
        → Asks (roots_of_events {env = env} fuel evs roots)
    unfolding roots_of_events
    of_events-Asks [] roots = search asks
    of_events-Asks (ev ∷ evs) roots =
        let rest = of_events-Asks evs in
        option-Asks (lookup (creator ev) roots) _ _ (search (asks, create_root-Asks, rest))
          (λ r. rest roots)

    last_root-Asks : (p : String) → Asks (last_root {env = env} fuel p)
    unfolding last_root
    last_root-Asks p = search (asks, create_root-Asks) depth 8

    pub of_others-Asks :
        (ps : List String) (roots : Map String Root)
        → Asks (roots_of_others {env = env} fuel ps roots)
    unfolding roots_of_others
    of_others-Asks [] roots = search asks
    of_others-Asks (p ∷ ps) roots =
        let rest = of_others-Asks ps in
        option-Asks (lookup p roots) _ _ (search (asks, last_root-Asks, rest)) (λ r. rest roots)

    keep-Asks :
        (ev : Event) (treated : List String) (roots : Map String Root)
        → Asks (keep_other_parent {env = env} fuel ev treated roots)
    unfolding keep_other_parent
    keep-Asks ev treated roots = search (asks, other_parent-Asks) depth 8

    pub keep_all-Asks :
        (evs : List Event) (treated : List String) (roots : Map String Root)
        → Asks (keep_other_parents {env = env} fuel evs treated roots)
    unfolding keep_other_parents
    keep_all-Asks [] treated roots = search asks
    keep_all-Asks (ev ∷ evs) treated roots =
        let rest = keep_all-Asks evs in search (asks, keep-Asks, rest)

  pub events_of-Asks : (xs : List String) → Asks (events_of {env = env} xs)
  unfolding events_of
  events_of-Asks [] = search asks
  events_of-Asks (x ∷ xs) =
      bind-Asks _ _ (on_store-Asks _)
        (λ e. bind-Asks _ _ (events_of-Asks xs) (λ rest. pure-Asks (e ∷ rest)))

  order_roots-Asks :
      (ps : List Peer) (roots : Map String Root) → Asks (order_roots {env = env} ps roots)
  unfolding order_roots
  order_roots-Asks [] roots = search asks
  order_roots-Asks (p ∷ ps) roots = let rest = order_roots-Asks ps in search (asks, rest)

  compute_frame-Asks : (fuel : ℕ) (i : ℤ) → Asks (compute_frame {env = env} fuel i)
  unfolding compute_frame
  compute_frame-Asks fuel i =
      search (asks, events_of-Asks, of_events-Asks, of_others-Asks, keep_all-Asks, order_roots-Asks)
        depth 14 fits 3000

  pub get_frame-Asks : (fuel : ℕ) (i : ℤ) → Asks (get_frame {env = env} fuel i)
  unfolding get_frame
  get_frame-Asks fuel i = search (asks, compute_frame-Asks)
