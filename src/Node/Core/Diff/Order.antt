-- ===== src/Node/Core/Diff/Order.antt =====
-- `EventDiff` sends the events in topological order.
use mathlib.Core.List.{Perm}
use gource.Prelude.{
  ◌≡◌, ◌∙◌, String, List, [], ◌∷◌, ◌++◌, Option, none, some, lookup, int_eq, ℤ, Map, arith,
}
use gource.Peers.Peer.{Peer}
use gource.Common.Errors.{ok, ok-injective}
use gource.Common.Exec.{Exec, pure, gets}
use gource.Common.Sort.{IsSortedBy, sort_by-IsSortedBy, sort_by-Perm}
use gource.Common.Exec.Inversion.{ok-bind, returned}
use gource.Poset.Event.{Event}
use gource.Poset.State.{Env}
use gource.Node.Core.{Core, get_event, on_store_of}
use gource.Node.Core.Diff.{
  earlier, sort_topologically, get_events, events_above, collect_unknown, event_diff,
}

-- No event stands before one with a smaller index.
abbrev pub IsTopological : List Event → Type 0
IsTopological es = IsSortedBy (λ (e : Event). e.topological_index) es

sort-IsTopological : (es : List Event) → IsTopological (sort_topologically es)
unfolding sort_topologically earlier
sort-IsTopological es =
    sort_by-IsSortedBy (λ (e : Event). e.topological_index) earlier (λ x y h. ground arith)
      (λ x y h. ground arith) es

sort-Perm : (es : List Event) → Perm (sort_topologically es) es
unfolding sort_topologically
sort-Perm es = sort_by-Perm earlier es

module _ {env : Env} where
  -- The events of the hashes, read one after the other.
  pub data Fetched : Core env → List String → List Event → Core env → Type 0 where
    end : (c : Core env) → Fetched c [] [] c
    fetch :
        (c d e : Core env) (hash : String) (event : Event) (hashes : List String)
        (events : List Event)
        → get_event hash c ≡ (ok event, d)
        → Fetched d hashes events e
        → Fetched c (hash ∷ hashes) (event ∷ events) e

  -- For each participant that the other node names and this one knows, the events that the store has of it above
  -- the index that the other node gives.
  pub data Collected : Core env → Map ℤ ℤ → List Event → Type 0 where
    done : (c : Core env) → Collected c [] []
    absent :
        (c : Core env) (id ct : ℤ) (known : Map ℤ ℤ) (events : List Event)
        → lookup id c.poset.participants.by_id ≡ none
        → Collected c known events
        → Collected c ((id, ct) ∷ known) events
    present :
        (c d e : Core env) (id ct : ℤ) (peer : Peer) (known : Map ℤ ℤ) (hashes : List String)
        (mine events : List Event)
        → lookup id c.poset.participants.by_id ≡ some peer
        → on_store_of (env.store.participant_events peer.pub_key_hex ct) c ≡ (ok hashes, d)
        → Fetched d hashes mine e
        → Collected e known events
        → Collected c ((id, ct) ∷ known) (mine ++ events)

  get_events_lem :
      (hashes : List String) (events : List Event) (c : Core env)
      → (get_events hashes c).0 ≡ ok events
      → Fetched c hashes events (get_events hashes c).1
  unfolding get_events pure
  get_events_lem [] events c h = rw (← ok-injective h) (end c)
  get_events_lem (hash ∷ hashes) events c h =
      let (event, h1, k1, s1) = ok-bind (get_event hash) _ events c h in
      let (rest, h2, k2, s2) = ok-bind (get_events hashes) _ events (get_event hash c).1 k1 in
      rw (s1 ∙ s2, ← ok-injective k2)
        (fetch c (get_event hash c).1 _ hash event hashes rest
          (returned (get_event hash) (ok event) c h1)
          (get_events_lem hashes rest (get_event hash c).1 h2))

  with_events :
      (id ct : ℤ) (known : Map ℤ ℤ) (mine rest : List Event) (c : Core env) (peer : Option Peer)
      → lookup id c.poset.participants.by_id ≡ peer
      → (events_above peer ct c).0 ≡ ok mine
      → Collected (events_above peer ct c).1 known rest
      → Collected c ((id, ct) ∷ known) (mine ++ rest)
  unfolding events_above pure
  with_events id ct known mine rest c none found h later =
      rw (← ok-injective h) (absent c id ct known rest found later)
  with_events id ct known mine rest c (some peer) found h later =
      let ask : Exec (Core env) (List String) =
        on_store_of (env.store.participant_events peer.pub_key_hex ct) in
      let (hashes, h1, k1, s1) = ok-bind ask get_events mine c h in
      present c (ask c).1 (get_events hashes (ask c).1).1 id ct peer known hashes mine rest found
        (returned ask (ok hashes) c h1) (get_events_lem hashes mine (ask c).1 k1) (rw (← s1) later)

  collect_unknown_lem :
      (known : Map ℤ ℤ) (events : List Event) (c : Core env)
      → (collect_unknown known c).0 ≡ ok events
      → Collected c known events
  unfolding collect_unknown pure gets
  collect_unknown_lem [] events c h = rw (← ok-injective h) (done c)
  collect_unknown_lem ((id, ct) ∷ known) events c h =
      let o : Option Peer = lookup id c.poset.participants.by_id in
      let (peer, h0, k0, s0) =
        ok-bind (gets (λ (c : Core env). lookup id c.poset.participants.by_id)) _ events c h in
      let found : o ≡ peer = ok-injective h0 in
      let (mine, h1, k1, s1) = ok-bind (events_above peer ct) _ events c k0 in
      let (rest, h2, k2, s2) =
        ok-bind (collect_unknown known) _ events (events_above peer ct c).1 k1 in
      rw (← ok-injective k2) (
        with_events id ct known mine rest c peer found h1
          (collect_unknown_lem known rest (events_above peer ct c).1 h2))

  -- A successful `EventDiff` goes through what the other node knows: of each participant that this node knows too,
  -- it reads the events that the store has above the index that the other node gives. What it returns are these
  -- events, each as often, in the order of their topological indexes: no event stands before one with a smaller
  -- index.
  pub event_diff_lem :
      (known : Map ℤ ℤ) (events : List Event) (c : Core env)
      → (event_diff known c).0 ≡ ok events
      → (unknown : List Event) × Collected c known unknown
        × Perm events unknown
        × IsTopological events
  unfolding event_diff pure
  event_diff_lem known events c h =
      let (unread, collected, sorted, _) = ok-bind (collect_unknown known) _ events c h in
      let e = ok-injective sorted in
      (
        unread,
        collect_unknown_lem known unread c collected,
        rw (← e) (sort-Perm unread),
        rw (← e) (sort-IsTopological unread),
      )
