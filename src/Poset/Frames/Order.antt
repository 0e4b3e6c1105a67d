-- ===== src/Poset/Frames/Order.antt =====
-- src/poset/poset.go: the frame that `GetFrame` creates.
use mathlib.Core.List.{Perm}
use gource.Prelude.{
  lookup, string_eq, ℕ, suc, ◌≡◌, refl, sym, ap, ◌∙◌, String, true, false, List, [], ◌∷◌, ℤ, length,
  Map, lookup, arith, ◌≤ℤ◌,
}
use gource.Common.Errors.{ok, ok-injective}
use gource.Common.Exec
use gource.Common.Exec.{Exec, pure, gets, ◌>>=◌}
use gource.Common.Exec.Inversion.{ok-bind}
use gource.Common.Sort.{IsSortedBy, sort_by-IsSortedBy, sort_by-Perm}
use gource.Peers.Peer.{Peer}
use gource.Peers.Registry.{to_peer_slice}
use gource.Poset.Event.{Event}
use gource.Poset.Block.{Root, Frame}
use gource.Poset.RoundInfo.{RoundInfo, consensus_events}
use gource.Poset.State.{Env, Codec, Poset, on_store, or_panic}
use gource.Poset.Queries.Caches.{Asks}
use gource.Poset.Queries.Frames.{events_of-Asks, of_events-Asks}
use gource.Poset.Frames.{less, sort_by_time, events_of, order_roots, compute_frame}

less-up :
    (codec : Codec) (a b : Event)
    → less codec a b ≡ true
    → a.lamport_timestamp ≤ℤ b.lamport_timestamp
unfolding less
less-up codec a b h = ground arith

less-down :
    (codec : Codec) (a b : Event)
    → less codec a b ≡ false
    → b.lamport_timestamp ≤ℤ a.lamport_timestamp
unfolding less
less-down codec a b h = ground arith

module _ {env : Env} where
  order_roots-length :
      (ps : List Peer) (roots : Map String Root) (ordered : List Root) (s : Poset env)
      → (order_roots ps roots s).0 ≡ ok ordered
      → length ordered ≡ length ps
  unfolding order_roots pure
  order_roots-length [] roots ordered s h = rw (← ok-injective h) refl
  order_roots-length (p ∷ ps) roots ordered s h =
      let (root, _, h1, _) = ok-bind (or_panic (lookup p.pub_key_hex roots)) _ ordered s h in
      let (rest, h2, h3, _) = ok-bind (order_roots ps roots) _ ordered _ h1 in
      rw (← ok-injective h3) (ap suc (order_roots-length ps roots rest _ h2))

  participants-Asks :
      {A : Type 0} {m : Exec (Poset env) A}
      → Asks m
      → (s : Poset env) → (m s).1.participants ≡ s.participants
  participants-Asks asks s = ap (λ (t : Poset env). t.participants) (asks.at s)

  -- Let `GetFrame` create the frame of a round. Its events are those that the round's record has as received,
  -- each as often as there, and they stand in the order of their Lamport timestamps. It has one root for each
  -- participant, and its number is that of the round.
  pub compute_frame_lem :
      (fuel : ℕ) (r : ℤ) (frame : Frame) (s : Poset env)
      → (compute_frame fuel r s).0 ≡ ok frame
      → (info : RoundInfo) × ((env.store.get_round r s.store).0 ≡ ok info)
        × (unsorted : List Event) × ((events_of
              (consensus_events info)
              (on_store (env.store.get_round r) s).1).0
            ≡ ok unsorted)
        × Perm frame.events unsorted
        × IsSortedBy (λ e. e.lamport_timestamp) frame.events
        × (frame.round ≡ r)
        × (length frame.roots ≡ length (to_peer_slice s.participants))
  unfolding compute_frame pure gets on_store gource.Common.Exec.on sort_by_time
  compute_frame_lem fuel r frame s h =
      let (info, got, h1, s1) = ok-bind _ _ frame s h in
      let (unsorted, read, h2, s2) = ok-bind _ _ frame _ h1 in
      let (first, _, h3, s3) = ok-bind _ _ frame _ h2 in
      let (participants, present, h4, s4) = ok-bind _ _ frame _ h3 in
      let (all, _, h5, s5) = ok-bind _ _ frame _ h4 in
      let (roots, _, h6, s6) = ok-bind _ _ frame _ h5 in
      let (ordered, listed, h7, s7) = ok-bind _ _ frame _ h6 in
      let (_, _, h8, s8) = ok-bind _ _ frame _ h7 in
      let made = ok-injective h8 in
      let same : participants ≡ s.participants =
        sym (ok-injective present)
        ∙ participants-Asks (of_events-Asks fuel _ []) _
        ∙ participants-Asks (events_of-Asks (consensus_events info)) _ in
      (
        info,
        got,
        unsorted,
        read,
        rw (← made) (sort_by-Perm (less env.codec) unsorted),
        rw (← made) (
            sort_by-IsSortedBy (λ e. e.lamport_timestamp) (less env.codec) (less-up env.codec)
              (less-down env.codec) unsorted),
        rw (← made) refl,
        rw (← made) (
            order_roots-length _ roots ordered _ listed
            ∙ ap (λ ps. length (to_peer_slice ps)) same),
      )
