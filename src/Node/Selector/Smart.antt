-- ===== src/Node/Selector/Smart.antt =====
-- Whom `SmartPeerSelector.Next` returns: one of the least used peers that are left to choose from.
use gource.Prelude.{
  ℕ, ◌%◌, get_elem?, ◌≡◌, refl, ap, inl, inr, ◌⊎◌, true, false, String, List, [], ◌∷◌, ℤ, ◌≤ℤ◌,
  ◌<ℤ◌, ltb_ℤ, arith,
}
use gource.Common.Errors.{Result, ok}
use gource.Peers.Peer.{Peer}
use gource.Peers.Registry.{values}
use gource.Node.Selector.{
  SmartPeerSelector, choose, or_panic, sort_by_used, insert_by_used, to_peer_by_used_slice,
  use_peer, after_first, smart_others, smart_candidates, smart_next,
}
use gource.Node.Selector.Random.{All, Among}

-- A peer of the list, and none of them has been used less.
pub record Least (ps : List Peer) (p : Peer) : Type 0 where
  pub member : Among ps p
  pub least : All (λ q. p.used ≤ℤ q.used) ps

-- What `SmartPeerSelector.Next` returns, and the selector after it.
pub record Picked (ps : SmartPeerSelector) (rest : List Peer)
    (r : Result (Peer × SmartPeerSelector)) : Type 0 where
  pub peer : Peer
  pub result : r ≡ ok (peer, record ps { peers = use_peer peer.pub_key_hex ps.peers })
  pub least : Least (smart_others ps.local_addr ps.last rest) peer

choose_one : (draw : ℕ) (p : Peer) → choose draw (p ∷ []) ≡ ok p
unfolding choose or_panic
choose_one draw p =
    let i : draw % 1 ≡ 0 = omega arith in ap (λ i. or_panic (get_elem? (p ∷ []) i)) i

one_candidate :
    (local_addr last : String) (p : Peer) → smart_candidates local_addr last (p ∷ []) ≡ p ∷ []
unfolding smart_candidates smart_others
one_candidate local_addr last p = refl

test_of_lt : (a b : ℤ) → a <ℤ b → ltb_ℤ a b ≡ true
test_of_lt a b h = ground arith

other_test : (a b : ℤ) → a <ℤ b → ltb_ℤ b a ≡ false
other_test a b h = ground arith

two_sorted : (p q : Peer) → p.used <ℤ q.used → after_first (sort_by_used (p ∷ q ∷ [])) ≡ ok (p ∷ [])
unfolding after_first sort_by_used insert_by_used
two_sorted p q less = rw (test_of_lt p.used q.used less) refl

two_swapped :
    (p q : Peer) → p.used <ℤ q.used → after_first (sort_by_used (q ∷ p ∷ [])) ≡ ok (p ∷ [])
unfolding after_first sort_by_used insert_by_used
two_swapped p q less = rw (other_test p.used q.used less) refl

-- Let there be two participants, in either order of the map, of which the node itself has been used less than the
-- other one. `SmartPeerSelector.Next` returns the node itself, whatever number is drawn: the peer that is left out
-- first is the most used one, and a single one that is left is not excluded.
pub smart_next-itself :
    (draw : ℕ) (ps : SmartPeerSelector) (self other : Peer)
    → (values ps.peers.by_pub_key ≡ self ∷ other ∷ [])
      ⊎ (values ps.peers.by_pub_key ≡ other ∷ self ∷ [])
    → self.used <ℤ other.used
    → self.pub_key_hex ≡ ps.local_addr
    → (p : Peer) × (p.pub_key_hex ≡ ps.local_addr)
      × (smart_next draw ps ≡ ok (p, record ps { peers = use_peer p.pub_key_hex ps.peers }))
unfolding smart_next to_peer_by_used_slice
smart_next-itself draw ps self other two less itself =
    let first : after_first (sort_by_used (values ps.peers.by_pub_key)) ≡ ok (self ∷ []) =
      elim two [
        | inl order ↦ rw order (two_sorted self other less)
        | inr order ↦ rw order (two_swapped self other less)
      ] in
    (self, itself, rw (first, one_candidate ps.local_addr ps.last self, choose_one draw self) refl)
