-- ===== src/Node/Selector/Random.antt =====
-- Whom `RandomPeerSelector.Next` may return.
use Prim.Native.Nat.{◌%◌}
use gource.Prelude.{
  ℕ, zero, suc, ◌<◌, ◌≤◌, ◌≡◌, ◌≢◌, ◌⊎◌, refl, inl, inr, Bool, true, false, ◌&&◌, not, String, List,
  [], ◌∷◌, some, ℤ, length, get_elem?, get_elem?-some, some-eq, ap, ltb, arith, Bool-cases, add64,
  pos, negsuc, ◌==◌, string_eq, ne_of_test,
}
use gource.Common.Errors.{ok}
use gource.Peers.Peer.{Peer, exclude_peer, exclude_from}
use gource.Peers.Registry.{to_peer_slice}
use gource.Node.Selector.{
  RandomPeerSelector, choose, or_panic, without, random_candidates, random_next,
}

abbrev pub All : (Peer → Type 0) → List Peer → Type 0
All P [] = Unit
All P (p ∷ ps) = P p × All P ps

-- The peer has neither this address nor this key.
abbrev pub Unnamed : String → Peer → Type 0
Unnamed name p = (p.net_addr ≢ name) × (p.pub_key_hex ≢ name)

-- The peer is one of the list.
abbrev pub Among : List Peer → Peer → Type 0
Among [] p = ⊥
Among (q ∷ qs) p = (q ≡ p) ⊎ Among qs p

pub lt→ltb : (a b : ℕ) → a < b → ltb a b ≡ true
lt→ltb a b h = ground arith

pub not_more : (n : ℕ) → ltb 1 n ≡ false → n ≤ 1
not_more n h = ground arith

both_false : (a b : Bool) → (not a && not b) ≡ true → (a ≡ false) × (b ≡ false)
both_false true b h = cc
both_false false true h = cc
both_false false false h = (refl, refl)

-- The test of `ExcludePeer` keeps the peers without the name.
unnamed_of_test :
    (name : String) (p : Peer)
    → (not (p.net_addr == name) && not (p.pub_key_hex == name)) ≡ true
    → Unnamed name p
unnamed_of_test name p h =
    let (addr, key) = both_false (p.net_addr == name) (p.pub_key_hex == name) h in
    (ne_of_test p.net_addr name addr, ne_of_test p.pub_key_hex name key)

module _ (P : Peer → Type 0) where
  exclude_from-All :
      (i found : ℤ) (ps : List Peer) (name : String)
      → All P ps
      → All (λ p. P p × Unnamed name p) (exclude_from i found ps name).1
  unfolding exclude_from
  exclude_from-All i found [] name a = tt
  exclude_from-All i found (p ∷ ps) name a =
      elim (Bool-cases (not (p.net_addr == name) && not (p.pub_key_hex == name))) [
        | inl keep ↦ rw keep (
          (a.0, unnamed_of_test name p keep),
          exclude_from-All (add64 i (pos 1)) found ps name a.1,
        )
        | inr drop ↦ rw drop (exclude_from-All (add64 i (pos 1)) i ps name a.1)
      ]

  -- `ExcludePeer` leaves peers of the list that do not have the name.
  pub exclude_peer-All :
      (ps : List Peer) (name : String)
      → All P ps
      → All (λ p. P p × Unnamed name p) (exclude_peer ps name).1
  unfolding exclude_peer
  exclude_peer-All ps name a = exclude_from-All (pos 0) (negsuc 0) ps name a

  get_elem?-All : (ps : List Peer) (i : ℕ) (p : Peer) → All P ps → get_elem? ps i ≡ some p → P p
  get_elem?-All [] i p a h = cc
  get_elem?-All (q ∷ qs) zero p a h = rw (← some-eq h) a.0
  get_elem?-All (q ∷ qs) (suc i) p a h = get_elem?-All qs i p a.1 h

  -- The peer that is drawn has what all of them have.
  pub choose-All :
      (draw : ℕ) (ps : List Peer)
      → All P ps
      → 0 < length ps
      → (p : Peer) × (choose draw ps ≡ ok p) × P p
  unfolding choose or_panic
  choose-All draw [] a h = absurd (omega arith)
  choose-All draw (q ∷ qs) a h =
      let i : ℕ = draw % length (q ∷ qs) in
      let (p, at) = get_elem?-some (q ∷ qs) i (grind arith) in
      (p, ap or_panic at, get_elem?-All (q ∷ qs) i p a at)

All-Among : (ps qs : List Peer) → ((p : Peer) → Among ps p → Among qs p) → All (Among qs) ps
All-Among [] qs h = tt
All-Among (p ∷ ps) qs h = (h p (inl refl), All-Among ps qs (λ q m. h q (inr m)))

pub Among-self : (ps : List Peer) → All (Among ps) ps
Among-self ps = All-Among ps ps (λ p m. m)

-- The peer that `RandomPeerSelector.Next` returns.
pub record Chosen (ps : RandomPeerSelector) (p : Peer) : Type 0 where
  pub member : Among (to_peer_slice ps.peers) p
  pub other : Unnamed ps.local_addr p
  pub fresh :
      (length (exclude_peer (to_peer_slice ps.peers) ps.local_addr).1 ≤ 1) ⊎ Unnamed ps.last p

Chosen-of :
    (ps : RandomPeerSelector) (p : Peer)
    → Among (to_peer_slice ps.peers) p × Unnamed ps.local_addr p
    → (length (exclude_peer (to_peer_slice ps.peers) ps.local_addr).1 ≤ 1) ⊎ Unnamed ps.last p
    → Chosen ps p
Chosen-of ps p (m, o) f = record { member = m; other = o; fresh = f }

pub All-map :
    (P Q : Peer → Type 0) (ps : List Peer) → ((p : Peer) → P p → Q p) → All P ps → All Q ps
All-map P Q [] f a = tt
All-map P Q (p ∷ ps) f a = (f p a.0, All-map P Q ps f a.1)

candidates-All :
    (ps : RandomPeerSelector)
    → 1 < length (to_peer_slice ps.peers)
    → All (Chosen ps) (random_candidates ps)
unfolding random_candidates without
candidates-All ps many =
    let all : List Peer = to_peer_slice ps.peers in
    let others : List Peer = (exclude_peer all ps.local_addr).1 in
    let a = exclude_peer-All (Among all) all ps.local_addr (Among-self all) in
    rw (lt→ltb 1 (length all) many) (elim (Bool-cases (ltb 1 (length others))) [
      | inl more ↦ rw more (
          All-map _ _ (exclude_peer others ps.last).1 (λ p h. Chosen-of ps p h.0 (inr h.1))
            (exclude_peer-All (λ p. Among all p × Unnamed ps.local_addr p) others ps.last a))
      | inr one ↦
          rw one
            (All-map _ _ others (λ p h. Chosen-of ps p h (inl (not_more (length others) one))) a)
    ])

-- With more than one peer, and one left after the exclusions, `RandomPeerSelector.Next` returns a peer of the
-- registry, whatever number is drawn: never one with the address or the key of the node itself, and, where more
-- than one is left without the node, not the one that it gossiped with last.
pub random_next_lem :
    (draw : ℕ) (ps : RandomPeerSelector)
    → 1 < length (to_peer_slice ps.peers)
    → 0 < length (random_candidates ps)
    → (p : Peer) × (random_next draw ps ≡ ok p) × Chosen ps p
unfolding random_next
random_next_lem draw ps many left =
    choose-All (Chosen ps) draw (random_candidates ps) (candidates-All ps many) left
