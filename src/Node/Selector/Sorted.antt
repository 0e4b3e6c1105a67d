-- ===== src/Node/Selector/Sorted.antt =====
-- The slices of `SmartPeerSelector.Next` are in the order of use, the most used peer first.
use gource.Prelude.{
  ◌≡◌, inl, inr, true, false, ◌&&◌, not, String, List, [], ◌∷◌, some, some-eq, ℤ, pos, negsuc,
  add64, ◌≤ℤ◌, ltb, ltb_ℤ, length, last?, arith, Bool-cases, ◌==◌, string_eq,
}
use gource.Peers.Peer.{Peer, exclude_peer, exclude_from}
use gource.Node.Selector.{without, sort_by_used, insert_by_used, drop_used, smart_others}
use gource.Node.Selector.Random.{All, Among}

-- No peer has been used more than `n` times.
abbrev pub UpTo : ℤ → List Peer → Type 0
UpTo n ps = All (λ p. p.used ≤ℤ n) ps

abbrev pub IsSorted : List Peer → Type 0
IsSorted [] = Unit
IsSorted (p ∷ ps) = UpTo p.used ps × IsSorted ps

UpTo-trans : (m n : ℤ) (ps : List Peer) → m ≤ℤ n → UpTo m ps → UpTo n ps
UpTo-trans m n [] h a = tt
UpTo-trans m n (p ∷ ps) h a = (omega (arith, a.0), UpTo-trans m n ps h a.1)

le_of_test : (i j : ℤ) → ltb_ℤ i j ≡ true → i ≤ℤ j
le_of_test i j h = ground arith

ge_of_test : (i j : ℤ) → ltb_ℤ i j ≡ false → j ≤ℤ i
ge_of_test i j h = ground arith

UpTo-insert :
    (n : ℤ) (p : Peer) (ps : List Peer) → p.used ≤ℤ n → UpTo n ps → UpTo n (insert_by_used p ps)
unfolding insert_by_used
UpTo-insert n p [] h a = (h, tt)
UpTo-insert n p (q ∷ qs) h a = elim (Bool-cases (ltb_ℤ p.used q.used)) [
  | inl less ↦ rw less (a.0, UpTo-insert n p qs h a.1)
  | inr here ↦ rw here (h, a)
]

insert-IsSorted : (p : Peer) (ps : List Peer) → IsSorted ps → IsSorted (insert_by_used p ps)
unfolding insert_by_used
insert-IsSorted p [] s = (tt, tt)
insert-IsSorted p (q ∷ qs) s = elim (Bool-cases (ltb_ℤ p.used q.used)) [
  | inl less ↦
      rw less
        (UpTo-insert q.used p qs (le_of_test p.used q.used less) s.0, insert-IsSorted p qs s.1)
  | inr here ↦
      let h = ge_of_test p.used q.used here in rw here ((h, UpTo-trans q.used p.used qs h s.0), s)
]

pub sort-IsSorted : (ps : List Peer) → IsSorted (sort_by_used ps)
unfolding sort_by_used
sort-IsSorted [] = tt
sort-IsSorted (p ∷ ps) = insert-IsSorted p (sort_by_used ps) (sort-IsSorted ps)

-- Leaving peers out keeps the order.
exclude_from-UpTo :
    (n i found : ℤ) (ps : List Peer) (name : String)
    → UpTo n ps
    → UpTo n (exclude_from i found ps name).1
unfolding exclude_from
exclude_from-UpTo n i found [] name a = tt
exclude_from-UpTo n i found (p ∷ ps) name a =
    elim (Bool-cases (not (p.net_addr == name) && not (p.pub_key_hex == name))) [
      | inl keep ↦ rw keep (a.0, exclude_from-UpTo n (add64 i (pos 1)) found ps name a.1)
      | inr drop ↦ rw drop (exclude_from-UpTo n (add64 i (pos 1)) i ps name a.1)
    ]

exclude_from-IsSorted :
    (i found : ℤ) (ps : List Peer) (name : String)
    → IsSorted ps
    → IsSorted (exclude_from i found ps name).1
unfolding exclude_from
exclude_from-IsSorted i found [] name s = tt
exclude_from-IsSorted i found (p ∷ ps) name s =
    elim (Bool-cases (not (p.net_addr == name) && not (p.pub_key_hex == name))) [
      | inl keep ↦ rw keep (
        exclude_from-UpTo p.used (add64 i (pos 1)) found ps name s.0,
        exclude_from-IsSorted (add64 i (pos 1)) found ps name s.1,
      )
      | inr drop ↦ rw drop (exclude_from-IsSorted (add64 i (pos 1)) i ps name s.1)
    ]

exclude_peer-IsSorted :
    (ps : List Peer) (name : String) → IsSorted ps → IsSorted (exclude_peer ps name).1
unfolding exclude_peer
exclude_peer-IsSorted ps name s = exclude_from-IsSorted (pos 0) (negsuc 0) ps name s

pub smart_others-IsSorted :
    (local_addr last : String) (ps : List Peer)
    → IsSorted ps
    → IsSorted (smart_others local_addr last ps)
unfolding smart_others without
smart_others-IsSorted local_addr last ps s =
    let others : List Peer = (exclude_peer ps local_addr).1 in
    let t = exclude_peer-IsSorted ps local_addr s in
    elim (Bool-cases (ltb 1 (length ps))) [
      | inr one ↦ rw one s
      | inl many ↦ elim (Bool-cases (ltb 1 (length others))) [
        | inl more ↦ rw (many, more) (exclude_peer-IsSorted others last t)
        | inr less ↦ rw (many, less) t
      ]
    ]

-- The last of a sorted slice is the least used one.
pub last-least :
    (ps : List Peer) (q : Peer) → IsSorted ps → last? ps ≡ some q → All (λ p. q.used ≤ℤ p.used) ps
last-least [] q s h = tt
last-least (p ∷ []) q s h = rw (some-eq h) (omega arith, tt)
last-least (p ∷ r ∷ ps) q s h =
    let rest = last-least (r ∷ ps) q s.1 h in (omega (arith, rest.0, s.0.0), rest)

pub drop_used-UpTo : (n : ℤ) (ps : List Peer) → IsSorted ps → UpTo n (drop_used n ps)
unfolding drop_used
drop_used-UpTo n [] s = tt
drop_used-UpTo n (p ∷ ps) s = elim (Bool-cases (ltb_ℤ n p.used)) [
  | inl more ↦ rw more (drop_used-UpTo n ps s.1)
  | inr here ↦ let h = ge_of_test n p.used here in rw here (h, UpTo-trans p.used n ps h s.0)
]

pub drop_used-Among :
    (n : ℤ) (ps all : List Peer) → All (Among all) ps → All (Among all) (drop_used n ps)
unfolding drop_used
drop_used-Among n [] all a = tt
drop_used-Among n (p ∷ ps) all a = elim (Bool-cases (ltb_ℤ n p.used)) [
  | inl more ↦ rw more (drop_used-Among n ps all a.1)
  | inr here ↦ rw here a
]
