-- ===== src/Peers/Registry/Sorted.antt =====
-- `internalSort`: the slice of the peers is the map's values in the order of their ids.
use mathlib.Core.List.{Perm}
use mathlib.Core.List.Perm
use gource.Prelude.{◌≡◌, List, [], ◌∷◌, ℤ, ◌≤ℤ◌, leb_ℤ, Bool-cases, true, false, inl, inr, arith}
use gource.Peers.Peer.{Peer}
use gource.Peers.Registry.{Peers, insert_by_id, sort_by_id, internal_sort, values}

-- Every id is at most those behind it.
abbrev pub AllFrom : ℤ → List Peer → Type 0
AllFrom i [] = Unit
AllFrom i (p ∷ ps) = (i ≤ℤ p.id) × AllFrom i ps

abbrev pub IsSorted : List Peer → Type 0
IsSorted [] = Unit
IsSorted (p ∷ ps) = AllFrom p.id ps × IsSorted ps

AllFrom-trans : (i j : ℤ) (ps : List Peer) → i ≤ℤ j → AllFrom j ps → AllFrom i ps
AllFrom-trans i j [] h a = tt
AllFrom-trans i j (p ∷ ps) h a = (omega (arith, a.0), AllFrom-trans i j ps h a.1)

AllFrom-insert :
    (i : ℤ) (p : Peer) (ps : List Peer) → i ≤ℤ p.id → AllFrom i ps → AllFrom i (insert_by_id p ps)
unfolding insert_by_id
AllFrom-insert i p [] h a = (h, tt)
AllFrom-insert i p (q ∷ qs) h a = elim (Bool-cases (leb_ℤ p.id q.id)) [
  | inl e ↦ rw e (h, a)
  | inr e ↦ rw e (a.0, AllFrom-insert i p qs h a.1)
]

le_of_test : (i j : ℤ) → leb_ℤ i j ≡ true → i ≤ℤ j
le_of_test i j h = ground arith

ge_of_test : (i j : ℤ) → leb_ℤ i j ≡ false → j ≤ℤ i
ge_of_test i j h = ground arith

insert_by_id-IsSorted : (p : Peer) (ps : List Peer) → IsSorted ps → IsSorted (insert_by_id p ps)
unfolding insert_by_id
insert_by_id-IsSorted p [] s = (tt, tt)
insert_by_id-IsSorted p (q ∷ qs) s = elim (Bool-cases (leb_ℤ p.id q.id)) [
  | inl e ↦ let h = le_of_test p.id q.id e in rw e ((h, AllFrom-trans p.id q.id qs h s.0), s)
  | inr e ↦
      rw e (AllFrom-insert q.id p qs (ge_of_test p.id q.id e) s.0, insert_by_id-IsSorted p qs s.1)
]

sort_by_id-IsSorted : (ps : List Peer) → IsSorted (sort_by_id ps)
unfolding sort_by_id
sort_by_id-IsSorted [] = tt
sort_by_id-IsSorted (p ∷ ps) = insert_by_id-IsSorted p (sort_by_id ps) (sort_by_id-IsSorted ps)

insert_by_id-perm : (p : Peer) (ps : List Peer) → Perm (insert_by_id p ps) (p ∷ ps)
unfolding insert_by_id
insert_by_id-perm p [] = Perm.refl (p ∷ [])
insert_by_id-perm p (q ∷ qs) = elim (Bool-cases (leb_ℤ p.id q.id)) [
  | inl e ↦ rw e (Perm.refl (p ∷ q ∷ qs))
  | inr e ↦ rw e (Perm.trans (Perm.cons q (insert_by_id-perm p qs)) (Perm.swap p q qs))
]

sort_by_id-perm : (ps : List Peer) → Perm (sort_by_id ps) ps
unfolding sort_by_id
sort_by_id-perm [] = Perm.refl []
sort_by_id-perm (p ∷ ps) =
    Perm.trans (insert_by_id-perm p (sort_by_id ps)) (Perm.cons p (sort_by_id-perm ps))

-- What every public change of the registry leaves behind.
pub record IsOrdered (ps : Peers) : Type 0 where
  pub ascending : IsSorted ps.sorted
  pub complete : Perm ps.sorted (values ps.by_pub_key)

-- `internalSort` leaves a slice that is in the order of ids and a permutation of the peers of the map.
pub internal_sort-IsOrdered : (ps : Peers) → IsOrdered (internal_sort ps)
unfolding internal_sort
internal_sort-IsOrdered ps = record {
  ascending = sort_by_id-IsSorted (values ps.by_pub_key);
  complete = sort_by_id-perm (values ps.by_pub_key);
}
