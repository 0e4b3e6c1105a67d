-- ===== src/Common/Sort.antt =====
-- A stable sort, as `sort.Stable` of Go makes it: elements go before those that are not less.
use mathlib.Core.List.{Perm}
use mathlib.Core.List.Perm
use gource.Prelude.{
  ◌≡◌, Bool, true, false, List, [], ◌∷◌, ℤ, ◌≤ℤ◌, Bool-cases, inl, inr, arith, if◌then◌else◌,
}

module _ {A : Type 0} (less : A → A → Bool) where
  unfoldable pub insert_by : A → List A → List A
  insert_by x [] = x ∷ []
  insert_by x (y ∷ ys) = let rest = insert_by x ys in if less y x then y ∷ rest else x ∷ y ∷ ys

  unfoldable pub sort_by : List A → List A
  unfolding insert_by
  sort_by [] = []
  sort_by (x ∷ xs) = insert_by x (sort_by xs)

  insert_by-Perm : (x : A) (ys : List A) → Perm (insert_by x ys) (x ∷ ys)
  unfolding insert_by
  insert_by-Perm x [] = Perm.refl (x ∷ [])
  insert_by-Perm x (y ∷ ys) = elim (Bool-cases (less y x)) [
    | inl before ↦ rw before (Perm.trans (Perm.cons y (insert_by-Perm x ys)) (Perm.swap x y ys))
    | inr here ↦ rw here (Perm.refl (x ∷ y ∷ ys))
  ]

  pub sort_by-Perm : (xs : List A) → Perm (sort_by xs) xs
  unfolding sort_by
  sort_by-Perm [] = Perm.refl []
  sort_by-Perm (x ∷ xs) = Perm.trans (insert_by-Perm x (sort_by xs)) (Perm.cons x (sort_by-Perm xs))

module _ {A : Type 0} (rank : A → ℤ) where
  -- Every rank is at least `i`.
  abbrev pub AllFrom : ℤ → List A → Type 0
  AllFrom i [] = Unit
  AllFrom i (x ∷ xs) = (i ≤ℤ rank x) × AllFrom i xs

  abbrev pub IsSortedBy : List A → Type 0
  IsSortedBy [] = Unit
  IsSortedBy (x ∷ xs) = AllFrom (rank x) xs × IsSortedBy xs

  AllFrom-trans : (i j : ℤ) (xs : List A) → i ≤ℤ j → AllFrom j xs → AllFrom i xs
  AllFrom-trans i j [] h a = tt
  AllFrom-trans i j (x ∷ xs) h a = (omega (arith, a.0), AllFrom-trans i j xs h a.1)

  -- An order that agrees with the ranks, but for elements of the same rank.
  module _ (less : A → A → Bool) (up : (x y : A) → less x y ≡ true → rank x ≤ℤ rank y)
      (down : (x y : A) → less x y ≡ false → rank y ≤ℤ rank x) where
    insert_by-AllFrom :
        (i : ℤ) (x : A) (ys : List A) → i ≤ℤ rank x → AllFrom i ys → AllFrom i (insert_by less x ys)
    unfolding insert_by
    insert_by-AllFrom i x [] h a = (h, tt)
    insert_by-AllFrom i x (y ∷ ys) h a = elim (Bool-cases (less y x)) [
      | inl before ↦ rw before (a.0, insert_by-AllFrom i x ys h a.1)
      | inr here ↦ rw here (h, a)
    ]

    insert_by-IsSortedBy : (x : A) (ys : List A) → IsSortedBy ys → IsSortedBy (insert_by less x ys)
    unfolding insert_by
    insert_by-IsSortedBy x [] s = (tt, tt)
    insert_by-IsSortedBy x (y ∷ ys) s = elim (Bool-cases (less y x)) [
      | inl before ↦
          rw before
            (insert_by-AllFrom (rank y) x ys (up y x before) s.0, insert_by-IsSortedBy x ys s.1)
      | inr here ↦
          rw here ((down y x here, AllFrom-trans (rank x) (rank y) ys (down y x here) s.0), s)
    ]

    pub sort_by-IsSortedBy : (xs : List A) → IsSortedBy (sort_by less xs)
    unfolding sort_by
    sort_by-IsSortedBy [] = tt
    sort_by-IsSortedBy (x ∷ xs) = insert_by-IsSortedBy x (sort_by less xs) (sort_by-IsSortedBy xs)
