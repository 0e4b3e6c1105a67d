-- ===== src/Common/RollingIndexMap/Frame.antt =====
-- What the operations of a rolling index map change, and what they leave alone.
use mathlib.Core.Option
use gource.Prelude.{
  ℕ, ◌+◌, ◌<◌, ◌^◌, ◌≡◌, ◌≢◌, sym, ap, ◌∙◌, List, some, inl, inr, ◌⊎◌, Bool-cases, ◌==◌, eqb_ℤ_iff,
  ne_of_test, ℤ, pos, lookup, int_eq, lookup-insert_self, lookup-insert_ne, lookup-map,
}
use gource.Common.Errors.{ok, Result-cases}
use gource.Common.RollingIndex.Defs
use gource.Common.RollingIndex.Defs.{RollingIndex}
use gource.Common.RollingIndex.Log.{Tracks}
use gource.Common.RollingIndex.Writes.{set_item-append}
use gource.Common.RollingIndex.Reads.{get_item-appended}
use gource.Common.RollingIndexMap.{RollingIndexMap, index_for, set_item, get_item, known}

module _ {ℓ} {A : Type ℓ} (rim : RollingIndexMap A) (k : ℤ) (x : A) (i : ℤ) where
  -- The other keys keep their windows, whether the item is accepted or not.
  pub set_item_other :
      (j : ℤ) → k ≢ j → lookup j (set_item rim k x i).1.mapping ≡ lookup j rim.mapping
  unfolding set_item
  set_item_other j h = elim (Result-cases (Defs.set_item (index_for rim k) x i)) [
    | inl (r, e) ↦ rw (e, set_item) (lookup-insert_ne k j r rim.mapping h)
    | inr (e', e) ↦ rw (e, set_item) (lookup-insert_ne k j (index_for rim k) rim.mapping h)
  ]

  set_item_accepted :
      (r : RollingIndex A)
      → Defs.set_item (index_for rim k) x i ≡ ok r
      → (set_item rim k x i).0 ≡ ok tt
  unfolding set_item
  set_item_accepted r e = rw (e, set_item)

  set_item_window :
      (r : RollingIndex A)
      → Defs.set_item (index_for rim k) x i ≡ ok r
      → lookup k (set_item rim k x i).1.mapping ≡ some r
  unfolding set_item
  set_item_window r e = rw (e, set_item) (lookup-insert_self k r rim.mapping)

-- The last known index of a key is that of its window.
pub lookup-known {ℓ} :
    {A : Type ℓ} (rim : RollingIndexMap A) (j : ℤ)
    → lookup j (known rim) ≡ Option.map (λ r. r.last_index) (lookup j rim.mapping)
unfolding known
lookup-known rim j = lookup-map (λ r. r.last_index) j rim.mapping

module _ {ℓ} {A : Type ℓ} (rim : RollingIndexMap A) (k : ℤ) {base d n : ℕ} {h : List A}
    (t : Tracks base d n h (index_for rim k)) where
  -- Let the window of a key track a log, with the next index in range. `Set` of an item under the next
  -- index of the key succeeds; the item can be read back, its index is the key's last known one, and
  -- every other key reads as before.
  pub set_item-get_item :
      (x : A)
      → n + 2 < 2 ^ 63
      → ((set_item rim k x (pos (n + 1))).0 ≡ ok tt)
        × (get_item (set_item rim k x (pos (n + 1))).1 k (pos (n + 1)) ≡ ok x)
        × (lookup k (known (set_item rim k x (pos (n + 1))).1) ≡ some (pos (n + 1)))
        × ((j i : ℤ)
            → (j ≡ k) ⊎ (get_item (set_item rim k x (pos (n + 1))).1 j i ≡ get_item rim j i))
  unfolding get_item
  set_item-get_item x small =
      let (d', r, accepted, after, _) = set_item-append t x small in
      let window = set_item_window rim k x (pos (n + 1)) r accepted in
      (
        set_item_accepted rim k x (pos (n + 1)) r accepted,
        rw (window, get_item) (get_item-appended n h x after),
        lookup-known (set_item rim k x (pos (n + 1))).1 k ∙ rw window (ap some after.last),
        λ j i. elim (Bool-cases (k == j)) [
          | inl same ↦ inl (sym ((eqb_ℤ_iff k j).0 same))
          | inr other ↦
              inr (rw (set_item_other rim k x (pos (n + 1)) j (ne_of_test k j other), get_item))
        ],
      )
