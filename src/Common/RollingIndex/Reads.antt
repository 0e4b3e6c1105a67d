-- ===== src/Common/RollingIndex/Reads.antt =====
-- `GetItem` and `Get` of a rolling index, against the log.
use gource.Prelude.{
  ℕ, ◌+◌, ◌-◌, ◌^◌, ◌≤◌, ◌<◌, ◌≡◌, ap, sym, ◌∙◌, List, [], ◌∷◌, ◌++◌, some, pos, leb, ltb_ℤ, leb_ℤ,
  length, drop, get_elem?, arith, true, false, add64-pos, format_int, length-append, some-eq,
  drop-drop, get_elem?-drop, get_elem?-some, get_elem?-append,
}
use gource.Common.Errors.{ok, err, new_store_err, too_late, key_not_found}
use gource.Common.RollingIndex.Defs.{
  RollingIndex, oldest_cached_index, get, get_item, index_at, slice_from,
}
use gource.Common.RollingIndex.Log.{Tracks, before_window, position-eq, start-eq, length_items}

module _ {ℓ} {A : Type ℓ} {base d n : ℕ} {h : List A} {r : RollingIndex A}
    (t : Tracks base d n h r) where
  -- An index whose item has left the window is too late.
  pub get_item_too_late :
      (i : ℕ)
      → i < base + d
      → get_item r (pos i) ≡ err (new_store_err r.name too_late (format_int (pos i)))
  unfolding get_item
  get_item_too_late i h =
      let late : ltb_ℤ (pos i) (oldest_cached_index r) ≡ true = before_window t i ∙ ground arith in
      rw late

  -- Let the window track a log. An index above the last one is not found.
  pub get_item_not_found :
      (i : ℕ)
      → n < i
      → i < 2 ^ 63
      → get_item r (pos i) ≡ err (new_store_err r.name key_not_found (format_int (pos i)))
  unfolding get_item
  get_item_not_found i h k =
      let inside : ltb_ℤ (pos i) (oldest_cached_index r) ≡ false =
        before_window t i ∙ ground (arith, t.within, t.count) in
      let at = position-eq t i (omega (arith, t.within, t.count)) k in
      let past : leb_ℤ (pos (length r.items)) (pos (i - (base + d))) ≡ true =
        ground (arith, length_items t, t.within, t.count) in
      rw (inside, at, past)

  -- Let the window track a log. `GetItem` of an index of the window returns the item that the log has
  -- under it.
  pub get_item-log :
      (i : ℕ)
      → base + d ≤ i
      → i ≤ n
      → (a : A) × (get_item r (pos i) ≡ ok a) × (get_elem? h (i - base) ≡ some a)
  unfolding get_item index_at
  get_item-log i above below =
      let p = i - (base + d) in
      let inside : ltb_ℤ (pos i) (oldest_cached_index r) ≡ false =
        before_window t i ∙ ground arith in
      let (a, there) =
        get_elem?-some r.items p (omega (arith, length_items t, t.within, t.count)) in
      let at = position-eq t i above (omega (arith, t.small)) in
      let before : leb_ℤ (pos (length r.items)) (pos p) ≡ false =
        ground (arith, length_items t, t.within, t.count) in
      let shift : d + p ≡ i - base = omega arith in
      (
        a,
        rw (inside, at, before) (rw (there, index_at)),
        ap (get_elem? h) (sym shift)
            ∙ sym (get_elem?-drop d p h)
            ∙ ap (λ l. get_elem? l p) (sym t.window)
            ∙ there,
      )

  -- Let the window track a log. `Get` with a skipped index that is at most the last one, and with
  -- nothing between it and the window, returns all that the log has above it.
  pub get-log : (i : ℕ) → base + d ≤ i + 1 → i ≤ n → get r (pos i) ≡ ok (drop (i + 1 - base) h)
  unfolding get slice_from
  get-log i above below =
      let p = i + 1 - (base + d) in
      let within : ltb_ℤ r.last_index (pos i) ≡ false =
        ap (λ l. ltb_ℤ l (pos i)) t.last ∙ ground arith in
      let next = add64-pos i 1 (omega (arith, t.small)) in
      let kept : ltb_ℤ (pos (i + 1)) (oldest_cached_index r) ≡ false =
        before_window t (i + 1) ∙ ground arith in
      let fits : leb p (length r.items) ≡ true =
        ground (arith, length_items t, t.within, t.count) in
      let shift : d + p ≡ i + 1 - base = omega (arith, t.within, t.count) in
      rw (within, next, kept, start-eq t i above below)
        (rw (fits, slice_from)
          (ap ok (ap (drop p) t.window ∙ drop-drop p d h ∙ ap (λ j. drop j h) shift)))

  -- Let the window track a log. `Get` above an index is an error where an item in between has left the
  -- window: the result never has a gap.
  pub get_too_late :
      (i : ℕ)
      → i + 1 < base + d
      → get r (pos i) ≡ err (new_store_err r.name too_late (format_int (pos i)))
  unfolding get
  get_too_late i h =
      let within : ltb_ℤ r.last_index (pos i) ≡ false =
        ap (λ l. ltb_ℤ l (pos i)) t.last ∙ ground (arith, t.within, t.count) in
      let next = add64-pos i 1 (omega (arith, t.small, t.within, t.count)) in
      let late : ltb_ℤ (pos (i + 1)) (oldest_cached_index r) ≡ true =
        before_window t (i + 1) ∙ ground arith in
      rw (within, next, late)

-- The item that was added last is the one that its index reads.
pub get_item-appended {ℓ} :
    {A : Type ℓ} {base d : ℕ} {r : RollingIndex A} (n : ℕ) (h : List A) (x : A)
    → Tracks base d (n + 1) (h ++ x ∷ []) r
    → get_item r (pos (n + 1)) ≡ ok x
get_item-appended {A} {base} {d} {r} n h x t =
    let (a, found, logged) =
      get_item-log t (n + 1) (omega (arith, t.within, t.count)) (omega arith) in
    let place : n + 1 - base ≡ length h = omega (arith, t.count, length-append {ℓ} h (x ∷ [])) in
    let last = sym logged ∙ ap (get_elem? (h ++ x ∷ [])) place ∙ get_elem?-append h x in
    found ∙ ap ok (some-eq last)
