-- ===== src/Common/RollingIndex/Defs.antt =====
-- The code of src/common/rolling_index.go. A negative or too large position in a slice is a `panic`.
use gource.Prelude.{
  ℕ, ◌*◌, String, Bool, ◌&&◌, ◌||◌, List, [], ◌∷◌, ◌++◌, none, some, ℤ, pos, negsuc, add64, sub64,
  ltb_ℤ, leb_ℤ, eqb_ℤ, leb, if◌then◌else◌, length, drop, set, get_elem?, format_int,
}
use gource.Common.Errors.{
  Result, ok, err, panic, new_store_err, too_late, key_not_found, skipped_index,
}

pub record RollingIndex {ℓ} (A : Type ℓ) : Type ℓ where
  pub name : String
  pub size : ℕ
  pub last_index : ℤ
  pub items : List A

-- `Set` refuses to leave a gap after a non-negative last index.
unfoldable pub skips : ℤ → ℤ → Bool
skips last_index index = leb_ℤ (pos 0) last_index && ltb_ℤ (add64 last_index (pos 1)) index

-- `Set` adds a new item, where it does not replace one.
unfoldable pub appends : ℤ → ℤ → Bool
appends last_index index = ltb_ℤ last_index (pos 0) || eqb_ℤ index (add64 last_index (pos 1))

module _ {ℓ} {A : Type ℓ} where
  unfoldable pub new_rolling_index : String → ℕ → RollingIndex A
  new_rolling_index name size = record {
    name = name;
    size = size;
    last_index = negsuc 0;
    items = [];
  }

  abbrev pub get_last_window : RollingIndex A → List A × ℤ
  get_last_window r = (r.items, r.last_index)

  -- The index of the first item of the window.
  unfoldable pub oldest_cached_index : RollingIndex A → ℤ
  oldest_cached_index r = add64 (sub64 r.last_index (pos (length r.items))) (pos 1)

  -- `items[start:]`
  unfoldable pub slice_from : ℤ → List A → Result (List A)
  slice_from (pos n) l = if leb n (length l) then ok (drop n l) else err panic
  slice_from (negsuc n) l = err panic

  -- `items[i]`
  unfoldable pub index_at : ℤ → List A → Result A
  index_at (pos n) l = elim (get_elem? l n) [ none ↦ err panic | some a ↦ ok a ]
  index_at (negsuc n) l = err panic

  -- `items[i] = item`
  unfoldable pub assign_at : ℤ → A → List A → Result (List A)
  assign_at (pos n) v l = elim (get_elem? l n) [ none ↦ err panic | some _ ↦ ok (set l n v) ]
  assign_at (negsuc n) v l = err panic

  -- The items with an index above `skip_index`.
  unfoldable pub get : RollingIndex A → ℤ → Result (List A)
  get r skip_index =
      if ltb_ℤ r.last_index skip_index
      then ok []
      else if ltb_ℤ (add64 skip_index (pos 1)) (oldest_cached_index r)
      then err (new_store_err r.name too_late (format_int skip_index))
      else slice_from (add64 (sub64 skip_index (oldest_cached_index r)) (pos 1)) r.items

  unfoldable pub get_item : RollingIndex A → ℤ → Result A
  get_item r index =
      if ltb_ℤ index (oldest_cached_index r)
      then err (new_store_err r.name too_late (format_int index))
      else if leb_ℤ (pos (length r.items)) (sub64 index (oldest_cached_index r))
      then err (new_store_err r.name key_not_found (format_int index))
      else index_at (sub64 index (oldest_cached_index r)) r.items

  unfoldable pub roll : RollingIndex A → RollingIndex A
  roll r = record r { items = drop r.size r.items }

  -- The test before an item is added.
  unfoldable pub make_room : RollingIndex A → RollingIndex A
  make_room r = if leb (2 * r.size) (length r.items) then roll r else r

  unfoldable pub replace : RollingIndex A → A → ℤ → Result (RollingIndex A)
  replace r item index =
      if ltb_ℤ index (oldest_cached_index r)
      then err (new_store_err r.name too_late (format_int index))
      else elim (assign_at (sub64 index (oldest_cached_index r)) item r.items) [
        | ok l ↦ ok (record r { items = l })
        | err e ↦ err e
      ]

  unfoldable pub set_item : RollingIndex A → A → ℤ → Result (RollingIndex A)
  set_item r item index =
      if skips r.last_index index
      then err (new_store_err r.name skipped_index (format_int index))
      else if appends r.last_index index
      then ok
          (record (make_room r) { items = (make_room r).items ++ item ∷ []; last_index = index })
      else replace r item index
