-- ===== src/Common/RollingIndex/Log.antt =====
-- A rolling index against the whole log of the items that were added to it.
use gource.Prelude.{
  ℕ, ◌+◌, ◌-◌, ◌*◌, ◌^◌, ◌≤◌, ◌<◌, ◌≡◌, ap, ◌∙◌, ◌⊎◌, inl, inr, List, pos, add64, sub64, leb, ltb,
  ltb_ℤ, eqb, length, drop, arith, Bool-cases, true, add64-pos, sub64-pos, length-drop, drop-drop,
}
use gource.Common.RollingIndex.Defs.{
  RollingIndex, oldest_cached_index, roll, make_room, skips, appends,
}

-- `r` holds the log `h`, whose first item has the index `base` and whose last one has `n`, less the
-- `d` oldest items.
pub record Tracks {ℓ} {A : Type ℓ} (base d n : ℕ) (h : List A) (r : RollingIndex A) : Type ℓ where
  pub last : r.last_index ≡ pos n
  pub count : base + length h ≡ n + 1
  pub window : r.items ≡ drop d h
  pub within : d < length h
  pub bound : length h ≤ d + 2 * r.size
  pub kept : (d + r.size ≤ length h) ⊎ (d ≡ 0)
  pub positive : 0 < r.size
  pub small : n + 1 < 2 ^ 63

pub skips_test : (n i : ℕ) → n + 1 < 2 ^ 63 → skips (pos n) (pos i) ≡ ltb (n + 1) i
unfolding skips
skips_test n i small = rw (add64-pos n 1 small) (ground arith)

pub appends_test : (n i : ℕ) → n + 1 < 2 ^ 63 → appends (pos n) (pos i) ≡ eqb i (n + 1)
unfolding appends
appends_test n i small = rw (add64-pos n 1 small) (ground arith)

next_position :
    (i o : ℕ) → o ≤ i + 1 → i + 1 < 2 ^ 63 → add64 (sub64 (pos i) (pos o)) (pos 1) ≡ pos (i + 1 - o)
unfolding add64 sub64
next_position i o h k = ground arith

module _ {ℓ} {A : Type ℓ} {base d n : ℕ} {h : List A} {r : RollingIndex A}
    (t : Tracks base d n h r) where
  pub length_items : length r.items + d ≡ length h
  length_items = rw t.window (omega (arith, length-drop {ℓ} d h, t.within))

  pub oldest_cached_index-eq : oldest_cached_index r ≡ pos (base + d)
  unfolding add64 sub64 oldest_cached_index
  oldest_cached_index-eq = rw t.last (ground (arith, length_items, t.count, t.within, t.small))

  make_room_full :
      leb (2 * r.size) (length r.items) ≡ true → Tracks base (d + r.size) n h (make_room r)
  unfolding make_room roll
  make_room_full full = rw full (record {
    last = t.last;
    count = t.count;
    window = ap (drop r.size) t.window ∙ drop-drop r.size d h;
    within = ground (arith, length_items, t.positive);
    bound = omega (arith, t.bound);
    kept = inl (ground (arith, length_items, t.positive));
    positive = t.positive;
    small = t.small;
  })

  -- After `make_room` there is a place for one more item.
  pub make_room-Tracks :
      (d' : ℕ) × Tracks base d' n h (make_room r)
      × (length h < d' + 2 * (make_room r).size)
      × (d ≤ d')
  unfolding make_room roll
  make_room-Tracks = elim (Bool-cases (leb (2 * r.size) (length r.items))) [
    | inl full ↦
        (d + r.size, make_room_full full, rw full (omega (arith, t.bound, t.positive)), omega arith)
    | inr room ↦ (d, rw room t, rw room (ground (arith, length_items)), omega arith)
  ]

  pub skips-eq : (i : ℕ) → skips r.last_index (pos i) ≡ ltb (n + 1) i
  skips-eq i = ap (λ l. skips l (pos i)) t.last ∙ skips_test n i t.small

  pub appends-eq : (i : ℕ) → appends r.last_index (pos i) ≡ eqb i (n + 1)
  appends-eq i = ap (λ l. appends l (pos i)) t.last ∙ appends_test n i t.small

  -- An index is below the window exactly where its item has left it.
  pub before_window : (i : ℕ) → ltb_ℤ (pos i) (oldest_cached_index r) ≡ ltb i (base + d)
  before_window i = ap (ltb_ℤ (pos i)) oldest_cached_index-eq ∙ ground arith

  -- The position of an index in the window.
  pub position-eq :
      (i : ℕ)
      → base + d ≤ i
      → i < 2 ^ 63
      → sub64 (pos i) (oldest_cached_index r) ≡ pos (i - (base + d))
  position-eq i h k = ap (sub64 (pos i)) oldest_cached_index-eq ∙ sub64-pos i (base + d) h k

  -- Where `Get` starts to read: one past the skipped index.
  pub start-eq :
      (i : ℕ)
      → base + d ≤ i + 1
      → i ≤ n
      → add64 (sub64 (pos i) (oldest_cached_index r)) (pos 1) ≡ pos (i + 1 - (base + d))
  start-eq i h k =
      ap (λ o. add64 (sub64 (pos i) o) (pos 1)) oldest_cached_index-eq
      ∙ next_position i (base + d) h (omega (arith, t.small))
