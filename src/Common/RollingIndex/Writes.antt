-- ===== src/Common/RollingIndex/Writes.antt =====
-- `Set` of a rolling index, against the log.
use gource.Prelude.{
  ℕ, ◌+◌, ◌-◌, ◌*◌, ◌^◌, ◌≤◌, ◌<◌, ◌≡◌, refl, ap, sym, ◌∙◌, inl, inr, String, List, [], ◌∷◌, ◌++◌,
  pos, leb, ltb_ℤ, drop, set, arith, true, false, format_int, length-append, length-set,
  drop-append, set-drop, get_elem?-some,
}
use gource.Common.Errors.{ok, err, new_store_err, too_late, skipped_index}
use gource.Common.RollingIndex.Defs.{
  RollingIndex, new_rolling_index, oldest_cached_index, set_item, roll, make_room, replace,
  assign_at, skips, appends,
}
use gource.Common.RollingIndex.Log.{
  Tracks, skips-eq, appends-eq, before_window, position-eq, make_room-Tracks, length_items,
}

module _ {ℓ} {A : Type ℓ} {base d n : ℕ} {h : List A} {r : RollingIndex A}
    (t : Tracks base d n h r) where
  added : A → RollingIndex A
  added x = record (make_room r) { items = (make_room r).items ++ x ∷ []; last_index = pos (n + 1) }

  added-Tracks :
      (x : A)
      → n + 2 < 2 ^ 63
      → (d' : ℕ) × Tracks base d' (n + 1) (h ++ x ∷ []) (added x) × (d ≤ d')
  unfolding added
  added-Tracks x small =
      let (d', room, fits, grows) = make_room-Tracks t in
      (
        d',
        record {
          last = refl;
          count = omega (arith, length-append {ℓ} h (x ∷ []), t.count);
          window = rw room.window (sym (drop-append d' h (x ∷ []) (omega (arith, room.within))));
          within = omega (arith, length-append {ℓ} h (x ∷ []), room.within);
          bound = omega (arith, length-append {ℓ} h (x ∷ []), fits);
          kept = elim room.kept [
            | inl p ↦ inl (omega (arith, length-append {ℓ} h (x ∷ [])))
            | inr q ↦ inr q
          ];
          positive = room.positive;
          small = omega arith;
        },
        grows,
      )

  -- Let the window track a log, with the next index in range. `Set` of an item under the next index
  -- succeeds, and the new window tracks the log with the item at its end: only the window's oldest items
  -- leave it.
  pub set_item-append :
      (x : A)
      → n + 2 < 2 ^ 63
      → (d' : ℕ) × (r' : RollingIndex A) × (set_item r x (pos (n + 1)) ≡ ok r')
        × Tracks base d' (n + 1) (h ++ x ∷ []) r'
        × (d ≤ d')
  unfolding set_item added
  set_item-append x small =
      let (d', after, grows) = added-Tracks x small in
      let no_gap : skips r.last_index (pos (n + 1)) ≡ false = skips-eq t (n + 1) ∙ ground arith in
      let next : appends r.last_index (pos (n + 1)) ≡ true = appends-eq t (n + 1) ∙ ground arith in
      (d', added x, rw (no_gap, next), after, grows)

  -- Let the window track a log. `Set` refuses an index past the next one, which would leave a gap.
  pub set_item_skipped :
      (x : A) (i : ℕ)
      → n + 1 < i
      → set_item r x (pos i) ≡ err (new_store_err r.name skipped_index (format_int (pos i)))
  unfolding set_item
  set_item_skipped x i h =
      let gap : skips r.last_index (pos i) ≡ true = skips-eq t i ∙ ground arith in rw gap

  set_item-replace_eq : (x : A) (i : ℕ) → i ≤ n → set_item r x (pos i) ≡ replace r x (pos i)
  unfolding set_item
  set_item-replace_eq x i h =
      let no_gap : skips r.last_index (pos i) ≡ false = skips-eq t i ∙ ground arith in
      let old : appends r.last_index (pos i) ≡ false = appends-eq t i ∙ ground arith in
      rw (no_gap, old)

  -- Let the window track a log. `Set` refuses to replace an item that has left the window.
  pub set_item_too_late :
      (x : A) (i : ℕ)
      → i < base + d
      → set_item r x (pos i) ≡ err (new_store_err r.name too_late (format_int (pos i)))
  unfolding replace
  set_item_too_late x i h =
      let late : ltb_ℤ (pos i) (oldest_cached_index r) ≡ true = before_window t i ∙ ground arith in
      set_item-replace_eq x i (omega (arith, t.within, t.count)) ∙ rw late

  -- Let the window track a log. `Set` under an index of the window succeeds, and the new window tracks
  -- the log with that one item replaced.
  pub set_item-replace :
      (x : A) (i : ℕ)
      → base + d ≤ i
      → i ≤ n
      → (r' : RollingIndex A) × (set_item r x (pos i) ≡ ok r')
        × Tracks base d n (set h (i - base) x) r'
  unfolding replace assign_at
  set_item-replace x i above below =
      let p = i - (base + d) in
      let inside : ltb_ℤ (pos i) (oldest_cached_index r) ≡ false =
        before_window t i ∙ ground arith in
      let (old, there) =
        get_elem?-some r.items p (omega (arith, length_items t, t.within, t.count)) in
      let at = position-eq t i above (omega (arith, t.small)) in
      let shift : d + p ≡ i - base = omega arith in
      (
        record r { items = set r.items p x },
        set_item-replace_eq x i below ∙ rw (inside, at, there),
        record {
          last = t.last;
          count = omega (arith, length-set {ℓ} h (i - base) x, t.count);
          window =
              ap (λ l. set l p x) t.window ∙ set-drop d p h x ∙ ap (λ j. drop d (set h j x)) shift;
          within = omega (arith, length-set {ℓ} h (i - base) x, t.within);
          bound = omega (arith, length-set {ℓ} h (i - base) x, t.bound);
          kept = elim t.kept [
            | inl q ↦ inl (omega (arith, length-set {ℓ} h (i - base) x))
            | inr q ↦ inr q
          ];
          positive = t.positive;
          small = t.small;
        },
      )

-- Into an empty window the first item goes with any index, which starts the log.
pub set_item-first {ℓ} :
    {A : Type ℓ} (name : String) (size : ℕ) (x : A) (i : ℕ)
    → 0 < size
    → i + 1 < 2 ^ 63
    → (r' : RollingIndex A) × (set_item (new_rolling_index name size) x (pos i) ≡ ok r')
      × Tracks i 0 i (x ∷ []) r'
unfolding set_item new_rolling_index make_room roll skips appends
set_item-first name size x i positive small = (
  record { name = name; size = size; last_index = pos i; items = x ∷ [] },
  rw (sym (zero_test size positive)) refl,
  record {
    last = refl;
    count = omega arith;
    window = refl;
    within = omega arith;
    bound = omega arith;
    kept = inr refl;
    positive = positive;
    small = small;
  },
)
  where
    zero_test : (s : ℕ) → 0 < s → false ≡ leb (2 * s) 0
    zero_test s p = ground arith
