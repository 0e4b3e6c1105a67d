-- ===== src/Tests/Indexes.antt =====
-- The theorems on src/common/rolling_index.go and src/common/rolling_index_map.go at concrete inputs.
use gource.Prelude.{
  ℕ, ◌≡◌, refl, List, [], ◌∷◌, ◌++◌, inl, ℤ, pos, some, lookup, ◌≤◌, ◌⊎◌, arith, get_elem?, int_eq,
}
use gource.Common.Errors.{ok}
use gource.Common.RollingIndex.Defs
use gource.Common.RollingIndex.Defs.{RollingIndex}
use gource.Common.RollingIndex.Log.{Tracks}
use gource.Common.RollingIndex.Writes.{set_item-append, set_item-replace}
use gource.Common.RollingIndex.Reads.{get_item-log, get-log}
use gource.Common.RollingIndexMap.{RollingIndexMap, index_for, set_item, get_item, known}
use gource.Common.RollingIndexMap.Frame.{set_item-get_item}

-- A window of size 2 with the indexes 7, 8 and 9 of a log that starts at 5.
abbrev window : RollingIndex ℕ
window = record { name = "W"; size = 2; last_index = pos 9; items = 17 ∷ 18 ∷ 19 ∷ [] }

abbrev log : List ℕ
log = 15 ∷ 16 ∷ 17 ∷ 18 ∷ 19 ∷ []

window-Tracks : Tracks 5 2 9 log window
window-Tracks = record {
  last = refl;
  count = refl;
  window = refl;
  within = omega arith;
  bound = omega arith;
  kept = inl (omega arith);
  positive = omega arith;
  small = omega arith;
}

set_item-append_example :
    (d' : ℕ) × (r' : RollingIndex ℕ) × (Defs.set_item window 20 (pos 10) ≡ ok r')
    × Tracks 5 d' 10 (log ++ 20 ∷ []) r'
    × (2 ≤ d')
set_item-append_example = set_item-append window-Tracks 20 (omega arith)

set_item-replace_example :
    (r' : RollingIndex ℕ) × (Defs.set_item window 28 (pos 8) ≡ ok r')
    × Tracks 5 2 9 (15 ∷ 16 ∷ 17 ∷ 28 ∷ 19 ∷ []) r'
set_item-replace_example = set_item-replace window-Tracks 28 8 (omega arith) (omega arith)

get_item-log_example : (a : ℕ) × (Defs.get_item window (pos 8) ≡ ok a) × (get_elem? log 3 ≡ some a)
get_item-log_example = get_item-log window-Tracks 8 (omega arith) (omega arith)

get-log_example : Defs.get window (pos 7) ≡ ok (18 ∷ 19 ∷ [])
get-log_example = get-log window-Tracks 7 (omega arith) (omega arith)

abbrev windows : RollingIndexMap ℕ
windows = record { name = "M"; size = 2; keys = pos 1 ∷ []; mapping = (pos 1, window) ∷ [] }

windows-Tracks : Tracks 5 2 9 log (index_for windows (pos 1))
unfolding index_for lookup
windows-Tracks = window-Tracks

set_item-get_item_example :
    ((set_item windows (pos 1) 20 (pos 10)).0 ≡ ok tt)
    × (get_item (set_item windows (pos 1) 20 (pos 10)).1 (pos 1) (pos 10) ≡ ok 20)
    × (lookup (pos 1) (known (set_item windows (pos 1) 20 (pos 10)).1) ≡ some (pos 10))
    × ((j i : ℤ)
        → (j ≡ pos 1)
          ⊎ (get_item (set_item windows (pos 1) 20 (pos 10)).1 j i ≡ get_item windows j i))
set_item-get_item_example = set_item-get_item windows (pos 1) windows-Tracks 20 (omega arith)
