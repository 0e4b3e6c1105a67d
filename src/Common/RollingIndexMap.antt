-- ===== src/Common/RollingIndexMap.antt =====
-- src/common/rolling_index_map.go: one rolling index for each key, which is a participant's id.
-- The pointers to the rolling indexes are owned by the map, so they are values here.
pub mod Frame
use Prim.Native.String
use gource.Prelude.{
  ℕ, String, List, [], ◌∷◌, Option, none, some, map, ℤ, format_int, Map, lookup, insert, last?,
  int_eq,
}
use gource.Common.Errors.{Result, ok, err, panic, new_store_err, key_not_found, empty, ◌>>=◌}
use gource.Common.RollingIndex.Defs
use gource.Common.RollingIndex.Defs.{RollingIndex, new_rolling_index}

pub record RollingIndexMap {ℓ} (A : Type ℓ) : Type ℓ where
  pub name : String
  pub size : ℕ
  pub keys : List ℤ
  pub mapping : Map ℤ (RollingIndex A)

-- The name that the rolling index of a key gets: `fmt.Sprintf("%s[%d]", name, key)`.
abbrev pub index_name : String → ℤ → String
index_name name key = String.◌++◌ name (String.◌++◌ "[" (String.◌++◌ (format_int key) "]"))

module _ {ℓ} {A : Type ℓ} where
  unfoldable pub fresh_indexes :
      String → ℕ → List ℤ → Map ℤ (RollingIndex A) → Map ℤ (RollingIndex A)
  fresh_indexes name size [] m = m
  fresh_indexes name size (key ∷ keys) m =
      fresh_indexes name size keys (insert key (new_rolling_index (index_name name key) size) m)

  unfoldable pub new_rolling_index_map : String → ℕ → List ℤ → RollingIndexMap A
  new_rolling_index_map name size keys = record {
    name = name;
    size = size;
    keys = keys;
    mapping = fresh_indexes name size keys [];
  }

  unfoldable pub get : RollingIndexMap A → ℤ → ℤ → Result (List A)
  get rim key skip_index = elim (lookup key rim.mapping) [
    | none ↦ err (new_store_err rim.name key_not_found (format_int key))
    | some items ↦ Defs.get items skip_index
  ]

  -- A missing key is a nil pointer here.
  unfoldable pub get_item : RollingIndexMap A → ℤ → ℤ → Result A
  get_item rim key index = elim (lookup key rim.mapping) [
    | none ↦ err panic
    | some items ↦ Defs.get_item items index
  ]

  last_of : String → List A → Result A
  last_of name cached = elim (last? cached) [
    | none ↦ err (new_store_err name empty "")
    | some a ↦ ok a
  ]

  unfoldable pub get_last : RollingIndexMap A → ℤ → Result A
  unfolding last_of
  get_last rim key = elim (lookup key rim.mapping) [
    | none ↦ err (new_store_err rim.name key_not_found (format_int key))
    | some items ↦ last_of rim.name items.items
  ]

  -- The rolling index that `Set` works on: a new one for a new key.
  unfoldable pub index_for : RollingIndexMap A → ℤ → RollingIndex A
  index_for rim key = elim (lookup key rim.mapping) [
    | none ↦ new_rolling_index (index_name rim.name key) rim.size
    | some items ↦ items
  ]

  -- A new key stays in the map also where its item is refused.
  unfoldable pub set_item : RollingIndexMap A → ℤ → A → ℤ → Result (Unit {0}) × RollingIndexMap A
  set_item rim key item index = elim (Defs.set_item (index_for rim key) item index) [
    | ok items ↦ (ok tt, record rim { mapping = insert key items rim.mapping })
    | err e ↦ (err e, record rim { mapping = insert key (index_for rim key) rim.mapping })
  ]

  -- The last known index of each key.
  unfoldable pub known : RollingIndexMap A → Map ℤ ℤ
  known rim = map (λ e. (e.0, e.1.last_index)) rim.mapping

  unfoldable pub reset : RollingIndexMap A → RollingIndexMap A
  reset rim = record rim { mapping = fresh_indexes rim.name rim.size rim.keys [] }

  import_keys : RollingIndexMap A → List ℤ → RollingIndexMap A → Result (RollingIndexMap A)
  import_keys other [] rim = ok rim
  import_keys other (key ∷ keys) rim = elim (lookup key other.mapping) [
    | none ↦ err panic
    | some items ↦ import_keys other keys (record rim {
      mapping =
          insert key
            (record (new_rolling_index (index_name rim.name key) rim.size) {
              last_index = items.last_index;
              items = items.items;
            })
            rim.mapping;
    })
  ]

  -- `Import`: the windows of the keys of `other`, under the name and the size of `rim`.
  unfoldable pub import_from : RollingIndexMap A → RollingIndexMap A → Result (RollingIndexMap A)
  unfolding import_keys
  import_from rim other = import_keys other other.keys rim
