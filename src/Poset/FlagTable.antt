-- ===== src/Poset/FlagTable.antt =====
-- The flag tables of src/poset/event.go, over the encoding of protobuf. A table without entries is
-- decoded as a nil map, which Go reads as empty and refuses to write to.
pub mod Merge
use gource.Prelude.{
  String, Bool, false, ◌&&◌, List, [], ◌∷◌, Option, none, some, ℤ, pos, Map, lookup, insert, eqb_ℤ,
  string_eq, if◌then◌else◌,
}
use gource.Common.Errors.{Result, ok, err, panic, ◌>>=◌}
use gource.Poset.Event.{Event}
use gource.Poset.State.{Codec}

abbrev pub FlagTable : Type 0
FlagTable = Map String ℤ

-- `table[id]`, which is 0 for an id that is not there.
unfoldable pub flag_of : String → FlagTable → ℤ
flag_of id table = elim (lookup id table) [ none ↦ pos 0 | some flag ↦ flag ]

-- `table[id] = 1`
unfoldable pub set_flag : String → FlagTable → Result FlagTable
set_flag id [] = err panic
set_flag id (entry ∷ table) = ok (insert id (pos 1) (entry ∷ table))

-- The body of the loop of `MergeFlagTable`.
unfoldable pub merge_flag : String → ℤ → FlagTable → Result FlagTable
merge_flag id flag src =
    if eqb_ℤ (flag_of id src) (pos 0) && eqb_ℤ flag (pos 1) then set_flag id src else ok src

-- The loop.
unfoldable pub merge_into : FlagTable → FlagTable → Result FlagTable
merge_into src [] = ok src
merge_into src ((id, flag) ∷ dst) = do src' ← merge_flag id flag src; merge_into src' dst

module _ (codec : Codec) where
  unfoldable pub replace_flag_table : Event → FlagTable → Event
  replace_flag_table e table = record e { flag_table = codec.marshal_flag_table table }

  unfoldable pub get_flag_table : Event → Result FlagTable
  get_flag_table e = codec.unmarshal_flag_table e.flag_table

  unfoldable pub merge_flag_table : Event → FlagTable → Result FlagTable
  merge_flag_table e dst = do src ← codec.unmarshal_flag_table e.flag_table; merge_into src dst
