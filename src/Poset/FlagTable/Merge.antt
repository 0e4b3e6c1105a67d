-- ===== src/Poset/FlagTable/Merge.antt =====
-- What `MergeFlagTable` returns, flag by flag.
use gource.Prelude.{
  ◌≡◌, refl, ◌∙◌, inl, inr, String, Bool, true, false, ◌&&◌, [], ◌∷◌, none, ℤ, pos, lookup,
  lookup-insert, insert, eqb_ℤ, string_eq, arith, ◌==◌, if◌then◌else◌, Bool-cases, IsDistinct, ap,
  sym,
}
use text.Mathlib.TextEquality.{eq_iff}
use gource.Common.Errors.{ok}
use gource.Poset.Event.{Event}
use gource.Poset.State.{Codec}
use gource.Poset.FlagTable.{
  FlagTable, flag_of, set_flag, merge_flag, merge_into, get_flag_table, merge_flag_table,
}

-- The flag that a merge leaves: a 1 where the one that was there is 0 and the other one is 1.
abbrev pub merged : ℤ → ℤ → ℤ
merged src dst = if eqb_ℤ src (pos 0) && eqb_ℤ dst (pos 1) then pos 1 else src

abbrev pub HasFlags : FlagTable → Type 0
HasFlags [] = ⊥
HasFlags (e ∷ table) = Unit

insert-HasFlags : (id : String) (flag : ℤ) (m : FlagTable) → HasFlags (insert id flag m)
unfolding insert
insert-HasFlags id flag [] = tt
insert-HasFlags id flag ((j, v) ∷ m) = elim (Bool-cases (j == id)) [
  | inl p ↦ rw p tt
  | inr p ↦ rw p tt
]

flag_of-insert :
    (id j : String) (flag : ℤ) (m : FlagTable)
    → flag_of j (insert id flag m) ≡ (if id == j then flag else flag_of j m)
unfolding flag_of
flag_of-insert id j flag m = rw (lookup-insert id j flag m, flag_of) (ground (arith, eq_iff id j))

flag_of-cons :
    (id j : String) (flag : ℤ) (m : FlagTable)
    → flag_of j ((id, flag) ∷ m) ≡ (if id == j then flag else flag_of j m)
unfolding flag_of lookup
flag_of-cons id j flag m = ground arith

flag_of_absent : (id : String) (m : FlagTable) → lookup id m ≡ none → flag_of id m ≡ pos 0
unfolding flag_of
flag_of_absent id m h = rw (h, flag_of) refl

merged_zero : (a : ℤ) → merged a (pos 0) ≡ a
merged_zero a = ground arith

-- A merge that changes a flag sets it to 1, and one that changes none leaves it.
merged_set : (a b : ℤ) → (eqb_ℤ a (pos 0) && eqb_ℤ b (pos 1)) ≡ true → merged a b ≡ pos 1
merged_set a b h = rw h

merged_kept : (a b : ℤ) → (eqb_ℤ a (pos 0) && eqb_ℤ b (pos 1)) ≡ false → merged a b ≡ a
merged_kept a b h = rw h

-- What is said of the flag of `id` holds of that of any equal text.
at_test : (id j : String) (f : Bool → Type 0) → (id ≡ j → f true) → f false → f (id == j)
at_test id j f yes_case no_case = elim (Bool-cases (id == j)) [
  | inl same ↦ rw same (yes_case ((eq_iff id j).0 same))
  | inr other ↦ rw other no_case
]

-- One round of the loop.
abbrev Merges : FlagTable → String → ℤ → FlagTable → Type 0
Merges src id flag t =
    HasFlags t
    × ((j : String)
        → flag_of j t ≡ (if id == j then merged (flag_of j src) flag else flag_of j src))

merge_flag_lem :
    (id : String) (flag : ℤ) (src : FlagTable)
    → HasFlags src
    → (t : FlagTable) × (merge_flag id flag src ≡ ok t) × Merges src id flag t
unfolding merge_flag set_flag
merge_flag_lem id flag [] h = absurd h
merge_flag_lem id flag (entry ∷ src) h =
    let m : FlagTable = entry ∷ src in
    elim (Bool-cases (eqb_ℤ (flag_of id m) (pos 0) && eqb_ℤ flag (pos 1))) [
      | inl set ↦ (
        insert id (pos 1) m,
        rw set,
        (
          insert-HasFlags id (pos 1) m,
          λ j.
              flag_of-insert id j (pos 1) m
              ∙ at_test id j
                  (λ b.
                    (if b then pos 1 else flag_of j m)
                    ≡ (if b then merged (flag_of j m) flag else flag_of j m))
                  (λ same. rw (← same) (sym (merged_set (flag_of id m) flag set))) refl,
        ),
      )
      | inr keep ↦ (
        m,
        rw keep,
        (
          tt,
          λ j.
              at_test id j
                (λ b. flag_of j m ≡ (if b then merged (flag_of j m) flag else flag_of j m))
                (λ same. rw (← same) (sym (merged_kept (flag_of id m) flag keep))) refl,
        ),
      )
    ]

-- The merge of two tables, flag by flag.
merge_into_lem :
    (src dst : FlagTable)
    → HasFlags src
    → IsDistinct dst
    → (t : FlagTable) × (merge_into src dst ≡ ok t)
      × ((j : String) → flag_of j t ≡ merged (flag_of j src) (flag_of j dst))
unfolding merge_into
merge_into_lem src [] h d =
    (src, refl, λ j. unfold flag_of lookup in sym (merged_zero (flag_of j src)))
merge_into_lem src ((id, flag) ∷ dst) h d =
    let (mid, first, (filled, flags)) = merge_flag_lem id flag src h in
    let (t, rest, all) = merge_into_lem mid dst filled d.1 in
    (
      t,
      rw first rest,
      λ j.
          all j
          ∙ ap (λ f. merged f (flag_of j dst)) (flags j)
          ∙ at_test id j
              (λ b.
                merged (if b then merged (flag_of j src) flag else flag_of j src) (flag_of j dst)
                ≡ merged (flag_of j src) (if b then flag else flag_of j dst))
              (λ same. rw (← same) (rw (flag_of_absent id dst d.0) (merged_zero _))) refl
          ∙ ap (merged (flag_of j src)) (sym (flag_of-cons id j flag dst)),
    )

-- The table of an event, if it has an entry, is merged with a table that has no id twice: the merge succeeds,
-- and each flag is a 1 where it is 0 in the table of the event and 1 in the other one, and that of the event's
-- table elsewhere.
pub merge_flag_table_lem :
    (codec : Codec) (e : Event) (src dst : FlagTable)
    → get_flag_table codec e ≡ ok src
    → HasFlags src
    → IsDistinct dst
    → (t : FlagTable) × (merge_flag_table codec e dst ≡ ok t)
      × ((j : String) → flag_of j t ≡ merged (flag_of j src) (flag_of j dst))
unfolding merge_flag_table get_flag_table
merge_flag_table_lem codec e src dst read h d =
    let (t, done, flags) = merge_into_lem src dst h d in (t, rw read done, flags)
