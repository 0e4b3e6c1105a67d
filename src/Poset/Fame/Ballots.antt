-- ===== src/Poset/Fame/Ballots.antt =====
-- The votes of `DecideFame`: the map of votes, and how it is counted.
use gource.Prelude.{
  ℕ, ◌+◌, String, Bool, false, List, [], ◌∷◌, none, some, Map, lookup, insert, if◌then◌else◌, leb,
}
use gource.Poset.State.{Key, key_eq}

-- `votes[y][x]`: the vote of y on x; false where there is none.
abbrev pub Votes : Type 0
Votes = Map Key Bool

unfoldable pub vote_of : Votes → String → String → Bool
vote_of votes y x = elim (lookup (record { x = y; y = x }) votes) [ none ↦ false | some v ↦ v ]

unfoldable pub set_vote : String → String → Bool → Votes → Votes
set_vote y x v votes = insert (record { x = y; y = x }) v votes

-- The yeas and the nays.
unfoldable pub tally : Votes → String → List String → ℕ × ℕ
tally votes x [] = (0, 0)
tally votes x (w ∷ ws) =
    let (yays, nays) = tally votes x ws in
    if vote_of votes w x then (yays + 1, nays) else (yays, nays + 1)

-- A tie is a yea.
abbrev pub majority : ℕ × ℕ → Bool
majority t = leb t.1 t.0

abbrev pub support : ℕ × ℕ → ℕ
support t = if majority t then t.0 else t.1
