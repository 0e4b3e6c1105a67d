-- ===== src/Tests/Voting.antt =====
-- The theorems on the fame of witnesses at concrete inputs.
use gource.Prelude.{
  ◌≡◌, refl, ◌⊎◌, ◌↔◌, String, Bool, true, false, List, [], ◌∷◌, none, some, lookup, insert,
  string_eq, filter_b, IsDistinct, arith, if◌then◌else◌, ◌==◌,
}
use gource.Poset.State.{super_majority_of, key_eq}
use gource.Poset.RoundInfo.{
  RoundInfo, new_round_info, add_event, is_decided, witnesses, witnesses_decided,
}
use gource.Poset.RoundInfo.Fame.{contains, witnesses_decided_iff}
use gource.Poset.Fame.{cast_vote}
use gource.Poset.Fame.Ballots.{Votes, vote_of, tally, majority}
use gource.Poset.Fame.Agreement.{agreement, decides}

-- Four witnesses of a round vote on x: one against the others.
abbrev votes : Votes
votes =
    (record { x = "a"; y = "x" }, true)
    ∷ (record { x = "b"; y = "x" }, true)
    ∷ (record { x = "c"; y = "x" }, true)
    ∷ (record { x = "d"; y = "x" }, false)
    ∷ []

abbrev round : List String
round = "a" ∷ "b" ∷ "c" ∷ "d" ∷ []

-- Two quorums of the round.
abbrev first_three : String → Bool
first_three w = if w == "d" then false else true

abbrev last_three : String → Bool
last_three w = if w == "a" then false else true

agreement_example :
    (majority (tally votes "x" (filter_b last_three round)) ≡ true)
    × (vote_of
          (cast_vote (super_majority_of 4) 5 votes "z" "x" (filter_b last_three round)).0
          "z"
          "x"
        ≡ true)
    × ((decides (super_majority_of 4) 5 votes "z" "x" (filter_b last_three round) ≡ none)
        ⊎ (decides (super_majority_of 4) 5 votes "z" "x" (filter_b last_three round) ≡ some true))
unfolding super_majority_of cast_vote tally vote_of lookup
agreement_example =
    agreement 4 votes "x" first_three last_three round 2 5 "y" "z" true (omega arith) refl
      (omega arith) refl

-- Round information with the witness w and the event e.
abbrev info : RoundInfo
info = add_event (add_event new_round_info "w" true) "e" false

info-IsDistinct : IsDistinct info.events
unfolding add_event lookup insert
info-IsDistinct = (refl, (refl, tt))

witnesses_decided_iff_example :
    (witnesses_decided info ≡ true)
    ↔ ((x : String) → contains x (witnesses info) ≡ true → is_decided info x ≡ true)
witnesses_decided_iff_example = witnesses_decided_iff info info-IsDistinct
