-- ===== src/Poset/Fame/Agreement.antt =====
-- Why a decision on the fame of a witness binds: two quorums of one round share more than a third of
-- the participants, so the votes that decided are the majority of every later count.
use gource.Prelude.{
  ℕ, ◌+◌, ◌≤◌, ◌≡◌, ap, sym, ◌∙◌, String, Bool, true, false, List, [], ◌∷◌, Option, none, some,
  lookup-insert_self, if◌then◌else◌, eqb, length, filter_b, arith, Option-cases, ◌⊎◌, inl, inr, ◌%◌,
}
use gource.Poset.State.{super_majority_of, key_eq}
use gource.Poset.Fame.{cast_vote}
use gource.Poset.Fame.Ballots.{Votes, vote_of, set_vote, tally, majority}

-- The tally of the witnesses that `y` strongly sees among those of a round.
abbrev pub seen_tally : Votes → String → (String → Bool) → List String → ℕ × ℕ
seen_tally votes x sees ws = tally votes x (filter_b sees ws)

-- How many of the round vote so.
abbrev pub yeas : Votes → String → List String → ℕ
yeas votes x ws = (tally votes x ws).0

abbrev pub nays : Votes → String → List String → ℕ
nays votes x ws = (tally votes x ws).1

tally-total :
    (votes : Votes) (x : String) (ws : List String) → yeas votes x ws + nays votes x ws ≡ length ws
unfolding tally
tally-total votes x [] = omega arith
tally-total votes x (w ∷ ws) = ground (arith, tally-total votes x ws)

-- A part of the round has no more of either vote.
tally-part :
    (votes : Votes) (x : String) (sees : String → Bool) (ws : List String)
    → (yeas votes x (filter_b sees ws) ≤ yeas votes x ws)
      × (nays votes x (filter_b sees ws) ≤ nays votes x ws)
unfolding tally
tally-part votes x sees [] = omega arith
tally-part votes x sees (w ∷ ws) = ground (arith, tally-part votes x sees ws)

-- The fame that a vote decides.
abbrev pub decides : ℕ → ℕ → Votes → String → String → List String → Option Bool
decides super_majority diff votes y x ss = (cast_vote super_majority diff votes y x ss).1

-- A vote that decides is cast in a normal round, with at least a super-majority of the counted votes equal
-- to the fame that is decided, which is that of the majority.
pub decides_lem :
    (m diff : ℕ) (votes : Votes) (y x : String) (ss : List String) (v : Bool)
    → decides m diff votes y x ss ≡ some v
    → (eqb (diff % 3) 0 ≡ false)
      × (m ≤ (if v then yeas votes x ss else nays votes x ss))
      × (majority (tally votes x ss) ≡ v)
unfolding cast_vote
decides_lem m diff votes y x ss v h = ground arith

-- In a normal round the vote is that of the majority.
cast_normal :
    (m diff : ℕ) (votes : Votes) (y x : String) (ss : List String)
    → eqb (diff % 3) 0 ≡ false
    → vote_of (cast_vote m diff votes y x ss).0 y x ≡ majority (tally votes x ss)
unfolding cast_vote vote_of set_vote
cast_normal m diff votes y x ss normal =
    ground (arith, lookup-insert_self (record { x = y; y = x }) (majority (tally votes x ss)) votes)

module _ (n : ℕ) (votes : Votes) (x : String) (sees sees' : String → Bool) (ws : List String) where
  -- Two quorums of a round of at most `n` witnesses: the votes that make one decide are the majority
  -- of the other.
  quorum_majority :
      (v : Bool)
      → length ws ≤ n
      → super_majority_of n
        ≤ (if v then yeas votes x (filter_b sees ws) else nays votes x (filter_b sees ws))
      → super_majority_of n ≤ length (filter_b sees' ws)
      → majority (tally votes x (filter_b sees' ws)) ≡ v
  unfolding super_majority_of
  quorum_majority true few quorum other = ground (
    arith,
    tally-total votes x ws,
    tally-total votes x (filter_b sees' ws),
    tally-part votes x sees ws,
    tally-part votes x sees' ws,
  )
  quorum_majority false few quorum other = ground (
    arith,
    tally-total votes x ws,
    tally-total votes x (filter_b sees' ws),
    tally-part votes x sees ws,
    tally-part votes x sees' ws,
  )

  -- Let a round have at most as many witnesses as there are participants. If `y` decides the fame of
  -- `x`, then `y'`, which in a normal round strongly sees a super-majority of the same witnesses, counts
  -- a majority for the same fame and votes for it, and decides that fame or nothing.
  pub agreement :
      (diff diff' : ℕ) (y y' : String) (v : Bool)
      → length ws ≤ n
      → decides (super_majority_of n) diff votes y x (filter_b sees ws) ≡ some v
      → super_majority_of n ≤ length (filter_b sees' ws)
      → eqb (diff' % 3) 0 ≡ false
      → (majority (tally votes x (filter_b sees' ws)) ≡ v)
        × (vote_of (cast_vote (super_majority_of n) diff' votes y' x (filter_b sees' ws)).0 y' x
            ≡ v)
        × ((decides (super_majority_of n) diff' votes y' x (filter_b sees' ws) ≡ none)
            ⊎ (decides (super_majority_of n) diff' votes y' x (filter_b sees' ws) ≡ some v))
  agreement diff diff' y y' v few decided other normal =
      let (_, quorum, _) =
        decides_lem (super_majority_of n) diff votes y x (filter_b sees ws) v decided in
      let same = quorum_majority v few quorum other in
      (
        same,
        cast_normal (super_majority_of n) diff' votes y' x (filter_b sees' ws) normal ∙ same,
        elim (Option-cases (decides (super_majority_of n) diff' votes y' x (filter_b sees' ws))) [
          | inl undecided ↦ inl undecided
          | inr (v', decided') ↦ inr (
              decided'
              ∙ ap some (
                  sym
                    (decides_lem (super_majority_of n) diff' votes y' x (filter_b sees' ws) v'
                      decided').2
                  ∙ same))
        ],
      )
