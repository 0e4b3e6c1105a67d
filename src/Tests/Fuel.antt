-- ===== src/Tests/Fuel.antt =====
-- The theorems on the fuel of the recursions in src/poset/poset.go at concrete inputs.
use gource.Prelude.{
  List, [], ◌∷◌, ◌≤◌, ℤ, int_eq, inl, inr, Bool-cases, Option-cases, if◌then◌else◌, ◌==◌, ℕ, ◌≡◌,
  refl, String, [], ◌∷◌, arith, lookup, int_eq, string_eq,
}
use gource.Common.Exec.Runs.{Ends, Any}
use gource.Poset.Ancestry.{strongly_see}
use gource.Poset.Queries.Fuel.Sight.{strongly_see-Runs}
use gource.Poset.Queries.Fuel.{Below, IsRanked, RunsOn}
use gource.Poset.Lru.{unbounded}
use gource.Poset.Inmem.{InmemStore, get_event, found, roots_by_self_parent}
use gource.Poset.Inmem.Rounds.{get_root}
use gource.Tests.Consensus.{hash_of, env, first}
use gource.Common.Exec.Runs.{Runs, Runs-attempt, Runs-pure}
use gource.Poset.RoundInfo.{witnesses}
use gource.Poset.Inmem.Rounds.{get_round, round_witnesses}
use gource.Poset.Rounds.{hex, round}
use gource.Poset.Queries.Fuel.Rounds.{AllUpTo, IsBounded, round-Runs}

-- The store holds the first event alone, whose depth is 1.
abbrev Holds : InmemStore unbounded → Type 0
Holds s = s.event_cache ≡ ("e0", first) ∷ []

abbrev depth_of : String → ℕ
depth_of x = if "e0" == x then 1 else 0

held :
    (x : String) (s : InmemStore unbounded)
    → Holds s
    → Holds (get_event unbounded hash_of x s).1
      × Ends (Below depth_of x) (get_event unbounded hash_of x s).0
unfolding get_event found lookup
held x s h = elim (Bool-cases ("e0" == x)) [
  | inl same ↦ rw (h, same, found) (refl, (rw same (omega arith), rw same (omega arith)))
  | inr other ↦ rw (h, other, found) (refl, refl)
]

roots_held :
    (s : InmemStore unbounded)
    → Holds s
    → Holds (roots_by_self_parent unbounded hash_of s).1
      × Ends Any (roots_by_self_parent unbounded hash_of s).0
unfolding roots_by_self_parent
roots_held s h = elim (Option-cases s.roots_by_self_parent) [
  | inl none_yet ↦ rw (none_yet, roots_by_self_parent) (h, tt)
  | inr (m, there) ↦ rw (there, roots_by_self_parent) (h, tt)
]

root_held :
    (p : String) (s : InmemStore unbounded)
    → Holds s
    → Holds (get_root unbounded hash_of p s).1 × Ends Any (get_root unbounded hash_of p s).0
unfolding get_root found
root_held p s h = elim (Option-cases (lookup p s.roots_by_participant)) [
  | inl missing ↦ rw (missing, found) (h, refl)
  | inr (r, there) ↦ rw (there, found) (h, tt)
]

Holds-IsRanked : IsRanked env depth_of Holds
Holds-IsRanked = record {
  event = λ x. record { runs = held x };
  roots = record { runs = roots_held };
  root = λ p. record { runs = root_held p };
}

strongly_see-Runs_example : RunsOn env Holds Any (strongly_see {env = env} 3 "e0" "e0")
strongly_see-Runs_example =
    strongly_see-Runs depth_of Holds Holds-IsRanked 3 "e0" "e0" (omega arith)

-- No depth is above 1.
shallow : (w : String) → depth_of w ≤ 1
shallow w = elim (Bool-cases ("e0" == w)) [
  | inl same ↦ rw same (omega arith)
  | inr other ↦ rw other (omega arith)
]

all_shallow : (ws : List String) → AllUpTo depth_of 1 ws
all_shallow [] = tt
all_shallow (w ∷ ws) = (shallow w, all_shallow ws)

named :
    (x : String) (s : InmemStore unbounded)
    → Holds s
    → Holds (get_event unbounded hash_of x s).1
      × Ends
          (λ ex. Below depth_of x ex × (depth_of (hex env ex) ≤ depth_of x))
          (get_event unbounded hash_of x s).0
unfolding get_event found lookup
named x s h = elim (Bool-cases ("e0" == x)) [
  | inl same ↦ rw (h, same, found) (refl, ((omega arith, omega arith), omega arith))
  | inr other ↦ rw (h, other, found) (refl, refl)
]

round_held :
    (i : ℤ) (s : InmemStore unbounded)
    → Holds s
    → Holds (get_round unbounded hash_of i s).1 × Ends Any (get_round unbounded hash_of i s).0
unfolding get_round found
round_held i s h = elim (Option-cases (lookup i s.round_cache)) [
  | inl missing ↦ rw (missing, found) (h, refl)
  | inr (r, there) ↦ rw (there, found) (h, tt)
]

witnesses_held : (i : ℤ) → Runs Holds (AllUpTo depth_of 1) (round_witnesses unbounded hash_of i)
unfolding round_witnesses
witnesses_held i =
    Runs-attempt _ _ (record { runs = round_held i })
      (λ r _. Runs-pure (witnesses r) (all_shallow (witnesses r))) (λ e _. Runs-pure [] tt)

Holds-IsBounded : IsBounded env depth_of 1 Holds
Holds-IsBounded = record {
  ranked = Holds-IsRanked;
  named = λ x. record { runs = named x };
  witnesses = witnesses_held;
}

round-Runs_example : RunsOn env Holds Any (round {env = env} 3 "e0")
round-Runs_example = round-Runs depth_of 1 Holds Holds-IsBounded 3 "e0" (omega arith)
