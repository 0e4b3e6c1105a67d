-- ===== src/Node/Core/Diff/Limit.antt =====
-- `OverSyncLimit` against the number of events that the other node lacks.
use gource.Prelude.{
  ℕ, ◌+◌, ◌-◌, ◌^◌, ◌<◌, ◌≡◌, ◌↔◌, sym, ap, ◌∙◌, inl, inr, true, false, [], ◌∷◌, Option, none, some,
  lookup, int_eq, refl, negsuc, ℤ, pos, pos_part, neg_part, add64, sub64, add64-pos, ltb_ℤ, ◌<ℤ◌,
  Map, arith, Bool-cases, if◌then◌else◌,
}
use gource.Common.Errors.{ok, ok-injective}
use gource.Common.Exec.{pure}
use gource.Common.Exec.Results.{bind_ok}
use gource.Poset.State.{Env}
use gource.Node.Core.{Core, known_events}
use gource.Node.Core.Diff.{known_at, total_unknown, over_sync_limit}

-- By how much the first number is above the second one, or 0.
unfoldable pub gap : ℤ → ℤ → ℕ
gap a b = pos_part a + neg_part b - (pos_part b + neg_part a)

-- The index of the last event that the other node has of a participant, or -1: it has none of a participant that
-- it does not name.
abbrev pub last_known : Option ℤ → ℤ
last_known none = negsuc 0
last_known (some i) = i

-- How many events the other node lacks: for each participant, those above the last one that it has.
unfoldable pub lacking : Map ℤ ℤ → Map ℤ ℤ → ℕ
unfolding gap
lacking known [] = 0
lacking known ((i, li) ∷ mine) = gap li (last_known (lookup i known)) + lacking known mine

-- Whether an event of a participant is not counted: the first one, where the other node does not name it.
abbrev pub skipped : Option ℤ → ℤ → ℕ
skipped (some i) li = 0
skipped none (pos n) = 1
skipped none (negsuc n) = 0

unfoldable pub uncounted : Map ℤ ℤ → Map ℤ ℤ → ℕ
uncounted known [] = 0
uncounted known ((i, li) ∷ mine) = skipped (lookup i known) li + uncounted known mine

-- What the loop adds up.
unfoldable pub missing : Map ℤ ℤ → Map ℤ ℤ → ℕ
unfolding gap
missing known [] = 0
missing known ((i, li) ∷ mine) = gap li (known_at known i) + missing known mine

skipped-gap :
    (o : Option ℤ) (li : ℤ)
    → gap li (elim o [ none ↦ pos 0 | some i ↦ i ]) + skipped o li ≡ gap li (last_known o)
unfolding gap
skipped-gap none (pos n) = omega arith
skipped-gap none (negsuc n) = omega arith
skipped-gap (some i) li = omega arith

missing-uncounted :
    (known mine : Map ℤ ℤ) → missing known mine + uncounted known mine ≡ lacking known mine
unfolding missing uncounted lacking known_at
missing-uncounted known [] = refl
missing-uncounted known ((i, li) ∷ mine) =
    omega (arith, skipped-gap (lookup i known) li, missing-uncounted known mine)

sub64-gap : (a b : ℤ) → ltb_ℤ b a ≡ true → gap a b < 2 ^ 63 → sub64 a b ≡ pos (gap a b)
unfolding sub64 gap
sub64-gap a b h k = ground arith

no_gap : (a b : ℤ) → ltb_ℤ b a ≡ false → gap a b ≡ 0
unfolding gap
no_gap a b h = ground arith

-- One round of the loop.
added_gap :
    (a b : ℤ) (tot : ℕ)
    → tot + gap a b < 2 ^ 63
    → (if ltb_ℤ b a then add64 (pos tot) (sub64 a b) else pos tot) ≡ pos (tot + gap a b)
added_gap a b tot h = elim (Bool-cases (ltb_ℤ b a)) [
  | inl above ↦ rw (above, sub64-gap a b above (omega arith)) (add64-pos tot (gap a b) h)
  | inr below ↦ rw (below, no_gap a b below) (ap pos (omega arith))
]

total_unknown_lem :
    (known mine : Map ℤ ℤ) (tot : ℕ)
    → tot + missing known mine < 2 ^ 63
    → total_unknown known mine (pos tot) ≡ pos (tot + missing known mine)
unfolding total_unknown missing
total_unknown_lem known [] tot h = ap pos (omega arith)
total_unknown_lem known ((i, li) ∷ mine) tot h =
    let step : ℕ = gap li (known_at known i) in
    rw (added_gap li (known_at known i) tot (omega arith))
      (total_unknown_lem known mine (tot + step) (omega arith) ∙ ap pos (omega arith))

over_iff : (limit : ℤ) (n : ℕ) → (ltb_ℤ limit (pos n) ≡ true) ↔ (limit <ℤ pos n)
over_iff limit n = ground arith

module _ {env : Env} where
  -- Let this node know `mine`, and let the other one lack fewer than 2^63 events of it. `OverSyncLimit` is true
  -- exactly when the number of the events that the other one lacks, without the first event of each participant
  -- that the other one does not name and of which this node has one, is above the limit.
  pub over_sync_limit_iff :
      (known mine : Map ℤ ℤ) (limit : ℤ) (c : Core env)
      → (known_events c).0 ≡ ok mine
      → lacking known mine < 2 ^ 63
      → ((over_sync_limit known limit c).0 ≡ ok true)
        ↔ (limit <ℤ pos (lacking known mine - uncounted known mine))
  unfolding over_sync_limit
  over_sync_limit_iff known mine limit c asked few =
      let n : ℕ = lacking known mine - uncounted known mine in
      let same : missing known mine ≡ n = omega (arith, missing-uncounted known mine) in
      let sum : total_unknown known mine (pos 0) ≡ pos n =
        total_unknown_lem known mine 0 (omega (arith, missing-uncounted known mine))
        ∙ ap pos (omega (arith, same)) in
      let result : (over_sync_limit known limit c).0 ≡ ok (ltb_ℤ limit (pos n)) =
        ap (λ r. r.0) (bind_ok known_events _ mine c asked)
        ∙ unfold pure in ap (λ t. ok (ltb_ℤ limit t)) sum in
      (
        λ over. (over_iff limit n).0 (ok-injective (sym result ∙ over)),
        λ above. result ∙ ap ok ((over_iff limit n).1 above),
      )
