-- ===== src/Poset/Process/Removal.antt =====
-- How far `ProcessDecidedRounds` goes, and what leaves the queue of pending rounds.
use gource.Prelude.{
  ℕ, suc, ◌+◌, ◌≤◌, ◌≡◌, ap, List, [], ◌∷◌, drop, arith, Bool-cases, inl, inr, if◌then◌else◌, UpTo,
}
use gource.Common.Errors.{Result, ok, err}
use gource.Poset.State.{Env, Poset, PendingRound}
use gource.Poset.Process.{is_last, process_round, process_rounds, process_decided_rounds}
use gource.Poset.Process.Progress.{Progress, Progress-IsOrder, Extends, process_round-Progress}

-- How many rounds at the front of the queue are decided.
unfoldable pub decided_front : List PendingRound → ℕ
decided_front [] = 0
decided_front (r ∷ rs) = let rest = decided_front rs in if r.decided then suc rest else 0

module _ {env : Env} (fuel : ℕ) where
  -- What is left of the loop after a round, and what is known of it from that state on.
  abbrev after :
      Poset env
      → (Poset env → Result (Unit {0}) × ℕ × Poset env)
      → ℕ
      → Result (Unit {0})
      → Result (Unit {0}) × ℕ × Poset env
  after t rest n res = elim res [ err e ↦ (err e, n, t) | ok _ ↦ rest t ]

  after_lem :
      (s t : Poset env) (rest : Poset env → Result (Unit {0}) × ℕ × Poset env) (n m : ℕ)
      (res : Result (Unit {0}))
      → Progress s t
      → Progress t (rest t).2 × ((rest t).1 ≤ n + m)
      → Progress s (after t rest n res).2 × ((after t rest n res).1 ≤ n + m)
  after_lem s t rest n m (err e) h k = (h, omega arith)
  after_lem s t rest n m (ok _) h k = (Progress-IsOrder.chain s t _ h k.0, k.1)

  process_rounds_lem :
      (rs : List PendingRound) (n : ℕ) (s : Poset env)
      → Progress s (process_rounds fuel rs n s).2
        × ((process_rounds fuel rs n s).1 ≤ n + decided_front rs)
  unfolding process_rounds decided_front
  process_rounds_lem [] n s = (Progress-IsOrder.stays s, omega arith)
  process_rounds_lem (r ∷ rs) n s = elim (Bool-cases r.decided) [
    | inr undecided ↦ rw undecided (Progress-IsOrder.stays s, omega arith)
    | inl decided ↦ elim (Bool-cases (is_last s.last_consensus_round r.index)) [
      | inl last ↦
          let (step, few) = process_rounds_lem rs n s in
          rw (decided, last, process_rounds) (step, omega arith)
      | inr other ↦
          let t = (process_round fuel r.index s).1 in
          let (step, few) = process_rounds_lem rs (suc n) t in
          rw (decided, other, process_rounds)
            (after_lem s t (process_rounds fuel rs (suc n)) n (suc (decided_front rs))
              (process_round fuel r.index s).0 ((process_round-Progress fuel r.index).at s)
              (step, omega arith))
    ]
  ]

  -- `ProcessDecidedRounds`, whether it ends in an error or not: what leaves the queue of pending rounds is
  -- a part of the decided rounds at its front, so that an undecided round holds back all behind it; the
  -- last consensus round never moves back; and the blocks that were sent before stay, in their order, with
  -- the new ones after them.
  pub process_decided_rounds_lem :
      (s : Poset env)
      → ((n : ℕ) × (n ≤ decided_front s.pending_rounds)
          × ((process_decided_rounds fuel s).1.pending_rounds ≡ drop n s.pending_rounds))
        × UpTo s.last_consensus_round (process_decided_rounds fuel s).1.last_consensus_round
        × Extends s.committed (process_decided_rounds fuel s).1.committed
  unfolding process_decided_rounds
  process_decided_rounds_lem s =
      let (step, few) = process_rounds_lem s.pending_rounds 0 s in
      let n = (process_rounds fuel s.pending_rounds 0 s).1 in
      ((n, omega arith, ap (drop n) step.queue), step.last, step.blocks)

  pub process_decided_rounds-anchor :
      (s : Poset env) → (process_decided_rounds fuel s).1.anchor_block ≡ s.anchor_block
  unfolding process_decided_rounds
  process_decided_rounds-anchor s = (process_rounds_lem s.pending_rounds 0 s).0.anchor
