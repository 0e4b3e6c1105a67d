-- ===== src/Poset/Received.antt =====
-- src/poset/poset.go: `DecideRoundReceived`, which finds the round that an event is received in.
pub mod Rest
use gource.Prelude.{
  ℕ, zero, suc, String, Bool, true, false, ◌&&◌, not, List, [], ◌∷◌, Option, none, some, ℤ, pos,
  negsuc, add64, sub64, ltb_ℤ, ltb, eqb, length, if◌then◌else◌,
}
use gource.Common.Errors.{ok, err}
use gource.Common.Exec.{Exec, pure, raise, gets, modify, attempt, ◌>>=◌, ◌>>◌}
use gource.Poset.Event.{set_round_received}
use gource.Poset.RoundInfo.{RoundInfo, witnesses_decided, famous_witnesses, set_consensus_event}
use gource.Poset.State.{Env, Poset, on_store}
use gource.Poset.Ancestry.{see}
use gource.Poset.Rounds.{round}

-- `r < *p.LastConsensusRound`, where there is one.
unfoldable pub below_last : ℤ → Option ℤ → Bool
below_last r none = false
below_last r (some last) = ltb_ℤ r last

-- All famous witnesses see the event, and there are some.
unfoldable pub all_seen : List String → List String → Bool
all_seen seers famous = eqb (length seers) (length famous) && ltb 0 (length seers)

-- How many rounds the loop has from `r + 1` to the last one.
unfoldable pub rounds_after : ℤ → ℤ → ℕ
rounds_after last r = elim (sub64 last r) [ pos n ↦ n | negsuc _ ↦ 0 ]

module _ {env : Env} where
  -- The witnesses that see `x`.
  unfoldable pub seers : ℕ → String → List String → Exec (Poset env) (List String)
  seers fuel x [] = pure []
  seers fuel x (w ∷ ws) = do
    sees ← see fuel w x
    rest ← seers fuel x ws
    pure (if sees then w ∷ rest else rest)

  unfoldable pub mark_received : ℤ → String → RoundInfo → Exec (Poset env) Unit
  mark_received i x tr = do
    ex ← on_store (env.store.get_event x)
    on_store (env.store.set_event (set_round_received ex i))
    on_store (env.store.set_round i (set_consensus_event tr x))

  -- The loop over the rounds after that of `x`: true if `x` is received. A missing round can happen
  -- after a reset. An undecided round ends the search.
  unfoldable pub receive_loop : ℕ → ℕ → ℤ → ℤ → String → Exec (Poset env) Bool
  receive_loop fuel zero i r x = pure false
  receive_loop fuel (suc left) i r x =
      let rest = receive_loop fuel left (add64 i (pos 1)) r x in
      attempt (on_store (env.store.get_round i)) λ res. elim res [
        | err e ↦ do
          last ← gets (λ s. s.last_consensus_round)
          if below_last r last then pure true else raise e
        | ok tr ↦ if not (witnesses_decided tr) then pure false else do
          s ← seers fuel x (famous_witnesses tr)
          if all_seen s (famous_witnesses tr) then (do mark_received i x tr; pure true) else rest
      ]

  unfoldable pub is_received : ℕ → String → Exec (Poset env) Bool
  is_received fuel x = do
    r ← round fuel x
    last ← on_store env.store.last_round
    receive_loop fuel (rounds_after last r) (add64 r (pos 1)) r x

  -- The events that stay undetermined.
  unfoldable pub receive_all : ℕ → List String → Exec (Poset env) (List String)
  receive_all fuel [] = pure []
  receive_all fuel (x ∷ xs) = do
    received ← is_received fuel x
    rest ← receive_all fuel xs
    pure (if received then rest else x ∷ rest)

  unfoldable pub decide_round_received : ℕ → Exec (Poset env) Unit
  decide_round_received fuel = do
    events ← gets (λ s. s.undetermined_events)
    rest ← receive_all fuel events
    modify (λ s. record s { undetermined_events = rest })
