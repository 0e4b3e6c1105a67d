-- ===== src/Poset/Divide/Dealt.antt =====
-- What `DivideRounds` does with each of the undetermined events.
use gource.Prelude.{ℕ, ◌≡◌, ◌⊎◌, String, true, false, List, [], ◌∷◌, Option, some, ℤ, ◌<ℤ◌, eqb_ℤ}
use gource.Common.Errors.{ok}
use gource.Common.Exec.{Exec, attempt}
use gource.Poset.Event.{Event, round_nil}
use gource.Poset.RoundInfo.{RoundInfo}
use gource.Poset.State.{Env, Poset, PendingRound, on_store}
use gource.Poset.Rounds.{round}
use gource.Poset.Divide.{found_round, divide_event}

-- The round is in the queue.
abbrev pub Queued : ℤ → List PendingRound → Type 0
Queued n [] = ⊥
Queued n (r ∷ rs) = (r.index ≡ n) ⊎ Queued n rs

module _ (env : Env) (fuel : ℕ) where
  -- From the state `s`, the event is given a round, which is in the queue, unless its round information, as it is read
  -- from the store or new, is marked as queued, or the round is below the last consensus round.
  abbrev pub Assigned : Poset env → Option ℤ → List PendingRound → String → Type 0
  Assigned s last queue x =
      (n : ℤ) × (t : Poset env) × (round {env = env} fuel x s ≡ (ok n, t))
      × (info : RoundInfo) × (u : Poset env) × (attempt (on_store (env.store.get_round n))
            found_round t
          ≡ (ok info, u))
      × (Queued n queue ⊎ (info.queued ≡ true) ⊎ ((l : ℤ) × (last ≡ some l) × (n <ℤ l)))

  -- The store has the event, which had a round before, or is given one.
  abbrev pub Dealt : Poset env → Option ℤ → List PendingRound → String → Type 0
  Dealt s last queue x =
      (ev : Event) × (t : Poset env) × (on_store (env.store.get_event x) s ≡ (ok ev, t))
      × ((eqb_ℤ ev.round round_nil ≡ false) ⊎ Assigned t last queue x)

  -- The events one after the other, each in the state that the one before has left.
  abbrev pub AllDealt : Poset env → Option ℤ → List PendingRound → List String → Type 0
  AllDealt s last queue [] = Unit
  AllDealt s last queue (x ∷ xs) =
      Dealt s last queue x × AllDealt (divide_event {env = env} fuel x s).1 last queue xs
