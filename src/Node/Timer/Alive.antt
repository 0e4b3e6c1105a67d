-- ===== src/Node/Timer/Alive.antt =====
-- The heartbeat goes on as long as no goroutine reads `set` between the receipt of a tick and its clearing, and no
-- two goroutines ask for a reset at the same time.
use gource.Prelude.{ℕ, ◌+◌, ◌<◌, true, false, ◌≡◌, ◌≢◌, arith, Bool-cases, inl, inr}
use gource.Node.Timer.{
  Phase, MainLoop, Timer, Step, IsStalled, IsDeadlocked, set_timer, reset_timer, reset_by_main,
  run_init, fire, receive_tick, clear, check_main, reset_main, reset, call, check,
}

-- A call of `resetTimer` reads the flag when no tick is between its receipt and its clearing, and no other goroutine
-- waits to send a reset; every other step is orderly.
abbrev pub IsOrderly : {ts : ℕ} {t u : Timer} → Step ts t u → Type 0
IsOrderly (fire _ _ _) = Unit
IsOrderly (receive_tick _ _ _) = Unit
IsOrderly (clear _ _) = Unit
IsOrderly {t = t} (check_main _ _) = (t.phase ≢ Phase.ticked) × (t.asks ≡ 0)
IsOrderly (reset_main _ _ _) = Unit
IsOrderly (call _) = Unit
IsOrderly {t = t} (check _ _ _) = (t.phase ≢ Phase.ticked) × (t.main ≢ MainLoop.sending)
IsOrderly (reset _ _ _ _) = Unit

pub data OrderlyReach (ts : ℕ) (t : Timer) : Timer → Type 0 where
  here : OrderlyReach ts t t
  next : {u v : Timer} → OrderlyReach ts t u → (s : Step ts u v) → IsOrderly s → OrderlyReach ts t v

-- A timer that is set and waits is armed; where it is not set, it waits unarmed, and a reset is due. One that
-- has fired is not armed. After a tick
-- the main loop is about to look; a main loop that sends a reset is the only one that does.
record IsAlive (t : Timer) : Type 0 where
  armed : t.phase ≡ Phase.waiting → t.set ≡ true → t.armed ≡ true
  unset : t.set ≡ false → t.phase ≡ Phase.waiting
  idle : t.set ≡ false → t.armed ≡ false
  fired : t.phase ≢ Phase.waiting → t.armed ≡ false
  due : t.set ≡ false → t.main ≡ MainLoop.selecting → 0 < t.asks + t.checks
  after_tick : t.phase ≡ Phase.ticked → t.main ≡ MainLoop.checking
  sole : t.main ≡ MainLoop.sending → t.asks ≡ 0
  sent : t.main ≡ MainLoop.sending → t.set ≡ false

Step-IsAlive :
    (ts : ℕ) (t u : Timer) (s : Step ts t u) → 0 < ts → IsOrderly s → IsAlive t → IsAlive u
unfolding set_timer reset_timer reset_by_main
Step-IsAlive ts t u (fire w a e) h o i = ground arith
Step-IsAlive ts t u (receive_tick w m e) h o i = ground arith
Step-IsAlive ts t u (clear w e) h o i = ground arith
Step-IsAlive ts t u (check_main m e) h o i = ground arith
Step-IsAlive ts t u (reset_main w m e) h o i = ground arith
Step-IsAlive ts t u (call e) h o i = ground arith
Step-IsAlive ts t u (check n c e) h o i = ground arith
Step-IsAlive ts t u (reset n w a e) h o i = ground arith

init-IsAlive : (init : ℕ) → 0 < init → IsAlive (run_init init)
unfolding run_init set_timer
init-IsAlive init h = ground arith

Reach-IsAlive : (ts : ℕ) (t u : Timer) → 0 < ts → IsAlive t → OrderlyReach ts t u → IsAlive u
Reach-IsAlive ts t u h i here = i
Reach-IsAlive ts t v h i (next {u = u} r s o) =
    Step-IsAlive ts u v s h o (Reach-IsAlive ts t u h i r)

-- With a heartbeat above zero, a timer that has been started neither stalls nor comes to a deadlock, in any
-- interleaving in which a goroutine that calls `resetTimer` reads `set` only when no tick is between its receipt
-- and its clearing and no other goroutine waits to send a reset: the other ones for the main loop, and the main
-- loop for the other ones.
pub OrderlyReach-goes_on :
    (ts init : ℕ) (t : Timer)
    → 0 < ts
    → 0 < init
    → OrderlyReach ts (run_init init) t
    → (¬ IsStalled t) × (¬ IsDeadlocked t)
OrderlyReach-goes_on ts init t h k r =
    let i = Reach-IsAlive ts (run_init init) t h (init-IsAlive init k) r in
    (
      λ stalled. elim (Bool-cases t.set) [
        | inl set ↦ let armed = i.armed stalled.idle set in let unarmed = stalled.unarmed in cc
        | inr cleared ↦
            let due = i.due cleared stalled.selects in
            omega (arith, stalled.unasked, stalled.unchecked)
      ],
      λ dead. let waits = i.unset (i.sent dead.sends) in let ticks = dead.ticks in cc,
    )
