-- ===== src/Node/Timer/Deadlock.antt =====
-- The heartbeat may end in a deadlock: the main loop and another goroutine both find the flag cleared. The loop takes
-- the reset of the other one, and its timer fires while the main loop still sends.
use gource.Prelude.{ℕ, suc, ◌<◌, true, false, ◌≡◌, refl, sym, ap, eqb, not, arith}
use gource.Node.Timer.{
  Phase, MainLoop, Timer, Step, Reach, IsDeadlocked, set_timer, reset_timer, reset_by_main, fire,
  receive_tick, clear, check_main, reset_main, reset, call, check, here, next,
}

Step-IsDeadlocked : (ts : ℕ) (t u : Timer) → Step ts t u → IsDeadlocked t → IsDeadlocked u
unfolding reset_timer
Step-IsDeadlocked ts t u (fire w a e) d = ground arith
Step-IsDeadlocked ts t u (receive_tick w m e) d = ground arith
Step-IsDeadlocked ts t u (clear w e) d = ground arith
Step-IsDeadlocked ts t u (check_main m e) d = ground arith
Step-IsDeadlocked ts t u (reset_main w m e) d = ground arith
Step-IsDeadlocked ts t u (call e) d = ground arith
Step-IsDeadlocked ts t u (check n c e) d = ground arith
Step-IsDeadlocked ts t u (reset n w a e) d = ground arith

Reach-IsDeadlocked : (ts : ℕ) (t u : Timer) → IsDeadlocked t → Reach ts t u → IsDeadlocked u
Reach-IsDeadlocked ts t u d here = d
Reach-IsDeadlocked ts t v d (next {u = u} r s) =
    Step-IsDeadlocked ts u v s (Reach-IsDeadlocked ts t u d r)

armed_by : (ts : ℕ) (t : Timer) → 0 < ts → set_timer ts t ≡ record t { set = true; armed = true }
unfolding set_timer
armed_by ts t h = ap (λ armed. record t { set = true; armed = armed }) (above ts h)
  where
    above : (n : ℕ) → 0 < n → not (eqb n 0) ≡ true
    above n h = ground arith

-- With a heartbeat above zero, every running timer may come to a deadlock: where it is set and armed, the main loop
-- is in its `select`, and nobody is about to ask for a reset, there are steps to a timer whose loop sends a tick to
-- the main loop while the main loop sends a reset to it, and no step of any goroutine ends that.
pub Reach-deadlock :
    (ts : ℕ) (t : Timer)
    → 0 < ts
    → t.phase ≡ Phase.waiting
    → t.armed ≡ true
    → t.main ≡ MainLoop.selecting
    → t.asks ≡ 0
    → t.checks ≡ 0
    → (u : Timer) × Reach ts t u × IsDeadlocked u × ((v : Timer) → Reach ts u v → IsDeadlocked v)
unfolding reset_timer reset_by_main
Reach-deadlock ts t h p a m q c =
    let t1 : Timer = record t { phase = Phase.ticking; armed = false } in
    let t2 : Timer = record t1 { phase = Phase.ticked; main = MainLoop.checking } in
    let t3 : Timer = record t2 { phase = Phase.waiting; set = false } in
    let t4 : Timer = record t3 { main = MainLoop.sending } in
    let t5 : Timer = record t4 { checks = suc t.checks } in
    let t6 : Timer = record t4 { asks = suc t.asks } in
    let t7 : Timer = record t4 { set = true; armed = true } in
    let t8 : Timer = record t7 { phase = Phase.ticking; armed = false } in
    let stuck : IsDeadlocked t8 = record { ticks = refl; sends = refl } in
    (
      t8,
      next
          (next
            (next
              (next
                (next
                  (next (next (next here (fire p a refl)) (receive_tick refl m refl))
                    (clear refl refl))
                  (check_main refl refl))
                (call refl))
              (check t.checks refl refl))
            (reset t.asks refl refl (sym (armed_by ts t4 h))))
          (fire refl refl refl),
      stuck,
      λ v r. Reach-IsDeadlocked ts t8 v stuck r,
    )
