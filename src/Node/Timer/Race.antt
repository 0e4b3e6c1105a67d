-- ===== src/Node/Timer/Race.antt =====
-- The heartbeat may stop: the main loop may read `set` after it has received the tick and before the
-- loop of the timer has cleared the flag.
use gource.Prelude.{ℕ, true, false, ◌≡◌, refl, sym, arith}
use gource.Node.Timer.{
  Phase, MainLoop, Timer, Step, IsStalled, reset_by_main, fire, receive_tick, clear, check_main,
  reset_main, reset, call, check,
}

-- Every step but a new call of `resetTimer`.
abbrev pub IsQuiet : {ts : ℕ} {t u : Timer} → Step ts t u → Type 0
IsQuiet (fire _ _ _) = Unit
IsQuiet (receive_tick _ _ _) = Unit
IsQuiet (clear _ _) = Unit
IsQuiet (check_main _ _) = Unit
IsQuiet (reset_main _ _ _) = Unit
IsQuiet (call _) = ⊥
IsQuiet (check _ _ _) = Unit
IsQuiet (reset _ _ _ _) = Unit

pub data QuietReach (ts : ℕ) (t : Timer) : Timer → Type 0 where
  here : QuietReach ts t t
  next : {u v : Timer} → QuietReach ts t u → (s : Step ts u v) → IsQuiet s → QuietReach ts t v

-- A stalled timer has no step but a call.
no_step : (ts : ℕ) (t u : Timer) (s : Step ts t u) → IsQuiet s → IsStalled t → ⊥
no_step ts t u (fire w a e) q i = ground (arith, i.unarmed)
no_step ts t u (receive_tick w m e) q i = ground (arith, i.idle)
no_step ts t u (clear w e) q i = ground (arith, i.idle)
no_step ts t u (check_main m e) q i = ground (arith, i.selects)
no_step ts t u (reset_main w m e) q i = ground (arith, i.selects)
no_step ts t u (call e) q i = q
no_step ts t u (check n c e) q i = ground (arith, i.unchecked)
no_step ts t u (reset n w a e) q i = ground (arith, i.unasked)

stays : (ts : ℕ) (t u : Timer) → IsStalled t → QuietReach ts t u → u ≡ t
stays ts t u i here = refl
stays ts t v i (next {u = u} r s q) =
    let same : u ≡ t = stays ts t u i r in absurd (no_step ts u v s q (rw same i))

reset_by_main_set :
    (t : Timer) → t.set ≡ true → reset_by_main t ≡ record t { main = MainLoop.selecting }
unfolding reset_by_main
reset_by_main_set t s = rw s refl

-- Every running timer may stall: where the timer is set and armed, the main loop is in its `select`, and nobody is
-- about to ask for a reset, there are steps without a new call of `resetTimer` to a timer that waits, is not armed,
-- and that nobody is about to reset. Without a new call of `resetTimer` it has no further step.
pub Reach-IsStalled :
    (ts : ℕ) (t : Timer)
    → t.phase ≡ Phase.waiting
    → t.set ≡ true
    → t.armed ≡ true
    → t.main ≡ MainLoop.selecting
    → t.asks ≡ 0
    → t.checks ≡ 0
    → (u : Timer) × QuietReach ts t u × IsStalled u × ((v : Timer) → QuietReach ts u v → v ≡ u)
Reach-IsStalled ts t p s a m q c =
    let t1 : Timer = record t { phase = Phase.ticking; armed = false } in
    let t2 : Timer = record t1 { phase = Phase.ticked; main = MainLoop.checking } in
    let t3 : Timer = record t2 { main = MainLoop.selecting } in
    let t4 : Timer = record t3 { phase = Phase.waiting; set = false } in
    let stalled : IsStalled t4 = record {
      idle = refl;
      unarmed = refl;
      selects = refl;
      unasked = q;
      unchecked = c;
    } in
    (
      t4,
      next
          (next (next (next here (fire p a refl) tt) (receive_tick refl m refl) tt)
            (check_main refl (sym (reset_by_main_set t2 s))) tt)
          (clear refl refl) tt,
      stalled,
      λ v r. stays ts t4 v stalled r,
    )
