-- ===== src/Node/Timer.antt =====
-- src/node/control_timer.go with `resetTimer` and the select of `lachesis` of src/node/node.go: the heartbeat of
-- a node. The loop of `ControlTimer.Run` is one goroutine, the node's main loop another one; the handlers of
-- requests and the background work ask for a reset too. They all send over an unbuffered channel, and read the
-- flag `set`, which the loop writes, without a lock. What each goroutine does next is a step. Nobody in the
-- repository sends on `stopCh`; the shutdown, which ends both loops, is left out.
pub mod Alive
pub mod Race
pub mod Deadlock
use gource.Prelude.{ℕ, suc, Bool, true, false, ◌≡◌, eqb, not, if◌then◌else◌}

-- Where the loop stands: in its `select`, in the send of a tick, or behind it.
pub data Phase : Type 0 where
  waiting ticking ticked : Phase

-- Where the main loop stands: in its `select`, where it alone receives ticks; before its call of `resetTimer`, or
-- in the send of a reset.
pub data MainLoop : Type 0 where
  selecting checking sending : MainLoop

-- `armed` tells whether the current timer will fire; `asks` counts the other goroutines that wait to send a
-- reset, and `checks` those that are about to call `resetTimer`.
pub record Timer : Type 0 where
  pub phase : Phase
  pub set : Bool
  pub armed : Bool
  pub main : MainLoop
  pub asks : ℕ
  pub checks : ℕ

-- `setTimer`: a timer for no time at all is nil, and never fires.
unfoldable pub set_timer : ℕ → Timer → Timer
set_timer t timer = record timer { set = true; armed = not (eqb t 0) }

-- `resetTimer` in a goroutine that is not the main loop.
unfoldable pub reset_timer : Timer → Timer
reset_timer timer = if timer.set then timer else record timer { asks = suc timer.asks }

-- `resetTimer` in the main loop, which goes back to its `select` afterwards.
unfoldable pub reset_by_main : Timer → Timer
reset_by_main timer =
    if timer.set
    then record timer { main = MainLoop.selecting }
    else record timer { main = MainLoop.sending }

unfoldable pub run_init : ℕ → Timer
unfolding set_timer
run_init init = set_timer init (record {
  phase = Phase.waiting;
  set = false;
  armed = false;
  main = MainLoop.selecting;
  asks = 0;
  checks = 0;
})

-- One step of the loop, or of another goroutine, with the heartbeat `ts`. The node's main loop calls
-- `resetTimer` after each tick that it receives; the handlers of requests and of transactions call it
-- at any time.
pub data Step (ts : ℕ) (t u : Timer) : Type 0 where
  fire :
      t.phase ≡ Phase.waiting
      → t.armed ≡ true
      → u ≡ record t { phase = Phase.ticking; armed = false }
      → Step ts t u
  receive_tick :
      t.phase ≡ Phase.ticking
      → t.main ≡ MainLoop.selecting
      → u ≡ record t { phase = Phase.ticked; main = MainLoop.checking }
      → Step ts t u
  clear : t.phase ≡ Phase.ticked → u ≡ record t { phase = Phase.waiting; set = false } → Step ts t u
  check_main : t.main ≡ MainLoop.checking → u ≡ reset_by_main t → Step ts t u
  reset_main :
      t.phase ≡ Phase.waiting
      → t.main ≡ MainLoop.sending
      → u ≡ set_timer ts (record t { main = MainLoop.selecting })
      → Step ts t u
  call : u ≡ record t { checks = suc t.checks } → Step ts t u
  check : (n : ℕ) → t.checks ≡ suc n → u ≡ reset_timer (record t { checks = n }) → Step ts t u
  reset :
      (n : ℕ)
      → t.phase ≡ Phase.waiting
      → t.asks ≡ suc n
      → u ≡ set_timer ts (record t { asks = n })
      → Step ts t u

pub data Reach (ts : ℕ) (t : Timer) : Timer → Type 0 where
  here : Reach ts t t
  next : {u v : Timer} → Reach ts t u → Step ts u v → Reach ts t v

-- The loop waits, no timer runs, and nobody is about to ask for one.
pub record IsStalled (t : Timer) : Type 0 where
  pub idle : t.phase ≡ Phase.waiting
  pub unarmed : t.armed ≡ false
  pub selects : t.main ≡ MainLoop.selecting
  pub unasked : t.asks ≡ 0
  pub unchecked : t.checks ≡ 0

-- The loop sends a tick to the main loop, and the main loop sends a reset to the loop.
pub record IsDeadlocked (t : Timer) : Type 0 where
  pub ticks : t.phase ≡ Phase.ticking
  pub sends : t.main ≡ MainLoop.sending
