-- ===== src/Tests/Node.antt =====
-- The theorems on src/node at concrete inputs: a core over the poset of Tests/Consensus.
use gource.Prelude.{inl, ◌≡◌, refl, true, false, [], ◌∷◌, ℤ, pos, Map, arith}
use gource.Common.Errors.{ok}
use gource.Common.Exec.Steps.{Steps}
use gource.Peers.Peer.{Peer, exclude_peer, exclude_from}
use gource.Peers.Registry.{Peers}
use gource.Node.Selector.{
  RandomPeerSelector, SmartPeerSelector, random_candidates, random_next, without, smart_next,
  use_peer,
}
use gource.Node.Selector.Random.{Chosen, random_next_lem}
use gource.Node.Selector.Smart.{smart_next-itself}
use gource.Node.Timer
use gource.Node.Timer.{
  Timer, Phase, MainLoop, IsStalled, IsDeadlocked, fire, receive_tick, run_init, set_timer,
}
use gource.Node.Timer.Race.{QuietReach, Reach-IsStalled}
use gource.Node.Timer.Deadlock.{Reach-deadlock}
use gource.Node.Timer.Alive.{OrderlyReach-goes_on, here, next}
use gource.Poset.Bootstrap.{consensus_steps}
use gource.Poset.Advance.{Advances, consensus_steps-Advances}
use gource.Node.Signer.{Signer}
use gource.Node.Core.{Core, new_core}
use gource.Node.Core.Sync.{add_self_event_block}
use gource.Node.Core.Sync.SelfEvent.{AddedOrKept, add_self_event_block_lem}
use gource.Tests.Consensus.{env, poset}

abbrev pub signer : Signer
signer = record {
  public_key = 12 ∷ [];
  sign_body = λ body. ok "s";
  sign_block_body = λ block. ok "b";
}

abbrev pub core : Core env
core = record (new_core {env = env} signer (pos 3) poset.participants poset.store) {
  poset = poset;
  transaction_pool = (1 ∷ []) ∷ (2 ∷ []) ∷ [];
}

consensus_steps-Advances_example : Steps Advances (consensus_steps {env = env} 4)
consensus_steps-Advances_example = consensus_steps-Advances {env = env} 4

add_self_event_block_lem_example :
    AddedOrKept {env = env} signer core "e0" (add_self_event_block signer "e0" core)
add_self_event_block_lem_example = add_self_event_block_lem {env = env} signer "e0" core

-- The node knows one event of participant 3, and two of participant 4.
abbrev mine : Map ℤ ℤ
mine = (pos 3, pos 0) ∷ (pos 4, pos 1) ∷ []

abbrev alice : Peer
alice = record { id = pos 1; net_addr = "a:1"; pub_key_hex = "0x0A"; used = pos 0 }

abbrev bob : Peer
bob = record { id = pos 2; net_addr = "b:1"; pub_key_hex = "0x0B"; used = pos 5 }

abbrev dave : Peer
dave = record { id = pos 4; net_addr = "d:1"; pub_key_hex = "0x0D"; used = pos 2 }

abbrev three : Peers
three = record {
  sorted = alice ∷ bob ∷ dave ∷ [];
  by_pub_key = ("0x0A", alice) ∷ ("0x0B", bob) ∷ ("0x0D", dave) ∷ [];
  by_id = (pos 1, alice) ∷ (pos 2, bob) ∷ (pos 4, dave) ∷ [];
}

abbrev two : Peers
two = record {
  sorted = alice ∷ bob ∷ [];
  by_pub_key = ("0x0A", alice) ∷ ("0x0B", bob) ∷ [];
  by_id = (pos 1, alice) ∷ (pos 2, bob) ∷ [];
}

abbrev random : RandomPeerSelector
random = record { peers = three; local_addr = "a:1"; last = "b:1" }

random_next_lem_example : (p : Peer) × (random_next 4 random ≡ ok p) × Chosen random p
unfolding random_candidates without exclude_peer exclude_from
random_next_lem_example = random_next_lem 4 random (omega arith) (omega arith)

abbrev pub smart : SmartPeerSelector
smart = record { peers = three; local_addr = "0x0A"; last = "" }

smart_next-itself_example :
    (p : Peer) × (p.pub_key_hex ≡ "0x0A")
    × (smart_next 4 (record { peers = two; local_addr = "0x0A"; last = "" })
        ≡ ok (p, record { peers = use_peer p.pub_key_hex two; local_addr = "0x0A"; last = "" }))
smart_next-itself_example =
    smart_next-itself 4 (record { peers = two; local_addr = "0x0A"; last = "" }) alice bob
      (inl refl) (omega arith) refl

Reach-IsStalled_example :
    (u : Timer) × QuietReach 10 (run_init 10) u
    × IsStalled u
    × ((v : Timer) → QuietReach 10 u v → v ≡ u)
unfolding run_init set_timer
Reach-IsStalled_example = Reach-IsStalled 10 (run_init 10) refl refl refl refl refl refl

Reach-deadlock_example :
    (u : Timer) × Timer.Reach 10 (run_init 10) u
    × IsDeadlocked u
    × ((v : Timer) → Timer.Reach 10 u v → IsDeadlocked v)
unfolding run_init set_timer
Reach-deadlock_example = Reach-deadlock 10 (run_init 10) (omega arith) refl refl refl refl refl

-- The timer has fired, and the main loop has received the tick.
abbrev after_tick : Timer
after_tick = record {
  phase = Phase.ticked;
  set = true;
  armed = false;
  main = MainLoop.checking;
  asks = 0;
  checks = 0;
}

OrderlyReach-goes_on_example : (¬ IsStalled after_tick) × (¬ IsDeadlocked after_tick)
unfolding run_init set_timer
OrderlyReach-goes_on_example =
    OrderlyReach-goes_on 10 10 after_tick (omega arith) (omega arith)
      (next (next here (fire refl refl refl) tt) (receive_tick refl refl refl) tt)
