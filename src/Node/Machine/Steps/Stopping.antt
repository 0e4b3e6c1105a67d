-- ===== src/Node/Machine/Steps/Stopping.antt =====
-- src/node/node.go: `Shutdown` while a call of `gossip` waits for an answer.
use gource.Prelude.{ℕ, suc, pos, ◌≡◌, refl, sym, ap, true, String, [], ◌∷◌, inr}
use gource.Common.Errors.{ok}
use gource.Common.Exec.{pure, lift, modify, ◌>>=◌}
use gource.Poset.State.{Env}
use gource.Node.Signer.{Signer}
use gource.Node.Messages.{SyncResponse}
use gource.Node.Machine.{Node, App, gossiping, catching_up, shutdown, begin_shutdown, set_state}
use gource.Node.Machine.Gossip.{pulled, pull_answer}
use gource.Node.Machine.Steps.{
  Machine, Reach, pulling, running, reading, catching, enter, after_pull, signals, stop,
  answer_pull, leave, read, here, next,
}

-- An answer that the sync limit is passed.
abbrev too_far : SyncResponse
too_far = record { from_id = pos 0; sync_limit = true; events = []; known = [] }

module _ {env : Env} {app : App} where
  begin_shutdown_lem :
      (n : Node env app)
      → n.state ≡ gossiping
      → begin_shutdown n ≡ record n { state = shutdown; stopping = true }
  unfolding begin_shutdown
  begin_shutdown_lem n h =
      ap (λ state. elim state [ shutdown ↦ n | _ ↦ record n { state = shutdown; stopping = true } ])
        h

  -- Let the main loop be in `lachesis`, and one call of `gossip` wait for the answer to its pull. `Shutdown` may
  -- set the state to `Shutdown` then, and from there on an answer that says that the sync limit is passed leads to
  -- a machine whose state is `CatchingUp`, and whose main loop, which would end on the state `Shutdown` alone, has
  -- gone on to `fastForward`, with no job left to wait for.
  pub Reach-catching :
      (signer : Signer) (fuel : ℕ) (peer : String) (t : Machine env app)
      → t.loop ≡ running
      → t.node.state ≡ gossiping
      → t.jobs ≡ pulling peer ∷ []
      → (stopped : Machine env app) × Reach signer t stopped
        × (stopped.node.state ≡ shutdown)
        × (stopped.node.stopping ≡ true)
        × (u : Machine env app) × Reach signer stopped u
        × (u.node.state ≡ catching_up)
        × (u.node.stopping ≡ true)
        × (u.jobs ≡ [])
        × (u.loop ≡ catching)
  unfolding pulled pull_answer after_pull signals set_state enter pure lift modify ◌>>=◌
  Reach-catching signer fuel peer t l s j =
      let t1 : Machine env app = record t {
        node = record t.node { state = shutdown; stopping = true };
      } in
      let t2 : Machine env app = record t1 {
        node = record t.node { state = catching_up; stopping = true };
        jobs = [];
        returns = suc t.returns;
      } in
      let t3 : Machine env app = record t2 { loop = reading } in
      let t4 : Machine env app = record t2 { loop = catching; returns = 0 } in
      (
        t1,
        next here (stop (ap (λ n. record t { node = n }) (sym (begin_shutdown_lem t.node s)))),
        refl,
        refl,
        t4,
        next
            (next (next here (answer_pull fuel [] [] peer (ok too_far) j refl))
              (leave l (inr refl) refl))
            (read refl refl),
        refl,
        refl,
        refl,
        refl,
      )
