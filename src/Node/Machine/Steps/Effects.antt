-- ===== src/Node/Machine/Steps/Effects.antt =====
-- What each step of a node does to the blocks that its poset has sent.
use gource.Prelude.{◌++◌, ◌∷◌, ℕ, ◌+◌, refl, String, [], none, some, ℤ, Map}
use gource.Common.Errors.{Result}
use gource.Common.Exec.{attempt, pure, modify, ◌>>=◌}
use gource.Common.Exec.Steps.{Steps, Steps-modify, Steps-attempt}
use gource.Poset.State.{Env}
use gource.Poset.Block.{Block}
use gource.Poset.Advance.{Extends-refl, Asks-Advances}
use gource.Poset.Reset.{get_anchor_block_with_frame}
use gource.Poset.Queries.Caches.{
  Asks, on_store-Asks, bind-Asks, pure-Asks, raise-Asks, option-Asks, gets-Asks,
}
use gource.Poset.Queries.Frames.{get_frame-Asks}
use gource.Node.Signer.{Signer}
use gource.Node.Messages.{
  SyncRequest, SyncResponse, EagerSyncRequest, EagerSyncResponse, FastForwardRequest,
  FastForwardResponse, Command, sync_request, eager_sync_request, fast_forward_request, unexpected,
}
use gource.Node.Core.Moves.{on_poset-Moves}
use gource.Node.Core.Sync.FastForward.{Advances-Sends}
use gource.Node.Machine.{Node, App, commit_next, gossiping, catching_up}
use gource.Node.Machine.Handlers.{
  process_sync_request, process_eager_sync_request, process_fast_forward_request, process_rpc,
}
use gource.Node.Machine.Gossip.{
  pull_request, pull_answer, pulled, push_request, pushed, update_last, fast_forwarded,
}
use gource.Node.Machine.Moves.{
  sends, NodeSends, NodeSends-IsOrder, core-NodeSends, app-NodeSends, bind-NodeSends,
  attempt-NodeSends, option-NodeSends, if-NodeSends, pure-NodeSends, gets-NodeSends, lift-NodeSends,
  set_state-NodeSends, diff-NodeSends, limit-NodeSends, known-NodeSends, sync-NodeSends,
  fast_forward-NodeSends, commit_lem,
}

module _ {env : Env} where
  anchor-Asks : (fuel : ℕ) → Asks (get_anchor_block_with_frame {env = env} fuel)
  unfolding get_anchor_block_with_frame
  anchor-Asks fuel = bind-Asks _ _ (gets-Asks _) (λ anchor.
      option-Asks anchor _ _ (raise-Asks _) (λ i. bind-Asks _ _ (on_store-Asks _) (λ block.
        bind-Asks _ _ (get_frame-Asks fuel block.round_received)
          (λ frame. pure-Asks (block, frame)))))

module _ {env : Env} {app : App} where
  process_sync_request-Sends :
      (cmd : SyncRequest) → Steps NodeSends (process_sync_request {env = env} {app = app} cmd)
  unfolding process_sync_request
  process_sync_request-Sends cmd = bind-NodeSends _ _ (gets-NodeSends _) (λ id.
      bind-NodeSends _ _ (gets-NodeSends _) (λ limit.
        bind-NodeSends _ _ (limit-NodeSends cmd.known limit) (λ over.
          bind-NodeSends _ _
            (if-NodeSends over _ _ (pure-NodeSends ([], none)) (
              Steps-attempt NodeSends-IsOrder _ _ (diff-NodeSends cmd.known)
                (λ diff. pure-NodeSends _)))
            (λ events. bind-NodeSends _ _ known-NodeSends (λ known. pure-NodeSends _)))))

  process_eager_sync_request-Sends :
      (signer : Signer) (fuel : ℕ) (cmd : EagerSyncRequest)
      → Steps NodeSends (process_eager_sync_request {env = env} {app = app} signer fuel cmd)
  unfolding process_eager_sync_request
  process_eager_sync_request-Sends signer fuel cmd = bind-NodeSends _ _ (gets-NodeSends _) (λ id.
      Steps-attempt NodeSends-IsOrder _ _ (sync-NodeSends signer fuel cmd.events)
        (λ res. pure-NodeSends _))

  process_fast_forward_request-Sends :
      (fuel : ℕ) (cmd : FastForwardRequest)
      → Steps NodeSends (process_fast_forward_request {env = env} {app = app} fuel cmd)
  unfolding process_fast_forward_request
  process_fast_forward_request-Sends fuel cmd = bind-NodeSends _ _ (gets-NodeSends _) (λ id.
      attempt-NodeSends _ _
        (core-NodeSends _
          (on_poset-Moves _ (Advances-Sends _ (Asks-Advances _ (anchor-Asks fuel)))))
        (λ bf. Steps-attempt NodeSends-IsOrder _ _ (app-NodeSends _) (λ snapshot. pure-NodeSends _))
        (λ e. pure-NodeSends _))

  pub process_rpc-Sends :
      (signer : Signer) (fuel : ℕ) (cmd : Command)
      → Steps NodeSends (process_rpc {env = env} {app = app} signer fuel cmd)
  unfolding process_rpc
  process_rpc-Sends signer fuel (sync_request c) =
      bind-NodeSends _ _ (process_sync_request-Sends c) (λ r. pure-NodeSends _)
  process_rpc-Sends signer fuel (eager_sync_request c) =
      bind-NodeSends _ _ (process_eager_sync_request-Sends signer fuel c) (λ r. pure-NodeSends _)
  process_rpc-Sends signer fuel (fast_forward_request c) =
      bind-NodeSends _ _ (process_fast_forward_request-Sends fuel c) (λ r. pure-NodeSends _)
  process_rpc-Sends signer fuel unexpected = pure-NodeSends _

  pub pull_request-Sends : Steps NodeSends (pull_request {env = env} {app = app})
  unfolding pull_request
  pull_request-Sends = search sends

  pub pulled-Sends :
      (signer : Signer) (fuel : ℕ) (answer : Result SyncResponse)
      → Steps NodeSends (pulled {env = env} {app = app} signer fuel answer)
  unfolding pulled pull_answer
  pulled-Sends signer fuel answer =
      bind-NodeSends _ _
        (bind-NodeSends _ _ (lift-NodeSends answer) (λ resp.
          if-NodeSends resp.sync_limit _ _ (pure-NodeSends none)
            (bind-NodeSends _ _ (sync-NodeSends signer fuel resp.events) (λ _. pure-NodeSends _))))
        (λ known.
          option-NodeSends known _ _
            (bind-NodeSends _ _ (set_state-NodeSends catching_up) (λ _. pure-NodeSends none))
            (λ k. pure-NodeSends (some k)))

  pub push_request-Sends :
      (known : Map ℤ ℤ) → Steps NodeSends (push_request {env = env} {app = app} known)
  unfolding push_request
  push_request-Sends known = search sends depth 9

  noted :
      (f : Node env app → Node env app)
      → ((n : Node env app) → NodeSends n (f n))
      → Steps NodeSends (modify f)
  noted f h = Steps-modify NodeSends-IsOrder f h

  pub pushed-Sends :
      (peer : String) (answer : Result EagerSyncResponse)
      → Steps NodeSends (pushed {env = env} {app = app} peer answer)
  unfolding pushed update_last
  pushed-Sends peer answer = bind-NodeSends _ _ (lift-NodeSends answer) (λ _. noted _ (λ n. record {
    blocks = Extends-refl n.core.poset.committed;
    delivered = refl;
    handed = refl;
  }))

  pub fast_forwarded-Sends :
      (signer : Signer) (fuel : ℕ) (answer : Result FastForwardResponse)
      → Steps NodeSends (fast_forwarded {env = env} {app = app} signer fuel answer)
  unfolding fast_forwarded
  fast_forwarded-Sends signer fuel answer = bind-NodeSends _ _ (lift-NodeSends answer) (λ resp.
      bind-NodeSends _ _ (lift-NodeSends _) (λ bf.
        bind-NodeSends _ _ (fast_forward-NodeSends signer fuel bf.0 bf.1)
          (λ _. bind-NodeSends _ _ (app-NodeSends _) (λ _. set_state-NodeSends gossiping))))

  -- A block that is taken from the channel is counted, and `CommitBlock` is called with it; no block leaves the
  -- list of those that were sent.
  pub commit_next_lem :
      (signer : Signer) (block : Block) (n : Node env app)
      → NodeSends
          (record n { delivered = n.delivered + 1; handed = n.handed ++ block ∷ [] })
          (commit_next signer block n).1
  unfolding commit_next modify attempt pure ◌>>=◌
  commit_next_lem signer block n =
      let h = commit_lem signer block (record n { delivered = n.delivered + 1 }) in
      record { blocks = h.blocks; delivered = h.delivered; handed = h.handed }
