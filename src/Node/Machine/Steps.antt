-- ===== src/Node/Machine/Steps.antt =====
-- src/node/node.go: the goroutines of a node as a step relation. The main loop (`Run`) reads the state and
-- runs `lachesis` or `fastForward`; the jobs are the goroutines that `lachesis` starts; the
-- background work takes transactions and blocks. A handler and each part of `gossip` between two waits
-- is one step, and a tick may come at any time. The answers of peers are arbitrary: a step chooses them.
pub mod Effects
pub mod Delivery
pub mod Stopping
use gource.Prelude.{
  ℕ, suc, ◌+◌, ◌≡◌, ◌⊎◌, ◌<◌, String, Bool, true, List, [], ◌∷◌, ◌++◌, Option, none, some, ℤ, Map,
  get_elem?,
}
use gource.Common.Errors.{Error, Result, ok, err}
use gource.Poset.Event.{InternalTransaction}
use gource.Poset.Block.{Block}
use gource.Poset.State.{Env}
use gource.Peers.Peer.{Peer}
use gource.Node.Signer.{Signer}
use gource.Node.Selector.{SmartPeerSelector, smart_next}
use gource.Node.Messages.{
  SyncResponse, EagerSyncRequest, EagerSyncResponse, FastForwardResponse, Command,
}
use gource.Node.Machine.{
  Node, App, NodeState, gossiping, catching_up, shutdown, add_transaction, add_internal_transaction,
  begin_shutdown, end_shutdown, commit_next,
}
use gource.Node.Machine.Handlers.{process_rpc}
use gource.Node.Machine.Gossip.{
  pull_request, pulled, push_request, pushed, update_last, fast_forwarded,
}

-- The goroutines that `lachesis` starts: one for a request that it has received, and a call of `gossip`,
-- which waits for the answer to its pull, for the lock before its push, or for the answer to its push.
pub data Job : Type 0 where
  serving : Command → Job
  pulling : String → Job
  to_push : String → Map ℤ ℤ → Job
  pushing : String → Job

-- Where the main loop stands: before it reads the state, in `lachesis`, in `fastForward` before and after
-- its request, and behind its end.
pub data Loop : Type 0 where
  reading running catching asking finished : Loop

-- What `Run` does with the state that it has read.
unfoldable pub enter : NodeState → Loop
enter gossiping = running
enter catching_up = catching
enter shutdown = finished

module _ (env : Env) (app : App) where
  -- `returns` counts the signals in `returnCh`.
  pub record Machine : Type 0 where
    pub node : Node env app
    pub jobs : List Job
    pub loop : Loop
    pub returns : ℕ

-- A pull: it ends on an error, ends with a signal where the limit is passed, or goes on.
unfoldable pub after_pull : String → Result (Option (Map ℤ ℤ)) → List Job
after_pull peer (err e) = []
after_pull peer (ok none) = []
after_pull peer (ok (some known)) = to_push peer known ∷ []

unfoldable pub signals : Result (Option (Map ℤ ℤ)) → ℕ → ℕ
signals (err e) n = n
signals (ok none) n = suc n
signals (ok (some known)) n = n

unfoldable pub after_push : String → Result (Option EagerSyncRequest) → List Job
after_push peer (err e) = []
after_push peer (ok none) = []
after_push peer (ok (some request)) = pushing peer ∷ []

module _ {env : Env} {app : App} where
  -- Without a request `gossip` goes straight to the selector.
  unfoldable pub note_push : String → Result (Option EagerSyncRequest) → Node env app → Node env app
  note_push peer (err e) n = n
  note_push peer (ok none) n = update_last peer n
  note_push peer (ok (some request)) n = n

  module _ (signer : Signer) (t u : Machine env app) where
    pub data Step : Type 0 where
      read : t.loop ≡ reading → u ≡ record t { loop = enter t.node.state; returns = 0 } → Step
      leave :
          t.loop ≡ running
          → ((0 < t.returns) ⊎ (t.node.stopping ≡ true))
          → u ≡ record t { loop = reading }
          → Step
      rpc : (cmd : Command) → t.loop ≡ running → u ≡ record t { jobs = serving cmd ∷ t.jobs } → Step
      serve :
          (fuel : ℕ) (before after : List Job) (cmd : Command)
          → t.jobs ≡ before ++ (serving cmd ∷ after)
          → u ≡ record t { node = (process_rpc signer fuel cmd t.node).1; jobs = before ++ after }
          → Step
      start_gossip :
          (draw : ℕ) (peer : Peer) (selector : SmartPeerSelector)
          → t.loop ≡ running
          → smart_next draw t.node.selector ≡ ok (peer, selector)
          → u ≡ record t {
            node = (pull_request (record t.node { selector = selector })).1;
            jobs = pulling peer.net_addr ∷ t.jobs;
          }
          → Step
      answer_pull :
          (fuel : ℕ) (before after : List Job) (peer : String) (answer : Result SyncResponse)
          → t.jobs ≡ before ++ (pulling peer ∷ after)
          → u ≡ (
              let (r, n) = pulled signer fuel answer t.node in
              record t {
                node = n;
                jobs = before ++ (after_pull peer r ++ after);
                returns = signals r t.returns;
              })
          → Step
      push :
          (before after : List Job) (peer : String) (known : Map ℤ ℤ)
          → t.jobs ≡ before ++ (to_push peer known ∷ after)
          → u ≡ (
              let (r, n) = push_request known t.node in
              record t { node = note_push peer r n; jobs = before ++ (after_push peer r ++ after) })
          → Step
      answer_push :
          (before after : List Job) (peer : String) (answer : Result EagerSyncResponse)
          → t.jobs ≡ before ++ (pushing peer ∷ after)
          → u ≡ record t { node = (pushed peer answer t.node).1; jobs = before ++ after }
          → Step
      ask_fast_forward :
          (draw : ℕ) (peer : Peer) (selector : SmartPeerSelector)
          → t.loop ≡ catching
          → t.jobs ≡ []
          → smart_next draw t.node.selector ≡ ok (peer, selector)
          → u ≡ record t { loop = asking; node = record t.node { selector = selector } }
          → Step
      answer_fast_forward :
          (fuel : ℕ) (answer : Result FastForwardResponse)
          → t.loop ≡ asking
          → u ≡ record t { loop = reading; node = (fast_forwarded signer fuel answer t.node).1 }
          → Step
      transaction : (tx : List ℕ) → u ≡ record t { node = add_transaction tx t.node } → Step
      internal_transaction :
          (tx : InternalTransaction)
          → u ≡ record t { node = add_internal_transaction tx t.node }
          → Step
      deliver :
          (block : Block)
          → get_elem? t.node.core.poset.committed t.node.delivered ≡ some block
          → u ≡ record t { node = (commit_next signer block t.node).1 }
          → Step
      stop : u ≡ record t { node = begin_shutdown t.node } → Step
      stopped :
          t.node.stopping ≡ true → t.jobs ≡ [] → u ≡ record t { node = end_shutdown t.node } → Step

  module _ (signer : Signer) (t : Machine env app) where
    pub data Reach : Machine env app → Type 0 where
      here : Reach t
      next : {u v : Machine env app} → Reach u → Step signer u v → Reach v

  -- `Run` of a node.
  unfoldable pub start : Node env app → Machine env app
  start n = record { node = n; jobs = []; loop = reading; returns = 0 }
