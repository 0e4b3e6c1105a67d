-- ===== src/Node/Machine.antt =====
-- src/node/node.go: the node, and what its goroutines do between two places where they wait: for an
-- answer of a peer, or for the lock of the core. The application behind the proxy is a parameter.
pub mod Handlers
pub mod Gossip
pub mod Moves
pub mod Steps
use gource.Prelude.{
  ℕ, ◌+◌, String, Bool, true, false, ◌&&◌, List, [], ◌∷◌, ◌++◌, Option, none, some, ℤ, pos, eqb_ℤ,
  length, get_elem?, if◌then◌else◌,
}
use gource.Common.Errors.{Error, Result, ok, err}
use gource.Common.Exec.{Exec, pure, raise, gets, modify, attempt, on, ◌>>=◌, ◌>>◌}
use gource.Poset.Event.{Event, InternalTransaction}
use gource.Poset.Block.{Block}
use gource.Poset.State.{Env}
use gource.Poset.Wire.{WireEvent}
use gource.Node.Signer.{Signer}
use gource.Node.Core
use gource.Node.Core.{Core}
use gource.Node.Core.Sync
use gource.Node.Selector.{SmartPeerSelector}

pub data NodeState : Type 0 where
  gossiping catching_up shutdown : NodeState

-- The application, through the interface `AppProxy` (src/proxy/proxy.go).
pub record App : Type 1 where
  pub State : Type 0
  pub commit_block : Block → Exec State (List ℕ)
  pub get_snapshot : ℤ → Exec State (List ℕ)
  pub restore : List ℕ → Exec State Unit

module _ (env : Env) (app : App) where
  -- `delivered` counts the blocks that have been taken from `commitCh`; the others wait in it. `handed` is the
  -- record of the calls of the application's `CommitBlock`, oldest first.
  pub record Node : Type 0 where
    pub state : NodeState
    pub id : ℤ
    pub core : Core env
    pub sync_limit : ℤ
    pub selector : SmartPeerSelector
    pub app_state : app.State
    pub need_bootstrap : Bool
    pub delivered : ℕ
    pub handed : List Block
    -- `shutdownCh` is closed
    pub stopping : Bool
    pub timer_stopped : Bool
    -- the transport and the store are closed
    pub closed : Bool

-- time.Second, in nanoseconds.
abbrev pub second : ℕ
second = 1000000000

module _ {env : Env} {app : App} where
  unfoldable pub on_core : {A : Type 0} → Exec (Core env) A → Exec (Node env app) A
  unfolding on
  on_core m = on (λ n. n.core) (λ c n. record n { core = c }) m

  unfoldable pub on_app : {A : Type 0} → Exec app.State A → Exec (Node env app) A
  unfolding on
  on_app m = on (λ n. n.app_state) (λ a n. record n { app_state = a }) m

  -- `n.proxy.CommitBlock(block)`
  unfoldable pub call_commit_block : Block → Exec (Node env app) (List ℕ)
  call_commit_block block n =
      let (result, state) = app.commit_block block n.app_state in
      (result, record n { app_state = state; handed = n.handed ++ block ∷ [] })

  unfoldable pub set_state : NodeState → Node env app → Node env app
  set_state state n = record n { state = state }

  -- The time that `resetTimer` asks for: it slows down where there is nothing to tell.
  unfoldable pub heartbeat : ℕ → Node env app → ℕ
  heartbeat timeout n =
      if eqb_ℤ n.core.poset.pending_loaded_events (pos 0)
        && Sync.is_empty n.core.transaction_pool
        && Sync.is_empty n.core.block_signature_pool
      then second
      else timeout

  unfoldable pub add_transaction : List ℕ → Node env app → Node env app
  add_transaction tx n = record n { core = Core.add_transactions (tx ∷ []) n.core }

  unfoldable pub add_internal_transaction : InternalTransaction → Node env app → Node env app
  add_internal_transaction tx n = record n {
    core = Core.add_internal_transactions (tx ∷ []) n.core;
  }

  -- `Shutdown` up to its wait for the other goroutines.
  unfoldable pub begin_shutdown : Node env app → Node env app
  begin_shutdown n = elim n.state [
    | shutdown ↦ n
    | _ ↦ record n { state = shutdown; stopping = true }
  ]

  -- The rest of it.
  unfoldable pub end_shutdown : Node env app → Node env app
  end_shutdown n = record n { timer_stopped = true; closed = true }

  -- An error of the application is only logged. The block gets a state hash that is always the same.
  unfoldable pub commit : Signer → Block → Exec (Node env app) Unit
  commit signer block = attempt (call_commit_block block) λ _. (do
    bs ← on_core (Core.sign_block signer (record block { state_hash = 0 ∷ 1 ∷ 2 ∷ [] }))
    on_core (modify (Core.add_block_signature bs)))

  -- `case block := <-n.commitCh`; an error of `commit` is only logged.
  unfoldable pub commit_next : Signer → Block → Exec (Node env app) Unit
  commit_next signer block = do
    modify (λ n. record n { delivered = n.delivered + 1 })
    attempt (commit signer block) (λ _. pure tt)

  unfoldable pub sync : Signer → ℕ → List WireEvent → Exec (Node env app) Unit
  sync signer fuel events = do on_core (Sync.sync signer events); on_core (Core.run_consensus fuel)

  -- `Init`
  unfoldable pub init :
      Signer → ℕ → Option (Exec env.store.State (List Event)) → Exec (Node env app) Unit
  init signer fuel topological_events = do
    need ← gets (λ n. n.need_bootstrap)
    (if need then on_core (Core.bootstrap fuel topological_events) else pure tt)
    on_core (Core.set_head_and_seq signer)

unfoldable pub new_node :
    {env : Env} {app : App} → ℤ → Core env → ℤ → SmartPeerSelector → app.State → Bool → Node env app
new_node id core sync_limit selector app_state need_bootstrap = record {
  state = gossiping;
  id = id;
  core = core;
  sync_limit = sync_limit;
  selector = selector;
  app_state = app_state;
  need_bootstrap = need_bootstrap;
  delivered = 0;
  handed = [];
  stopping = false;
  timer_stopped = false;
  closed = false;
}
