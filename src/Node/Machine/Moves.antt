-- ===== src/Node/Machine/Moves.antt =====
-- What the operations of a node do to the blocks that its poset has sent: they only send more.
use gource.Prelude.{
  ℕ, ◌≡◌, refl, ◌∙◌, Bool, List, [], ◌∷◌, ◌++◌, Option, none, some, ℤ, Map, if◌then◌else◌,
}
use gource.Common.Errors.{Error, Result, ok, err}
use gource.Common.Exec.{Exec, pure, lift, gets, modify, attempt, on, ◌>>=◌}
use gource.Common.Exec.Steps.{
  IsOrder, Steps, Steps-bind, Steps-pure, Steps-lift, Steps-gets, Steps-modify, Steps-attempt,
  Steps-if,
}
use gource.Poset.State.{Env}
use gource.Poset.Block.{Block, Frame}
use gource.Poset.Wire.{WireEvent}
use gource.Poset.Process.Progress.{Extends}
use gource.Poset.Advance.{Extends-refl, Extends-trans}
use gource.Node.Signer.{Signer}
use gource.Node.Core
use gource.Node.Core.{Core, on_poset, on_store_of, get_event, known_events, sign_block}
use gource.Node.Core.Diff.{over_sync_limit, event_diff}
use gource.Node.Core.Sync
use gource.Node.Core.Sync.Blocks.{sync-CoreAdvances, run_consensus-CoreAdvances}
use gource.Node.Core.Sync.FastForward.{CoreSends, fast_forward-Sends}
use gource.Node.Core.Diff.Sends.{
  core_order, advanced, asked-Sends, event_diff-Sends, over_sync_limit-Sends, sign_block-Sends,
}
use gource.Node.Machine.{
  Node, App, on_core, on_app, sync, commit, call_commit_block, set_state, NodeState,
}

module _ {env : Env} {app : App} where
  -- Blocks are only sent; none is taken from the channel or given to the application.
  pub record NodeSends (m n : Node env app) : Type 0 where
    pub blocks : Extends m.core.poset.committed n.core.poset.committed
    pub delivered : n.delivered ≡ m.delivered
    pub handed : n.handed ≡ m.handed

  pub NodeSends-IsOrder : IsOrder NodeSends
  NodeSends-IsOrder = record {
    stays = λ m. record {
      blocks = Extends-refl m.core.poset.committed;
      delivered = refl;
      handed = refl;
    };
    chain = λ m n o h k. record {
      blocks =
          Extends-trans m.core.poset.committed n.core.poset.committed o.core.poset.committed
            h.blocks k.blocks;
      delivered = k.delivered ∙ h.delivered;
      handed = k.handed ∙ h.handed;
    };
  }

  pub core-NodeSends :
      {A : Type 0} (m : Exec (Core env) A) → Steps CoreSends m → Steps NodeSends (on_core m)
  unfolding on_core on
  core-NodeSends m h = record {
    at = λ n. record { blocks = h.at n.core; delivered = refl; handed = refl };
  }

  pub app-NodeSends : {A : Type 0} (m : Exec app.State A) → Steps NodeSends (on_app m)
  unfolding on_app on
  app-NodeSends m = record {
    at = λ n. record {
      blocks = Extends-refl n.core.poset.committed;
      delivered = refl;
      handed = refl;
    };
  }

  pub bind-NodeSends :
      {A B : Type 0} (m : Exec (Node env app) A) (f : A → Exec (Node env app) B)
      → Steps NodeSends m
      → ((a : A) → Steps NodeSends (f a))
      → Steps NodeSends (m >>= f)
  bind-NodeSends m f = Steps-bind NodeSends-IsOrder m f

  pub attempt-NodeSends :
      {A B : Type 0} (m : Exec (Node env app) A) (f : Result A → Exec (Node env app) B)
      → Steps NodeSends m
      → ((a : A) → Steps NodeSends (f (ok a)))
      → ((e : Error) → Steps NodeSends (f (err e)))
      → Steps NodeSends (attempt m f)
  attempt-NodeSends m f k h g =
      Steps-attempt NodeSends-IsOrder m f k
        (λ r. elim r as (λ r. Steps NodeSends (f r)) [ ok a ↦ h a | err e ↦ g e ])

  pub option-NodeSends :
      {A B : Type 0} (o : Option A) (m : Exec (Node env app) B) (f : A → Exec (Node env app) B)
      → Steps NodeSends m
      → ((a : A) → Steps NodeSends (f a))
      → Steps NodeSends (elim o [ none ↦ m | some a ↦ f a ])
  option-NodeSends none m f k h = k
  option-NodeSends (some a) m f k h = h a

  pub if-NodeSends :
      {A : Type 0} (b : Bool) (m n : Exec (Node env app) A)
      → Steps NodeSends m
      → Steps NodeSends n
      → Steps NodeSends (if b then m else n)
  if-NodeSends b m n k l = Steps-if NodeSends-IsOrder b m n (λ _. k) (λ _. l)

  pub pure-NodeSends : {A : Type 0} (a : A) → Steps NodeSends (pure a)
  pure-NodeSends a = Steps-pure NodeSends-IsOrder a

  pub gets-NodeSends : {A : Type 0} (f : Node env app → A) → Steps NodeSends (gets f)
  gets-NodeSends f = Steps-gets NodeSends-IsOrder f

  pub lift-NodeSends : {A : Type 0} (r : Result A) → Steps NodeSends (lift r)
  lift-NodeSends r = Steps-lift NodeSends-IsOrder r

  pub set_state-NodeSends : (state : NodeState) → Steps NodeSends (modify (set_state state))
  unfolding set_state
  set_state-NodeSends state = Steps-modify NodeSends-IsOrder _ (λ n. record {
    blocks = Extends-refl n.core.poset.committed;
    delivered = refl;
    handed = refl;
  })

  pub diff-NodeSends : (known : Map ℤ ℤ) → Steps NodeSends (on_core (event_diff known))
  diff-NodeSends known = core-NodeSends _ (event_diff-Sends known)

  pub limit-NodeSends :
      (known : Map ℤ ℤ) (limit : ℤ) → Steps NodeSends (on_core (over_sync_limit known limit))
  limit-NodeSends known limit = core-NodeSends _ (over_sync_limit-Sends known limit)

  pub known-NodeSends : Steps NodeSends (on_core known_events)
  known-NodeSends = core-NodeSends _ (asked-Sends _)

  pub sync-NodeSends :
      (signer : Signer) (fuel : ℕ) (events : List WireEvent)
      → Steps NodeSends (sync signer fuel events)
  unfolding sync
  sync-NodeSends signer fuel events =
      bind-NodeSends _ _ (core-NodeSends _ (advanced _ (sync-CoreAdvances signer events)))
        (λ _. core-NodeSends _ (advanced _ (run_consensus-CoreAdvances fuel)))

  pub fast_forward-NodeSends :
      (signer : Signer) (fuel : ℕ) (block : Block) (frame : Frame)
      → Steps NodeSends (on_core (Sync.fast_forward signer fuel block frame))
  fast_forward-NodeSends signer fuel block frame =
      core-NodeSends _ (fast_forward-Sends signer fuel block frame)

  -- `commit` records one call of `CommitBlock`; the blocks that were sent stay sent.
  pub commit_lem :
      (signer : Signer) (block : Block) (n : Node env app)
      → NodeSends (record n { handed = n.handed ++ block ∷ [] }) (commit signer block n).1
  unfolding commit attempt call_commit_block Core.add_block_signature
  commit_lem signer block n =
      let (result, state) = app.commit_block block n.app_state in
      let h =
        (bind-NodeSends _ _ (core-NodeSends _ (sign_block-Sends signer _)) (λ bs.
            core-NodeSends _ (Steps-modify core_order _ (λ c. Extends-refl c.poset.committed)))).at
          (record n { app_state = state; handed = n.handed ++ block ∷ [] }) in
      record { blocks = h.blocks; delivered = h.delivered; handed = h.handed }

pub ruleset sends = (
  bind-NodeSends, attempt-NodeSends, option-NodeSends, if-NodeSends, pure-NodeSends, gets-NodeSends,
  lift-NodeSends, set_state-NodeSends, diff-NodeSends, limit-NodeSends, known-NodeSends,
  sync-NodeSends, fast_forward-NodeSends, app-NodeSends,
)
