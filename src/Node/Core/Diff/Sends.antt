-- ===== src/Node/Core/Diff/Sends.antt =====
-- What the questions to a core, and its signatures, do to the blocks that its poset has sent: nothing.
use gource.Prelude.{String, List, [], ◌∷◌, Option, none, some, ℤ, Map}
use gource.Common.Exec.{Exec}
use gource.Common.Exec.Steps.{IsOrder, Steps, Steps-pure, Steps-lift, Steps-gets}
use gource.Peers.Peer.{Peer}
use gource.Poset.State.{Env}
use gource.Poset.Block.{Block}
use gource.Poset.Advance.{Asks-Advances}
use gource.Poset.Queries.Caches.{on_store-Asks}
use gource.Node.Signer.{Signer}
use gource.Node.Core.{Core, on_store_of, sign_block}
use gource.Node.Core.Moves.{OfPoset-IsOrder, bind-Moves, store-Moves}
use gource.Node.Core.Diff.{over_sync_limit, event_diff, collect_unknown, events_above, get_events}
use gource.Node.Core.Sync.Blocks.{CoreAdvances}
use gource.Node.Core.Sync.FastForward.{Sends-IsOrder, Advances-Sends, CoreSends}

module _ {env : Env} where
  pub core_order : IsOrder (CoreSends {env = env})
  core_order = OfPoset-IsOrder Sends-IsOrder

  pub advanced : {A : Type 0} (m : Exec (Core env) A) → Steps CoreAdvances m → Steps CoreSends m
  advanced m h = record { at = λ c. (h.at c).blocks }

  pub asked-Sends :
      {A : Type 0} (m : Exec env.store.State A) → Steps (CoreSends {env = env}) (on_store_of m)
  asked-Sends m = store-Moves m (Advances-Sends _ (Asks-Advances _ (on_store-Asks m)))

  get_events-Sends : (es : List String) → Steps CoreSends (get_events {env = env} es)
  unfolding get_events
  get_events-Sends [] = Steps-pure core_order []
  get_events-Sends (e ∷ es) =
      bind-Moves core_order _ _ (asked-Sends _)
        (λ ev. bind-Moves core_order _ _ (get_events-Sends es) (λ rest. Steps-pure core_order _))

  events_above-Sends :
      (peer : Option Peer) (ct : ℤ) → Steps CoreSends (events_above {env = env} peer ct)
  unfolding events_above
  events_above-Sends none ct = Steps-pure core_order []
  events_above-Sends (some peer) ct =
      bind-Moves core_order _ _ (asked-Sends _) (λ hashes. get_events-Sends hashes)

  collect_unknown-Sends : (known : Map ℤ ℤ) → Steps CoreSends (collect_unknown {env = env} known)
  unfolding collect_unknown
  collect_unknown-Sends [] = Steps-pure core_order []
  collect_unknown-Sends ((id, ct) ∷ known) =
      bind-Moves core_order _ _ (Steps-gets core_order _) (λ peer.
        bind-Moves core_order _ _ (events_above-Sends peer ct) (λ events.
          bind-Moves core_order _ _ (collect_unknown-Sends known)
            (λ rest. Steps-pure core_order _)))

  pub event_diff-Sends : (known : Map ℤ ℤ) → Steps CoreSends (event_diff {env = env} known)
  unfolding event_diff
  event_diff-Sends known =
      bind-Moves core_order _ _ (collect_unknown-Sends known) (λ u. Steps-pure core_order _)

  pub over_sync_limit-Sends :
      (known : Map ℤ ℤ) (limit : ℤ) → Steps CoreSends (over_sync_limit {env = env} known limit)
  unfolding over_sync_limit
  over_sync_limit-Sends known limit =
      bind-Moves core_order _ _ (asked-Sends _) (λ mine. Steps-pure core_order _)

  pub sign_block-Sends :
      (signer : Signer) (block : Block) → Steps CoreSends (sign_block {env = env} signer block)
  unfolding sign_block
  sign_block-Sends signer block =
      bind-Moves core_order _ _ (Steps-lift core_order _)
        (λ signature. bind-Moves core_order _ _ (asked-Sends _) (λ _. Steps-pure core_order _))
