-- ===== src/Poset/Bootstrap.antt =====
-- src/poset/poset.go: `Bootstrap`, which replays the events of the database. `dbTopologicalEvents` of a
-- `BadgerStore` is a parameter; a store that is no `BadgerStore` has none, and there is nothing to do.
use gource.Prelude.{ℕ, true, List, Option, none, some}
use gource.Common.Exec.{Exec, pure, for_each, ◌>>=◌, ◌>>◌}
use gource.Poset.Event.{Event}
use gource.Poset.State.{Env, Poset, on_store}
use gource.Poset.Insert.{insert_event}
use gource.Poset.Divide.{divide_rounds}
use gource.Poset.Fame.{decide_fame}
use gource.Poset.Received.{decide_round_received}
use gource.Poset.Process.{process_decided_rounds}
use gource.Poset.Signatures.{process_sig_pool}

module _ {env : Env} where
  -- The five steps of the consensus, in the order of `Bootstrap` and of `RunConsensus` of src/node/core.go.
  unfoldable pub consensus_steps : ℕ → Exec (Poset env) Unit
  consensus_steps fuel = do
    divide_rounds fuel
    decide_fame fuel
    decide_round_received fuel
    process_decided_rounds fuel
    process_sig_pool

  unfoldable pub bootstrap : ℕ → Option (Exec env.store.State (List Event)) → Exec (Poset env) Unit
  bootstrap fuel topological_events = elim topological_events [
    | none ↦ pure tt
    | some read ↦ do
      events ← on_store read
      for_each events (λ e. insert_event e true)
      consensus_steps fuel
  ]
