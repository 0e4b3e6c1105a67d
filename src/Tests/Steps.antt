-- ===== src/Tests/Steps.antt =====
-- The theorems on the goroutines of src/node/node.go at concrete inputs.
use gource.Prelude.{ℕ, suc, ◌≡◌, refl, true, false, List, [], ◌∷◌, ◌++◌, pos, length}
use gource.Common.Errors.{ok}
use gource.Poset.Block.{Block}
use gource.Node.Machine.{App, Node, new_node, commit_next, shutdown, catching_up}
use gource.Node.Machine.Steps.{
  Machine, Reach, start, pulling, running, catching, here, next, deliver,
}
use gource.Node.Machine.Steps.Delivery.{Reach-delivered}
use gource.Node.Machine.Steps.Stopping.{Reach-catching}
use gource.Tests.Consensus.{env, poset, block}
use gource.Tests.Node.{signer, core, smart}

-- An application that counts the blocks.
abbrev app : App
app = record {
  State = ℕ;
  commit_block = λ b n. (ok [], suc n);
  get_snapshot = λ i n. (ok [], n);
  restore = λ s n. (ok tt, n);
}

-- A node whose poset has sent two blocks.
abbrev node : Node env app
node =
    new_node (pos 3) (record core { poset = record poset { committed = block ∷ block ∷ [] } })
      (pos 100) smart 0 false

-- It has handed over the first one.
abbrev handing : Machine env app
handing = record (start node) { node = (commit_next signer block node).1 }

Reach-delivered_example :
    (waiting : List Block) × (handing.node.core.poset.committed ≡ handing.node.handed ++ waiting)
    × (handing.node.delivered ≡ length handing.node.handed)
unfolding start new_node
Reach-delivered_example =
    Reach-delivered signer node handing refl refl (next here (deliver block refl refl))

abbrev pulls : Machine env app
pulls = record (start node) { loop = running; jobs = pulling "b:1" ∷ [] }

Reach-catching_example :
    (stopped : Machine env app) × Reach signer pulls stopped
    × (stopped.node.state ≡ shutdown)
    × (stopped.node.stopping ≡ true)
    × (u : Machine env app) × Reach signer stopped u
    × (u.node.state ≡ catching_up)
    × (u.node.stopping ≡ true)
    × (u.jobs ≡ [])
    × (u.loop ≡ catching)
unfolding start new_node
Reach-catching_example = Reach-catching signer 4 "b:1" pulls refl refl refl
