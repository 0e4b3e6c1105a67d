-- ===== src/Node/Machine/Steps/Delivery.antt =====
-- src/node/node.go with the channel `commitCh` of a poset: what the application is given, over all the
-- steps of a node.
use gource.Prelude.{
  ℕ, ◌+◌, ◌≡◌, refl, sym, ap, ◌∙◌, true, String, List, [], ◌∷◌, ◌++◌, Option, none, some, length,
  length-append, get_elem?,
}
use gource.Common.Errors.{Result, ok, err}
use gource.Poset.Block.{Block}
use gource.Poset.State.{Env}
use gource.Poset.Process.Progress.{Extends}
use gource.Poset.Advance.{Extends-refl, Extends-of-eq, Extends-trans}
use gource.Node.Signer.{Signer}
use gource.Node.Messages.{EagerSyncRequest}
use gource.Poset.Event.{InternalTransaction}
use gource.Node.Core.{add_transactions, add_internal_transactions}
use native.Mathlib.Omega.{arith}
use gource.Node.Machine.{
  Node, App, NodeState, begin_shutdown, end_shutdown, add_transaction, add_internal_transaction,
  commit_next, shutdown, gossiping, catching_up,
}
use gource.Node.Machine.Moves.{NodeSends}
use gource.Node.Machine.Gossip.{update_last, push_request}
use gource.Node.Machine.Steps.{
  Machine, Step, Reach, start, note_push, read, leave, rpc, serve, start_gossip, answer_pull, push,
  answer_push, ask_fast_forward, answer_fast_forward, transaction, internal_transaction, deliver,
  stop, stopped, here, next,
}
use gource.Node.Machine.Steps.Effects.{
  process_rpc-Sends, pull_request-Sends, pulled-Sends, push_request-Sends, pushed-Sends,
  fast_forwarded-Sends, commit_next_lem,
}

module _ {A : Type 0} where
  -- What stands behind a prefix begins with the element at the prefix's length.
  next_of :
      (l m : List A) (a : A)
      → get_elem? (l ++ m) (length l) ≡ some a
      → (rest : List A) × (l ++ m ≡ (l ++ a ∷ []) ++ rest)
  next_of [] [] a h = absurd (ground arith)
  next_of [] (b ∷ m) a h = (m, ground arith)
  next_of (x ∷ l) m a h = let (rest, e) = next_of l m a h in (rest, ap (λ l. x ∷ l) e)

  following :
      (l m : List A) (a : A)
      → Extends l m
      → get_elem? m (length l) ≡ some a
      → Extends (l ++ a ∷ []) m
  following l m a (w, e) h =
      let (rest, f) = next_of l w a (ap (λ m. get_elem? m (length l)) (sym e) ∙ h) in (rest, e ∙ f)

  Extends-nil : (l : List A) → Extends [] l
  Extends-nil l = (l, refl)

  length-snoc : (l : List A) (a : A) → length (l ++ a ∷ []) ≡ length l + 1
  length-snoc l a = length-append l (a ∷ [])

module _ {env : Env} {app : App} where
  -- The blocks that were sent begin with the ones that were handed over, and the node counts those.
  pub record Delivers (t : Machine env app) : Type 0 where
    pub order : Extends t.node.handed t.node.core.poset.committed
    pub count : t.node.delivered ≡ length t.node.handed

  -- A step that hands nothing over.
  carried : (t u : Machine env app) → NodeSends t.node u.node → Delivers t → Delivers u
  carried t u h d = record {
    order = rw h.handed (
        Extends-trans t.node.handed t.node.core.poset.committed u.node.core.poset.committed d.order
          h.blocks);
    count = h.delivered ∙ d.count ∙ sym (ap length h.handed);
  }

  stays : (n : Node env app) → NodeSends n n
  stays n = record { blocks = Extends-refl n.core.poset.committed; delivered = refl; handed = refl }

  handed_over :
      (signer : Signer) (block : Block) (t : Machine env app)
      → get_elem? t.node.core.poset.committed t.node.delivered ≡ some block
      → Delivers t
      → Delivers (record t { node = (commit_next signer block t.node).1 })
  handed_over signer block t h d =
      let now = commit_next_lem signer block t.node in
      record {
        order = rw now.handed (
            Extends-trans (t.node.handed ++ block ∷ []) t.node.core.poset.committed
              (commit_next signer block t.node).1.core.poset.committed
              (following t.node.handed t.node.core.poset.committed block d.order
                (ap (get_elem? t.node.core.poset.committed) (sym d.count) ∙ h))
              now.blocks);
        count =
            now.delivered
            ∙ ap (λ n. n + 1) d.count
            ∙ sym (length-snoc t.node.handed block)
            ∙ sym (ap length now.handed);
      }

  note_push_lem :
      (peer : String) (r : Result (Option EagerSyncRequest)) (m n : Node env app)
      → NodeSends m n
      → NodeSends m (note_push peer r n)
  unfolding note_push update_last
  note_push_lem peer (err e) m n h = h
  note_push_lem peer (ok none) m n h = record {
    blocks = h.blocks;
    delivered = h.delivered;
    handed = h.handed;
  }
  note_push_lem peer (ok (some request)) m n h = h

  shut : (n : Node env app) → NodeSends n (begin_shutdown n)
  unfolding begin_shutdown
  shut n = go n n.state
    where
      go :
          (n : Node env app) (state : NodeState)
          → NodeSends n
              (elim state [ shutdown ↦ n | _ ↦ record n { state = shutdown; stopping = true } ])
      go n shutdown = stays n
      go n gossiping = record {
        blocks = Extends-refl n.core.poset.committed;
        delivered = refl;
        handed = refl;
      }
      go n catching_up = record {
        blocks = Extends-refl n.core.poset.committed;
        delivered = refl;
        handed = refl;
      }

  same_blocks :
      (m n : Node env app)
      → n.core.poset.committed ≡ m.core.poset.committed
      → n.delivered ≡ m.delivered
      → n.handed ≡ m.handed
      → NodeSends m n
  same_blocks m n e f g = record { blocks = Extends-of-eq e; delivered = f; handed = g }

  pooled : (tx : List ℕ) (n : Node env app) → NodeSends n (add_transaction tx n)
  unfolding add_transaction add_transactions
  pooled tx n = same_blocks n _ refl refl refl

  pooled_internal :
      (tx : InternalTransaction) (n : Node env app) → NodeSends n (add_internal_transaction tx n)
  unfolding add_internal_transaction add_internal_transactions
  pooled_internal tx n = same_blocks n _ refl refl refl

  closing : (n : Node env app) → NodeSends n (end_shutdown n)
  unfolding end_shutdown
  closing n = same_blocks n _ refl refl refl

  pub Step-Delivers :
      (signer : Signer) (t u : Machine env app) → Step signer t u → Delivers t → Delivers u
  Step-Delivers signer t u (read l q) d = rw q (carried t _ (stays t.node) d)
  Step-Delivers signer t u (leave l w q) d = rw q (carried t _ (stays t.node) d)
  Step-Delivers signer t u (rpc cmd l q) d = rw q (carried t _ (stays t.node) d)
  Step-Delivers signer t u (serve fuel before after cmd l q) d =
      rw q (carried t _ ((process_rpc-Sends signer fuel cmd).at t.node) d)
  Step-Delivers signer t u (start_gossip draw peer selector l w q) d = rw q (
      carried t _
        (let h = pull_request-Sends.at (record t.node { selector = selector }) in
          record { blocks = h.blocks; delivered = h.delivered; handed = h.handed })
        d)
  Step-Delivers signer t u (answer_pull fuel before after peer answer l q) d =
      rw q (carried t _ ((pulled-Sends signer fuel answer).at t.node) d)
  Step-Delivers signer t u (push before after peer known l q) d = rw q (
      carried t _
        (note_push_lem peer (push_request known t.node).0 t.node (push_request known t.node).1
          ((push_request-Sends known).at t.node))
        d)
  Step-Delivers signer t u (answer_push before after peer answer l q) d =
      rw q (carried t _ ((pushed-Sends peer answer).at t.node) d)
  Step-Delivers signer t u (ask_fast_forward draw peer selector l j w q) d = rw q (
      carried t _
        (record {
          blocks = Extends-refl t.node.core.poset.committed;
          delivered = refl;
          handed = refl;
        })
        d)
  Step-Delivers signer t u (answer_fast_forward fuel answer l q) d =
      rw q (carried t _ ((fast_forwarded-Sends signer fuel answer).at t.node) d)
  Step-Delivers signer t u (transaction tx q) d = rw q (carried t _ (pooled tx t.node) d)
  Step-Delivers signer t u (internal_transaction tx q) d =
      rw q (carried t _ (pooled_internal tx t.node) d)
  Step-Delivers signer t u (deliver block w q) d = rw q (handed_over signer block t w d)
  Step-Delivers signer t u (stop q) d = rw q (carried t _ (shut t.node) d)
  Step-Delivers signer t u (stopped l j q) d = rw q (carried t _ (closing t.node) d)

  Reach-Delivers :
      (signer : Signer) (n : Node env app) (u : Machine env app)
      → n.delivered ≡ 0
      → n.handed ≡ []
      → Reach signer (start n) u
      → Delivers u
  unfolding start
  Reach-Delivers signer n u z e here = record {
    order = rw e (Extends-nil n.core.poset.committed);
    count = z ∙ sym (ap length e);
  }
  Reach-Delivers signer n v z e (next {u} r s) =
      Step-Delivers signer u v s (Reach-Delivers signer n u z e r)

  -- Let a node run that has taken no block from `commitCh` and has not called `CommitBlock`. Whatever its peers
  -- answer and in whatever order its goroutines run, it has called `CommitBlock` with the first of the blocks that
  -- the poset has sent, each one once and in the order in which they were sent, and with as many as it has taken
  -- from the channel.
  pub Reach-delivered :
      (signer : Signer) (n : Node env app) (u : Machine env app)
      → n.delivered ≡ 0
      → n.handed ≡ []
      → Reach signer (start n) u
      → (waiting : List Block) × (u.node.core.poset.committed ≡ u.node.handed ++ waiting)
        × (u.node.delivered ≡ length u.node.handed)
  Reach-delivered signer n u z e r =
      let d = Reach-Delivers signer n u z e r in (d.order.0, d.order.1, d.count)
