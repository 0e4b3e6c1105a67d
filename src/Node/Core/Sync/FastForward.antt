-- ===== src/Node/Core/Sync/FastForward.antt =====
-- `FastForward` starts the poset again, and the blocks that were sent stay sent.
use gource.Prelude.{ℕ, false}
use gource.Common.Exec.{Exec}
use gource.Common.Exec.Steps.{
  IsOrder, Steps, Steps-bind, Steps-raise, Steps-lift, Steps-gets, Steps-modify, Steps-for_each,
}
use gource.Poset.Block.{Block, Frame}
use gource.Poset.State.{Env, Poset, set_last_consensus_round}
use gource.Poset.Signatures.{check_block}
use gource.Poset.Reset.{reset, clear}
use gource.Poset.Process.Progress.{Extends}
use gource.Poset.Advance.{
  Advances, Asks-Advances, Extends-refl, Extends-trans, insert_event-Advances,
  consensus_steps-Advances,
}
use gource.Poset.Queries.Caches.{asks, Asks, on_store-Asks}
use gource.Node.Signer.{Signer}
use gource.Node.Core.{Core, set_head, set_head_and_seq, run_consensus}
use gource.Node.Core.Moves.{
  OfPoset, OfPoset-IsOrder, bind-Moves, if-Moves, on_poset-Moves, store-Moves,
}
use gource.Node.Core.Sync.{fast_forward, same_bytes}

module _ {env : Env} where
  -- The blocks that were sent stay, with new ones after them.
  abbrev pub Sends : Poset env → Poset env → Type 0
  Sends s t = Extends s.committed t.committed

  pub Sends-IsOrder : IsOrder Sends
  Sends-IsOrder = record {
    stays = λ s. Extends-refl s.committed;
    chain = λ s t u h k. Extends-trans s.committed t.committed u.committed h k;
  }

  pub Advances-Sends : {A : Type 0} (m : Exec (Poset env) A) → Steps Advances m → Steps Sends m
  Advances-Sends m h = record { at = λ s. (h.at s).blocks }

  asked : {A : Type 0} (m : Exec (Poset env) A) → Asks m → Steps Sends m
  asked m h = Advances-Sends m (Asks-Advances m h)

  check_block-Asks : (block : Block) → Asks (check_block {env = env} block)
  unfolding check_block
  check_block-Asks block = search asks

  reset-Sends : (block : Block) (frame : Frame) → Steps Sends (reset {env = env} block frame)
  unfolding reset clear set_last_consensus_round
  reset-Sends block frame =
      Steps-bind Sends-IsOrder _ _ (Steps-modify Sends-IsOrder _ (λ s. Extends-refl s.committed))
        (λ _. Steps-bind Sends-IsOrder _ _ (Steps-gets Sends-IsOrder _) (λ participants.
          Steps-bind Sends-IsOrder _ _ (Steps-lift Sends-IsOrder _) (λ roots.
            Steps-bind Sends-IsOrder _ _ (asked _ (on_store-Asks _)) (λ _.
              Steps-bind Sends-IsOrder _ _ (asked _ (on_store-Asks _)) (λ _.
                Steps-bind Sends-IsOrder _ _
                  (Steps-modify Sends-IsOrder _ (λ s. Extends-refl s.committed))
                  (λ _.
                    Steps-for_each Sends-IsOrder frame.events _
                      (λ ev. Advances-Sends _ (insert_event-Advances ev false))))))))

  abbrev pub CoreSends : Core env → Core env → Type 0
  CoreSends = OfPoset Sends

  order : IsOrder CoreSends
  order = OfPoset-IsOrder Sends-IsOrder

  set_head_and_seq-Sends : (signer : Signer) → Steps CoreSends (set_head_and_seq {env = env} signer)
  unfolding set_head_and_seq set_head
  set_head_and_seq-Sends signer =
      bind-Moves order _ _ (store-Moves _ (asked _ (on_store-Asks _))) (λ last.
        if-Moves order last.1 _ _
          (bind-Moves order _ _ (store-Moves _ (asked _ (on_store-Asks _)))
            (λ root. Steps-modify order _ (λ c. Extends-refl c.poset.committed)))
          (bind-Moves order _ _ (store-Moves _ (asked _ (on_store-Asks _)))
            (λ event. Steps-modify order _ (λ c. Extends-refl c.poset.committed))))

  pub fast_forward-Sends :
      (signer : Signer) (fuel : ℕ) (block : Block) (frame : Frame)
      → Steps CoreSends (fast_forward {env = env} signer fuel block frame)
  unfolding fast_forward run_consensus
  fast_forward-Sends signer fuel block frame =
      bind-Moves order _ _ (on_poset-Moves _ (asked _ (check_block-Asks block))) (λ _.
        bind-Moves order _ _ (Steps-lift order _) (λ hash.
          if-Moves order (same_bytes block.frame_hash hash) _ _
            (bind-Moves order _ _ (on_poset-Moves _ (reset-Sends block frame)) (λ _.
              bind-Moves order _ _ (set_head_and_seq-Sends signer)
                (λ _. on_poset-Moves _ (Advances-Sends _ (consensus_steps-Advances fuel)))))
            (Steps-raise order _)))
