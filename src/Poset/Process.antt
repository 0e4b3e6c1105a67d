-- ===== src/Poset/Process.antt =====
-- src/poset/poset.go: `ProcessDecidedRounds`, which cuts the decided rounds into blocks.
pub mod Progress
pub mod Removal
use gource.Prelude.{
  ℕ, zero, suc, ◌+◌, ◌%◌, ◌^◌, Bool, true, false, List, [], ◌∷◌, ◌++◌, Option, none, some, ℤ, pos,
  add64, sub64, ltb_ℤ, eqb_ℤ, if◌then◌else◌, length, drop, ltb,
}
use gource.Common.Errors.{Result, ok, err}
use gource.Common.Exec.{Exec, pure, lift, gets, modify, for_each, ◌>>=◌, ◌>>◌}
use gource.Poset.Event.{Event, transactions, is_loaded}
use gource.Poset.Block.{Block, Frame, new_block_from_frame}
use gource.Poset.State.{Env, Poset, PendingRound, on_store, set_last_consensus_round}
use gource.Poset.Frames.{get_frame}

-- `p.LastConsensusRound != nil && i == *p.LastConsensusRound`
unfoldable pub is_last : Option ℤ → ℤ → Bool
is_last none i = false
is_last (some last) i = eqb_ℤ i last

module _ {env : Env} where
  -- The counters of committed transactions (a uint64) and of loaded events.
  unfoldable pub count_event : Event → Poset env → Poset env
  count_event ev s = record s {
    consensus_transactions = (s.consensus_transactions + length (transactions ev)) % 2 ^ 64;
    pending_loaded_events =
        if is_loaded ev then sub64 s.pending_loaded_events (pos 1) else s.pending_loaded_events;
  }

  unfoldable pub commit_event : Event → Exec (Poset env) Unit
  commit_event ev = do on_store (env.store.add_consensus_event ev); modify (count_event ev)

  -- A block without transactions is not stored, and not sent.
  unfoldable pub commit_block : Block → Exec (Poset env) Unit
  commit_block block =
      if ltb 0 (length block.transactions)
      then (do
        on_store (env.store.set_block block)
        modify (λ s. record s { committed = s.committed ++ block ∷ [] }))
      else pure tt

  unfoldable pub commit_frame : Frame → Exec (Poset env) Unit
  commit_frame frame =
      if ltb 0 (length frame.events)
      then (do
        for_each frame.events commit_event
        last_block_index ← on_store env.store.last_block_index
        block ← lift (new_block_from_frame env.codec.blocks (add64 last_block_index (pos 1)) frame)
        commit_block block)
      else pure tt

  -- The last consensus round only moves up.
  unfoldable pub advance : ℤ → Poset env → Poset env
  advance i s = elim s.last_consensus_round [
    | none ↦ set_last_consensus_round i s
    | some last ↦ if ltb_ℤ last i then set_last_consensus_round i s else s
  ]

  unfoldable pub process_round : ℕ → ℤ → Exec (Poset env) Unit
  process_round fuel i = do
    frame ← get_frame fuel i
    on_store (env.store.get_round i)
    commit_frame frame
    modify (advance i)

  -- The loop, with the number of rounds that it has processed. A round that is the last consensus
  -- round is passed over WITHOUT BEING COUNTED.
  unfoldable pub process_rounds :
      ℕ → List PendingRound → ℕ → Poset env → Result (Unit {0}) × ℕ × Poset env
  process_rounds fuel [] n s = (ok tt, n, s)
  process_rounds fuel (r ∷ rs) n s = elim r.decided [
    | false ↦ (ok tt, n, s)
    | true ↦ elim (is_last s.last_consensus_round r.index) [
      | true ↦ process_rounds fuel rs n s
      | false ↦
          let (res, s') = process_round fuel r.index s in
          elim res [ err e ↦ (err e, n, s') | ok _ ↦ process_rounds fuel rs (suc n) s' ]
    ]
  ]

  -- The deferred slice drops as many rounds as were counted, on every way out.
  unfoldable pub process_decided_rounds : ℕ → Exec (Poset env) Unit
  process_decided_rounds fuel s =
      let (res, n, s') = process_rounds fuel s.pending_rounds 0 s in
      (res, record s' { pending_rounds = drop n s'.pending_rounds })
