-- ===== src/Node/Core/Sync.antt =====
-- src/node/core.go: `Sync`, `AddSelfEventBlock`, `FastForward`, and the transactions in consensus.
pub mod Pools
pub mod SelfEvent
pub mod Blocks
pub mod FastForward
use gource.Prelude.{
  ℕ, ◌+◌, String, Bool, true, false, ◌||◌, List, [], ◌∷◌, ◌++◌, Option, none, some, ℤ, pos, add64,
  ltb, leb, ltb_ℤ, Map, length, take, drop, ◌==◌, if◌then◌else◌, string_eq, nat_eq,
}
use gource.Common.Errors.{Error, Result, ok, err, message, relabel}
use gource.Common.Exec.{Exec, pure, raise, lift, gets, modify, attempt, labelled, ◌>>=◌, ◌>>◌}
use gource.Poset.Event.{Event, index, lamport_timestamp_nil, round_nil}
use gource.Poset.Block.{Block, Frame}
use gource.Poset.State.{Env, Codec}
use gource.Poset.Rounds.{hex}
use gource.Poset.FlagTable.{FlagTable, get_flag_table, merge_flag_table}
use gource.Poset.Wire.{WireEvent, new_event, read_wire_info}
use gource.Poset.Signatures.{check_block}
use gource.Poset.Reset.{reset}
use gource.Node.Signer.{Signer}
use gource.Node.Core.{
  Core, on_poset, on_store_of, get_event, get_event_transactions, known_events, run_consensus,
  insert_event, sign_and_insert_self_event, set_head_and_seq,
}
use gource.Node.Core.Diff.{known_at}

-- reflect.DeepEqual on two hashes.
unfoldable pub same_bytes : List ℕ → List ℕ → Bool
same_bytes [] [] = true
same_bytes [] (b ∷ bs) = false
same_bytes (a ∷ as_) [] = false
same_bytes (a ∷ as_) (b ∷ bs) = if a == b then same_bytes as_ bs else false

-- `min(len(c.transactionPool), c.maxTransactionsInEvent)`
unfoldable pub batch_size : ℕ → ℕ → ℕ
batch_size pool limit = if ltb pool limit then pool else limit

unfoldable pub is_empty {ℓ} : {A : Type ℓ} → List A → Bool
is_empty [] = true
is_empty (x ∷ xs) = false

-- What the local node works out for itself is forgotten.
abbrev pub as_new : Event → Event
as_new ev = record ev {
  lamport_timestamp = lamport_timestamp_nil;
  round = round_nil;
  round_received = round_nil;
}

-- The table of the self-parent, or one with the head alone.
unfoldable pub own_flag_table : Codec → String → Result Event → Result FlagTable
own_flag_table codec head (err _) = ok ((head, pos 1) ∷ [])
own_flag_table codec head (ok parent) = get_flag_table codec parent

unfoldable pub with_other_flags : Codec → Result Event → FlagTable → Result FlagTable
with_other_flags codec (err _) table = ok table
with_other_flags codec (ok other) table = merge_flag_table codec other table

module _ {env : Env} where
  -- What is taken from the pools once the self event is inserted. The signatures wait until all
  -- transactions are gone.
  unfoldable pub take_from_pools : Core env → Core env
  unfolding is_empty
  take_from_pools c =
      let n = batch_size (length c.transaction_pool) c.max_transactions_in_event in
      let rest = drop n c.transaction_pool in
      record c {
        transaction_pool = rest;
        internal_transaction_pool = [];
        block_signature_pool = if is_empty rest then [] else c.block_signature_pool;
      }

  -- Is there anything to tell?
  unfoldable pub has_news : Core env → Bool
  unfolding is_empty
  has_news c =
      ltb_ℤ (pos 0) c.poset.pending_loaded_events
      || ltb 0 (length c.transaction_pool)
      || ltb 0 (length c.internal_transaction_pool)
      || ltb 0 (length c.block_signature_pool)

  -- The loop of `GetConsensusTransactions`.
  unfoldable pub transactions_of : List String → Exec (Core env) (List (List ℕ))
  transactions_of [] = pure []
  transactions_of (e ∷ es) = do
    txs ← labelled "GetConsensusTransactions()" (get_event_transactions e)
    rest ← transactions_of es
    pure (txs ++ rest)

  unfoldable pub get_consensus_transactions : Exec (Core env) (List (List ℕ))
  get_consensus_transactions = do
    events ← on_store_of env.store.consensus_events
    transactions_of events

  -- The flag table of the next event, from those of its parents.
  unfoldable pub next_flag_table : String → Exec (Core env) FlagTable
  next_flag_table other_head = do
    head ← gets (λ c. c.head)
    attempt (get_event head) λ self_parent. attempt (get_event other_head) λ other_parent. (do
      own ←
          labelled "failed to get self flag table"
            (lift (own_flag_table env.codec head self_parent))
      labelled "failed to marge flag tables" (lift (with_other_flags env.codec other_parent own)))

module _ {env : Env} (signer : Signer) where
  -- The next event of the node, with what the pools hold.
  unfoldable pub self_event : String → FlagTable → Core env → Event
  unfolding batch_size
  self_event other_head table c =
      let n = batch_size (length c.transaction_pool) c.max_transactions_in_event in
      new_event (some (take n c.transaction_pool)) c.internal_transaction_pool
        c.block_signature_pool c.head other_head signer.public_key (add64 c.seq (pos 1))
        (env.codec.marshal_flag_table table)

  unfoldable pub add_self_event_block : String → Exec (Core env) Unit
  add_self_event_block other_head = do
    table ← next_flag_table other_head
    new_head ← gets (self_event other_head table)
    labelled "newHead := poset.NewEventBlock" (sign_and_insert_self_event signer new_head)
    modify take_from_pools

  -- An event that the node does not know is inserted. The hash is what `otherHead` becomes.
  unfoldable pub sync_event : Map ℤ ℤ → WireEvent → Exec (Core env) String
  sync_event known we = do
    ev ← on_poset (read_wire_info we)
    (if ltb_ℤ (known_at known ev.creator_id) (index ev)
        then insert_event signer (as_new ev) false
        else pure tt)
    pure (hex env ev)

  -- The loop over the events: the last one is the other head.
  unfoldable pub sync_events : Map ℤ ℤ → List WireEvent → String → Exec (Core env) String
  sync_events known [] other_head = pure other_head
  sync_events known (we ∷ wes) other_head = do
    hash ← sync_event known we
    sync_events known wes hash

  unfoldable pub sync : List WireEvent → Exec (Core env) Unit
  sync unknown_events = do
    known ← known_events
    other_head ← sync_events known unknown_events ""
    news ← gets has_news
    if news then add_self_event_block other_head else pure tt

  unfoldable pub fast_forward : ℕ → Block → Frame → Exec (Core env) Unit
  unfolding same_bytes
  fast_forward fuel block frame = do
    on_poset (check_block block)
    frame_hash ← lift (env.codec.blocks.frame_hash frame)
    if same_bytes block.frame_hash frame_hash
        then (do on_poset (reset block frame); set_head_and_seq signer; run_consensus fuel)
        else raise (message "invalid Frame Hash")
