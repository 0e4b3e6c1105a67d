-- ===== src/Node/Core/Sync/SelfEvent.antt =====
-- What `AddSelfEventBlock` takes from the pools.
use gource.Prelude.{
  ℕ, zero, suc, ◌≤◌, ◌≡◌, refl, ap, ◌⊎◌, inl, inr, String, List, [], ◌∷◌, ◌++◌, length, take, drop,
  arith, if◌then◌else◌,
}
use gource.Common.Errors.{Error, Result, ok, err}
use gource.Common.Exec
use gource.Common.Exec.{Exec, pure, raise, lift, gets, modify, attempt, labelled, ◌>>=◌, ◌>>◌, on}
use gource.Common.Exec.Steps.{Steps, Steps-lift, Steps-gets, Steps-attempt}
use native.Mathlib.Nat.{le_trans}
use gource.Poset.Event.{Event, EventBody, transactions, items}
use gource.Poset.State.{Env}
use gource.Poset.Rounds.{hex}
use gource.Poset.Wire.{new_event}
use gource.Poset.FlagTable.{FlagTable}
use gource.Node.Signer.{Signer}
use gource.Node.Core.{Core, sign_and_insert_self_event}
use gource.Node.Core.Moves.{Asking, Asking-IsOrder, store-Asking, bind-Moves, labelled-Moves}
use gource.Node.Core.Sync.Pools.{
  Keeps, Asking-Keeps, InsertedInCore, from_before, with_label, signed_and_inserted,
}
use gource.Node.Core.Sync.{
  batch_size, is_empty, self_event, next_flag_table, add_self_event_block, take_from_pools,
}

take-append-drop {ℓ} : {A : Type ℓ} (n : ℕ) (l : List A) → take n l ++ drop n l ≡ l
take-append-drop zero l = refl
take-append-drop (suc n) [] = refl
take-append-drop (suc n) (x ∷ l) = ap (λ m. x ∷ m) (take-append-drop n l)

length-take {ℓ} : {A : Type ℓ} (n : ℕ) (l : List A) → length (take n l) ≤ n
length-take zero l = omega arith
length-take (suc n) [] = omega arith
length-take (suc n) (x ∷ l) = omega (arith, length-take n l)

batch_size-le : (pool limit : ℕ) → batch_size pool limit ≤ limit
unfolding batch_size
batch_size-le pool limit = ground arith

module _ {env : Env} where
  next_flag_table-Asking :
      (other_head : String) → Steps Asking (next_flag_table {env = env} other_head)
  unfolding next_flag_table
  next_flag_table-Asking other_head =
      bind-Moves Asking-IsOrder _ _ (Steps-gets Asking-IsOrder _) (λ head.
        Steps-attempt Asking-IsOrder _ _ (store-Asking _) (λ self_parent.
          Steps-attempt Asking-IsOrder _ _ (store-Asking _) (λ other_parent.
            bind-Moves Asking-IsOrder _ _
              (labelled-Moves Asking-IsOrder _ _ (Steps-lift Asking-IsOrder _))
              (λ own. labelled-Moves Asking-IsOrder _ _ (Steps-lift Asking-IsOrder _)))))

  module _ (signer : Signer) where
    -- The transactions of the new event are the first ones of the pool, at most as many as an event may
    -- hold, and the rest of the pool stays in its order. The other pools go into the event too; the
    -- signatures stay in their pool as well, as long as transactions wait.
    pub record Added (c : Core env) (other_head : String) (d : Core env) : Type 0 where
      pub table : FlagTable
      pub stored : Event
      pub body : stored.body ≡ (self_event signer other_head table c).body
      pub undetermined :
          d.poset.undetermined_events ≡ c.poset.undetermined_events ++ hex env stored ∷ []
      pub conserved : transactions stored ++ d.transaction_pool ≡ c.transaction_pool
      pub few : length (transactions stored) ≤ c.max_transactions_in_event
      pub internal : d.internal_transaction_pool ≡ []
      pub signatures :
          d.block_signature_pool
          ≡ (if is_empty d.transaction_pool then [] else c.block_signature_pool)

    abbrev pub AddedOrKept : Core env → String → Result (Unit {0}) × Core env → Type 0
    AddedOrKept c other_head (r, d) =
        ((r ≡ ok tt) × Added c other_head d) ⊎ ((e : Error) × (r ≡ err e) × Keeps c d)

    batch_of :
        (c : Core env) (other_head : String) (table : FlagTable) (stored : Event)
        → stored.body ≡ (self_event signer other_head table c).body
        → transactions stored
          ≡ take
              (batch_size (length c.transaction_pool) c.max_transactions_in_event)
              c.transaction_pool
    unfolding self_event new_event
    batch_of c other_head table stored body = ap (λ (b : EventBody). items b.transactions) body

    same_event :
        (c t : Core env) (other_head : String) (table : FlagTable)
        → Asking c t
        → (self_event signer other_head table t).body ≡ (self_event signer other_head table c).body
    unfolding self_event
    same_event c t other_head table h = ap (λ c. (self_event signer other_head table c).body) h

    taken :
        (c t : Core env) (other_head : String) (table : FlagTable) (r : Result (Unit {0}))
        → InsertedInCore signer c (self_event signer other_head table c) (r, t)
        → AddedOrKept c other_head (Exec.resume r (λ _. modify take_from_pools) t)
    unfolding take_from_pools modify
    taken c t other_head table (err e) (inl (done, i)) = cc
    taken c t other_head table (err e) (inr (e', failed, k)) = inr (e, refl, k)
    taken c t other_head table (ok a) (inr (e, failed, k)) = cc
    taken c t other_head table (ok a) (inl (done, i)) =
        let n = batch_size (length c.transaction_pool) c.max_transactions_in_event in
        let batch = batch_of c other_head table i.stored i.body in
        inl (
          refl,
          record {
            table = table;
            stored = i.stored;
            body = i.body;
            undetermined = i.undetermined;
            conserved = rw (batch, i.txs, i.limit) (take-append-drop n c.transaction_pool);
            few = rw batch (
                le_trans (length-take n c.transaction_pool)
                  (batch_size-le (length c.transaction_pool) c.max_transactions_in_event));
            internal = refl;
            signatures = rw i.signatures refl;
          },
        )

    -- `AddSelfEventBlock` either succeeds, and then the event that has the pools as its payload is the last of the
    -- undetermined events: the transactions of the event and those left in the pool are, in their order, those that
    -- were in the pool, and the event holds no more than its limit; or it fails, and then the pools and the
    -- undetermined events are as they were. No transaction is lost, and none goes into two events.
    pub add_self_event_block_lem :
        (other_head : String) (c : Core env)
        → AddedOrKept c other_head (add_self_event_block signer other_head c)
    unfolding add_self_event_block ◌>>=◌ gets
    add_self_event_block_lem other_head c =
        go (next_flag_table other_head c).0 (next_flag_table other_head c).1
          ((next_flag_table-Asking other_head).at c)
      where
        event_at : FlagTable → Core env → Event
        event_at table t = self_event signer other_head table t

        go :
            (r : Result FlagTable) (t : Core env)
            → Asking c t
            → AddedOrKept c other_head (
                Exec.resume r
                  (λ table. gets (self_event signer other_head table) >>= λ new_head.
                    labelled "newHead := poset.NewEventBlock"
                      (sign_and_insert_self_event signer new_head)
                    >>= λ _. modify take_from_pools)
                  t)
        go (err e) t h = inr (e, refl, Asking-Keeps h)
        go (ok table) t h =
            let m =
              labelled "newHead := poset.NewEventBlock"
                (sign_and_insert_self_event signer (event_at table t)) in
            taken c (m t).1 other_head table (m t).0 (
              from_before signer c t (event_at table t) (event_at table c) (m t) (Asking-Keeps h)
                (same_event c t other_head table h)
                (with_label signer t (event_at table t) _ _
                  (signed_and_inserted signer (event_at table t) t)))
