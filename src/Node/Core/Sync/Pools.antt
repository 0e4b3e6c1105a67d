-- ===== src/Node/Core/Sync/Pools.antt =====
-- The pools of the core, through the insertion of an event.
use gource.Prelude.{◌≡◌, refl, ap, ◌∙◌, ◌⊎◌, inl, inr, String, Bool, true, [], ◌∷◌, ◌++◌}
use gource.Common.Errors.{Error, Result, ok, err, relabel}
use gource.Common.Exec
use gource.Common.Exec.{Exec, pure, raise, lift, gets, modify, attempt, labelled, ◌>>=◌, ◌>>◌, on}
use gource.Common.Exec.Steps.{IsOrder, Steps, Steps-pure, Steps-lift, Steps-modify}
use gource.Common.Exec.Returns.{Gives, Returns, Returns-then, Returns-bind, Returns-pure}
use gource.Common.Exec.Results.{
  bind_ok, bind_err, Succeeds, Succeeds-then, Succeeds-if, Succeeds-modify, Succeeds-pure,
  Succeeds-attempt,
}
use gource.Poset.Event.{Event}
use gource.Poset.State.{Env}
use gource.Poset.Insert
use gource.Poset.Insert.Queues.{insert_event_lem, with_wire_info-Asks, with_wire_info-Of}
use gource.Poset.Rounds.{hex}
use gource.Node.Signer.{Signer}
use gource.Node.Core.{
  Core, on_poset, on_store_of, insert_event, note_event, wire_info_and_sign,
  sign_and_insert_self_event, set_head,
}
use gource.Node.Core.Moves.{
  Asking, on_poset-Asking, on_poset-Returns, store-Asking, bind-Moves, if-Moves, attempt-Moves,
}

module _ {env : Env} where
  -- The pools of the core and the undetermined events of its poset stay.
  pub record Keeps (c d : Core env) : Type 0 where
    pub txs : d.transaction_pool ≡ c.transaction_pool
    pub internal : d.internal_transaction_pool ≡ c.internal_transaction_pool
    pub signatures : d.block_signature_pool ≡ c.block_signature_pool
    pub limit : d.max_transactions_in_event ≡ c.max_transactions_in_event
    pub undetermined : d.poset.undetermined_events ≡ c.poset.undetermined_events

  Keeps-IsOrder : IsOrder Keeps
  Keeps-IsOrder = record {
    stays = λ c. record {
      txs = refl;
      internal = refl;
      signatures = refl;
      limit = refl;
      undetermined = refl;
    };
    chain = λ c d e h k. record {
      txs = k.txs ∙ h.txs;
      internal = k.internal ∙ h.internal;
      signatures = k.signatures ∙ h.signatures;
      limit = k.limit ∙ h.limit;
      undetermined = k.undetermined ∙ h.undetermined;
    };
  }

  pub Asking-Keeps : {c d : Core env} → Asking c d → Keeps c d
  Asking-Keeps h = record {
    txs = ap (λ c. c.transaction_pool) h;
    internal = ap (λ c. c.internal_transaction_pool) h;
    signatures = ap (λ c. c.block_signature_pool) h;
    limit = ap (λ c. c.max_transactions_in_event) h;
    undetermined = ap (λ c. c.poset.undetermined_events) h;
  }

  -- A new event has come to the undetermined ones, and the pools are as they were.
  pub record Entered (c : Core env) (event : Event) (d : Core env) : Type 0 where
    pub stored : Event
    pub body : stored.body ≡ event.body
    pub undetermined :
        d.poset.undetermined_events ≡ c.poset.undetermined_events ++ hex env stored ∷ []
    pub txs : d.transaction_pool ≡ c.transaction_pool
    pub internal : d.internal_transaction_pool ≡ c.internal_transaction_pool
    pub signatures : d.block_signature_pool ≡ c.block_signature_pool
    pub limit : d.max_transactions_in_event ≡ c.max_transactions_in_event

  module _ (signer : Signer) where
    note_event-Succeeds : (event : Event) → Succeeds (note_event {env = env} signer event)
    unfolding note_event
    note_event-Succeeds event =
        Succeeds-then _ _ (Succeeds-if _ _ _ (Succeeds-modify _) Succeeds-pure) (
          Succeeds-then _ _ (Succeeds-modify _)
            (Succeeds-attempt _ _ (λ other. Succeeds-modify _) (λ e. Succeeds-pure)))

    kept : (f : Core env → Core env) → ((c : Core env) → Keeps c (f c)) → Steps Keeps (modify f)
    kept f h = Steps-modify Keeps-IsOrder f h

    store-Keeps : {A : Type 0} (m : Exec env.store.State A) → Steps Keeps (on_store_of m)
    store-Keeps m = record { at = λ c. Asking-Keeps ((store-Asking m).at c) }

    note_event-Keeps : (event : Event) → Steps Keeps (note_event {env = env} signer event)
    unfolding note_event set_head
    note_event-Keeps event =
        bind-Moves Keeps-IsOrder _ _
          (if-Moves Keeps-IsOrder _ _ _
            (kept _ (λ c. record {
              txs = refl;
              internal = refl;
              signatures = refl;
              limit = refl;
              undetermined = refl;
            }))
            (Steps-pure Keeps-IsOrder tt))
          (λ _.
            bind-Moves Keeps-IsOrder _ _
              (kept _ (λ c. record {
                txs = refl;
                internal = refl;
                signatures = refl;
                limit = refl;
                undetermined = refl;
              }))
              (λ _.
                attempt-Moves Keeps-IsOrder _ _ (store-Keeps _)
                  (λ other. kept _ (λ c. record {
                    txs = refl;
                    internal = refl;
                    signatures = refl;
                    limit = refl;
                    undetermined = refl;
                  }))
                  (λ e. Steps-pure Keeps-IsOrder tt)))

    -- The event is in the queue of undetermined events, under the hash that it is stored with, and the
    -- pools are as they were; or there is an error, and all of that is as it was.
    abbrev pub InsertedInCore : Core env → Event → Result (Unit {0}) × Core env → Type 0
    InsertedInCore c event (r, d) =
        ((r ≡ ok tt) × Entered c event d) ⊎ ((e : Error) × (r ≡ err e) × Keeps c d)

    insert_event_in_core :
        (event : Event) (wire_info : Bool) (c : Core env)
        → InsertedInCore c event (insert_event signer event wire_info c)
    unfolding insert_event on_poset on
    insert_event_in_core event wire_info c = elim (insert_event_lem event wire_info c.poset) [
      | inr (e, failed, w) ↦
          let path =
            bind_err (on_poset (Insert.insert_event event wire_info)) (λ _. note_event signer event)
              e c failed in
          inr (
            e,
            ap (λ r. r.0) path,
            record {
              txs = ap (λ r. r.1.transaction_pool) path;
              internal = ap (λ r. r.1.internal_transaction_pool) path;
              signatures = ap (λ r. r.1.block_signature_pool) path;
              limit = ap (λ r. r.1.max_transactions_in_event) path;
              undetermined = ap (λ r. r.1.poset.undetermined_events) path ∙ w.undetermined;
            },
          )
      | inl (done, stored, body, _, undetermined, _) ↦
          let t : Core env = record c { poset = (Insert.insert_event event wire_info c.poset).1 } in
          let k = (note_event-Keeps event).at t in
          let path =
            bind_ok (on_poset (Insert.insert_event event wire_info)) (λ _. note_event signer event)
              tt c done in
          inl (
            ap (λ r. r.0) path ∙ (note_event-Succeeds event).done t,
            record {
              stored = stored;
              body = body;
              undetermined =
                  ap (λ r. r.1.poset.undetermined_events) path ∙ k.undetermined ∙ undetermined;
              txs = ap (λ r. r.1.transaction_pool) path ∙ k.txs;
              internal = ap (λ r. r.1.internal_transaction_pool) path ∙ k.internal;
              signatures = ap (λ r. r.1.block_signature_pool) path ∙ k.signatures;
              limit = ap (λ r. r.1.max_transactions_in_event) path ∙ k.limit;
            },
          )
    ]

    -- The same from a state before, between which and this one all of that is kept.
    pub from_before :
        (c t : Core env) (a b : Event) (r : Result (Unit {0}) × Core env)
        → Keeps c t
        → a.body ≡ b.body
        → InsertedInCore t a r
        → InsertedInCore c b r
    from_before c t a b r k q (inr (e, failed, l)) =
        inr (e, failed, Keeps-IsOrder.chain c t r.1 k l)
    from_before c t a b r k q (inl (done, i)) = inl (
      done,
      record {
        stored = i.stored;
        body = i.body ∙ q;
        undetermined = i.undetermined ∙ ap (λ l. l ++ hex env i.stored ∷ []) k.undetermined;
        txs = i.txs ∙ k.txs;
        internal = i.internal ∙ k.internal;
        signatures = i.signatures ∙ k.signatures;
        limit = i.limit ∙ k.limit;
      },
    )

    pub with_label :
        (c : Core env) (event : Event) (label : String) (m : Exec (Core env) (Unit {0}))
        → InsertedInCore c event (m c)
        → InsertedInCore c event (labelled label m c)
    unfolding labelled attempt pure raise
    with_label c event label m i = go (m c).0 (m c).1 i
      where
        go :
            (r : Result (Unit {0})) (d : Core env)
            → InsertedInCore c event (r, d)
            → InsertedInCore c event (
                (elim r as (λ _. Exec (Core env) (Unit {0})) [
                  | ok a ↦ pure a
                  | err e ↦ raise (relabel label e)
                ])
                  d)
        go (ok a) d (inl (done, i)) = inl (refl, i)
        go (ok a) d (inr (e, failed, k)) = cc
        go (err e) d (inl (done, i)) = cc
        go (err e) d (inr (e', failed, k)) = inr (relabel label e, refl, k)

    wire_info_and_sign-Keeps :
        (event : Event) → Steps Keeps (wire_info_and_sign {env = env} signer event)
    unfolding wire_info_and_sign
    wire_info_and_sign-Keeps event =
        bind-Moves Keeps-IsOrder _ _
          (record { at = λ c. Asking-Keeps ((on_poset-Asking _ (with_wire_info-Asks event)).at c) })
          (λ full.
            bind-Moves Keeps-IsOrder _ _ (Steps-lift Keeps-IsOrder _)
              (λ signature. Steps-pure Keeps-IsOrder _))

    wire_info_and_sign-body :
        (event : Event)
        → Returns (λ (e : Event). e.body ≡ event.body) (wire_info_and_sign {env = env} signer event)
    unfolding wire_info_and_sign
    wire_info_and_sign-body event =
        Returns-then _ _ (on_poset-Returns _ (with_wire_info-Of event))
          (λ full q. Returns-bind _ _ (λ signature. Returns-pure _ q))

    pub signed_and_inserted :
        (event : Event) (c : Core env)
        → InsertedInCore c event (sign_and_insert_self_event signer event c)
    unfolding sign_and_insert_self_event ◌>>=◌
    signed_and_inserted event c =
        go (wire_info_and_sign signer event c).0 (wire_info_and_sign signer event c).1
          ((wire_info_and_sign-Keeps event).at c) ((wire_info_and_sign-body event).gives c)
      where
        go :
            (r : Result Event) (t : Core env)
            → Keeps c t
            → Gives (λ (e : Event). e.body ≡ event.body) r
            → InsertedInCore c event (Exec.resume r (λ signed. insert_event signer signed true) t)
        go (ok signed) t k q =
            from_before c t signed event _ k q (insert_event_in_core signed true t)
        go (err e) t k q = inr (e, refl, k)
