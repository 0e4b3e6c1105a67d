-- ===== src/Poset/Insert/Queues.antt =====
-- What `InsertEvent` does to the queues of the poset, on success and on failure.
use gource.Prelude.{
  ◌≡◌, refl, sym, if◌then◌else◌, ap, ◌∙◌, ◌⊎◌, inl, inr, String, Bool, [], ◌∷◌, ◌++◌, lookup,
  string_eq,
}
use gource.Common.Errors.{Error, Result, ok, err, relabel, ok-injective}
use gource.Common.Exec
use gource.Common.Exec.{Exec, pure, raise, modify, attempt, labelled, ◌>>=◌}
use gource.Common.Exec.Inversion.{ok-bind, returned}
use gource.Common.Exec.Steps.{IsOrder, Steps, Steps-bind}
use gource.Common.Exec.Returns.{
  Gives, Returns, Returns-pure, Returns-raise, Returns-if, Returns-then, Returns-bind,
  Returns-attempt,
}
use gource.Poset.Event.{Event, EventBody, block_signatures}
use gource.Poset.State.{Env, Poset, on_store}
use gource.Poset.Rounds.{hex}
use gource.Poset.Insert.{
  check_self_parent, check_other_parent, self_parent_index, other_parent_info, with_wire_info,
  enqueue, check_event, number_event, store_event, admit_event, insert_event,
}
use gource.Poset.Queries.Caches.{
  asks, Asks, on_store-Asks, bind-Asks, attempt_cases-Asks, option-Asks, if-Asks, pure-Asks,
  raise-Asks,
}

-- The event has the body `b`.
abbrev pub Of : EventBody → Event → Type 0
Of b e = e.body ≡ b

module _ {env : Env} where
  check_self_parent-Asks : (event : Event) → Asks (check_self_parent {env = env} event)
  unfolding check_self_parent
  check_self_parent-Asks event = search asks

  check_other_parent-Asks : (event : Event) → Asks (check_other_parent {env = env} event)
  unfolding check_other_parent
  check_other_parent-Asks event = search asks depth 8

  labelled-Asks :
      {A : Type 0} (label : String) (m : Exec (Poset env) A) → Asks m → Asks (labelled label m)
  unfolding labelled
  labelled-Asks label m h = attempt_cases-Asks _ _ h (λ a. pure-Asks a) (λ e. raise-Asks _)

  self_parent_index-Asks : (event : Event) → Asks (self_parent_index {env = env} event)
  unfolding self_parent_index
  self_parent_index-Asks event = search asks depth 8

  other_parent_info-Asks : (event : Event) → Asks (other_parent_info {env = env} event)
  unfolding other_parent_info
  other_parent_info-Asks event = bind-Asks _ _ (on_store-Asks _) (λ root.
      option-Asks (lookup (hex env event) root.others) _ _ (search asks depth 8)
        (λ other. search asks depth 8))

  pub with_wire_info-Asks : (event : Event) → Asks (with_wire_info {env = env} event)
  unfolding with_wire_info
  with_wire_info-Asks event = search (asks, self_parent_index-Asks, other_parent_info-Asks) depth 9

  pub check_event-Asks : (event : Event) → Asks (check_event {env = env} event)
  unfolding check_event
  check_event-Asks event =
      search (asks, labelled-Asks, check_self_parent-Asks, check_other_parent-Asks) depth 9

  pub store_event-Asks :
      (event : Event) (wire_info : Bool) → Asks (store_event {env = env} event wire_info)
  unfolding store_event
  store_event-Asks event wire_info =
      bind-Asks _ _
        (if-Asks wire_info _ _ (labelled-Asks _ _ (with_wire_info-Asks event)) (pure-Asks event))
        (λ full. bind-Asks _ _ (labelled-Asks _ _ (on_store-Asks _)) (λ _. pure-Asks full))

  -- The queues of undetermined events and of signatures wait as they are.
  pub record Waits (s t : Poset env) : Type 0 where
    pub undetermined : t.undetermined_events ≡ s.undetermined_events
    pub pool : t.sig_pool ≡ s.sig_pool
    pub loaded : t.pending_loaded_events ≡ s.pending_loaded_events

  Waits-IsOrder : IsOrder Waits
  Waits-IsOrder = record {
    stays = λ s. record { undetermined = refl; pool = refl; loaded = refl };
    chain = λ s t u h k. record {
      undetermined = k.undetermined ∙ h.undetermined;
      pool = k.pool ∙ h.pool;
      loaded = k.loaded ∙ h.loaded;
    };
  }

  Asks-Waits : {A : Type 0} (m : Exec (Poset env) A) → Asks m → Steps Waits m
  Asks-Waits m a = record {
    at = λ s. record {
      undetermined = ap (λ t. t.undetermined_events) (a.at s);
      pool = ap (λ t. t.sig_pool) (a.at s);
      loaded = ap (λ t. t.pending_loaded_events) (a.at s);
    };
  }

  number_event-Waits : (event : Event) → Steps Waits (number_event {env = env} event)
  unfolding number_event Exec.gets modify pure ◌>>=◌
  number_event-Waits event = record {
    at = λ s. record { undetermined = refl; pool = refl; loaded = refl };
  }

  admit_event-Waits :
      (event : Event) (wire_info : Bool) → Steps Waits (admit_event {env = env} event wire_info)
  unfolding admit_event
  admit_event-Waits event wire_info =
      Steps-bind Waits-IsOrder _ _ (Asks-Waits _ (check_event-Asks event)) (λ _.
        Steps-bind Waits-IsOrder _ _ (number_event-Waits event)
          (λ numbered. Asks-Waits _ (store_event-Asks numbered wire_info)))

  labelled-Of :
      (b : EventBody) (label : String) (m : Exec (Poset env) Event)
      → Returns (Of b) m
      → Returns (Of b) (labelled label m)
  unfolding labelled
  labelled-Of b label m h = Returns-attempt _ _ h (λ a q. Returns-pure a q) (λ e. Returns-raise _)

  pub with_wire_info-Of :
      (event : Event) → Returns (Of event.body) (with_wire_info {env = env} event)
  unfolding with_wire_info
  with_wire_info-Of event =
      Returns-bind _ _
        (λ i. Returns-bind _ _ (λ op. Returns-bind _ _ (λ peer. Returns-pure _ refl)))

  store_event-Of :
      (event : Event) (wire_info : Bool)
      → Returns (Of event.body) (store_event {env = env} event wire_info)
  unfolding store_event
  store_event-Of event wire_info =
      Returns-then _ _
        (Returns-if wire_info _ _ (labelled-Of event.body _ _ (with_wire_info-Of event))
          (Returns-pure event refl))
        (λ full q. Returns-bind _ _ (λ _. Returns-pure full q))

  number_event-Of : (event : Event) → Returns (Of event.body) (number_event {env = env} event)
  unfolding number_event
  number_event-Of event = Returns-bind _ _ (λ i. Returns-bind _ _ (λ _. Returns-pure _ refl))

  admit_event-Of :
      (event : Event) (wire_info : Bool)
      → Returns (Of event.body) (admit_event {env = env} event wire_info)
  unfolding admit_event
  admit_event-Of event wire_info = Returns-bind _ _ (λ _.
      Returns-then _ _ (number_event-Of event)
        (λ numbered q. rw (← q) (store_event-Of numbered wire_info)))

  labelled-ok :
      {A : Type 0} (label : String) (m : Exec (Poset env) A) (a : A) (s : Poset env)
      → (labelled label m s).0 ≡ ok a
      → ((m s).0 ≡ ok a) × ((labelled label m s).1 ≡ (m s).1)
  unfolding labelled attempt pure raise
  labelled-ok {A = A} label m a s = go (m s).0 (m s).1
    where
      go :
          (r : Result A) (t : Poset env)
          → ((elim r as (λ _. Exec (Poset env) A) [
            | ok a ↦ pure a
            | err e ↦ raise (relabel label e)
          ])
              t).0
            ≡ ok a
          → (r ≡ ok a)
            × (((elim r as (λ _. Exec (Poset env) A) [
              | ok a ↦ pure a
              | err e ↦ raise (relabel label e)
            ])
                  t).1
                ≡ t)
      go (ok b) t h = (h, refl)
      go (err e) t h = cc

  -- The store is as `SetEvent` has left it, which accepted the event.
  abbrev pub Saved : Event → Poset env → Type 0
  Saved event t = (u : env.store.State) × (env.store.set_event event u ≡ (ok tt, t.store))

  store_event-Saved :
      (event stored : Event) (wire_info : Bool) (s : Poset env)
      → (store_event event wire_info s).0 ≡ ok stored
      → Saved stored (store_event event wire_info s).1
  unfolding store_event on_store Exec.on pure
  store_event-Saved event stored wire_info s h =
      let wired : Exec (Poset env) Event =
        if wire_info then labelled "SetWireInfo" (with_wire_info event) else pure event in
      let (full, _, h1, s1) = ok-bind wired _ stored s h in
      let mid : Poset env = (wired s).1 in
      let (_, h2, h3, s2) =
        ok-bind (labelled "SetEvent" (on_store (env.store.set_event full))) _ stored mid h1 in
      let (accepted, written) =
        labelled-ok "SetEvent" (on_store (env.store.set_event full)) tt mid h2 in
      (
        mid.store,
        rw (← ok-injective h3) (
            returned (env.store.set_event full) (ok tt) mid.store accepted
            ∙ ap (λ (t : Poset env). (ok tt, t.store)) (sym (s1 ∙ s2 ∙ written))),
      )

  admit_event-Saved :
      (event stored : Event) (wire_info : Bool) (s : Poset env)
      → (admit_event event wire_info s).0 ≡ ok stored
      → Saved stored (admit_event event wire_info s).1
  unfolding admit_event
  admit_event-Saved event stored wire_info s h =
      let (_, _, h1, s1) = ok-bind (check_event event) _ stored s h in
      let (numbered, _, h2, s2) = ok-bind (number_event event) _ stored _ h1 in
      rw (s1 ∙ s2) (store_event-Saved numbered stored wire_info _ h2)

  -- The event has entered the queues, or an error has left them as they were.
  abbrev pub Inserted : Poset env → Event → Result (Unit {0}) × Poset env → Type 0
  Inserted s event (res, t) =
      ((res ≡ ok tt)
        × (stored : Event) × (stored.body ≡ event.body)
        × Saved stored t
        × (t.undetermined_events ≡ s.undetermined_events ++ hex env stored ∷ [])
        × (t.sig_pool ≡ s.sig_pool ++ block_signatures event))
      ⊎ ((e : Error) × (res ≡ err e) × Waits s t)

  inserted :
      (s t : Poset env) (event : Event) (r : Result Event)
      → Waits s t
      → Gives (Of event.body) r
      → ((stored : Event) → r ≡ ok stored → Saved stored t)
      → Inserted s event (Exec.resume r (λ e. modify (enqueue e)) t)
  unfolding modify enqueue
  inserted s t event (err e) w q k = inr (e, refl, w)
  inserted s t event (ok stored) w q k = inl (
    refl,
    stored,
    q,
    k stored refl,
    ap (λ l. l ++ hex env stored ∷ []) w.undetermined,
    ap (λ l. l ++ block_signatures stored) w.pool ∙ ap (λ b. s.sig_pool ++ b.block_signatures) q,
  )

  -- `InsertEvent` either succeeds, and then the store is as its `SetEvent` has left it, which has accepted an event
  -- with the body of the given one; the hash of that event is the last of the undetermined events, and the block
  -- signatures are the last of the pool. Or it fails, and then the undetermined events, the pool and the count of
  -- loaded events are as they were.
  pub insert_event_lem :
      (event : Event) (wire_info : Bool) (s : Poset env)
      → Inserted s event (insert_event event wire_info s)
  unfolding insert_event ◌>>=◌
  insert_event_lem event wire_info s =
      inserted s (admit_event event wire_info s).1 event (admit_event event wire_info s).0
        ((admit_event-Waits event wire_info).at s) ((admit_event-Of event wire_info).gives s)
        (λ stored h. admit_event-Saved event stored wire_info s h)
