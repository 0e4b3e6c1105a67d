-- ===== src/Poset/Divide/Queue.antt =====
-- What `DivideRounds` changes of the state of the poset: the queue of pending rounds.
use mathlib.Core.List.{append-nil, append_assoc}
use gource.Prelude.{
  ℕ, ◌≡◌, refl, sym, ap, ◌∙◌, String, Bool, true, false, List, [], ◌∷◌, ◌++◌, Option, none, some,
  some-eq, ℤ, ◌≤ℤ◌, arith, Bool-cases, inl, inr, if◌then◌else◌,
}
use gource.Common.Errors.{Result, ok, err, is_error}
use gource.Common.Exec
use gource.Common.Exec.{Exec, pure, gets, modify, attempt, ◌>>=◌}
use gource.Common.Exec.Returns.{Gives, Returns, Returns-run}
use gource.Common.Exec.Steps.{IsOrder, Steps, Steps-bind, Steps-for_each}
use gource.Poset.Event.{Event}
use gource.Poset.RoundInfo.{RoundInfo}
use gource.Poset.State.{Env, Poset, PendingRound, on_store}
use gource.Poset.Divide.{
  needs_queue, found_round, with_proof, queue_round, assign_round, assign_timestamp, save_event,
  divide_event, divide_rounds,
}
use gource.Poset.Insert.Queues.{with_wire_info-Asks}
use gource.Poset.Queries.Caches.{
  asks, with_caches, Asks, gets-Asks, attempt-Asks, on_store-Asks, bind-Asks, if-Asks, pure-Asks,
  raise-Asks, attempt_cases-Asks,
}
use gource.Poset.Queries.Graph.{lamport_timestamp-Asks}
use gource.Poset.Queries.Rounds.{round-Asks, witness-Asks}

module _ (env : Env) where
  -- The round information is what is read from the store, or new where it is missing.
  abbrev pub Read : ℤ → RoundInfo → Type 0
  Read n info =
      (s : Poset env) × ((attempt (on_store (env.store.get_round n)) found_round s).0 ≡ ok info)

  -- A round that has been queued, where `last` is the last consensus round: it is not below it, and the round
  -- information of it, read from the store or new, was not marked as queued.
  pub record Fresh (last : Option ℤ) (r : PendingRound) : Type 0 where
    pub undecided : r.decided ≡ false
    pub info : RoundInfo
    pub read : Read r.index info
    pub unqueued : info.queued ≡ false
    pub above : (l : ℤ) → last ≡ some l → l ≤ℤ r.index

  abbrev pub AllFresh : Option ℤ → List PendingRound → Type 0
  AllFresh last [] = Unit
  AllFresh last (r ∷ rs) = Fresh last r × AllFresh last rs

  AllFresh-append :
      (last : Option ℤ) (rs qs : List PendingRound)
      → AllFresh last rs
      → AllFresh last qs
      → AllFresh last (rs ++ qs)
  AllFresh-append last [] qs a b = b
  AllFresh-append last (r ∷ rs) qs a b = (a.0, AllFresh-append last rs qs a.1 b)

needed :
    (info : RoundInfo) (last : Option ℤ) (n : ℤ)
    → needs_queue info last n ≡ true
    → info.queued ≡ false
unfolding needs_queue
needed info none n h = ground arith
needed info (some l) n h = ground arith

not_below :
    (info : RoundInfo) (last : Option ℤ) (n : ℤ)
    → needs_queue info last n ≡ true
    → (l : ℤ) → last ≡ some l
    → l ≤ℤ n
unfolding needs_queue
not_below info none n h l e = cc
not_below info (some m) n h l e = rw (← some-eq e) (ground arith)

module _ {env : Env} where
  -- From `s` to `t`, rounds have come to the end of the queue that had to, and nothing else has changed but the
  -- store and the caches.
  pub record Queues (s t : Poset env) : Type 0 where
    pub new : List PendingRound
    pub fresh : AllFresh env s.last_consensus_round new
    pub queue : t ≡ record (with_caches t s) { pending_rounds = s.pending_rounds ++ new }

  pub Queues-IsOrder : IsOrder Queues
  Queues-IsOrder = record {
    stays = λ s. record {
      new = [];
      fresh = tt;
      queue = ap (λ p. record s { pending_rounds = p }) (sym (append-nil s.pending_rounds));
    };
    chain = λ s t u h k. record {
      new = h.new ++ k.new;
      fresh =
          AllFresh-append env s.last_consensus_round h.new k.new h.fresh
            (rw (← ap (λ (v : Poset env). v.last_consensus_round) h.queue) k.fresh);
      queue =
          k.queue
          ∙ ap
              (λ (v : Poset env). record (with_caches u v) {
                pending_rounds = v.pending_rounds ++ k.new;
              })
              h.queue
          ∙ ap (λ p. record (with_caches u s) { pending_rounds = p })
              (append_assoc s.pending_rounds h.new k.new);
    };
  }

  pub Asks-Queues : {A : Type 0} (m : Exec (Poset env) A) → Asks m → Steps Queues m
  Asks-Queues m a = record {
    at = λ s. record {
      new = [];
      fresh = tt;
      queue =
          a.at s
          ∙ ap (λ p. record (with_caches (m s).1 s) { pending_rounds = p })
              (sym (append-nil s.pending_rounds));
    };
  }

  pub bind-Queues :
      {A B : Type 0} (m : Exec (Poset env) A) (f : A → Exec (Poset env) B)
      → Steps Queues m
      → ((a : A) → Steps Queues (f a))
      → Steps Queues (m >>= f)
  bind-Queues m f = Steps-bind Queues-IsOrder m f

  -- The same, where what the first part returns has a property.
  then-Queues :
      {A B : Type 0} {P : A → Type 0} (m : Exec (Poset env) A) (f : A → Exec (Poset env) B)
      → Steps Queues m
      → Returns P m
      → ((a : A) → P a → Steps Queues (f a))
      → Steps Queues (m >>= f)
  unfolding ◌>>=◌
  then-Queues {A = A} {P = P} m f k p h = record {
    at = λ s. go s (m s).0 (m s).1 (k.at s) (p.gives s);
  }
    where
      go :
          (s : Poset env) (r : Result A) (t : Poset env)
          → Queues s t
          → Gives P r
          → Queues s (Exec.resume r f t).1
      go s (ok a) t q g = Queues-IsOrder.chain s t (f a t).1 q ((h a g).at t)
      go s (err e) t q g = q

  pub if-Queues :
      {A : Type 0} (b : Bool) (m n : Exec (Poset env) A)
      → Steps Queues m
      → Steps Queues n
      → Steps Queues (if b then m else n)
  if-Queues true m n k l = k
  if-Queues false m n k l = l

  store-Queues : {A : Type 0} (m : Exec env.store.State A) → Steps Queues (on_store m)
  store-Queues m = Asks-Queues _ (on_store-Asks m)

  pub pure-Queues : {A : Type 0} (a : A) → Steps Queues (pure a)
  pure-Queues a = Asks-Queues _ (pure-Asks a)

  pub gets-Queues : {A : Type 0} (f : Poset env → A) → Steps Queues (gets f)
  gets-Queues f = Asks-Queues _ (search asks)

  queue_round-Queues :
      (n : ℤ) (info : RoundInfo) → Read env n info → Steps Queues (queue_round {env = env} n info)
  unfolding queue_round modify gets pure ◌>>=◌
  queue_round-Queues n info read = record {
    at = λ s. elim (Bool-cases (needs_queue info s.last_consensus_round n)) [
      | inr not_needed ↦ rw not_needed (Queues-IsOrder.stays s)
      | inl must ↦ rw must (record {
        new = record { index = n; decided = false } ∷ [];
        fresh = (
          record {
            undecided = refl;
            info = info;
            read = read;
            unqueued = needed info s.last_consensus_round n must;
            above = not_below info s.last_consensus_round n must;
          },
          tt,
        );
        queue = refl;
      })
    ];
  }

  pub with_proof-Asks : (ev : Event) → Asks (with_proof {env = env} ev)
  unfolding with_proof
  with_proof-Asks ev = search asks depth 8

  pub found_round-Asks : (r : Result RoundInfo) → Asks {env = env} (found_round r)
  unfolding found_round
  found_round-Asks (ok info) = search asks
  found_round-Asks (err e) = search asks

  module _ (fuel : ℕ) where
    assign_round-Queues :
        (hash : String) (ev : Event) → Steps Queues (assign_round {env = env} fuel hash ev)
    unfolding assign_round
    assign_round-Queues hash ev = bind-Queues _ _ (Asks-Queues _ (round-Asks fuel hash)) (λ n.
        then-Queues _ _ (Asks-Queues _ (attempt-Asks _ _ (on_store-Asks _) found_round-Asks))
          (Returns-run _)
          (λ found read. bind-Queues _ _ (queue_round-Queues n found read) (λ info. Asks-Queues _ (
            bind-Asks _ _ (witness-Asks fuel hash) (λ w. bind-Asks _ _ (on_store-Asks _) (λ _.
              bind-Asks _ _ (gets-Asks _)
                (λ core. if-Asks _ _ _ (with_proof-Asks _) (pure-Asks _))))))))

    pub assign_timestamp-Asks :
        (hash : String) (ev : Event) → Asks (assign_timestamp {env = env} fuel hash ev)
    unfolding assign_timestamp
    assign_timestamp-Asks hash ev = search (asks, lamport_timestamp-Asks)

    pub save_event-Asks : (ev : Event) → Asks (save_event {env = env} fuel ev)
    unfolding save_event
    save_event-Asks ev =
        bind-Asks _ _
          (if-Asks _ _ _
            (attempt_cases-Asks _ _ (with_wire_info-Asks ev) (λ w. pure-Asks w)
              (λ e. if-Asks (is_error e) _ _ (pure-Asks ev) (raise-Asks e)))
            (pure-Asks ev))
          (λ full.
            attempt_cases-Asks _ _ (on_store-Asks _) (λ _. pure-Asks tt)
              (λ e. if-Asks (is_error e) _ _ (pure-Asks tt) (raise-Asks e)))

    pub divide_event-Queues : (hash : String) → Steps Queues (divide_event {env = env} fuel hash)
    unfolding divide_event
    divide_event-Queues hash = bind-Queues _ _ (store-Queues _) (λ ev.
        bind-Queues _ _ (if-Queues _ _ _ (assign_round-Queues hash ev) (pure-Queues ev)) (λ ev1.
          bind-Queues _ _
            (if-Queues _ _ _ (Asks-Queues _ (assign_timestamp-Asks hash ev1)) (pure-Queues ev1))
            (λ ev2. if-Queues _ _ _ (Asks-Queues _ (save_event-Asks ev2)) (pure-Queues tt))))

    pub divide_rounds-Queues : (s : Poset env) → Queues s (divide_rounds fuel s).1
    unfolding divide_rounds
    divide_rounds-Queues s =
        (bind-Queues (gets (λ s. s.undetermined_events)) _ (gets-Queues _)
            (λ hashes. Steps-for_each Queues-IsOrder hashes _ divide_event-Queues)).at
          s
