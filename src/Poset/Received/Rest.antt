-- ===== src/Poset/Received/Rest.antt =====
-- What `DecideRoundReceived` changes of the state of the poset: the undetermined events.
use gource.Prelude.{
  ℕ, zero, suc, ◌≡◌, refl, ◌⊎◌, inl, inr, Bool-cases, add64, pos, sym, ap, ◌∙◌, String, Bool, true,
  false, List, [], ◌∷◌, ℤ, if◌then◌else◌,
}
use gource.Common.Errors.{Error, Result, ok, err, ok-injective}
use gource.Common.Exec.Inversion.{ok-bind, attempt-cases, returned}
use gource.Common.Exec
use gource.Common.Exec.{Exec, pure, raise, gets, modify, ◌>>=◌}
use gource.Poset.RoundInfo.{RoundInfo, witnesses_decided, famous_witnesses}
use gource.Poset.Rounds.{round}
use gource.Poset.State.{Env, Poset, on_store}
use gource.Poset.Received.{
  below_last, all_seen, rounds_after, seers, mark_received, receive_loop, is_received, receive_all,
  decide_round_received,
}
use gource.Poset.Queries.Caches.{
  asks, SameQueues, SameQueues-IsOrder, with_caches, Asks, bind-Asks, pure-Asks, on_store-Asks,
  if-Asks, gets-Asks, raise-Asks, attempt_cases-Asks,
}
use gource.Poset.Queries.Sight.{see-Asks}
use gource.Poset.Queries.Rounds.{round-Asks}

module _ {env : Env} (fuel : ℕ) where
  seers-Asks : (x : String) (ws : List String) → Asks (seers {env = env} fuel x ws)
  unfolding seers
  seers-Asks x [] = pure-Asks []
  seers-Asks x (w ∷ ws) =
      bind-Asks _ _ (see-Asks fuel w x)
        (λ sees. bind-Asks _ _ (seers-Asks x ws) (λ rest. pure-Asks _))

  mark_received-Asks :
      (i : ℤ) (x : String) (tr : RoundInfo) → Asks (mark_received {env = env} i x tr)
  unfolding mark_received
  mark_received-Asks i x tr = search asks

  receive_loop-Asks :
      (left : ℕ) (i r : ℤ) (x : String) → Asks (receive_loop {env = env} fuel left i r x)
  unfolding receive_loop
  receive_loop-Asks zero i r x = pure-Asks false
  receive_loop-Asks (suc left) i r x =
      attempt_cases-Asks _ _ (on_store-Asks _)
        (λ tr. if-Asks _ _ _ (pure-Asks false) (
          bind-Asks _ _ (seers-Asks x _) (λ s.
            if-Asks _ _ _ (bind-Asks _ _ (mark_received-Asks i x tr) (λ _. pure-Asks true))
              (receive_loop-Asks left _ r x))))
        (λ e. bind-Asks _ _ (gets-Asks _) (λ last. if-Asks _ _ _ (pure-Asks true) (raise-Asks e)))

  is_received-Asks : (x : String) → Asks (is_received {env = env} fuel x)
  unfolding is_received
  is_received-Asks x = search (asks, round-Asks, receive_loop-Asks)

  receive_all-Asks : (xs : List String) → Asks (receive_all {env = env} fuel xs)
  unfolding receive_all
  receive_all-Asks [] = pure-Asks []
  receive_all-Asks (x ∷ xs) =
      bind-Asks _ _ (is_received-Asks x)
        (λ b. bind-Asks _ _ (receive_all-Asks xs) (λ rest. pure-Asks _))

  -- The event has been marked as received: in a round whose witnesses are all decided, which the store had, and
  -- all the famous ones of which see the event. The marks are the last thing that was written.
  abbrev pub Marked : String → Poset env → Type 0
  Marked x t =
      (i : ℤ) × (info : RoundInfo) × (seen : List String) × (s : Poset env) × (u : Poset env)
      × (v : Poset env) × (on_store (env.store.get_round i) s ≡ (ok info, u))
      × (witnesses_decided info ≡ true)
      × (seers fuel x (famous_witnesses info) u ≡ (ok seen, v))
      × (all_seen seen (famous_witnesses info) ≡ true)
      × (mark_received i x info v ≡ (ok tt, t))

  -- The round of the event is below the last consensus round.
  abbrev pub IsBelow : String → Poset env → Type 0
  IsBelow x s = (r : ℤ) × ((round fuel x s).0 ≡ ok r) × (below_last r s.last_consensus_round ≡ true)

  -- The events of the second list that stay, where they are looked at one after the other, each in the state that
  -- the one before has left.
  pub data Judged : Poset env → List String → List String → Type 0 where
    done : (s : Poset env) → Judged s [] []
    keep :
        (s t : Poset env) (x : String) (ys xs : List String)
        → is_received fuel x s ≡ (ok false, t)
        → Judged t ys xs
        → Judged s (x ∷ ys) (x ∷ xs)
    leave :
        (s t : Poset env) (x : String) (ys xs : List String)
        → is_received fuel x s ≡ (ok true, t)
        → Marked x t ⊎ IsBelow x s
        → Judged t ys xs
        → Judged s ys (x ∷ xs)

  -- What it means that the loop says that the event is received.
  Verdict : Poset env → ℤ → String → Result Bool × Poset env → Type 0
  Verdict s r x p = p.0 ≡ ok true → Marked x p.1 ⊎ (below_last r s.last_consensus_round ≡ true)

  below-Verdict :
      (e : Error) (r : ℤ) (x : String) (s t : Poset env)
      → SameQueues s t
      → Verdict s r x (
          (gets (λ (s : Poset env). s.last_consensus_round) >>= λ last.
          if below_last r last then pure true else raise e)
            t)
  unfolding Verdict gets raise pure ◌>>=◌
  below-Verdict e r x s t q = elim (Bool-cases (below_last r t.last_consensus_round)) [
    | inl below ↦
        λ h. inr (ap (λ (u : Poset env). below_last r u.last_consensus_round) (sym q) ∙ below)
    | inr other ↦ rw other (λ h. cc)
  ]

  module _ (i : ℤ) (x : String) (info : RoundInfo) (r : ℤ) (rest : Exec (Poset env) Bool)
      (s0 s u : Poset env) (got : on_store (env.store.get_round i) s ≡ (ok info, u))
      (all : witnesses_decided info ≡ true)
      (later : (v : Poset env) → SameQueues s0 v → Verdict s0 r x (rest v)) where
    seen-Verdict :
        (seen : List String) (v : Poset env) (b : Bool)
        → seers fuel x (famous_witnesses info) u ≡ (ok seen, v)
        → SameQueues s0 v
        → all_seen seen (famous_witnesses info) ≡ b
        → Verdict s0 r x ((if b then (mark_received i x info >>= λ _. pure true) else rest) v)
    unfolding Verdict pure
    seen-Verdict seen v false saw q h k = later v q k
    seen-Verdict seen v true saw q h k =
        let (_, marks, _, state) = ok-bind (mark_received i x info) _ true v k in
        inl (
          i,
          info,
          seen,
          s,
          u,
          v,
          got,
          all,
          saw,
          h,
          returned (mark_received i x info) (ok tt) v marks ∙ ap (λ t. (ok tt, t)) (sym state),
        )

    decided-Verdict :
        SameQueues s0 u
        → Verdict s0 r x (
            (seers fuel x (famous_witnesses info) >>= λ seen.
            if all_seen seen (famous_witnesses info)
            then (mark_received i x info >>= λ _. pure true)
            else rest)
              u)
    unfolding Verdict
    decided-Verdict q k =
        let (seen, saw, k', state) = ok-bind (seers fuel x (famous_witnesses info)) _ true u k in
        rw state (
          seen-Verdict seen (seers fuel x (famous_witnesses info) u).1
            (all_seen seen (famous_witnesses info))
            (returned (seers fuel x (famous_witnesses info)) (ok seen) u saw)
            (SameQueues-IsOrder.chain s0 u (seers fuel x (famous_witnesses info) u).1 q
              ((seers-Asks x (famous_witnesses info)).at u))
            refl k')

  receive_loop-Verdict :
      (left : ℕ) (i r : ℤ) (x : String) (s0 s : Poset env)
      → SameQueues s0 s
      → Verdict s0 r x (receive_loop fuel left i r x s)
  unfolding receive_loop Verdict pure
  receive_loop-Verdict zero i r x s0 s q = λ h. cc
  receive_loop-Verdict (suc left) i r x s0 s q =
      attempt-cases (Verdict s0 r x) (on_store (env.store.get_round i)) _ s
        (λ info got. elim (Bool-cases (witnesses_decided info)) [
          | inr open_one ↦ rw open_one (λ h. cc)
          | inl all ↦ rw all (
              decided-Verdict i x info r (receive_loop fuel left (add64 i (pos 1)) r x) s0 s
                (on_store (env.store.get_round i) s).1
                (returned (on_store (env.store.get_round i)) (ok info) s got) all
                (λ v q. receive_loop-Verdict left (add64 i (pos 1)) r x s0 v q)
                (SameQueues-IsOrder.chain s0 s (on_store (env.store.get_round i) s).1 q
                  ((on_store-Asks (env.store.get_round i)).at s)))
        ])
        (λ e failed. below-Verdict e r x s0 (on_store (env.store.get_round i) s).1 (
          SameQueues-IsOrder.chain s0 s (on_store (env.store.get_round i) s).1 q
            ((on_store-Asks (env.store.get_round i)).at s)))

  is_received_lem :
      (x : String) (s : Poset env)
      → (is_received fuel x s).0 ≡ ok true
      → Marked x (is_received fuel x s).1 ⊎ IsBelow x s
  unfolding is_received Verdict
  is_received_lem x s h =
      let (r, found, h1, s1) = ok-bind (round fuel x) _ true s h in
      let (last, _, h2, s2) = ok-bind (on_store env.store.last_round) _ true _ h1 in
      let q1 = (round-Asks fuel x).at s in
      let q2 = (on_store-Asks env.store.last_round).at (round fuel x s).1 in
      let verdict =
        receive_loop-Verdict (rounds_after last r) (add64 r (pos 1)) r x s _
          (SameQueues-IsOrder.chain s (round fuel x s).1
            (on_store env.store.last_round (round fuel x s).1).1 q1 q2)
          h2 in
      elim verdict [ inl marked ↦ inl (rw (s1 ∙ s2) marked) | inr below ↦ inr (r, found, below) ]

  receive_all_lem :
      (xs ys : List String) (s : Poset env) → (receive_all fuel xs s).0 ≡ ok ys → Judged s ys xs
  unfolding receive_all pure
  receive_all_lem [] ys s h = rw (← ok-injective h) (done s)
  receive_all_lem (x ∷ xs) ys s h =
      let (received, judged, h1, s1) = ok-bind (is_received fuel x) _ ys s h in
      let (rest, others, h2, s2) = ok-bind (receive_all fuel xs) _ ys _ h1 in
      let later = receive_all_lem xs rest _ others in
      rw (← ok-injective h2) (one x xs rest s received judged later)
    where
      one :
          (x : String) (xs rest : List String) (s : Poset env) (received : Bool)
          → (is_received fuel x s).0 ≡ ok received
          → Judged (is_received fuel x s).1 rest xs
          → Judged s (if received then rest else x ∷ rest) (x ∷ xs)
      one x xs rest s true h later =
          leave s (is_received fuel x s).1 x rest xs (returned (is_received fuel x) (ok true) s h)
            (is_received_lem x s h) later
      one x xs rest s false h later =
          keep s (is_received fuel x s).1 x rest xs (returned (is_received fuel x) (ok false) s h)
            later

module _ {env : Env} (fuel : ℕ) where
  -- From `s` to `t` at most the store, the caches and the undetermined events have changed, and those as the
  -- result says.
  abbrev pub Received : Poset env → Result (Unit {0}) × Poset env → Type 0
  Received s (res, t) =
      (t ≡ record (with_caches t s) { undetermined_events = t.undetermined_events })
      × (((res ≡ ok tt) × Judged fuel s t.undetermined_events s.undetermined_events)
          ⊎ ((e : Error) × (res ≡ err e) × (t.undetermined_events ≡ s.undetermined_events)))

  received :
      (s t : Poset env) (r : Result (List String))
      → SameQueues s t
      → ((rest : List String) → r ≡ ok rest → Judged fuel s rest s.undetermined_events)
      → Received s (Exec.resume r (λ rest. modify (λ s. record s { undetermined_events = rest })) t)
  unfolding modify
  received s t (err e) h p = (
    h
        ∙ ap (λ l. record (with_caches t s) { undetermined_events = l })
            (ap (λ u. u.undetermined_events) (sym h)),
    inr (e, refl, ap (λ u. u.undetermined_events) h),
  )
  received s t (ok rest) h p =
      (ap (λ (u : Poset env). record u { undetermined_events = rest }) h, inl (refl, p rest refl))

  pub decide_round_received_lem : (s : Poset env) → Received s (decide_round_received fuel s)
  unfolding decide_round_received Exec.gets ◌>>=◌
  decide_round_received_lem s =
      let m = receive_all {env = env} fuel s.undetermined_events in
      received s (m s).1 (m s).0 ((receive_all-Asks fuel s.undetermined_events).at s)
        (λ rest h. receive_all_lem fuel s.undetermined_events rest s h)
