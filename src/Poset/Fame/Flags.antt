-- ===== src/Poset/Fame/Flags.antt =====
-- What `DecideFame` changes of the state of the poset: the flags of the pending rounds.
use gource.Prelude.{
  arith, int_eq, arith, int_eq, ℕ, zero, suc, ◌≡◌, refl, sym, ap, ◌∙◌, ◌⊎◌, inl, inr, String, Bool,
  true, false, ◌||◌, if◌then◌else◌, List, [], ◌∷◌, none, some, ℤ, Bool-cases, pos, add64,
}
use gource.Common.Errors.{Error, Result, ok, err, ok-injective}
use gource.Common.Exec
use gource.Common.Exec.{Exec, pure, modify, ◌>>=◌}
use gource.Common.Exec.Inversion.{ok-bind, returned}
use gource.Poset.RoundInfo.{RoundInfo, witnesses, witnesses_decided, set_fame, is_decided}
use gource.Poset.State.{Env, Poset, PendingRound, on_store}
use gource.Poset.Fame.{
  strongly_seen, vote, vote_round, vote_loop, decide_witnesses, decide_rounds, among,
  update_pending_rounds, decide_fame,
}
use gource.Poset.Fame.Ballots.{Votes}
use gource.Poset.Queries.Caches.{
  asks, SameQueues, with_caches, Asks, on_store-Asks, bind-Asks, option-Asks, if-Asks, pure-Asks,
}
use gource.Poset.Queries.Sight.{see-Asks, strongly_see-Asks}

module _ {env : Env} (fuel : ℕ) where
  strongly_seen-Asks : (y : String) (ws : List String) → Asks (strongly_seen {env = env} fuel y ws)
  unfolding strongly_seen
  strongly_seen-Asks y [] = pure-Asks []
  strongly_seen-Asks y (w ∷ ws) =
      bind-Asks _ _ (strongly_see-Asks fuel y w)
        (λ ss. bind-Asks _ _ (strongly_seen-Asks y ws) (λ rest. pure-Asks _))

  vote-Asks :
      (diff : ℕ) (j : ℤ) (x y : String) (votes : Votes)
      → Asks (vote {env = env} fuel diff j x y votes)
  unfolding vote
  vote-Asks diff j x y votes = search (asks, see-Asks, strongly_seen-Asks) depth 8

  vote_round-Asks :
      (diff : ℕ) (j : ℤ) (x : String) (ys : List String) (votes : Votes)
      → Asks (vote_round {env = env} fuel diff j x ys votes)
  unfolding vote_round
  vote_round-Asks diff j x [] votes = pure-Asks _
  vote_round-Asks diff j x (y ∷ ys) votes =
      bind-Asks _ _ (vote-Asks diff j x y votes)
        (λ r. option-Asks r.1 _ _ (vote_round-Asks diff j x ys r.0) (λ v. pure-Asks (r.0, some v)))

  vote_loop-Asks :
      (left diff : ℕ) (i : ℤ) (x : String) (votes : Votes)
      → Asks (vote_loop {env = env} fuel left diff i x votes)
  unfolding vote_loop
  vote_loop-Asks zero diff i x votes = pure-Asks _
  vote_loop-Asks (suc left) diff i x votes = bind-Asks _ _ (on_store-Asks _) (λ ys.
      bind-Asks _ _ (vote_round-Asks diff (add64 i (pos diff)) x ys votes) (λ r.
        option-Asks r.1 _ _ (vote_loop-Asks left (suc diff) i x r.0)
          (λ v. pure-Asks (r.0, some v))))

  decide_witnesses-Asks :
      (i : ℤ) (xs : List String) (votes : Votes) (info : RoundInfo)
      → Asks (decide_witnesses {env = env} fuel i xs votes info)
  unfolding decide_witnesses
  decide_witnesses-Asks i [] votes info = pure-Asks _
  decide_witnesses-Asks i (x ∷ xs) votes info =
      if-Asks (is_decided info x) _ _ (decide_witnesses-Asks i xs votes info) (
        bind-Asks _ _ (on_store-Asks _) (λ last. bind-Asks _ _ (vote_loop-Asks _ 1 i x votes) (λ r.
          decide_witnesses-Asks i xs r.0 (elim r.1 [ none ↦ info | some v ↦ set_fame info x v ]))))

  decide_rounds-Asks :
      (rs : List PendingRound) (votes : Votes) (decided : List ℤ)
      → Asks (decide_rounds {env = env} fuel rs votes decided)
  unfolding decide_rounds
  decide_rounds-Asks [] votes decided = pure-Asks _
  decide_rounds-Asks (r ∷ rs) votes decided = bind-Asks _ _ (on_store-Asks _) (λ info.
      bind-Asks _ _ (decide_witnesses-Asks r.index _ votes info)
        (λ p. bind-Asks _ _ (on_store-Asks _) (λ _. decide_rounds-Asks rs p.0 _)))

module _ {env : Env} (fuel : ℕ) where
  -- The loop over the pending rounds, from a state: what the store has of each round, what the votes make of it, and
  -- that it is stored. The list has the rounds whose witnesses are all decided in what was stored.
  pub data Decides : Poset env → List PendingRound → Votes → List ℤ → Type 0 where
    done : (s : Poset env) (votes : Votes) → Decides s [] votes []
    voted :
        (s t u v : Poset env) (r : PendingRound) (rs : List PendingRound) (votes votes' : Votes)
        (info info' : RoundInfo) (found : List ℤ)
        → on_store (env.store.get_round r.index) s ≡ (ok info, t)
        → decide_witnesses fuel r.index (witnesses info) votes info t ≡ (ok (votes', info'), u)
        → on_store (env.store.set_round r.index info') u ≡ (ok tt, v)
        → Decides v rs votes' found
        → Decides s (r ∷ rs) votes (if witnesses_decided info' then r.index ∷ found else found)

-- Whether the round joins one list or the other.
among_either :
    (b : Bool) (i j : ℤ) (before found : List ℤ)
    → (among i (if b then j ∷ before else before) || among i found)
      ≡ (among i before || among i (if b then j ∷ found else found))
unfolding among
among_either true i j before found = ground arith
among_either false i j before found = refl

or_true : (b : Bool) → (b || true) ≡ true
or_true true = refl
or_true false = refl

or_false : (b : Bool) → (b || false) ≡ b
or_false true = refl
or_false false = refl

module _ {env : Env} (fuel : ℕ) where
  decide_rounds_lem :
      (rs : List PendingRound) (votes : Votes) (before out : List ℤ) (s : Poset env)
      → (decide_rounds fuel rs votes before s).0 ≡ ok out
      → (found : List ℤ) × Decides fuel s rs votes found
        × ((i : ℤ) → among i out ≡ (among i before || among i found))
  unfolding decide_rounds pure among
  decide_rounds_lem [] votes before out s h =
      ([], done s votes, λ i. rw (← ok-injective h) (sym (or_false (among i before))))
  decide_rounds_lem (r ∷ rs) votes before out s h =
      let read : Exec (Poset env) RoundInfo = on_store (env.store.get_round r.index) in
      let (info, h0, k0, _) = ok-bind read _ out s h in
      let t : Poset env = (read s).1 in
      let voting = decide_witnesses {env = env} fuel r.index (witnesses info) votes info in
      let (p, h1, k1, _) = ok-bind voting _ out t k0 in
      let u : Poset env = (voting t).1 in
      let write : Exec (Poset env) Unit = on_store (env.store.set_round r.index p.1) in
      let (_, h2, k2, _) = ok-bind write _ out u k1 in
      let (found, rest, same) =
        decide_rounds_lem rs p.0 (if witnesses_decided p.1 then r.index ∷ before else before) out
          (write u).1 k2 in
      (
        (if witnesses_decided p.1 then r.index ∷ found else found),
        voted s t u (write u).1 r rs votes p.0 info p.1 found (returned read (ok info) s h0)
            (returned voting (ok p) t h1) (returned write (ok tt) u h2) rest,
        λ i. same i ∙ among_either (witnesses_decided p.1) i r.index before found,
      )

-- The same rounds in the same order; a flag is set if it was set before, or the round is among those decided.
abbrev pub Flagged : List ℤ → List PendingRound → List PendingRound → Type 0
Flagged decided [] [] = Unit
Flagged decided (r ∷ rs) (q ∷ qs) =
    (q.index ≡ r.index) × (q.decided ≡ (r.decided || among r.index decided)) × Flagged decided rs qs
Flagged decided _ _ = ⊥

Flagged-same :
    (out found : List ℤ) (rs qs : List PendingRound)
    → ((i : ℤ) → among i out ≡ among i found)
    → Flagged out rs qs
    → Flagged found rs qs
Flagged-same out found [] [] e h = tt
Flagged-same out found [] (q ∷ qs) e h = absurd h
Flagged-same out found (r ∷ rs) [] e h = absurd h
Flagged-same out found (r ∷ rs) (q ∷ qs) e h =
    (h.0, h.1 ∙ ap (λ b. r.decided || b) (e r.index), Flagged-same out found rs qs e h.2)

update_pending_rounds-Flagged :
    (decided : List ℤ) (rs : List PendingRound)
    → Flagged decided rs (update_pending_rounds decided rs)
unfolding update_pending_rounds
update_pending_rounds-Flagged decided [] = tt
update_pending_rounds-Flagged decided (r ∷ rs) = elim (Bool-cases (among r.index decided)) [
  | inl h ↦
      rw (h, update_pending_rounds)
        (refl, sym (or_true r.decided), update_pending_rounds-Flagged decided rs)
  | inr h ↦
      rw (h, update_pending_rounds)
        (refl, sym (or_false r.decided), update_pending_rounds-Flagged decided rs)
]

module _ {env : Env} (fuel : ℕ) where
  -- From `s` to `t` at most the store, the caches and flags of pending rounds have changed, and those as the
  -- result says.
  abbrev pub Decided : Poset env → Result (Unit {0}) × Poset env → Type 0
  Decided s (res, t) =
      (t ≡ record (with_caches t s) { pending_rounds = t.pending_rounds })
      × (((res ≡ ok tt)
            × (found : List ℤ) × Decides fuel s s.pending_rounds [] found
            × Flagged found s.pending_rounds t.pending_rounds)
          ⊎ ((e : Error) × (res ≡ err e) × (t.pending_rounds ≡ s.pending_rounds)))

  flagged :
      (s t : Poset env) (r : Result (List ℤ))
      → (decide_rounds fuel s.pending_rounds [] [] s).0 ≡ r
      → SameQueues s t
      → Decided s (
          Exec.resume r
            (λ decided.
              modify
                (λ s. record s { pending_rounds = update_pending_rounds decided s.pending_rounds }))
            t)
  unfolding modify among
  flagged s t (err e) run h = (
    h
        ∙ ap (λ p. record (with_caches t s) { pending_rounds = p })
            (ap (λ u. u.pending_rounds) (sym h)),
    inr (e, refl, ap (λ u. u.pending_rounds) h),
  )
  flagged s t (ok out) run h =
      let (found, decides, same) = decide_rounds_lem fuel s.pending_rounds [] [] out s run in
      (
        ap
            (λ (u : Poset env). record u {
              pending_rounds = update_pending_rounds out t.pending_rounds;
            })
            h,
        inl (
          refl,
          found,
          decides,
          Flagged-same out found s.pending_rounds _ same (
              rw (ap (λ u. u.pending_rounds) h)
                (update_pending_rounds-Flagged out s.pending_rounds)),
        ),
      )

  -- `DecideFame` keeps the pending rounds and their order, and changes at most the store, the caches and their
  -- flags. If it fails, the flags are as they were. If it succeeds, it has gone through the pending rounds: it has
  -- read the information of each one from the store, let the witnesses vote, and stored what came out. The flag of a
  -- pending round is then set exactly if it was set before, or all witnesses were decided in what was stored for its
  -- index.
  pub decide_fame_lem : (s : Poset env) → Decided s (decide_fame fuel s)
  unfolding decide_fame Exec.gets ◌>>=◌
  decide_fame_lem s =
      let m = decide_rounds {env = env} fuel s.pending_rounds [] [] in
      flagged s (m s).1 (m s).0 refl ((decide_rounds-Asks fuel s.pending_rounds [] []).at s)
