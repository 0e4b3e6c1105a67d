-- ===== src/Poset/Queries/Caches.antt =====
-- What touches the store and the caches alone: the relation, and the rules for it.
use gource.Prelude.{
  ◌≡◌, refl, ap, ◌∙◌, String, Bool, true, false, Option, none, some, ℤ, Comparable, if◌then◌else◌,
}
use gource.Common.Errors.{Error, Result, ok, err}
use gource.Common.Exec.{Exec, pure, raise, lift, gets, modify, attempt, ◌>>=◌, ◌>>◌, on}
use gource.Common.Exec.Steps.{
  IsOrder, Steps, Steps-bind, Steps-pure, Steps-raise, Steps-lift, Steps-gets, Steps-attempt,
}
use gource.Poset.State.{Env, Poset, on_store, or_panic, peer_by_id, peer_by_key}
use gource.Poset.Graph.{
  CacheAt, cache_get, cache_add, memo, memo_unless, timestamps, rounds, ancestors, self_ancestors,
  strong_sights,
}

module _ {env : Env} where
  -- The state `s` with the store and the caches of `t`.
  abbrev pub with_caches : Poset env → Poset env → Poset env
  with_caches t s = record s {
    store = t.store;
    ancestor_cache = t.ancestor_cache;
    self_ancestor_cache = t.self_ancestor_cache;
    strongly_see_cache = t.strongly_see_cache;
    round_cache = t.round_cache;
    timestamp_cache = t.timestamp_cache;
  }

  -- From `s` to `t`, at most the store and the caches have changed.
  abbrev pub SameQueues : Poset env → Poset env → Type 0
  SameQueues s t = t ≡ with_caches t s

  pub SameQueues-IsOrder : IsOrder SameQueues
  SameQueues-IsOrder = record { stays = λ s. refl; chain = λ s t u h k. k ∙ ap (with_caches u) h }

  -- A question that touches the store and the caches alone.
  abbrev pub Asks : {A : Type 0} → Exec (Poset env) A → Type 0
  Asks m = Steps SameQueues m

  pub on_store-Asks : {A : Type 0} (m : Exec env.store.State A) → Asks (on_store m)
  unfolding on_store on
  on_store-Asks m = record { at = λ s. refl }

  pub bind-Asks :
      {A B : Type 0} (m : Exec (Poset env) A) (f : A → Exec (Poset env) B)
      → Asks m
      → ((a : A) → Asks (f a))
      → Asks (m >>= f)
  bind-Asks m f = Steps-bind SameQueues-IsOrder m f

  pub attempt-Asks :
      {A B : Type 0} (m : Exec (Poset env) A) (f : Result A → Exec (Poset env) B)
      → Asks m
      → ((r : Result A) → Asks (f r))
      → Asks (attempt m f)
  attempt-Asks m f = Steps-attempt SameQueues-IsOrder m f

  -- The same by cases on the result.
  pub attempt_cases-Asks :
      {A B : Type 0} (m : Exec (Poset env) A) (f : Result A → Exec (Poset env) B)
      → Asks m
      → ((a : A) → Asks (f (ok a)))
      → ((e : Error) → Asks (f (err e)))
      → Asks (attempt m f)
  attempt_cases-Asks m f k h g =
      attempt-Asks m f k (λ r. elim r as (λ k. Asks (f k)) [ ok a ↦ h a | err e ↦ g e ])

  -- A bind by cases on the option that it hands on.
  pub bind_option-Asks :
      {A B : Type 0} (m : Exec (Poset env) (Option A)) (f : Option A → Exec (Poset env) B)
      → Asks m
      → ((a : A) → Asks (f (some a)))
      → Asks (f none)
      → Asks (m >>= f)
  bind_option-Asks m f k h g =
      bind-Asks m f k (λ o. elim o as (λ k. Asks (f k)) [ some a ↦ h a | none ↦ g ])

  pub pure-Asks : {A : Type 0} (a : A) → Asks (pure a)
  pure-Asks a = Steps-pure SameQueues-IsOrder a

  pub raise-Asks : {A : Type 0} (e : Error) → Asks (raise {A = A} e)
  raise-Asks e = Steps-raise SameQueues-IsOrder e

  pub gets-Asks : {A : Type 0} (f : Poset env → A) → Asks (gets f)
  gets-Asks f = Steps-gets SameQueues-IsOrder f

  pub lift-Asks : {A : Type 0} (r : Result A) → Asks (lift r)
  lift-Asks r = Steps-lift SameQueues-IsOrder r

  pub if-Asks :
      {A : Type 0} (b : Bool) (m n : Exec (Poset env) A)
      → Asks m
      → Asks n
      → Asks (if b then m else n)
  if-Asks true m n k l = k
  if-Asks false m n k l = l

  pub option-Asks :
      {A B : Type 0} (o : Option A) (m : Exec (Poset env) B) (f : A → Exec (Poset env) B)
      → Asks m
      → ((a : A) → Asks (f a))
      → Asks (elim o [ none ↦ m | some a ↦ f a ])
  option-Asks none m f k l = k
  option-Asks (some a) m f k l = l a

  pub result-Asks :
      {A B : Type 0} (r : Result A) (f : A → Exec (Poset env) B) (g : Error → Exec (Poset env) B)
      → ((a : A) → Asks (f a))
      → ((e : Error) → Asks (g e))
      → Asks (elim r [ ok a ↦ f a | err e ↦ g e ])
  result-Asks (ok a) f g k l = k a
  result-Asks (err e) f g k l = l e

  pub or_panic-Asks : {A : Type 0} (o : Option A) → Asks (or_panic o)
  unfolding or_panic
  or_panic-Asks none = raise-Asks _
  or_panic-Asks (some a) = pure-Asks a

  pub peer_by_key-Asks : (key : String) → Asks (peer_by_key key)
  unfolding peer_by_key
  peer_by_key-Asks key = bind-Asks _ _ (gets-Asks _) (λ p. or_panic-Asks p)

  pub peer_by_id-Asks : (id : ℤ) → Asks (peer_by_id id)
  unfolding peer_by_id
  peer_by_id-Asks id = bind-Asks _ _ (gets-Asks _) (λ p. or_panic-Asks p)

  -- A cache of the poset, whose writes change nothing else.
  pub record IsCache {K V : Type 0} (at : CacheAt env K V) : Type 0 where
    pub writes : (c : env.lru.Cache K V) (s : Poset env) → SameQueues s (at.write c s)

  pub timestamps-IsCache : IsCache timestamps
  timestamps-IsCache = record { writes = λ c s. refl }

  pub rounds-IsCache : IsCache rounds
  rounds-IsCache = record { writes = λ c s. refl }

  pub ancestors-IsCache : IsCache ancestors
  ancestors-IsCache = record { writes = λ c s. refl }

  pub self_ancestors-IsCache : IsCache self_ancestors
  self_ancestors-IsCache = record { writes = λ c s. refl }

  pub strong_sights-IsCache : IsCache strong_sights
  strong_sights-IsCache = record { writes = λ c s. refl }

  module _ {K V : Type 0} (e : Comparable K) (at : CacheAt env K V) (c : IsCache at) where
    cache_get-Asks : (k : K) → Asks (cache_get e at k)
    unfolding cache_get
    cache_get-Asks k = record { at = λ s. c.writes _ s }

    cache_add-Asks : (k : K) (v : V) → Asks (cache_add e at k v)
    unfolding cache_add modify
    cache_add-Asks k v = record { at = λ s. c.writes _ s }

    stored-Asks : (k : K) (v : V) → Asks (cache_add e at k v >> pure v)
    stored-Asks k v = bind-Asks _ _ (cache_add-Asks k v) (λ _. pure-Asks v)

    pub memo-Asks :
        (k : K) (compute : Exec (Poset env) V) → Asks compute → Asks (memo e at k compute)
    unfolding memo
    memo-Asks k compute h = bind-Asks _ _ (cache_get-Asks k) (λ o.
        option-Asks o (compute >>= λ v. cache_add e at k v >> pure v) pure
          (bind-Asks _ _ h (stored-Asks k)) pure-Asks)

    pub memo_unless-Asks :
        (skip : Bool) (known : V) (k : K) (compute : Exec (Poset env) V)
        → Asks compute
        → Asks (memo_unless e at skip known k compute)
    unfolding memo_unless
    memo_unless-Asks skip known k compute h = bind-Asks _ _ (cache_get-Asks k) (λ o.
        option-Asks o (if skip then pure known else (compute >>= λ v. cache_add e at k v >> pure v))
          pure (if-Asks skip _ _ (pure-Asks known) (bind-Asks _ _ h (stored-Asks k))) pure-Asks)

pub ruleset asks = (
  on_store-Asks, bind-Asks, bind_option-Asks, attempt_cases-Asks, pure-Asks, raise-Asks, gets-Asks,
  if-Asks, option-Asks, result-Asks, peer_by_id-Asks, peer_by_key-Asks, lift-Asks, or_panic-Asks,
)
