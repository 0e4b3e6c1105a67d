-- ===== src/Poset/Queries/Fuel.antt =====
-- How much fuel the recursions over the parents of an event need: the depth of the graph.
pub mod Ancestry
pub mod Sight
pub mod Rounds
use gource.Prelude.{
  ℕ, zero, suc, ◌+◌, ◌<◌, ◌≡◌, refl, String, Bool, true, false, ◌==◌, Option, none, some, ℤ, Map,
  lookup, string_eq, int_eq, arith, Comparable, if◌then◌else◌,
}
use gource.Common.Errors.{Error, Result, ok, err}
use gource.Common.Exec.{Exec, pure, modify, on, ◌>>=◌, ◌>>◌}
use gource.Common.Exec.Runs.{
  is_fuel, Ends, Any, Runs, Runs-pure, Runs-raise, Runs-gets, Runs-if, Runs-option, Runs-bind,
  Runs-attempt,
}
use gource.Poset.Event.{Event, creator, self_parent, other_parent}
use gource.Poset.Block.{Root}
use gource.Poset.State.{Env, Poset, Key, key_eq, on_store, or_panic, peer_by_id}
use gource.Poset.Graph.{
  CacheAt, cache_get, cache_add, memo, memo_unless, timestamps, ancestors, roots_or_nil,
  other_timestamp, self_timestamp, event_timestamp, lamport_timestamp2, lamport_timestamp,
  lamport_timestamp_diff,
}
use gource.Poset.Ancestry.{
  root_verdict, verdict, ancestor_by_parents, ancestor_known, ancestor2, ancestor, see,
}

-- The parents of an event lie below its hash.
abbrev pub Below : (String → ℕ) → String → Event → Type 0
Below rank x ex = (rank (self_parent ex) < rank x) × (rank (other_parent ex) < rank x)

-- What is asked of a store: in a state with the invariant, the events that it holds have ranks that grow
-- from the parents to the children, as the depth in a graph without cycles does; the reads keep the
-- invariant, and fail with errors of the code alone.
pub record IsRanked (env : Env) (rank : String → ℕ) (Inv : env.store.State → Type 0) : Type 0 where
  pub event : (x : String) → Runs Inv (Below rank x) (env.store.get_event x)
  pub roots : Runs Inv Any env.store.roots_by_self_parent
  pub root : (p : String) → Runs Inv Any (env.store.get_root p)

-- An action on the poset that keeps the invariant of its store and does not run out of fuel.
abbrev pub RunsOn :
    (env : Env)
    → (env.store.State → Type 0)
    → {A : Type 0} → (A → Type 0)
    → Exec (Poset env) A
    → Type 0
RunsOn env Inv Q m = Runs {S = Poset env} (λ s. Inv s.store) Q m

module _ {env : Env} {Inv : env.store.State → Type 0} where
  on_store-Runs :
      {A : Type 0} {Q : A → Type 0} (m : Exec env.store.State A)
      → Runs Inv Q m
      → RunsOn env Inv Q (on_store m)
  unfolding on_store on
  on_store-Runs m k = record { runs = λ s i. k.runs s.store i }

module _ {env : Env} where
  -- A cache outside of the store.
  pub record IsAside {K V : Type 0} (at : CacheAt env K V) : Type 0 where
    pub aside : (c : env.lru.Cache K V) (s : Poset env) → (at.write c s).store ≡ s.store

module _ {env : Env} (Inv : env.store.State → Type 0) where
  peer_by_id-Runs : (id : ℤ) → RunsOn env Inv Any (peer_by_id id)
  unfolding peer_by_id or_panic
  peer_by_id-Runs id = Runs-bind _ _ (Runs-gets {Q = Any} _ (λ s. tt)) (λ o _.
      elim o as (λ o. RunsOn env Inv Any (or_panic o)) [
        | none ↦ Runs-raise _ refl
        | some p ↦ Runs-pure p tt
      ])

  module _ {K V : Type 0} (e : Comparable K) (at : CacheAt env K V) (c : IsAside at) where
    cache_get-Runs : (k : K) → RunsOn env Inv Any (cache_get e at k)
    unfolding cache_get
    cache_get-Runs k = record { runs = λ s i. (rw (c.aside _ s) i, tt) }

    kept-Runs : (k : K) (v : V) → RunsOn env Inv Any (cache_add e at k v >> pure v)
    unfolding cache_add modify pure ◌>>=◌
    kept-Runs k v = record { runs = λ s i. (rw (c.aside _ s) i, tt) }

    memo-Runs :
        (k : K) (compute : Exec (Poset env) V)
        → RunsOn env Inv Any compute
        → RunsOn env Inv Any (memo e at k compute)
    unfolding memo
    memo-Runs k compute h = Runs-bind _ _ (cache_get-Runs k) (λ o _.
        Runs-option o (compute >>= λ v. cache_add e at k v >> pure v) pure
          (Runs-bind _ _ h (λ v _. kept-Runs k v)) (λ v. Runs-pure v tt))

    memo_unless-Runs :
        (skip : Bool) (known : V) (k : K) (compute : Exec (Poset env) V)
        → RunsOn env Inv Any compute
        → RunsOn env Inv Any (memo_unless e at skip known k compute)
    unfolding memo_unless
    memo_unless-Runs skip known k compute h = Runs-bind _ _ (cache_get-Runs k) (λ o _.
        Runs-option o (if skip then pure known else (compute >>= λ v. cache_add e at k v >> pure v))
          pure (Runs-if skip _ _ (Runs-pure known tt) (Runs-bind _ _ h (λ v _. kept-Runs k v)))
          (λ v. Runs-pure v tt))

module _ {env : Env} (rank : String → ℕ) (Inv : env.store.State → Type 0)
    (k : IsRanked env rank Inv) where
  roots_or_nil-Runs : RunsOn env Inv Any (roots_or_nil {env = env})
  unfolding roots_or_nil
  roots_or_nil-Runs =
      Runs-attempt _ _ (on_store-Runs _ k.roots) (λ r _. Runs-pure r tt) (λ e _. Runs-pure _ tt)

  module _ (n : ℕ) (rec : String → Exec (Poset env) ℤ)
      (h : (x : String) → rank x < n → RunsOn env Inv Any (rec x)) where
    other_timestamp-Runs :
        (root : Root) (x op : String)
        → rank op < n
        → RunsOn env Inv Any (other_timestamp rec root x op)
    unfolding other_timestamp
    other_timestamp-Runs root x op small =
        Runs-attempt _ _ (on_store-Runs _ (k.event op)) (λ ex _. h op small) (λ e _. Runs-pure _ tt)

    self_timestamp-Runs :
        (root : Root) (ex : Event)
        → rank (self_parent ex) < n
        → RunsOn env Inv Any (self_timestamp rec root ex)
    unfolding self_timestamp
    self_timestamp-Runs root ex small = Runs-if _ _ _ (Runs-pure _ tt) (h (self_parent ex) small)

    event_timestamp-Runs :
        (root : Root) (x : String) (ex : Event)
        → rank (self_parent ex) < n
        → rank (other_parent ex) < n
        → RunsOn env Inv Any (event_timestamp rec root x ex)
    unfolding event_timestamp
    event_timestamp-Runs root x ex sp op = Runs-bind _ _ (self_timestamp-Runs root ex sp) (λ plt _.
        Runs-if _ _ _ (Runs-pure _ tt) (
          Runs-bind _ _ (other_timestamp-Runs root x (other_parent ex) op) (λ t _. Runs-pure _ tt)))

    lamport_timestamp2-Runs :
        (x : String) → rank x < suc n → RunsOn env Inv Any (lamport_timestamp2 rec x)
    unfolding lamport_timestamp2
    lamport_timestamp2-Runs x small = Runs-bind _ _ roots_or_nil-Runs (λ roots _.
        Runs-option (lookup x roots) _ _
          (Runs-bind _ _ (on_store-Runs _ (k.event x)) (λ ex below.
            Runs-bind _ _ (on_store-Runs _ (k.root (creator ex))) (λ root _.
              event_timestamp-Runs root x ex (omega (arith, below.0)) (omega (arith, below.1)))))
          (λ r. Runs-pure _ tt))

  -- In a store whose events have ranks that grow from parents to children, `lamportTimestamp` of a hash does
  -- not run out of fuel that is above the rank of the hash: it returns a timestamp or an error of the code.
  pub lamport_timestamp-Runs :
      (fuel : ℕ) (x : String)
      → rank x < fuel
      → RunsOn env Inv Any (lamport_timestamp {env = env} fuel x)
  unfolding lamport_timestamp
  lamport_timestamp-Runs zero x small = absurd (omega arith)
  lamport_timestamp-Runs (suc fuel) x small =
      memo-Runs Inv _ _ (record { aside = λ c s. refl }) x _
        (lamport_timestamp2-Runs fuel (λ y. lamport_timestamp fuel y) (lamport_timestamp-Runs fuel)
          x small)
