-- ===== src/Poset/Graph.antt =====
-- src/poset/poset.go: ancestry and Lamport timestamps. Each recursion over the parents takes fuel, and
-- every level of it looks into its cache first, as the code does.
use gource.Prelude.{
  ℕ, zero, suc, String, Bool, [], Option, none, some, ℤ, pos, negsuc, add64, sub64, ltb_ℤ, Map,
  lookup, string_eq, ◌==◌, if◌then◌else◌, Comparable, ◌^◌, ◌-◌,
}
use gource.Common.Errors.{ok, err, no_fuel}
use gource.Common.Exec.{Exec, pure, raise, modify, attempt, ◌>>=◌, ◌>>◌}
use gource.Poset.Event.{Event, creator, self_parent, other_parent}
use gource.Poset.Block.{Root}
use gource.Poset.State.{Env, Poset, Key, key_eq, on_store}

-- math.MinInt64
abbrev pub min_int64 : ℤ
min_int64 = negsuc (2 ^ 63 - 1)

-- A cache of the poset: where it lies in the state.
pub record CacheAt (env : Env) (K V : Type 0) : Type 0 where
  pub read : Poset env → env.lru.Cache K V
  pub write : env.lru.Cache K V → Poset env → Poset env

-- The greater of the timestamp of the self-parent and that of the other-parent.
unfoldable pub with_other : ℤ → ℤ → ℤ
with_other plt op_lt = if ltb_ℤ plt op_lt then op_lt else plt

-- `opLT` of an event whose other-parent is not in the store: that of the creator's root.
unfoldable pub root_timestamp : Root → String → String → ℤ
root_timestamp root x op = elim (lookup x root.others) [
  | none ↦ min_int64
  | some other ↦ if other.hash == op then other.lamport_timestamp else min_int64
]

module _ {env : Env} where
  abbrev pub timestamps : CacheAt env String ℤ
  timestamps = record {
    read = λ s. s.timestamp_cache;
    write = λ c s. record s { timestamp_cache = c };
  }

  abbrev pub rounds : CacheAt env String ℤ
  rounds = record { read = λ s. s.round_cache; write = λ c s. record s { round_cache = c } }

  abbrev pub ancestors : CacheAt env Key Bool
  ancestors = record {
    read = λ s. s.ancestor_cache;
    write = λ c s. record s { ancestor_cache = c };
  }

  abbrev pub self_ancestors : CacheAt env Key Bool
  self_ancestors = record {
    read = λ s. s.self_ancestor_cache;
    write = λ c s. record s { self_ancestor_cache = c };
  }

  abbrev pub strong_sights : CacheAt env Key Bool
  strong_sights = record {
    read = λ s. s.strongly_see_cache;
    write = λ c s. record s { strongly_see_cache = c };
  }

  module _ {K V : Type 0} (e : Comparable K) (at : CacheAt env K V) where
    unfoldable pub cache_get : K → Exec (Poset env) (Option V)
    cache_get k s = let (res, c) = env.lru.get K V e (at.read s) k in (ok res, at.write c s)

    unfoldable pub cache_add : K → V → Exec (Poset env) Unit
    cache_add k v = modify (λ s. at.write (env.lru.add K V e (at.read s) k v) s)

    -- The cached value, or else the computed one, which is cached if there was no error.
    unfoldable pub memo : K → Exec (Poset env) V → Exec (Poset env) V
    memo k compute = do
      cached ← cache_get k
      elim cached [ some v ↦ pure v | none ↦ do v ← compute; cache_add k v; pure v ]

    -- The same, where the value for some keys is known and is not cached.
    unfoldable pub memo_unless : Bool → V → K → Exec (Poset env) V → Exec (Poset env) V
    memo_unless skip known k compute = do
      cached ← cache_get k
      elim cached [
        | some v ↦ pure v
        | none ↦ if skip then pure known else (do v ← compute; cache_add k v; pure v)
      ]

  -- `roots, _ := p.Store.RootsBySelfParent()`
  unfoldable pub roots_or_nil : Exec (Poset env) (Map String Root)
  roots_or_nil =
      attempt (on_store env.store.roots_by_self_parent)
        λ res. elim res [ ok roots ↦ pure roots | err _ ↦ pure [] ]

  module _ (rec : String → Exec (Poset env) ℤ) where
    unfoldable pub other_timestamp : Root → String → String → Exec (Poset env) ℤ
    other_timestamp root x op =
        attempt (on_store (env.store.get_event op))
          λ res. elim res [ ok _ ↦ rec op | err _ ↦ pure (root_timestamp root x op) ]

    unfoldable pub self_timestamp : Root → Event → Exec (Poset env) ℤ
    self_timestamp root ex =
        if self_parent ex == root.self_parent.hash
        then pure root.self_parent.lamport_timestamp
        else rec (self_parent ex)

    unfoldable pub event_timestamp : Root → String → Event → Exec (Poset env) ℤ
    event_timestamp root x ex = do
      plt ← self_timestamp root ex
      if other_parent ex == "" then pure (add64 plt (pos 1)) else do
        op_lt ← other_timestamp root x (other_parent ex)
        pure (add64 (with_other plt op_lt) (pos 1))

    unfoldable pub lamport_timestamp2 : String → Exec (Poset env) ℤ
    lamport_timestamp2 x = do
      roots ← roots_or_nil
      elim (lookup x roots) [
        | some r ↦ pure r.self_parent.lamport_timestamp
        | none ↦ do
          ex ← on_store (env.store.get_event x)
          root ← on_store (env.store.get_root (creator ex))
          event_timestamp root x ex
      ]

  unfoldable pub lamport_timestamp : ℕ → String → Exec (Poset env) ℤ
  lamport_timestamp zero x = raise no_fuel
  lamport_timestamp (suc fuel) x =
      memo string_eq timestamps x (lamport_timestamp2 (λ y. lamport_timestamp fuel y) x)

  -- lamport(y) - lamport(x)
  unfoldable pub lamport_timestamp_diff : ℕ → String → String → Exec (Poset env) ℤ
  lamport_timestamp_diff fuel x y = do
    xlt ← lamport_timestamp fuel x
    ylt ← lamport_timestamp fuel y
    pure (sub64 ylt xlt)
