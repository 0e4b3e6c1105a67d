-- ===== src/Poset/Queries/Graph.antt =====
-- Timestamps: the lemmas on what the questions leave alone.
use gource.Prelude.{ℕ, zero, suc, String, ℤ, lookup, string_eq}
use gource.Common.Exec.{Exec}
use gource.Poset.Event.{Event}
use gource.Poset.Block.{Root}
use gource.Poset.State.{Env, Poset, key_eq}
use gource.Poset.Graph.{
  roots_or_nil, other_timestamp, self_timestamp, event_timestamp, lamport_timestamp2,
  lamport_timestamp,
}
use gource.Poset.Queries.Caches.{
  asks, Asks, bind-Asks, raise-Asks, option-Asks, memo-Asks, timestamps-IsCache,
}

module _ {env : Env} where
  pub roots_or_nil-Asks : Asks (roots_or_nil {env = env})
  unfolding roots_or_nil
  roots_or_nil-Asks = search asks

  module _ (rec : String → Exec (Poset env) ℤ) (h : (x : String) → Asks (rec x)) where
    other_timestamp-Asks : (root : Root) (x op : String) → Asks (other_timestamp rec root x op)
    unfolding other_timestamp
    other_timestamp-Asks root x op = search (asks, h)

    self_timestamp-Asks : (root : Root) (ex : Event) → Asks (self_timestamp rec root ex)
    unfolding self_timestamp
    self_timestamp-Asks root ex = search (asks, h)

    event_timestamp-Asks :
        (root : Root) (x : String) (ex : Event) → Asks (event_timestamp rec root x ex)
    unfolding event_timestamp
    event_timestamp-Asks root x ex = search (asks, self_timestamp-Asks, other_timestamp-Asks)

    lamport_timestamp2-Asks : (x : String) → Asks (lamport_timestamp2 rec x)
    unfolding lamport_timestamp2
    lamport_timestamp2-Asks x = bind-Asks _ _ roots_or_nil-Asks (λ roots.
        option-Asks (lookup x roots) _ _ (search (asks, event_timestamp-Asks)) (λ r. search asks))

  pub lamport_timestamp-Asks : (fuel : ℕ) (x : String) → Asks (lamport_timestamp {env = env} fuel x)
  unfolding lamport_timestamp
  lamport_timestamp-Asks zero x = raise-Asks _
  lamport_timestamp-Asks (suc fuel) x =
      memo-Asks _ _ timestamps-IsCache x _
        (lamport_timestamp2-Asks (λ y. lamport_timestamp fuel y) (lamport_timestamp-Asks fuel) x)
