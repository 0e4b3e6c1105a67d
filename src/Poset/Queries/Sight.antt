-- ===== src/Poset/Queries/Sight.antt =====
-- Ancestry, sight and strong sight: the lemmas on what the questions leave alone.
use gource.Prelude.{ℕ, zero, suc, String, Bool, false, Option, none, some, Map, lookup, string_eq}
use gource.Common.Errors.{Error, Result, ok, err}
use gource.Common.Exec.{Exec}
use gource.Poset.Event.{Event}
use gource.Poset.Block.{Root}
use gource.Poset.State.{Env, Poset}
use gource.Poset.Ancestry.{
  root_verdict, verdict, ancestor_by_parents, ancestor_known, ancestor2, ancestor, see,
  sentinels_of_root, sentinels_of_event, sentinels_of_seer, map_sentinels, strongly_see2,
  strongly_see,
}
use gource.Poset.Queries.Caches.{
  asks, Asks, option-Asks, raise-Asks, memo-Asks, memo_unless-Asks, pure-Asks, if-Asks,
  ancestors-IsCache, strong_sights-IsCache,
}
use gource.Poset.Graph.{lamport_timestamp_diff}
use gource.Poset.Queries.Graph.{lamport_timestamp-Asks}

module _ {env : Env} where
  lamport_timestamp_diff-Asks :
      (fuel : ℕ) (x y : String) → Asks (lamport_timestamp_diff {env = env} fuel x y)
  unfolding lamport_timestamp_diff
  lamport_timestamp_diff-Asks fuel x y = search (asks, lamport_timestamp-Asks)

  root_verdict-Asks : (ex : Event) (o : Option Root) → Asks (root_verdict {env = env} ex o)
  unfolding root_verdict
  root_verdict-Asks ex none = search asks
  root_verdict-Asks ex (some root) = search asks

  verdict-Asks : (ex : Event) (y : String) (r : Result Event) → Asks (verdict {env = env} ex y r)
  unfolding verdict
  verdict-Asks ex y (ok ey) = search asks
  verdict-Asks ex y (err e) = search (asks, root_verdict-Asks)

  module _ (fuel : ℕ) (rec : String → String → Exec (Poset env) Bool)
      (h : (x y : String) → Asks (rec x y)) where
    by_parents-Asks : (ex : Event) (y : String) → Asks (ancestor_by_parents fuel rec ex y)
    unfolding ancestor_by_parents
    by_parents-Asks ex y = search (asks, h)

    ancestor_known-Asks : (ex : Event) (x y : String) → Asks (ancestor_known fuel rec ex x y)
    unfolding ancestor_known
    ancestor_known-Asks ex x y =
        search (asks, lamport_timestamp_diff-Asks, verdict-Asks, by_parents-Asks) depth 7

    ancestor2-Asks : (x y : String) → Asks (ancestor2 fuel rec x y)
    unfolding ancestor2
    ancestor2-Asks x y = search (asks, ancestor_known-Asks)

  pub ancestor-Asks : (fuel : ℕ) (x y : String) → Asks (ancestor {env = env} fuel x y)
  unfolding ancestor
  ancestor-Asks zero x y = raise-Asks _
  ancestor-Asks (suc fuel) x y =
      memo_unless-Asks _ _ ancestors-IsCache _ _ _ _
        (ancestor2-Asks (suc fuel) (λ a b. ancestor fuel a b) (ancestor-Asks fuel) x y)

  pub see-Asks : (fuel : ℕ) (x y : String) → Asks (see {env = env} fuel x y)
  unfolding see
  see-Asks fuel x y = ancestor-Asks fuel x y

  module _ (rec : String → String → Map String Bool → Exec (Poset env) (Map String Bool))
      (h : (x y : String) (m : Map String Bool) → Asks (rec x y m)) where
    root-Asks :
        (x : String) (m : Map String Bool) (e : Error) (roots : Map String Root)
        → Asks (sentinels_of_root rec x m e roots)
    unfolding sentinels_of_root
    root-Asks x m e roots = option-Asks (lookup x roots) _ _ (raise-Asks e) (λ root. search asks)

    event-Asks :
        (ex : Event) (x y : String) (m : Map String Bool) → Asks (sentinels_of_event rec ex x y m)
    unfolding sentinels_of_event
    event-Asks ex x y m = search (asks, h)

    seer-Asks : (x y : String) (m : Map String Bool) → Asks (sentinels_of_seer rec x y m)
    unfolding sentinels_of_seer
    seer-Asks x y m = search (asks, event-Asks, root-Asks)

  map_sentinels-Asks :
      (depth fuel : ℕ) (x y : String) (m : Map String Bool)
      → Asks (map_sentinels {env = env} depth fuel x y m)
  unfolding map_sentinels
  map_sentinels-Asks depth zero x y m = raise-Asks _
  map_sentinels-Asks depth (suc fuel) x y m =
      let seer =
        seer-Asks (λ a b n. map_sentinels depth fuel a b n) (map_sentinels-Asks depth fuel) in
      search (asks, see-Asks, seer)

  strongly_see2-Asks : (fuel : ℕ) (x y : String) → Asks (strongly_see2 {env = env} fuel x y)
  unfolding strongly_see2
  strongly_see2-Asks fuel x y = search (asks, map_sentinels-Asks)

  pub strongly_see-Asks : (fuel : ℕ) (x y : String) → Asks (strongly_see {env = env} fuel x y)
  unfolding strongly_see
  strongly_see-Asks fuel x y =
      if-Asks _ _ _ (pure-Asks false)
        (memo-Asks _ _ strong_sights-IsCache _ _ (strongly_see2-Asks fuel x y))
