-- ===== src/Poset/Queries/Fuel/Sight.antt =====
-- The fuel of `stronglySee`, which walks over the ancestors of its first event.
use gource.Prelude.{
  ℕ, zero, suc, ◌+◌, ◌<◌, ◌≡◌, refl, String, Bool, false, [], Map, lookup, string_eq, arith,
}
use gource.Common.Errors.{Error}
use gource.Common.Exec.{Exec}
use gource.Common.Exec.Runs.{
  is_fuel, Any, Runs-pure, Runs-raise, Runs-gets, Runs-if, Runs-option, Runs-bind, Runs-attempt,
}
use gource.Poset.Event.{Event, self_parent, other_parent}
use gource.Poset.Block.{Root}
use gource.Poset.State.{Env, Poset, key_eq}
use gource.Poset.Ancestry.{
  sentinels_of_root, sentinels_of_event, sentinels_of_seer, map_sentinels, strongly_see2,
  strongly_see,
}
use gource.Poset.Queries.Fuel.{Below, IsRanked, RunsOn, on_store-Runs, peer_by_id-Runs, memo-Runs}
use gource.Poset.Queries.Fuel.Ancestry.{see-Runs}

module _ {env : Env} (rank : String → ℕ) (Inv : env.store.State → Type 0)
    (k : IsRanked env rank Inv) where
  module _ (n : ℕ) (rec : String → String → Map String Bool → Exec (Poset env) (Map String Bool))
      (y : String)
      (h : (x : String) (m : Map String Bool) → rank x < n → RunsOn env Inv Any (rec x y m)) where
    of_root-Runs :
        (x : String) (m : Map String Bool) (e : Error) (roots : Map String Root)
        → is_fuel e ≡ false
        → RunsOn env Inv Any (sentinels_of_root rec x m e roots)
    unfolding sentinels_of_root
    of_root-Runs x m e roots q =
        Runs-option (lookup x roots) _ _ (Runs-raise e q)
          (λ r. Runs-bind _ _ (peer_by_id-Runs Inv _) (λ p _. Runs-pure _ tt))

    of_event-Runs :
        (ex : Event) (x : String) (m : Map String Bool)
        → Below rank x ex
        → rank x < suc n
        → RunsOn env Inv Any (sentinels_of_event rec ex x y m)
    unfolding sentinels_of_event
    of_event-Runs ex x m below small = Runs-bind _ _ (peer_by_id-Runs Inv _) (λ p _.
        Runs-if _ _ _ (Runs-pure _ tt) (
          Runs-bind _ _ (h (other_parent ex) _ (omega (arith, below.1)))
            (λ more _. h (self_parent ex) more (omega (arith, below.0)))))

    of_seer-Runs :
        (x : String) (m : Map String Bool)
        → rank x < suc n
        → RunsOn env Inv Any (sentinels_of_seer rec x y m)
    unfolding sentinels_of_seer
    of_seer-Runs x m small =
        Runs-attempt _ _ (on_store-Runs _ (k.event x))
          (λ ex below. of_event-Runs ex x m below small)
          (λ e q. Runs-bind _ _ (on_store-Runs _ k.roots) (λ roots _. of_root-Runs x m e roots q))

  map_sentinels-Runs :
      (depth fuel : ℕ) (x y : String) (m : Map String Bool)
      → rank x + rank y < depth
      → rank x < fuel
      → RunsOn env Inv Any (map_sentinels {env = env} depth fuel x y m)
  unfolding map_sentinels
  map_sentinels-Runs depth zero x y m deep small = absurd (omega arith)
  map_sentinels-Runs depth (suc fuel) x y m deep small = Runs-if _ _ _ (Runs-pure _ tt) (
      Runs-bind _ _ (see-Runs rank Inv k depth x y deep) (λ sees _.
        Runs-if sees _ _
          (of_seer-Runs (rank x) (λ a b l. map_sentinels depth fuel a b l) y
            (λ a l lower. map_sentinels-Runs depth fuel a y l (omega arith) (omega arith)) x m
            (omega arith))
          (Runs-pure m tt)))

  strongly_see2-Runs :
      (fuel : ℕ) (x y : String)
      → rank x + rank y < fuel
      → RunsOn env Inv Any (strongly_see2 {env = env} fuel x y)
  unfolding strongly_see2
  strongly_see2-Runs fuel x y small =
      Runs-bind _ _ (map_sentinels-Runs fuel fuel x y [] small (omega arith))
        (λ sentinels _. Runs-bind _ _ (Runs-gets {Q = Any} _ (λ s. tt)) (λ n _. Runs-pure _ tt))

  -- In a store whose events have ranks that grow from parents to children, `stronglySee` does not run out of
  -- fuel that is above the sum of the ranks of its two hashes: from every state with the store's invariant it
  -- returns an answer or an error of the code, and keeps the invariant.
  pub strongly_see-Runs :
      (fuel : ℕ) (x y : String)
      → rank x + rank y < fuel
      → RunsOn env Inv Any (strongly_see {env = env} fuel x y)
  unfolding strongly_see
  strongly_see-Runs fuel x y small =
      Runs-if _ _ _ (Runs-pure _ tt)
        (memo-Runs Inv _ _ (record { aside = λ c s. refl }) _ _ (strongly_see2-Runs fuel x y small))
