-- ===== src/Poset/Queries/Fuel/Ancestry.antt =====
-- The fuel of `ancestor` and `see`: the sum of two depths.
use gource.Prelude.{
  ℕ, zero, suc, ◌+◌, ◌<◌, refl, String, Bool, Option, none, some, lookup, string_eq, arith,
}
use gource.Common.Errors.{Result, ok, err}
use gource.Common.Exec.{Exec, pure, ◌>>=◌}
use gource.Common.Exec.Runs.{Any, Runs-pure, Runs-if, Runs-option, Runs-bind, Runs-attempt}
use gource.Poset.Event.{Event, self_parent, other_parent}
use gource.Poset.Block.{Root}
use gource.Poset.State.{Env, Poset, key_eq}
use gource.Poset.Graph.{lamport_timestamp_diff}
use gource.Poset.Ancestry.{
  root_verdict, verdict, ancestor_by_parents, ancestor_known, ancestor2, ancestor, see,
}
use gource.Poset.Queries.Fuel.{
  Below, IsRanked, RunsOn, on_store-Runs, peer_by_id-Runs, memo_unless-Runs, lamport_timestamp-Runs,
}

module _ {env : Env} (rank : String → ℕ) (Inv : env.store.State → Type 0)
    (k : IsRanked env rank Inv) where
  diff-Runs :
      (fuel : ℕ) (x y : String)
      → rank x < fuel
      → rank y < fuel
      → RunsOn env Inv Any (lamport_timestamp_diff {env = env} fuel x y)
  unfolding lamport_timestamp_diff
  diff-Runs fuel x y a b =
      Runs-bind _ _ (lamport_timestamp-Runs rank Inv k fuel x a)
        (λ t _. Runs-bind _ _ (lamport_timestamp-Runs rank Inv k fuel y b) (λ u _. Runs-pure _ tt))

  root_verdict-Runs :
      (ex : Event) (o : Option Root) → RunsOn env Inv Any (root_verdict {env = env} ex o)
  unfolding root_verdict
  root_verdict-Runs ex none = Runs-pure _ tt
  root_verdict-Runs ex (some r) = Runs-bind _ _ (peer_by_id-Runs Inv _) (λ p _. Runs-pure _ tt)

  verdict-Runs :
      (ex : Event) (y : String) (r : Result Event) → RunsOn env Inv Any (verdict {env = env} ex y r)
  unfolding verdict
  verdict-Runs ex y (ok ey) = Runs-pure _ tt
  verdict-Runs ex y (err e) =
      Runs-bind _ _ (on_store-Runs _ k.roots) (λ roots _. root_verdict-Runs ex (lookup y roots))

  module _ (n : ℕ) (rec : String → String → Exec (Poset env) Bool)
      (h : (x y : String) → rank x + rank y < n → RunsOn env Inv Any (rec x y)) where
    by_parents-Runs :
        (fuel : ℕ) (ex : Event) (x y : String)
        → Below rank x ex
        → rank x + rank y < suc n
        → RunsOn env Inv Any (ancestor_by_parents fuel rec ex y)
    unfolding ancestor_by_parents
    by_parents-Runs fuel ex x y below small =
        Runs-bind _ _ (h (self_parent ex) y (omega (arith, below.0)))
          (λ b _. Runs-if _ _ _ (Runs-pure _ tt) (h (other_parent ex) y (omega (arith, below.1))))

    ancestor_known-Runs :
        (ex : Event) (x y : String)
        → Below rank x ex
        → rank x + rank y < suc n
        → RunsOn env Inv Any (ancestor_known (suc n) rec ex x y)
    unfolding ancestor_known
    ancestor_known-Runs ex x y below small =
        Runs-bind _ _ (diff-Runs (suc n) x y (omega arith) (omega arith)) (λ d _.
          Runs-if _ _ _ (Runs-pure _ tt) (
            Runs-attempt _ _ (on_store-Runs _ (k.event y)) (λ ey _. decide (ok ey))
              (λ e _. decide (err e))))
      where
        decide :
            (r : Result Event)
            → RunsOn env Inv Any (
                verdict ex y r >>= λ decided. elim decided [
                  | some b ↦ pure b
                  | none ↦ ancestor_by_parents (suc n) rec ex y
                ])
        decide r = Runs-bind _ _ (verdict-Runs ex y r) (λ o _.
            Runs-option o _ _ (by_parents-Runs (suc n) ex x y below small) (λ b. Runs-pure b tt))

    ancestor2-Runs :
        (x y : String) → rank x + rank y < suc n → RunsOn env Inv Any (ancestor2 (suc n) rec x y)
    unfolding ancestor2
    ancestor2-Runs x y small = Runs-if _ _ _ (Runs-pure _ tt) (
        Runs-attempt _ _ (on_store-Runs _ (k.event x))
          (λ ex below. ancestor_known-Runs ex x y below small)
          (λ e _. Runs-bind _ _ (on_store-Runs _ k.roots) (λ roots _. Runs-pure _ tt)))

  ancestor-Runs :
      (fuel : ℕ) (x y : String)
      → rank x + rank y < fuel
      → RunsOn env Inv Any (ancestor {env = env} fuel x y)
  unfolding ancestor
  ancestor-Runs zero x y small = absurd (omega arith)
  ancestor-Runs (suc fuel) x y small =
      memo_unless-Runs Inv _ _ (record { aside = λ c s. refl }) _ _ _ _
        (ancestor2-Runs fuel (λ a b. ancestor fuel a b) (ancestor-Runs fuel) x y small)

  -- In a store whose events have ranks that grow from parents to children, `see` does not run out of fuel that
  -- is above the sum of the ranks of its two hashes: from every state with the store's invariant it returns an
  -- answer or an error of the code, and keeps the invariant.
  pub see-Runs :
      (fuel : ℕ) (x y : String)
      → rank x + rank y < fuel
      → RunsOn env Inv Any (see {env = env} fuel x y)
  unfolding see
  see-Runs fuel x y small = ancestor-Runs fuel x y small
