-- ===== src/Poset/Queries/Fuel/Rounds.antt =====
-- The fuel of `round`, which asks what an event sees of the witnesses of earlier rounds.
use gource.Prelude.{
  ℕ, zero, suc, ◌+◌, ◌<◌, ◌≤◌, refl, String, true, false, List, [], ◌∷◌, ℤ, lookup, string_eq,
  arith,
}
use gource.Common.Exec.{Exec}
use gource.Common.Exec.Runs.{
  Any, Runs, Runs-pure, Runs-gets, Runs-if, Runs-option, Runs-bind, Runs-attempt,
}
use gource.Poset.Event.{Event, creator, self_parent, other_parent}
use gource.Poset.Block.{Root}
use gource.Poset.State.{Env, Poset}
use gource.Poset.Rounds.{
  hex, count_seen, count_flags, is_seen, count_roots, enough_roots, round_by_proofs, round_by_other,
  other_round, round_by_parents, round_of_event, round2, round,
}
use gource.Poset.Queries.Fuel.{Below, IsRanked, RunsOn, on_store-Runs, memo-Runs, roots_or_nil-Runs}
use gource.Poset.Queries.Fuel.Ancestry.{see-Runs}

-- No entry of the list has a rank above the bound.
abbrev pub AllUpTo : (String → ℕ) → ℕ → List String → Type 0
AllUpTo rank bound [] = Unit
AllUpTo rank bound (w ∷ ws) = (rank w ≤ bound) × AllUpTo rank bound ws

-- What is asked of a store besides the ranks: that an event lies under its own hash, or under one of at
-- least its rank, and that the ranks of witnesses are bounded.
pub record IsBounded (env : Env) (rank : String → ℕ) (bound : ℕ) (Inv : env.store.State → Type 0)
    : Type 0 where
  pub ranked : IsRanked env rank Inv
  pub named :
      (x : String)
      → Runs Inv (λ ex. Below rank x ex × (rank (hex env ex) ≤ rank x)) (env.store.get_event x)
  pub witnesses : (i : ℤ) → Runs Inv (AllUpTo rank bound) (env.store.round_witnesses i)

module _ {env : Env} (rank : String → ℕ) (bound : ℕ) (Inv : env.store.State → Type 0)
    (k : IsBounded env rank bound Inv) where
  module _ (fuel : ℕ) (x : String) (deep : rank x + bound < fuel) where
    count_seen-Runs :
        (ws : List String) (key : String) (n : ℕ)
        → AllUpTo rank bound ws
        → RunsOn env Inv Any (count_seen {env = env} fuel x ws key n)
    unfolding count_seen
    count_seen-Runs [] key n a = Runs-pure n tt
    count_seen-Runs (w ∷ ws) key n a =
        Runs-if _ _ _
          (Runs-bind _ _ (see-Runs rank Inv k.ranked fuel x w (omega (arith, a.0)))
            (λ sees _. count_seen-Runs ws key _ a.1))
          (count_seen-Runs ws key n a.1)

    count_flags-Runs :
        (keys ws : List String) (n : ℕ)
        → AllUpTo rank bound ws
        → RunsOn env Inv Any (count_flags {env = env} fuel x keys ws n)
    unfolding count_flags
    count_flags-Runs [] ws n a = Runs-pure n tt
    count_flags-Runs (key ∷ keys) ws n a =
        Runs-bind _ _ (count_seen-Runs ws key n a) (λ m _. count_flags-Runs keys ws m a)

    is_seen-Runs :
        (root : String) (ws : List String)
        → AllUpTo rank bound ws
        → RunsOn env Inv Any (is_seen {env = env} fuel x root ws)
    unfolding is_seen
    is_seen-Runs root [] a = Runs-pure false tt
    is_seen-Runs root (w ∷ ws) a =
        Runs-if _ _ _
          (Runs-attempt _ _ (see-Runs rank Inv k.ranked fuel x w (omega (arith, a.0)))
            (λ sees _. Runs-if sees _ _ (Runs-pure true tt) (is_seen-Runs root ws a.1))
            (λ e _. Runs-pure false tt))
          (is_seen-Runs root ws a.1)

    count_roots-Runs :
        (roots ws : List String) (n : ℕ)
        → AllUpTo rank bound ws
        → RunsOn env Inv Any (count_roots {env = env} fuel x roots ws n)
    unfolding count_roots
    count_roots-Runs [] ws n a = Runs-pure n tt
    count_roots-Runs (root ∷ roots) ws n a =
        Runs-bind _ _ (is_seen-Runs root ws a) (λ seen _. count_roots-Runs roots ws _ a)

    enough_roots-Runs :
        (m : ℕ) (roots ws : List String)
        → AllUpTo rank bound ws
        → RunsOn env Inv Any (enough_roots {env = env} fuel x m roots ws)
    unfolding enough_roots
    enough_roots-Runs m roots ws a =
        Runs-if _ _ _ (Runs-bind _ _ (count_roots-Runs roots ws 0 a) (λ n _. Runs-pure _ tt))
          (Runs-pure false tt)

    by_proofs-Runs :
        (ex : Event) (r : ℤ) → RunsOn env Inv Any (round_by_proofs {env = env} fuel x ex r)
    unfolding round_by_proofs
    by_proofs-Runs ex r = Runs-bind _ _ (Runs-gets {Q = Any} _ (λ s. tt)) (λ m _.
        Runs-bind _ _ (on_store-Runs _ (k.witnesses r)) (λ ws a.
          Runs-bind _ _ (enough_roots-Runs m ex.witness_proof ws a) (λ proven _.
            Runs-if proven _ _ (Runs-pure _ tt)
              (Runs-bind _ _ (enough_roots-Runs m _ ws a) (λ flagged _. Runs-pure _ tt)))))

    by_other-Runs :
        (ex : Event) (r : ℤ) → RunsOn env Inv Any (round_by_other {env = env} fuel x ex r)
    unfolding round_by_other
    by_other-Runs ex r = Runs-bind _ _ (Runs-gets {Q = Any} _ (λ s. tt)) (λ m _.
        Runs-bind _ _ (on_store-Runs _ (k.witnesses r)) (λ ws a.
          Runs-bind _ _ (count_flags-Runs _ ws 0 a) (λ n _.
            Runs-if _ _ _ (Runs-pure _ tt) (Runs-if _ _ _ (Runs-pure r tt) (by_proofs-Runs ex r)))))

  module _ (n : ℕ) (rec : String → Exec (Poset env) ℤ)
      (h : (x : String) → rank x + bound < n → RunsOn env Inv Any (rec x)) where
    other_round-Runs :
        (root : Root) (ex : Event)
        → rank (other_parent ex) + bound < n
        → RunsOn env Inv Any (other_round (suc n) rec root ex)
    unfolding other_round
    other_round-Runs root ex small = Runs-if _ _ _ (Runs-pure _ tt) (h (other_parent ex) small)

    by_parents-Runs :
        (root : Root) (ex : Event)
        → rank (self_parent ex) + bound < n
        → rank (other_parent ex) + bound < n
        → rank (hex env ex) + bound < suc n
        → RunsOn env Inv Any (round_by_parents (suc n) rec root ex)
    unfolding round_by_parents
    by_parents-Runs root ex sp op deep = Runs-bind _ _ (h (self_parent ex) sp) (λ r _.
        Runs-if _ _ _ (by_proofs-Runs (suc n) (hex env ex) deep ex r) (
          Runs-bind _ _ (other_round-Runs root ex op) (λ q _.
            Runs-if _ _ _ (by_other-Runs (suc n) (hex env ex) deep ex q)
              (by_proofs-Runs (suc n) (hex env ex) deep ex r))))

    round2-Runs : (x : String) → rank x + bound < suc n → RunsOn env Inv Any (round2 (suc n) rec x)
    unfolding round2 round_of_event
    round2-Runs x small = Runs-bind _ _ (roots_or_nil-Runs rank Inv k.ranked) (λ roots _.
        Runs-option (lookup x roots) _ _
          (Runs-bind _ _ (on_store-Runs _ (k.named x)) (λ ex below.
            Runs-bind _ _ (on_store-Runs _ (k.ranked.root (creator ex))) (λ root _.
              Runs-if _ _ _ (Runs-pure _ tt) (
                by_parents-Runs root ex (omega (arith, below.0.0)) (omega (arith, below.0.1))
                  (omega (arith, below.1))))))
          (λ r. Runs-pure _ tt))

  -- In a store whose events have ranks that grow from parents to children, and whose witnesses have ranks up
  -- to a bound, `round` does not run out of fuel that is above the sum of the rank of its hash and the bound:
  -- from every state with the store's invariant it returns a round or an error of the code, and keeps the
  -- invariant.
  pub round-Runs :
      (fuel : ℕ) (x : String)
      → rank x + bound < fuel
      → RunsOn env Inv Any (round {env = env} fuel x)
  unfolding round
  round-Runs zero x small = absurd (omega arith)
  round-Runs (suc fuel) x small =
      memo-Runs Inv _ _ (record { aside = λ c s. refl }) x _
        (round2-Runs fuel (λ y. round fuel y) (round-Runs fuel) x small)
