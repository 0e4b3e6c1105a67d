-- ===== src/Poset/Queries/Rounds.antt =====
-- Rounds and witnesses: the lemmas on what the questions leave alone.
use gource.Prelude.{ℕ, zero, suc, String, true, false, List, [], ◌∷◌, ℤ, lookup, string_eq}
use gource.Common.Exec.{Exec}
use gource.Poset.Event.{Event}
use gource.Poset.Block.{Root}
use gource.Poset.State.{Env, Poset}
use gource.Poset.Rounds.{
  count_seen, count_flags, is_seen, count_roots, enough_roots, round_by_proofs, round_by_other,
  other_round, round_by_parents, round_of_event, round2, round, witness,
}
use gource.Poset.Queries.Caches.{
  asks, Asks, bind-Asks, if-Asks, attempt_cases-Asks, pure-Asks, option-Asks, raise-Asks, memo-Asks,
  rounds-IsCache,
}
use gource.Poset.Queries.Graph.{roots_or_nil-Asks}
use gource.Poset.Queries.Sight.{see-Asks}

module _ {env : Env} where
  module _ (fuel : ℕ) (x : String) where
    count_seen-Asks :
        (ws : List String) (k : String) (n : ℕ) → Asks (count_seen {env = env} fuel x ws k n)
    unfolding count_seen
    count_seen-Asks [] k n = search asks
    count_seen-Asks (w ∷ ws) k n = let rest = count_seen-Asks ws in search (asks, see-Asks, rest)

    count_flags-Asks : (ks ws : List String) (n : ℕ) → Asks (count_flags {env = env} fuel x ks ws n)
    unfolding count_flags
    count_flags-Asks [] ws n = search asks
    count_flags-Asks (k ∷ ks) ws n =
        let rest = count_flags-Asks ks in search (asks, count_seen-Asks, rest)

    is_seen-Asks : (root : String) (ws : List String) → Asks (is_seen {env = env} fuel x root ws)
    unfolding is_seen
    is_seen-Asks root [] = search asks
    is_seen-Asks root (w ∷ ws) =
        let rest = is_seen-Asks root ws in
        if-Asks _ _ _
          (attempt_cases-Asks _ _ (see-Asks fuel x w) (λ sees. if-Asks _ _ _ (pure-Asks true) rest)
            (λ _. pure-Asks false))
          rest

    count_roots-Asks :
        (roots ws : List String) (n : ℕ) → Asks (count_roots {env = env} fuel x roots ws n)
    unfolding count_roots
    count_roots-Asks [] ws n = search asks
    count_roots-Asks (root ∷ roots) ws n =
        let rest = count_roots-Asks roots in search (asks, is_seen-Asks, rest)

    enough_roots-Asks :
        (m : ℕ) (roots ws : List String) → Asks (enough_roots {env = env} fuel x m roots ws)
    unfolding enough_roots
    enough_roots-Asks m roots ws = search (asks, count_roots-Asks)

    by_proofs-Asks : (ex : Event) (r : ℤ) → Asks (round_by_proofs {env = env} fuel x ex r)
    unfolding round_by_proofs
    by_proofs-Asks ex r = search (asks, enough_roots-Asks) depth 8

    by_other-Asks : (ex : Event) (r : ℤ) → Asks (round_by_other {env = env} fuel x ex r)
    unfolding round_by_other
    by_other-Asks ex r = search (asks, count_flags-Asks, by_proofs-Asks) depth 8

  module _ (fuel : ℕ) (rec : String → Exec (Poset env) ℤ) (h : (x : String) → Asks (rec x)) where
    other_round-Asks : (root : Root) (ex : Event) → Asks (other_round fuel rec root ex)
    unfolding other_round
    other_round-Asks root ex = search (asks, h)

    by_parents-Asks : (root : Root) (ex : Event) → Asks (round_by_parents fuel rec root ex)
    unfolding round_by_parents
    by_parents-Asks root ex =
        search (asks, h, other_round-Asks, by_other-Asks, by_proofs-Asks) depth 8

    of_event-Asks : (root : Root) (ex : Event) → Asks (round_of_event fuel rec root ex)
    unfolding round_of_event
    of_event-Asks root ex = search (asks, by_parents-Asks)

    round2-Asks : (x : String) → Asks (round2 fuel rec x)
    unfolding round2
    round2-Asks x = bind-Asks _ _ roots_or_nil-Asks (λ roots.
        option-Asks (lookup x roots) _ _ (search (asks, of_event-Asks)) (λ r. search asks))

  pub round-Asks : (fuel : ℕ) (x : String) → Asks (round {env = env} fuel x)
  unfolding round
  round-Asks zero x = raise-Asks _
  round-Asks (suc fuel) x =
      memo-Asks _ _ rounds-IsCache x _
        (round2-Asks (suc fuel) (λ y. round fuel y) (round-Asks fuel) x)

  pub witness-Asks : (fuel : ℕ) (x : String) → Asks (witness {env = env} fuel x)
  unfolding witness
  witness-Asks fuel x = search (asks, round-Asks) depth 8
