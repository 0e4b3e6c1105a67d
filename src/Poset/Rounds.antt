-- ===== src/Poset/Rounds.antt =====
-- src/poset/poset.go: the round of an event, and its witnesses.
use gource.Prelude.{
  ℕ, zero, suc, ◌+◌, String, Bool, true, false, ◌&&◌, ◌||◌, not, List, [], ◌∷◌, none, some, ℤ, pos,
  add64, ltb_ℤ, Map, keys, lookup, string_eq, ◌==◌, if◌then◌else◌, length, leb, ltb,
}
use gource.Common.Errors.{Result, ok, err, no_fuel}
use gource.Common.Exec.{Exec, pure, raise, gets, attempt, ◌>>=◌}
use gource.Poset.Event.{Event, creator, self_parent, other_parent}
use gource.Poset.Block.{Root}
use gource.Poset.State.{Env, Poset, on_store}
use gource.Poset.Graph.{memo, rounds, roots_or_nil}
use gource.Poset.Ancestry.{see}

-- The other-parent of the event, named by its hash, is the one that the root keeps for it.
unfoldable pub in_root : Root → String → String → Bool
in_root root hex op = elim (lookup hex root.others) [ none ↦ false | some other ↦ other.hash == op ]

-- `ft, _ := ex.GetFlagTable()`: nil after an error.
unfoldable pub flags_or_nil : Result (Map String ℤ) → Map String ℤ
flags_or_nil (ok ft) = ft
flags_or_nil (err _) = []

abbrev pub hex : Env → Event → String
hex env e = env.codec.event_hex e

abbrev pub flag_roots : Env → Event → List String
flag_roots env e = keys (flags_or_nil (env.codec.unmarshal_flag_table e.flag_table))

module _ {env : Env} where
  module _ (fuel : ℕ) (x : String) where
    -- How many of the witnesses `ws` are `k`, other than `x`, and seen by `x`.
    unfoldable pub count_seen : List String → String → ℕ → Exec (Poset env) ℕ
    count_seen [] k n = pure n
    count_seen (w ∷ ws) k n =
        if w == k && not (w == x)
        then (do sees ← see fuel x w; count_seen ws k (if sees then n + 1 else n))
        else count_seen ws k n

    -- The same for every entry of the flag table.
    unfoldable pub count_flags : List String → List String → ℕ → Exec (Poset env) ℕ
    count_flags [] ws n = pure n
    count_flags (k ∷ ks) ws n = do m ← count_seen ws k n; count_flags ks ws m

    -- `isSee`: an error counts as not seen.
    unfoldable pub is_seen : String → List String → Exec (Poset env) Bool
    is_seen root [] = pure false
    is_seen root (w ∷ ws) =
        let rest = is_seen root ws in
        if w == root && not (w == x)
        then attempt (see fuel x w)
            (λ res. elim res [ err _ ↦ pure false | ok sees ↦ if sees then pure true else rest ])
        else rest

    unfoldable pub count_roots : List String → List String → ℕ → Exec (Poset env) ℕ
    count_roots [] ws n = pure n
    count_roots (root ∷ roots) ws n = do
      seen ← is_seen root ws
      count_roots roots ws (if seen then n + 1 else n)

    -- One of the two checks at the end of `round2`: a list of enough roots, enough of them seen.
    unfoldable pub enough_roots : ℕ → List String → List String → Exec (Poset env) Bool
    enough_roots super_majority roots ws =
        if leb super_majority (length roots)
        then (do n ← count_roots roots ws 0; pure (leb super_majority n))
        else pure false

    unfoldable pub round_by_proofs : Event → ℤ → Exec (Poset env) ℤ
    round_by_proofs ex parent_round = do
      super_majority ← gets (λ s. s.super_majority)
      ws ← on_store (env.store.round_witnesses parent_round)
      proven ← enough_roots super_majority ex.witness_proof ws
      if proven then pure (add64 parent_round (pos 1)) else do
        flagged ← enough_roots super_majority (flag_roots env ex) ws
        pure (if flagged then add64 parent_round (pos 1) else parent_round)

    -- The other-parent is in a later round than the self-parent.
    unfoldable pub round_by_other : Event → ℤ → Exec (Poset env) ℤ
    round_by_other ex op_round = do
      super_majority ← gets (λ s. s.super_majority)
      ws ← on_store (env.store.round_witnesses op_round)
      n ← count_flags (flag_roots env ex) ws 0
      if leb super_majority n
          then pure (add64 op_round (pos 1))
          else if ltb 0 n
          then pure op_round
          else round_by_proofs ex op_round

  module _ (fuel : ℕ) where
    module _ (rec : String → Exec (Poset env) ℤ) where
      unfoldable pub other_round : Root → Event → Exec (Poset env) ℤ
      other_round root ex =
          if in_root root (hex env ex) (other_parent ex)
          then pure root.next_round
          else rec (other_parent ex)

      unfoldable pub round_by_parents : Root → Event → Exec (Poset env) ℤ
      round_by_parents root ex = do
        sp_round ← rec (self_parent ex)
        if other_parent ex == "" then round_by_proofs fuel (hex env ex) ex sp_round else do
          op_round ← other_round root ex
          if ltb_ℤ sp_round op_round
              then round_by_other fuel (hex env ex) ex op_round
              else round_by_proofs fuel (hex env ex) ex sp_round

      unfoldable pub round_of_event : Root → Event → Exec (Poset env) ℤ
      round_of_event root ex =
          if self_parent ex == root.self_parent.hash
            && (other_parent ex == "" || in_root root (hex env ex) (other_parent ex))
          then pure root.next_round
          else round_by_parents root ex

      unfoldable pub round2 : String → Exec (Poset env) ℤ
      round2 x = do
        roots ← roots_or_nil
        elim (lookup x roots) [
          | some r ↦ pure r.self_parent.round
          | none ↦ do
            ex ← on_store (env.store.get_event x)
            root ← on_store (env.store.get_root (creator ex))
            round_of_event root ex
        ]

  unfoldable pub round : ℕ → String → Exec (Poset env) ℤ
  round zero x = raise no_fuel
  round (suc fuel) x = memo string_eq rounds x (round2 (suc fuel) (λ y. round fuel y) x)

  -- true if x is a witness: the first event of a round for its creator
  unfoldable pub witness : ℕ → String → Exec (Poset env) Bool
  witness fuel x = do
    ex ← on_store (env.store.get_event x)
    if other_parent ex == "" then pure true else do
      x_round ← round fuel x
      sp_round ← round fuel (self_parent ex)
      pure (ltb_ℤ sp_round x_round)

  unfoldable pub round_received : String → Exec (Poset env) ℤ
  round_received x = do ex ← on_store (env.store.get_event x); pure ex.round_received
