-- ===== src/Poset/Ancestry.antt =====
-- src/poset/poset.go: `ancestor`, `selfAncestor`, `see`, `MapSentinels`, `stronglySee`.
use gource.Prelude.{
  ℕ, zero, suc, String, Bool, true, false, ◌||◌, [], ◌∷◌, Option, none, some, pos, ltb_ℤ, leb_ℤ,
  Map, lookup, insert, string_eq, ◌==◌, if◌then◌else◌, length, leb,
}
use gource.Common.Errors.{Error, Result, ok, err, no_fuel}
use gource.Common.Exec.{Exec, pure, raise, gets, attempt, ◌>>=◌}
use gource.Poset.Event.{Event, creator, self_parent, other_parent, index}
use gource.Poset.Block.{Root}
use gource.Poset.State.{Env, Poset, key_eq, on_store, peer_by_id}
use gource.Poset.Graph.{
  memo, memo_unless, ancestors, self_ancestors, strong_sights, lamport_timestamp_diff,
}

-- The loop over the roots where `x` is not in the store: the first root that knows `y` decides.
unfoldable pub among_others : String → String → Map String Root → Bool
among_others x y [] = false
among_others x y ((_, root) ∷ roots) =
    let rest = among_others x y roots in
    elim (lookup y root.others) [ some other ↦ other.hash == x | none ↦ rest ]

module _ {env : Env} where
  -- What is decided of `y` without going to the parents of `x`; `none` if nothing is.
  unfoldable pub root_verdict : Event → Option Root → Exec (Poset env) (Option Bool)
  root_verdict ex none = pure (some false)
  root_verdict ex (some root) = do
    y_creator ← peer_by_id root.self_parent.creator_id
    pure (
        if creator ex == y_creator.pub_key_hex
        then some (leb_ℤ root.self_parent.index (index ex))
        else none)

  unfoldable pub verdict : Event → String → Result Event → Exec (Poset env) (Option Bool)
  verdict ex y (err _) = do
    roots ← on_store env.store.roots_by_self_parent
    root_verdict ex (lookup y roots)
  verdict ex y (ok ey) =
      pure (if creator ex == creator ey then some (leb_ℤ (index ey) (index ex)) else none)

  module _ (fuel : ℕ) (rec : String → String → Exec (Poset env) Bool) where
    unfoldable pub ancestor_by_parents : Event → String → Exec (Poset env) Bool
    ancestor_by_parents ex y = do
      res ← rec (self_parent ex) y
      if res then pure true else rec (other_parent ex) y

    unfoldable pub ancestor_known : Event → String → String → Exec (Poset env) Bool
    ancestor_known ex x y = do
      lamport_diff ← lamport_timestamp_diff fuel x y
      if ltb_ℤ (pos 0) lamport_diff
          then pure false
          else attempt (on_store (env.store.get_event y)) λ ey. (do
            decided ← verdict ex y ey
            elim decided [ some b ↦ pure b | none ↦ ancestor_by_parents ex y ])

    unfoldable pub ancestor2 : String → String → Exec (Poset env) Bool
    ancestor2 x y =
        if x == y
        then pure true
        else attempt (on_store (env.store.get_event x)) λ ex. elim ex [
          | ok ex ↦ ancestor_known ex x y
          | err _ ↦ do
            roots ← on_store env.store.roots_by_self_parent
            pure (among_others x y roots)
        ]

  -- true if y is an ancestor of x. The cache is asked before the empty hashes are turned away.
  unfoldable pub ancestor : ℕ → String → String → Exec (Poset env) Bool
  ancestor zero x y = raise no_fuel
  ancestor (suc fuel) x y =
      memo_unless key_eq ancestors (x == "" || y == "") false (record { x = x; y = y })
        (ancestor2 (suc fuel) (λ a b. ancestor fuel a b) x y)

  -- true if y is a self-ancestor of x
  unfoldable pub self_ancestor2 : String → String → Exec (Poset env) Bool
  self_ancestor2 x y =
      if x == y
      then pure true
      else attempt (on_store (env.store.get_event x)) λ ex. elim ex [
        | err _ ↦ do
          roots ← on_store env.store.roots_by_self_parent
          pure (elim (lookup x roots) [ none ↦ false | some root ↦ root.self_parent.hash == y ])
        | ok ex ↦ attempt (on_store (env.store.get_event y)) λ ey. elim ey [
          | err _ ↦ do
            roots ← on_store env.store.roots_by_self_parent
            elim (lookup y roots) [
              | none ↦ pure false
              | some root ↦ do
                y_creator ← peer_by_id root.self_parent.creator_id
                pure (
                    if creator ex == y_creator.pub_key_hex
                    then leb_ℤ root.self_parent.index (index ex)
                    else false)
            ]
          | ok ey ↦ pure (if creator ex == creator ey then leb_ℤ (index ey) (index ex) else false)
        ]
      ]

  unfoldable pub self_ancestor : String → String → Exec (Poset env) Bool
  self_ancestor x y =
      memo_unless key_eq self_ancestors (x == "" || y == "") false (record { x = x; y = y })
        (self_ancestor2 x y)

  unfoldable pub see : ℕ → String → String → Exec (Poset env) Bool
  see fuel x y = ancestor fuel x y

  -- The sentinels are the map `[public key] => true`.
  module _ (rec : String → String → Map String Bool → Exec (Poset env) (Map String Bool)) where
    unfoldable pub sentinels_of_root :
        String → Map String Bool → Error → Map String Root → Exec (Poset env) (Map String Bool)
    sentinels_of_root x sentinels e roots = elim (lookup x roots) [
      | none ↦ raise e
      | some root ↦ do
        creator ← peer_by_id root.self_parent.creator_id
        pure (insert creator.pub_key_hex true sentinels)
    ]

    unfoldable pub sentinels_of_event :
        Event → String → String → Map String Bool → Exec (Poset env) (Map String Bool)
    sentinels_of_event ex x y sentinels = do
      creator ← peer_by_id ex.creator_id
      let sentinels' = insert creator.pub_key_hex true sentinels
      if x == y
          then pure sentinels'
          else do more ← rec (other_parent ex) y sentinels'; rec (self_parent ex) y more

    unfoldable pub sentinels_of_seer :
        String → String → Map String Bool → Exec (Poset env) (Map String Bool)
    sentinels_of_seer x y sentinels = attempt (on_store (env.store.get_event x)) λ ex. elim ex [
      | ok ex ↦ sentinels_of_event ex x y sentinels
      | err e ↦ do
        roots ← on_store env.store.roots_by_self_parent
        sentinels_of_root x sentinels e roots
    ]

  -- participants in x's ancestry that see y
  unfoldable pub map_sentinels :
      ℕ → ℕ → String → String → Map String Bool → Exec (Poset env) (Map String Bool)
  map_sentinels depth zero x y sentinels = raise no_fuel
  map_sentinels depth (suc fuel) x y sentinels = if x == "" then pure sentinels else do
    sees ← see depth x y
    if sees
        then sentinels_of_seer (λ a b m. map_sentinels depth fuel a b m) x y sentinels
        else pure sentinels

  unfoldable pub strongly_see2 : ℕ → String → String → Exec (Poset env) Bool
  strongly_see2 fuel x y = do
    sentinels ← map_sentinels fuel fuel x y []
    super_majority ← gets (λ s. s.super_majority)
    pure (leb super_majority (length sentinels))

  -- true if x strongly sees y
  unfoldable pub strongly_see : ℕ → String → String → Exec (Poset env) Bool
  strongly_see fuel x y =
      if x == "" || y == ""
      then pure false
      else memo key_eq strong_sights (record { x = x; y = y }) (strongly_see2 fuel x y)
