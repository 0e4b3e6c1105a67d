-- ===== src/Poset/Lru.antt =====
-- The caches of github.com/hashicorp/golang-lru, which is not part of the repository: a parameter,
-- with what its documentation promises. A `Get` refreshes the key, so it gives a new cache; an `Add`
-- may evict other keys.
use gource.Prelude.{
  ℕ, ◌≡◌, ◌≢◌, refl, ◌⊎◌, inl, Option, none, some, Comparable, Map, lookup, insert, lookup-empty,
  lookup-insert_self, lookup-insert_ne, [],
}

pub record Lru : Type 1 where
  pub Cache : Type 0 → Type 0 → Type 0
  pub new : (K V : Type 0) → ℕ → Cache K V
  pub get : (K V : Type 0) → Comparable K → Cache K V → K → Option V × Cache K V
  pub add : (K V : Type 0) → Comparable K → Cache K V → K → V → Cache K V
  pub get_new :
      (K V : Type 0) (e : Comparable K) (n : ℕ) (k : K) → (get K V e (new K V n) k).0 ≡ none
  pub get_refreshed :
      (K V : Type 0) (e : Comparable K) (c : Cache K V) (k j : K)
      → (get K V e (get K V e c k).1 j).0 ≡ (get K V e c j).0
  pub get_added :
      (K V : Type 0) (e : Comparable K) (c : Cache K V) (k : K) (v : V)
      → (get K V e (add K V e c k v) k).0 ≡ some v
  pub get_other :
      (K V : Type 0) (e : Comparable K) (c : Cache K V) (k j : K) (v : V)
      → k ≢ j
      → ((get K V e (add K V e c k v) j).0 ≡ (get K V e c j).0)
        ⊎ ((get K V e (add K V e c k v) j).0 ≡ none)

-- A cache that never evicts keeps those promises.
abbrev pub unbounded : Lru
unbounded = record {
  Cache = λ K V. Map K V;
  new = λ K V n. [];
  get = λ K V e c k. (lookup ⦃e = e⦄ k c, c);
  add = λ K V e c k v. insert ⦃e = e⦄ k v c;
  get_new = λ K V e n k. lookup-empty ⦃e = e⦄ k;
  get_refreshed = λ K V e c k j. refl;
  get_added = λ K V e c k v. lookup-insert_self ⦃e = e⦄ k v c;
  get_other = λ K V e c k j v ne. inl (lookup-insert_ne ⦃e = e⦄ k j v c ne);
}
