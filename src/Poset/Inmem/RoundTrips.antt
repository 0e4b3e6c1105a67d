-- ===== src/Poset/Inmem/RoundTrips.antt =====
-- Reads of src/poset/inmem_store.go after writes.
use gource.Prelude.{
  not, Comparable, ◌≢◌, ◌≡◌, refl, ap, ◌∙◌, ◌⊎◌, inl, inr, String, Option, none, some, Option-cases,
  Bool-cases, ◌==◌, ne_of_test, eqb_ℤ_iff, ℤ, ltb_ℤ, ◌≤ℤ◌, int_eq, string_eq, arith, if◌then◌else◌,
  format_int,
}
use gource.Common.Errors.{Error, Result, ok, err, is, new_store_err, key_not_found}
use gource.Common.Exec
use gource.Common.Exec.{Exec, pure, raise, modify, attempt, ◌>>=◌}
use gource.Poset.Event.{Event, creator, index}
use gource.Poset.Block.{Block}
use gource.Poset.RoundInfo.{RoundInfo}
use gource.Poset.Lru.{Lru}
use gource.Poset.Inmem.{InmemStore, found, get_event, set_event, add_participant_event}
use gource.Poset.Inmem.Rounds.{get_round, set_round, get_block, set_block, refuse_other}

max_ge : (a b : ℤ) → (a ≤ℤ (if ltb_ℤ a b then b else a)) × (b ≤ℤ (if ltb_ℤ a b then b else a))
max_ge a b = ground arith

after_modify :
    {S : Type 0} (m : Exec S (Unit {0})) (f : S → S) (s : S)
    → ((m >>= λ _. modify f) s).0 ≡ ok tt
    → ((m >>= λ _. modify f) s).1 ≡ f (m s).1
unfolding ◌>>=◌ modify
after_modify {S = S} m f s = go (m s).0 (m s).1
  where
    go :
        (r : Result (Unit {0})) (t : S)
        → (Exec.resume r (λ _. modify f) t).0 ≡ ok tt
        → (Exec.resume r (λ _. modify f) t).1 ≡ f t
    go (ok _) t h = refl
    go (err e) t h = cc

module _ (lru : Lru) (event_hex : Event → String) where
  found-value :
      {A S T : Type 0} (o : Option A) (e : Error) (s : S) (t : T)
      → (found lru event_hex o e s).0 ≡ (found lru event_hex o e t).0
  unfolding found
  found-value none e s t = refl
  found-value (some a) e s t = refl

  -- After a write to another key, a key reads as before, or its entry has left the cache.
  other_entry :
      {K V S T : Type 0} (eq : Comparable K) (c : lru.Cache K V) (k j : K) (v : V) (e : Error)
      (s : S) (t : T)
      → k ≢ j
      → ((found lru event_hex (lru.get K V eq (lru.add K V eq c k v) j).0 e s).0
          ≡ (found lru event_hex (lru.get K V eq c j).0 e t).0)
        ⊎ ((found lru event_hex (lru.get K V eq (lru.add K V eq c k v) j).0 e s).0 ≡ err e)
  unfolding found
  other_entry {K = K} {V = V} eq c k j v e s t ne = elim (lru.get_other K V eq c k j v ne) [
    | inl q ↦ inl (ap (λ o. (found lru event_hex o e s).0) q ∙ found-value _ e s t)
    | inr q ↦ inr (rw (q, found))
  ]

  -- `SetRound` stores a round, which the next `GetRound` for it returns; the last round is at least this round
  -- and the last one before; and every other round reads as before, or has left the cache.
  pub set_round-get_round :
      (r : ℤ) (info : RoundInfo) (s : InmemStore lru)
      → ((get_round lru event_hex r (set_round lru event_hex r info s).1).0 ≡ ok info)
        × (r ≤ℤ (set_round lru event_hex r info s).1.last_round)
        × (s.last_round ≤ℤ (set_round lru event_hex r info s).1.last_round)
        × ((j : ℤ)
            → (r ≡ j)
              ⊎ ((get_round lru event_hex j (set_round lru event_hex r info s).1).0
                  ≡ (get_round lru event_hex j s).0)
              ⊎ ((get_round lru event_hex j (set_round lru event_hex r info s).1).0
                  ≡ err (new_store_err "RoundCache" key_not_found (format_int j))))
  unfolding get_round set_round
  set_round-get_round r info s = (
    rw (lru.get_added ℤ RoundInfo int_eq s.round_cache r info, found),
    (max_ge s.last_round r).1,
    (max_ge s.last_round r).0,
    λ j. elim (Bool-cases (r == j)) [
      | inl same ↦ inl ((eqb_ℤ_iff r j).0 same)
      | inr other ↦ inr (other_entry int_eq s.round_cache r j info _ _ _ (ne_of_test r j other))
    ],
  )

  -- Another block after a look at the cache and a write to it.
  other_block :
      (b : Block) (j : ℤ) (s t : InmemStore lru)
      → t.block_cache
        ≡ lru.add ℤ Block int_eq (lru.get ℤ Block int_eq s.block_cache b.index).1 b.index b
      → (b.index ≡ j)
        ⊎ ((get_block lru event_hex j t).0 ≡ (get_block lru event_hex j s).0)
        ⊎ ((get_block lru event_hex j t).0
            ≡ err (new_store_err "BlockCache" key_not_found (format_int j)))
  unfolding get_block
  other_block b j s t written = elim (Bool-cases (b.index == j)) [
    | inl same ↦ inl ((eqb_ℤ_iff b.index j).0 same)
    | inr other ↦ inr (
        rw (written, ← lru.get_refreshed ℤ Block int_eq s.block_cache b.index j)
          (other_entry int_eq (lru.get ℤ Block int_eq s.block_cache b.index).1 b.index j b _ _ _
            (ne_of_test b.index j other)))
  ]

  set_block_lem :
      (b : Block) (s : InmemStore lru)
      → ((set_block lru event_hex b s).0 ≡ ok tt)
        × ((set_block lru event_hex b s).1.block_cache
            ≡ lru.add ℤ Block int_eq (lru.get ℤ Block int_eq s.block_cache b.index).1 b.index b)
        × ((set_block lru event_hex b s).1.last_block
            ≡ (if ltb_ℤ s.last_block b.index then b.index else s.last_block))
  unfolding set_block get_block found refuse_other attempt modify pure ◌>>=◌
  set_block_lem b s = elim (Option-cases (lru.get ℤ Block int_eq s.block_cache b.index).0) [
    | inl missing ↦ rw (missing, found, refuse_other) (refl, refl, refl)
    | inr (old, known) ↦ rw (known, found, refuse_other) (refl, refl, refl)
  ]

  -- `SetBlock` never fails. The next `GetBlock` for its index returns the block; the last block index is at least
  -- that of the block and the last one before; and every other block reads as before, or has left the cache.
  pub set_block-get_block :
      (b : Block) (s : InmemStore lru)
      → ((set_block lru event_hex b s).0 ≡ ok tt)
        × ((get_block lru event_hex b.index (set_block lru event_hex b s).1).0 ≡ ok b)
        × (b.index ≤ℤ (set_block lru event_hex b s).1.last_block)
        × (s.last_block ≤ℤ (set_block lru event_hex b s).1.last_block)
        × ((j : ℤ)
            → (b.index ≡ j)
              ⊎ ((get_block lru event_hex j (set_block lru event_hex b s).1).0
                  ≡ (get_block lru event_hex j s).0)
              ⊎ ((get_block lru event_hex j (set_block lru event_hex b s).1).0
                  ≡ err (new_store_err "BlockCache" key_not_found (format_int j))))
  set_block-get_block b s =
      let (done, written, last) = set_block_lem b s in
      (
        done,
        unfold get_block in rw (written, lru.get_added ℤ Block int_eq _ b.index b, found),
        rw last ((max_ge s.last_block b.index).1),
        rw last ((max_ge s.last_block b.index).0),
        λ j. other_block b j s (set_block lru event_hex b s).1 written,
      )

  -- The window of the creator is written before the cache, which stays.
  window_first :
      (e : Event) (known : Result Event) (t : InmemStore lru)
      → ((elim known as (λ _. Exec (InmemStore lru) Unit) [
        | ok _ ↦ pure tt
        | err q ↦
            if not (is q key_not_found)
            then raise q
            else add_participant_event lru event_hex (creator e) (event_hex e) (index e)
      ])
          t).1.event_cache
        ≡ t.event_cache
  unfolding pure raise add_participant_event
  window_first e (ok _) t = refl
  window_first e (err q) t = elim (Bool-cases (is q key_not_found)) [
    | inl missing ↦ rw missing refl
    | inr other ↦ rw other refl
  ]

  looked_up :
      (x : String) (s : InmemStore lru)
      → (get_event lru event_hex x s).1.event_cache
        ≡ (lru.get String Event string_eq s.event_cache x).1
  unfolding get_event found
  looked_up x s = elim (Option-cases (lru.get String Event string_eq s.event_cache x).0) [
    | inl missing ↦ rw missing refl
    | inr (old, known) ↦ rw known refl
  ]

  other_event :
      (e : Event) (x : String) (s t : InmemStore lru)
      → t.event_cache
        ≡ lru.add String Event string_eq
            (lru.get String Event string_eq s.event_cache (event_hex e)).1
            (event_hex e)
            e
      → (event_hex e ≡ x)
        ⊎ ((get_event lru event_hex x t).0 ≡ (get_event lru event_hex x s).0)
        ⊎ ((get_event lru event_hex x t).0 ≡ err (new_store_err "EventCache" key_not_found x))
  unfolding get_event
  other_event e x s t written = elim (Bool-cases (event_hex e == x)) [
    | inl same ↦ inl ((string_eq.test_iff (event_hex e) x).0 same)
    | inr other ↦ inr (
        rw (written, ← lru.get_refreshed String Event string_eq s.event_cache (event_hex e) x)
          (other_entry string_eq (lru.get String Event string_eq s.event_cache (event_hex e)).1
            (event_hex e) x e _ _ _ (ne_of_test (event_hex e) x other)))
  ]

  -- Let `SetEvent` accept an event. The next `GetEvent` for its hash returns it, and every other event reads as
  -- before, or has left the cache.
  pub set_event-get_event :
      (e : Event) (s : InmemStore lru)
      → (set_event lru event_hex e s).0 ≡ ok tt
      → ((get_event lru event_hex (event_hex e) (set_event lru event_hex e s).1).0 ≡ ok e)
        × ((x : String)
            → (event_hex e ≡ x)
              ⊎ ((get_event lru event_hex x (set_event lru event_hex e s).1).0
                  ≡ (get_event lru event_hex x s).0)
              ⊎ ((get_event lru event_hex x (set_event lru event_hex e s).1).0
                  ≡ err (new_store_err "EventCache" key_not_found x)))
  unfolding set_event attempt
  set_event-get_event e s accepted =
      let state = after_modify _ _ _ accepted in
      let t : InmemStore lru = (get_event lru event_hex (event_hex e) s).1 in
      let written : (set_event lru event_hex e s).1.event_cache
          ≡ lru.add String Event string_eq
              (lru.get String Event string_eq s.event_cache (event_hex e)).1 (event_hex e) e =
        ap (λ (t : InmemStore lru). t.event_cache) state
        ∙ ap (λ c. lru.add String Event string_eq c (event_hex e) e)
            (window_first e (get_event lru event_hex (event_hex e) s).0 t
              ∙ looked_up (event_hex e) s) in
      (
        unfold get_event in
            rw (written, lru.get_added String Event string_eq _ (event_hex e) e, found),
        λ x. other_event e x s (set_event lru event_hex e s).1 written,
      )
