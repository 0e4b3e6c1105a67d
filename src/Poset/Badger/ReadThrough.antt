-- ===== src/Poset/Badger/ReadThrough.antt =====
-- The cache of the store on disk does not show: whatever it evicts, a round that was set is read back.
use gource.Prelude.{◌≡◌, ◌≢◌, refl, sym, ap, ◌∙◌, ◌⊎◌, inl, inr, String, ℤ}
use gource.Common.Errors.{Error, Result, ok, err, Result-cases}
use gource.Common.Exec.{Exec, pure, lift, gets, attempt, on, ◌>>=◌}
use gource.Poset.Event.{Event}
use gource.Poset.RoundInfo.{RoundInfo}
use gource.Poset.Lru.{Lru}
use gource.Poset.Inmem.{InmemStore}
use gource.Poset.Inmem.Rounds
use gource.Poset.Inmem.RoundTrips.{set_round-get_round}
use gource.Poset.Database.{Database, Formats, map_error, round_key}
use gource.Poset.Database.Records
use gource.Poset.Database.RoundTrips.{set-get, set-get_other}
use gource.Poset.Badger.{BadgerStore, on_inmem, on_db, read_through, get_round, set_round}

-- The result of a read that falls through.
abbrev through : {A : Type 0} → Result A → Result A → Result A
through (ok a) r = ok a
through (err e) r = r

-- A cache either has what the database has, or does not have it.
abbrev Agree : {A : Type 0} → Result A → Result A → Type 0
Agree cached stored = (cached ≡ stored) ⊎ ((e : Error) × (cached ≡ err e))

through-Agree :
    {A : Type 0} (name key : String) (cached stored : Result A)
    → Agree cached stored
    → through cached (map_error name key stored) ≡ map_error name key stored
unfolding map_error
through-Agree name key (ok a) (ok b) (inl e) = e
through-Agree name key (ok a) (err b) (inl e) = cc
through-Agree name key (err a) stored e = refl
through-Agree name key (ok a) stored (inr (e, h)) = cc

map_error_ok : {A : Type 0} (name key : String) (a : A) → map_error name key (ok a) ≡ ok a
unfolding map_error
map_error_ok name key a = refl

module _ (lru : Lru) (base : Database) (formats : Formats) (event_hex : Event → String) where
  read_through_lem :
      {A : Type 0} (cached : Exec (InmemStore lru) A) (stored : base.State → Result A)
      (name key : String) (s : BadgerStore lru base)
      → (read_through lru base formats event_hex cached stored name key s).0
        ≡ through (cached s.inmem).0 (map_error name key (stored s.db))
  unfolding read_through on_inmem on attempt pure gets lift ◌>>=◌
  read_through_lem cached stored name key s = elim (Result-cases (cached s.inmem).0) [
    | inl (a, there) ↦ rw (read_through, attempt, on_inmem, on, there) refl
    | inr (e, failed) ↦ rw (read_through, attempt, on_inmem, on, failed) refl
  ]

  -- What the cache has of the round is what the database has.
  abbrev pub Coherent : ℤ → BadgerStore lru base → Type 0
  Coherent r s =
      Agree (Rounds.get_round lru event_hex r s.inmem).0
        (Records.get_round base formats event_hex r s.db)

  get_round-db :
      (r : ℤ) (s : BadgerStore lru base)
      → Coherent r s
      → (get_round lru base formats event_hex r s).0
        ≡ map_error "Round" (round_key r) (Records.get_round base formats event_hex r s.db)
  unfolding get_round
  get_round-db r s h =
      read_through_lem (Rounds.get_round lru event_hex r)
        (Records.get_round base formats event_hex r) "Round" (round_key r) s
      ∙ through-Agree "Round" (round_key r) _ _ h

  -- `SetRound` succeeds exactly where the database takes the round, and then both have it.
  after_set :
      (r : ℤ) (info : RoundInfo) (s : BadgerStore lru base)
      → set_round lru base formats event_hex r info s ≡ (
        (Records.set_round base formats event_hex r info s.db).0,
        record s {
          inmem = (Rounds.set_round lru event_hex r info s.inmem).1;
          db = (Records.set_round base formats event_hex r info s.db).1;
        },
      )
  unfolding set_round on_inmem on_db on ◌>>=◌ Rounds.set_round
  after_set r info s = refl

  stored_round :
      (r : ℤ) (info : RoundInfo) (d : base.State)
      → (Records.set_round base formats event_hex r info d).0 ≡ ok tt
      → Records.get_round base formats event_hex r
          (Records.set_round base formats event_hex r info d).1
        ≡ ok info
  unfolding Records.set_round Records.get_round
  stored_round r info d done = set-get base formats.rounds (round_key r) info d done

  other_round :
      (r j : ℤ) (info : RoundInfo) (d : base.State)
      → (Records.set_round base formats event_hex r info d).0 ≡ ok tt
      → round_key r ≢ round_key j
      → Records.get_round base formats event_hex j
          (Records.set_round base formats event_hex r info d).1
        ≡ Records.get_round base formats event_hex j d
  unfolding Records.set_round Records.get_round
  other_round r j info d done other =
      set-get_other base formats.rounds (round_key r) info d (round_key j) done other

  still_Coherent :
      (r j : ℤ) (info : RoundInfo) (s : BadgerStore lru base)
      → (Records.set_round base formats event_hex r info s.db).0 ≡ ok tt
      → round_key r ≢ round_key j
      → Coherent j s
      → Coherent j (record s {
        inmem = (Rounds.set_round lru event_hex r info s.inmem).1;
        db = (Records.set_round base formats event_hex r info s.db).1;
      })
  still_Coherent r j info s done other h =
      elim ((set_round-get_round lru event_hex r info s.inmem).3 j) [
        | inl same ↦ absurd (other (ap round_key same))
        | inr (inl kept) ↦ elim h [
          | inl agree ↦ inl (kept ∙ agree ∙ sym (other_round r j info s.db done other))
          | inr (e, missing) ↦ inr (e, kept ∙ missing)
        ]
        | inr (inr gone) ↦ inr (_, gone)
      ]

  -- A round that `SetRound` has stored is what `GetRound` returns from then on, also where the cache evicts
  -- it; and any other round whose key is another one reads as before, whatever the cache evicts, as long as what the
  -- cache had of it is what the database has, which stays so for both.
  pub set_round-reads :
      (r j : ℤ) (info : RoundInfo) (s : BadgerStore lru base)
      → (set_round lru base formats event_hex r info s).0 ≡ ok tt
      → round_key r ≢ round_key j
      → Coherent j s
      → ((get_round lru base formats event_hex r
            (set_round lru base formats event_hex r info s).1).0
          ≡ ok info)
        × Coherent r (set_round lru base formats event_hex r info s).1
        × ((get_round lru base formats event_hex j
              (set_round lru base formats event_hex r info s).1).0
            ≡ (get_round lru base formats event_hex j s).0)
        × Coherent j (set_round lru base formats event_hex r info s).1
  set_round-reads r j info s done other h =
      let t : BadgerStore lru base = record s {
        inmem = (Rounds.set_round lru event_hex r info s.inmem).1;
        db = (Records.set_round base formats event_hex r info s.db).1;
      } in
      let taken = sym (ap (λ x. x.0) (after_set r info s)) ∙ done in
      let cached = set_round-get_round lru event_hex r info s.inmem in
      let stored = stored_round r info s.db taken in
      let here : Coherent r t = inl (cached.0 ∙ sym stored) in
      let there : Coherent j t = still_Coherent r j info s taken other h in
      rw (after_set r info s) (
        get_round-db r t here
            ∙ ap (map_error "Round" (round_key r)) stored
            ∙ map_error_ok "Round" (round_key r) info,
        here,
        get_round-db j t there
            ∙ ap (map_error "Round" (round_key j)) (other_round r j info s.db taken other)
            ∙ sym (get_round-db j s h),
        there,
      )
