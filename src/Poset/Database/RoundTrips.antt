-- ===== src/Poset/Database/RoundTrips.antt =====
-- What is set in the database is read back, and nothing else is changed.
use gource.Prelude.{
  ◌≡◌, ◌≢◌, refl, sym, ap, ◌∙◌, inl, inr, String, [], ◌∷◌, ◌==◌, string_eq, ==_refl, ==-ne,
  if◌then◌else◌,
}
use gource.Common.Errors.{Error, Result, ok, err, Result-cases}
use gource.Poset.Database.{Database, Format, written}
use gource.Poset.Database.Records.{read, get, set, transact}

module _ (db : Database) where
  read_committed :
      (key k bytes : String) (s : db.State)
      → (db.commit ((key, bytes) ∷ []) s).0 ≡ ok tt
      → read db k (db.commit ((key, bytes) ∷ []) s).1 ≡ (if key == k then ok bytes else read db k s)
  unfolding read written
  read_committed key k bytes s done = db.committed ((key, bytes) ∷ []) s k done

  module _ {A : Type 0} (format : Format A) (key : String) (a : A) (s : db.State) where
    set_commit :
        (bytes : String)
        → format.marshal a ≡ ok bytes
        → set db format key a s ≡ db.commit ((key, bytes) ∷ []) s
    unfolding set transact
    set_commit bytes m = rw m refl

    set_failed : (e : Error) → format.marshal a ≡ err e → (set db format key a s).0 ≡ err e
    unfolding set transact
    set_failed e m = rw m refl

    -- The bytes that a successful write has committed.
    wrote :
        (set db format key a s).0 ≡ ok tt
        → (bytes : String) × (format.marshal a ≡ ok bytes)
          × ((k : String)
              → read db k (set db format key a s).1 ≡ (if key == k then ok bytes else read db k s))
    wrote done = elim (Result-cases (format.marshal a)) [
      | inl (bytes, m) ↦
          let same = set_commit bytes m in
          (
            bytes,
            m,
            λ k.
                ap (λ (r : Result (Unit {0}) × db.State). read db k r.1) same
                ∙ read_committed key k bytes s
                    (ap (λ (r : Result (Unit {0}) × db.State). r.0) (sym same) ∙ done),
          )
      | inr (e, m) ↦ let failed = set_failed e m in cc
    ]

    -- What was set is read back.
    pub set-get :
        (set db format key a s).0 ≡ ok tt → get db format key (set db format key a s).1 ≡ ok a
    unfolding get
    set-get done =
        let (bytes, m, now) = wrote done in rw (now key, ==_refl key) (format.back a bytes m)

    pub set-get_other :
        (k : String)
        → (set db format key a s).0 ≡ ok tt
        → key ≢ k
        → get db format k (set db format key a s).1 ≡ get db format k s
    unfolding get
    set-get_other k done other =
        let (bytes, m, now) = wrote done in rw (now k, ==-ne key k other) refl
