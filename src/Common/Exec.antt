-- ===== src/Common/Exec.antt =====
-- Methods that change an object and may fail. What was written before an error stays written, so the
-- state comes back beside the error too.
pub mod Steps
pub mod Returns
pub mod Runs
pub mod Inversion
pub mod Results
use gource.Prelude.{String, Bool, List, [], ◌∷◌, true, false}
use gource.Common.Errors.{Error, Result, ok, err, relabel}

abbrev pub Exec {ℓ} : Type ℓ → Type ℓ → Type ℓ
Exec S A = S → Result A × S

module _ {ℓ} {S A : Type ℓ} where
  unfoldable pub pure : A → Exec S A
  pure a s = (ok a, s)

  unfoldable pub raise : Error → Exec S A
  raise e s = (err e, s)

  unfoldable pub lift : Result A → Exec S A
  lift r s = (r, s)

  -- A read.
  unfoldable pub gets : (S → A) → Exec S A
  gets f s = (ok (f s), s)

module _ {ℓ} {S : Type ℓ} where
  -- A write.
  unfoldable pub modify : (S → S) → Exec S (Unit {ℓ})
  modify f s = (ok tt, f s)

module _ {ℓ} {S A B : Type ℓ} where
  abbrev pub resume : Result A → (A → Exec S B) → Exec S B
  resume (ok a) f s = f a s
  resume (err e) f s = (err e, s)

  infixl 5 ◌>>=◌ ◌>>◌
  unfoldable pub ◌>>=◌ : Exec S A → (A → Exec S B) → Exec S B
  unfolding pure raise lift gets modify
  ◌>>=◌ m f s = let (r, s') = m s in resume r f s'

  abbrev pub ◌>>◌ : Exec S A → Exec S B → Exec S B
  m >> n = m >>= λ _. n

  -- `if err != nil` after a call whose value is used either way: the result is handed on.
  unfoldable pub attempt : Exec S A → (Result A → Exec S B) → Exec S B
  attempt m f s = let (r, s') = m s in f r s'

-- An error goes on with a label in front of its text.
unfoldable pub labelled : {S A : Type 0} → String → Exec S A → Exec S A
labelled label m = attempt m λ res. elim res [ ok a ↦ pure a | err e ↦ raise (relabel label e) ]

-- A `range` over a slice whose body may fail, which ends the loop.
unfoldable pub for_each {ℓ} : {S A : Type ℓ} → List A → (A → Exec S (Unit {ℓ})) → Exec S (Unit {ℓ})
for_each [] body = pure tt
for_each (x ∷ xs) body = do body x; for_each xs body

-- A method of a field of `S`.
unfoldable pub on {ℓ} : {S F A : Type ℓ} → (S → F) → (F → S → S) → Exec F A → Exec S A
on get put m s = let (r, f) = m (get s) in (r, put f s)
