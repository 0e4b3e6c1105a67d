-- ===== src/Common/Exec/Inversion.antt =====
-- What a success says of the parts of an action.
use gource.Prelude.{◌≡◌, refl, ap}
use gource.Common.Errors.{Error, Result, ok, err}
use gource.Common.Exec
use gource.Common.Exec.{Exec, ◌>>=◌, attempt}

module _ {S A : Type 0} where
  pub returned : (m : Exec S A) (r : Result A) (s : S) → (m s).0 ≡ r → m s ≡ (r, (m s).1)
  returned m r s h = ap (λ r. (r, (m s).1)) h

module _ {S A B : Type 0} where
  -- The first part has succeeded, and the second one has gone on from there.
  pub ok-bind :
      (m : Exec S A) (f : A → Exec S B) (b : B) (s : S)
      → ((m >>= f) s).0 ≡ ok b
      → (a : A) × ((m s).0 ≡ ok a) × ((f a (m s).1).0 ≡ ok b) × (((m >>= f) s).1 ≡ (f a (m s).1).1)
  unfolding ◌>>=◌
  ok-bind m f b s = go (m s).0 (m s).1
    where
      go :
          (r : Result A) (t : S)
          → (Exec.resume r f t).0 ≡ ok b
          → (a : A) × (r ≡ ok a) × ((f a t).0 ≡ ok b) × ((Exec.resume r f t).1 ≡ (f a t).1)
      go (ok a) t h = (a, refl, h, refl)
      go (err e) t h = cc

  -- What holds after a call whose error is looked at, by cases on its result.
  pub attempt-cases :
      (Q : Result B × S → Type 0) (m : Exec S A) (f : Result A → Exec S B) (s : S)
      → ((a : A) → (m s).0 ≡ ok a → Q (f (ok a) (m s).1))
      → ((e : Error) → (m s).0 ≡ err e → Q (f (err e) (m s).1))
      → Q (attempt m f s)
  unfolding attempt
  attempt-cases Q m f s g h = go (m s).0 refl
    where
      go : (r : Result A) → (m s).0 ≡ r → Q (f r (m s).1)
      go (ok a) e = g a e
      go (err e) q = h e q
