-- ===== src/Common/Exec/Returns.antt =====
-- What holds of the value that an action returns, if it returns one: one rule for each way to build it.
use gource.Prelude.{◌≡◌, refl, Bool, true, false, if◌then◌else◌}
use gource.Common.Errors.{Error, Result, ok, err}
use gource.Common.Exec
use gource.Common.Exec.{Exec, pure, raise, ◌>>=◌, attempt}

abbrev pub Gives {ℓ} : {A : Type ℓ} → (A → Type ℓ) → Result A → Type ℓ
Gives Q (ok a) = Q a
Gives Q (err e) = Unit {ℓ}

pub record Returns {ℓ} {S A : Type ℓ} (Q : A → Type ℓ) (m : Exec S A) : Type ℓ where
  pub gives : (s : S) → Gives Q (m s).0

module _ {ℓ} {S B : Type ℓ} {Q : B → Type ℓ} where
  pub Returns-pure : (b : B) → Q b → Returns {S = S} Q (pure b)
  unfolding pure
  Returns-pure b q = record { gives = λ s. q }

  pub Returns-raise : (e : Error) → Returns {S = S} Q (raise e)
  unfolding raise
  Returns-raise e = record { gives = λ s. tt }

  pub Returns-if :
      (b : Bool) (m n : Exec S B) → Returns Q m → Returns Q n → Returns Q (if b then m else n)
  Returns-if true m n k l = k
  Returns-if false m n k l = l

module _ {ℓ} {S A B : Type ℓ} {P : A → Type ℓ} {Q : B → Type ℓ} where
  -- The value that is handed on has the property `P`.
  pub Returns-then :
      (m : Exec S A) (f : A → Exec S B)
      → Returns P m
      → ((a : A) → P a → Returns Q (f a))
      → Returns Q (m >>= f)
  unfolding ◌>>=◌
  Returns-then m f k h = record { gives = λ s. go (m s).0 (m s).1 (k.gives s) }
    where
      go : (r : Result A) (t : S) → Gives P r → Gives Q (Exec.resume r f t).0
      go (ok a) t p = (h a p).gives t
      go (err e) t p = tt

  -- The same for a call whose error is looked at.
  pub Returns-attempt :
      (m : Exec S A) (f : Result A → Exec S B)
      → Returns P m
      → ((a : A) → P a → Returns Q (f (ok a)))
      → ((e : Error) → Returns Q (f (err e)))
      → Returns Q (attempt m f)
  unfolding attempt
  Returns-attempt m f k h g = record { gives = λ s. go (m s).0 (m s).1 (k.gives s) }
    where
      go : (r : Result A) (t : S) → Gives P r → Gives Q (f r t).0
      go (ok a) t p = (h a p).gives t
      go (err e) t p = (g e).gives t

module _ {ℓ} {S A : Type ℓ} where
  -- The value is what the action returns from some state.
  pub Returns-run : (m : Exec S A) → Returns (λ a. (s : S) × ((m s).0 ≡ ok a)) m
  Returns-run m = record { gives = λ s. go s (m s).0 refl }
    where
      go : (s : S) (r : Result A) → (m s).0 ≡ r → Gives (λ a. (s : S) × ((m s).0 ≡ ok a)) r
      go s (ok a) h = (s, h)
      go s (err e) h = tt

module _ {ℓ} {S A B : Type ℓ} {Q : B → Type ℓ} where
  pub Returns-bind :
      (m : Exec S A) (f : A → Exec S B) → ((a : A) → Returns Q (f a)) → Returns Q (m >>= f)
  unfolding ◌>>=◌
  Returns-bind m f h = record { gives = λ s. go (m s).0 (m s).1 }
    where
      go : (r : Result A) (t : S) → Gives Q (Exec.resume r f t).0
      go (ok a) t = (h a).gives t
      go (err e) t = tt
