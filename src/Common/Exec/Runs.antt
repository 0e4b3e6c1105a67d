-- ===== src/Common/Exec/Runs.antt =====
-- Actions that do not run out of fuel, from states with an invariant, which they keep: one rule for each
-- way to build an action.
use gource.Prelude.{◌≡◌, Bool, true, false, Option, none, some, if◌then◌else◌}
use gource.Common.Errors.{Error, Result, ok, err, store, message, panic, no_fuel}
use gource.Common.Exec
use gource.Common.Exec.{Exec, pure, raise, gets, ◌>>=◌, attempt}

abbrev pub is_fuel : Error → Bool
is_fuel no_fuel = true
is_fuel panic = false
is_fuel (store e) = false
is_fuel (message m) = false

-- A value with the property, or an error of the code.
abbrev pub Ends : {A : Type 0} → (A → Type 0) → Result A → Type 0
Ends Q (ok a) = Q a
Ends Q (err e) = is_fuel e ≡ false

abbrev pub Any : {A : Type 0} → A → Type 0
Any a = Unit

pub record Runs {S A : Type 0} (Inv : S → Type 0) (Q : A → Type 0) (m : Exec S A) : Type 0 where
  pub runs : (s : S) → Inv s → Inv (m s).1 × Ends Q (m s).0

module _ {S A : Type 0} {Inv : S → Type 0} {Q : A → Type 0} where
  pub Runs-pure : (a : A) → Q a → Runs Inv Q (pure a)
  unfolding pure
  Runs-pure a q = record { runs = λ s i. (i, q) }

  pub Runs-raise : (e : Error) → is_fuel e ≡ false → Runs Inv Q (raise e)
  unfolding raise
  Runs-raise e q = record { runs = λ s i. (i, q) }

  pub Runs-gets : (f : S → A) → ((s : S) → Q (f s)) → Runs Inv Q (gets f)
  unfolding gets
  Runs-gets f q = record { runs = λ s i. (i, q s) }

  pub Runs-if :
      (b : Bool) (m n : Exec S A) → Runs Inv Q m → Runs Inv Q n → Runs Inv Q (if b then m else n)
  Runs-if true m n k l = k
  Runs-if false m n k l = l

module _ {S A B : Type 0} {Inv : S → Type 0} {Q : B → Type 0} where
  pub Runs-option :
      (o : Option A) (m : Exec S B) (f : A → Exec S B)
      → Runs Inv Q m
      → ((a : A) → Runs Inv Q (f a))
      → Runs Inv Q (elim o [ none ↦ m | some a ↦ f a ])
  Runs-option none m f k h = k
  Runs-option (some a) m f k h = h a

module _ {S A B : Type 0} {Inv : S → Type 0} {P : A → Type 0} {Q : B → Type 0} where
  pub Runs-bind :
      (m : Exec S A) (f : A → Exec S B)
      → Runs Inv P m
      → ((a : A) → P a → Runs Inv Q (f a))
      → Runs Inv Q (m >>= f)
  unfolding ◌>>=◌
  Runs-bind m f k h = record { runs = λ s i. go (m s).0 (m s).1 (k.runs s i) }
    where
      go :
          (r : Result A) (t : S)
          → Inv t × Ends P r
          → Inv (Exec.resume r f t).1 × Ends Q (Exec.resume r f t).0
      go (ok a) t (i, p) = (h a p).runs t i
      go (err e) t (i, p) = (i, p)

  pub Runs-attempt :
      (m : Exec S A) (f : Result A → Exec S B)
      → Runs Inv P m
      → ((a : A) → P a → Runs Inv Q (f (ok a)))
      → ((e : Error) → is_fuel e ≡ false → Runs Inv Q (f (err e)))
      → Runs Inv Q (attempt m f)
  unfolding attempt
  Runs-attempt m f k h g = record { runs = λ s i. go (m s).0 (m s).1 (k.runs s i) }
    where
      go : (r : Result A) (t : S) → Inv t × Ends P r → Inv (f r t).1 × Ends Q (f r t).0
      go (ok a) t (i, p) = (h a p).runs t i
      go (err e) t (i, p) = (g e p).runs t i
