-- ===== src/Common/Exec/Steps.antt =====
-- What an action does to the state, whether it returns or fails: one rule for each way to build it.
use gource.Prelude.{◌≡◌, refl, Bool, true, false, List, [], ◌∷◌, if◌then◌else◌}
use gource.Common.Errors.{Error, Result, ok, err}
use gource.Common.Exec
use gource.Common.Exec.{Exec, pure, raise, lift, gets, modify, ◌>>=◌, attempt, for_each}

-- A relation that states may be carried along: reflexive and transitive.
pub record IsOrder {ℓ} {S : Type ℓ} (R : S → S → Type ℓ) : Type ℓ where
  pub stays : (s : S) → R s s
  pub chain : (s t u : S) → R s t → R t u → R s u

pub record Steps {ℓ} {S A : Type ℓ} (R : S → S → Type ℓ) (m : Exec S A) : Type ℓ where
  pub at : (s : S) → R s (m s).1

module _ {ℓ} {S : Type ℓ} {R : S → S → Type ℓ} (o : IsOrder R) where
  module _ {A : Type ℓ} where
    pub Steps-pure : (a : A) → Steps R (pure a)
    unfolding pure
    Steps-pure a = record { at = o.stays }

    pub Steps-raise : (e : Error) → Steps R (raise {A = A} e)
    unfolding raise
    Steps-raise e = record { at = o.stays }

    pub Steps-lift : (r : Result A) → Steps R (lift r)
    unfolding lift
    Steps-lift r = record { at = o.stays }

    pub Steps-gets : (f : S → A) → Steps R (gets f)
    unfolding gets
    Steps-gets f = record { at = o.stays }

    pub Steps-if :
        (b : Bool) (m n : Exec S A)
        → (b ≡ true → Steps R m)
        → (b ≡ false → Steps R n)
        → Steps R (if b then m else n)
    Steps-if true m n km kn = km refl
    Steps-if false m n km kn = kn refl

  module _ {A B : Type ℓ} where
    pub Steps-bind :
        (m : Exec S A) (f : A → Exec S B)
        → Steps R m
        → ((a : A) → Steps R (f a))
        → Steps R (m >>= f)
    unfolding ◌>>=◌
    Steps-bind m f km kf = record { at = λ s. go s (m s).0 (m s).1 (km.at s) }
      where
        go : (s : S) (r : Result A) (t : S) → R s t → R s (Exec.resume r f t).1
        go s (ok a) t h = o.chain s t (f a t).1 h ((kf a).at t)
        go s (err e) t h = h

    pub Steps-attempt :
        (m : Exec S A) (f : Result A → Exec S B)
        → Steps R m
        → ((r : Result A) → Steps R (f r))
        → Steps R (attempt m f)
    unfolding attempt
    Steps-attempt m f km kf = record {
      at = λ s. o.chain s (m s).1 (f (m s).0 (m s).1).1 (km.at s) ((kf (m s).0).at (m s).1);
    }

  pub Steps-modify : (f : S → S) → ((s : S) → R s (f s)) → Steps R (modify f)
  unfolding modify
  Steps-modify f h = record { at = h }

  pub Steps-for_each :
      {A : Type ℓ} (l : List A) (body : A → Exec S (Unit {ℓ}))
      → ((a : A) → Steps R (body a))
      → Steps R (for_each l body)
  unfolding for_each
  Steps-for_each [] body k = Steps-pure tt
  Steps-for_each (x ∷ xs) body k =
      Steps-bind (body x) (λ _. for_each xs body) (k x) (λ _. Steps-for_each xs body k)
