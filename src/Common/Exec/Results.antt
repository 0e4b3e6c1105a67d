-- ===== src/Common/Exec/Results.antt =====
-- An action whose parts have known results, in the order of their calls.
use gource.Prelude.{◌≡◌, refl, ap, ◌∙◌, Bool, true, false, if◌then◌else◌}
use gource.Common.Errors.{Error, Result, ok, err}
use gource.Common.Exec
use gource.Common.Exec.{Exec, pure, modify, ◌>>=◌, attempt, on}

module _ {ℓ} {S A B : Type ℓ} where
  pub bind_result :
      (m : Exec S A) (f : A → Exec S B) (a : A) (s t : S) → m s ≡ (ok a, t) → (m >>= f) s ≡ f a t
  unfolding ◌>>=◌
  bind_result m f a s t h = ap (λ r. Exec.resume r.0 f r.1) h

  pub bind_ok :
      (m : Exec S A) (f : A → Exec S B) (a : A) (s : S) → (m s).0 ≡ ok a → (m >>= f) s ≡ f a (m s).1
  unfolding ◌>>=◌
  bind_ok m f a s h = ap (λ r. Exec.resume r f (m s).1) h

  pub bind_err :
      (m : Exec S A) (f : A → Exec S B) (e : Error) (s : S)
      → (m s).0 ≡ err e
      → (m >>= f) s ≡ (err e, (m s).1)
  unfolding ◌>>=◌
  bind_err m f e s h = ap (λ r. Exec.resume r f (m s).1) h

  pub attempt_result :
      (m : Exec S A) (f : Result A → Exec S B) (r : Result A) (s t : S)
      → m s ≡ (r, t)
      → attempt m f s ≡ f r t
  unfolding attempt
  attempt_result m f r s t h = ap (λ r. f r.0 r.1) h

module _ {ℓ} {S F A : Type ℓ} where
  pub on_result :
      (get : S → F) (put : F → S → S) (m : Exec F A) (r : Result A) (s : S) (f : F)
      → m (get s) ≡ (r, f)
      → on get put m s ≡ (r, put f s)
  unfolding on
  on_result get put m r s f h = ap (λ r. (r.0, put r.1 s)) h

-- An action that cannot fail.
pub record Succeeds {S : Type 0} (m : Exec S (Unit {0})) : Type 0 where
  pub done : (s : S) → (m s).0 ≡ ok tt

module _ {S : Type 0} where
  pub Succeeds-pure : Succeeds {S = S} (pure tt)
  unfolding pure
  Succeeds-pure = record { done = λ s. refl }

  pub Succeeds-modify : (f : S → S) → Succeeds (modify f)
  unfolding modify
  Succeeds-modify f = record { done = λ s. refl }

  pub Succeeds-if :
      (b : Bool) (m n : Exec S (Unit {0})) → Succeeds m → Succeeds n → Succeeds (if b then m else n)
  Succeeds-if true m n k l = k
  Succeeds-if false m n k l = l

  pub Succeeds-then : (m n : Exec S (Unit {0})) → Succeeds m → Succeeds n → Succeeds (m >>= λ _. n)
  Succeeds-then m n k l = record {
    done = λ s. ap (λ r. r.0) (bind_ok m (λ _. n) tt s (k.done s)) ∙ l.done (m s).1;
  }

  pub Succeeds-attempt :
      {A : Type 0} (m : Exec S A) (f : Result A → Exec S (Unit {0}))
      → ((a : A) → Succeeds (f (ok a)))
      → ((e : Error) → Succeeds (f (err e)))
      → Succeeds (attempt m f)
  unfolding attempt
  Succeeds-attempt {A} m f k l = record { done = λ s. go (m s).0 (m s).1 }
    where
      go : (r : Result A) (t : S) → (f r t).0 ≡ ok tt
      go (ok a) t = (k a).done t
      go (err e) t = (l e).done t
