-- ===== src/Node/Core/Moves.antt =====
-- How the operations of the core move its poset: the rules for methods of the poset, and for what they
-- leave of the core.
use gource.Prelude.{◌≡◌, refl, ap, ◌∙◌, String, Bool, if◌then◌else◌}
use gource.Common.Errors.{Error, Result, ok, err}
use gource.Common.Exec.{Exec, attempt, labelled, on, ◌>>=◌}
use gource.Common.Exec.Steps.{
  IsOrder, Steps, Steps-bind, Steps-pure, Steps-raise, Steps-attempt, Steps-if,
}
use gource.Common.Exec.Returns.{Returns}
use gource.Poset.State.{Env, Poset, on_store}
use gource.Poset.Queries.Caches.{Asks, on_store-Asks, with_caches}
use gource.Node.Core.{Core, on_poset, on_store_of}

module _ {env : Env} where
  -- A relation between posets, on the posets of two cores.
  abbrev pub OfPoset : (Poset env → Poset env → Type 0) → Core env → Core env → Type 0
  OfPoset R c d = R c.poset d.poset

  module _ {R : Core env → Core env → Type 0} (o : IsOrder R) where
    pub bind-Moves :
        {A B : Type 0} (m : Exec (Core env) A) (f : A → Exec (Core env) B)
        → Steps R m
        → ((a : A) → Steps R (f a))
        → Steps R (m >>= f)
    bind-Moves m f = Steps-bind o m f

    pub attempt-Moves :
        {A B : Type 0} (m : Exec (Core env) A) (f : Result A → Exec (Core env) B)
        → Steps R m
        → ((a : A) → Steps R (f (ok a)))
        → ((e : Error) → Steps R (f (err e)))
        → Steps R (attempt m f)
    attempt-Moves m f k h g =
        Steps-attempt o m f k (λ r. elim r as (λ r. Steps R (f r)) [ ok a ↦ h a | err e ↦ g e ])

    pub if-Moves :
        {A : Type 0} (b : Bool) (m n : Exec (Core env) A)
        → Steps R m
        → Steps R n
        → Steps R (if b then m else n)
    if-Moves b m n k l = Steps-if o b m n (λ _. k) (λ _. l)

    pub labelled-Moves :
        {A : Type 0} (label : String) (m : Exec (Core env) A)
        → Steps R m
        → Steps R (labelled label m)
    unfolding labelled
    labelled-Moves label m h = attempt-Moves m _ h (λ a. Steps-pure o a) (λ e. Steps-raise o _)

  module _ {R : Poset env → Poset env → Type 0} (o : IsOrder R) where
    pub OfPoset-IsOrder : IsOrder (OfPoset R)
    OfPoset-IsOrder = record {
      stays = λ c. o.stays c.poset;
      chain = λ c d e h k. o.chain c.poset d.poset e.poset h k;
    }

  module _ {R : Poset env → Poset env → Type 0} where
    pub on_poset-Moves :
        {A : Type 0} (m : Exec (Poset env) A) → Steps R m → Steps (OfPoset R) (on_poset m)
    unfolding on_poset on
    on_poset-Moves m h = record { at = λ c. h.at c.poset }

  -- From `c` to `d`, at most the store and the caches of the poset have changed.
  abbrev pub Asking : Core env → Core env → Type 0
  Asking c d = d ≡ record c { poset = with_caches d.poset c.poset }

  pub Asking-IsOrder : IsOrder Asking
  Asking-IsOrder = record {
    stays = λ c. refl;
    chain =
        λ c d e h k. k ∙ ap (λ (v : Core env). record v { poset = with_caches e.poset v.poset }) h;
  }

  pub on_poset-Asking : {A : Type 0} (m : Exec (Poset env) A) → Asks m → Steps Asking (on_poset m)
  unfolding on_poset on
  on_poset-Asking m h = record {
    at = λ c. ap (λ (p : Poset env). record c { poset = p }) (h.at c.poset);
  }

  pub store-Asking : {A : Type 0} (m : Exec env.store.State A) → Steps Asking (on_store_of m)
  unfolding on_store_of
  store-Asking m = on_poset-Asking _ (on_store-Asks m)

  -- A question to the poset keeps every relation that its questions keep.
  pub store-Moves :
      {R : Poset env → Poset env → Type 0} {A : Type 0} (m : Exec env.store.State A)
      → Steps R (on_store m)
      → Steps (OfPoset R) (on_store_of m)
  unfolding on_store_of
  store-Moves m h = on_poset-Moves _ h

  pub on_poset-Returns :
      {A : Type 0} {Q : A → Type 0} (m : Exec (Poset env) A) → Returns Q m → Returns Q (on_poset m)
  unfolding on_poset on
  on_poset-Returns m h = record { gives = λ c. h.gives c.poset }
