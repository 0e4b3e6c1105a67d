-- ===== src/Common/Errors.antt =====
-- src/common/errors.go, and Go's `(value, error)` pairs as a result type.
use gource.Prelude.{String, Bool, true, false, ◌≡◌, refl, ◌⊎◌, inl, inr}

pub data StoreErrType : Type 0 where
  key_not_found too_late passed_index skipped_index no_root unknown_participant empty : StoreErrType

pub record StoreErr : Type 0 where
  pub data_type : String
  pub err_type : StoreErrType
  pub key : String

-- A Go `error`: a `StoreErr`, or one that only carries a text. `panic` stands for an index out of
-- range or a nil pointer, which end the goroutine. `no_fuel` is no error of the code: it stands for a
-- recursion that was given too little fuel.
pub data Error : Type 0 where
  store : StoreErr → Error
  message : String → Error
  panic : Error
  no_fuel : Error

abbrev pub new_store_err : String → StoreErrType → String → Error
new_store_err data_type err_type key =
    store (record { data_type = data_type; err_type = err_type; key = key })

abbrev pub same_type : StoreErrType → StoreErrType → Bool
same_type key_not_found key_not_found = true
same_type too_late too_late = true
same_type passed_index passed_index = true
same_type skipped_index skipped_index = true
same_type no_root no_root = true
same_type unknown_participant unknown_participant = true
same_type empty empty = true
same_type _ _ = false

-- `Is(err, t)`
abbrev pub is : Error → StoreErrType → Bool
is (store e) t = same_type e.err_type t
is (message _) t = false
is panic t = false
is no_fuel t = false

-- `fmt.Errorf("CheckSelfParent: %s", err)`: only the label of the text is kept. A panic is no error that
-- the code could look at.
abbrev pub relabel : String → Error → Error
relabel label (store e) = message label
relabel label (message m) = message label
relabel label panic = panic
relabel label no_fuel = no_fuel

-- An error that the code can look at.
abbrev pub is_error : Error → Bool
is_error (store e) = true
is_error (message m) = true
is_error panic = false
is_error no_fuel = false

pub data Result {ℓ} (A : Type ℓ) : Type ℓ where
  ok : A → Result A
  err : Error → Result A

infixl 5 ◌>>=◌
abbrev pub ◌>>=◌ {ℓ κ} : {A : Type ℓ} {B : Type κ} → Result A → (A → Result B) → Result B
ok a >>= f = f a
err e >>= f = err e

pub Result-cases {ℓ} :
    {A : Type ℓ} (r : Result A) → ((a : A) × (r ≡ ok a)) ⊎ ((e : Error) × (r ≡ err e))
Result-cases (ok a) = inl (a, refl)
Result-cases (err e) = inr (e, refl)

pub ok-injective {ℓ} : {A : Type ℓ} {a b : A} → ok a ≡ ok b → a ≡ b
ok-injective h = cc
