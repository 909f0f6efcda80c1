-- ===== src/Exec.antt =====
-- Python exceptions as values, and calls that change an object and may raise.
use dlt_matterbeam.Prelude.{ℕ, String, ◌≡◌, refl, ◌⊎◌, inl, inr}
use dlt_matterbeam.Json.{Json}

-- why a `DestinationTerminalException` was raised: a status, a conflict, or too many retries
pub data Cause : Type 0 where
  status : ℕ → Cause
  conflicted : Json → Cause
  gave_up : ℕ → Cause

pub data Error : Type 0 where
  scd_refused : Error
  key_error : String → Error
  index_error : Error
  type_error : Error
  file_not_found : String → Error
  os_error : Error
  attribute_error : Error
  json_decode_error : Error
  conflict : Json → Error
  transient : ℕ → Error
  terminal : Cause → Error
  configuration_error : Error
  gate_error : String → Error
  deploy_error : Error
  rejected : ℕ → Error
  command_failed : Error → Error

pub data Result {ℓ} (A : Type ℓ) : Type ℓ where
  ok : A → Result A
  err : Error → Result A

module _ {ℓ κ} {A : Type ℓ} {B : Type κ} where
  infixl 10 ◌>>=◌
  -- what follows a call that returned
  abbrev pub ◌>>=◌ : Result A → (A → Result B) → Result B
  err e >>= next = err e
  ok x >>= next = next x

  pub >>=-eq-ok :
      (r : Result A) (next : A → Result B) {y : B}
      → (r >>= next) ≡ ok y
      → (x : A) × (r ≡ ok x) × (next x ≡ ok y)
  >>=-eq-ok (err e) next returned = cc
  >>=-eq-ok (ok x) next returned = (x, refl, returned)

pub Result-cases {ℓ} :
    {A : Type ℓ} (r : Result A) → ((a : A) × (r ≡ ok a)) ⊎ ((e : Error) × (r ≡ err e))
Result-cases (ok a) = inl (a, refl)
Result-cases (err e) = inr (e, refl)

pub ok-injective {ℓ} : {A : Type ℓ} {a b : A} → ok a ≡ ok b → a ≡ b
ok-injective h = cc
