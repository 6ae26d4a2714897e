-- ===== src/Base/Error.antt =====
-- `netchunk_error_t` (include/config.h), and the outcome of a function that fills an output
-- parameter when it succeeds.
use mathlib.Core.Path.{◌≡◌, refl}
use mathlib.Core.Logic.{◌⊎◌, inl, inr}
use mathlib.Core.Bool.{Bool, true, false}

pub data ErrorCode : Type 0 where
  success : ErrorCode
  invalid_argument out_of_memory file_not_found file_access : ErrorCode
  network ftp config config_parse config_validation : ErrorCode
  chunk_integrity manifest_corrupt server_unavailable insufficient_servers : ErrorCode
  crypto timeout cancelled upload_failed download_failed eof unknown : ErrorCode

-- `err` carries a code other than `success`.
pub data Result {ℓ} (A : Type ℓ) : Type ℓ where
  ok : A → Result A
  err : ErrorCode → Result A

infixl 5 ◌>>=◌
abbrev pub ◌>>=◌ {ℓ κ} : {A : Type ℓ} {B : Type κ} → Result A → (A → Result B) → Result B
ok a >>= f = f a
err e >>= f = err e

-- The code that the function returns.
abbrev pub code_of {ℓ} : {A : Type ℓ} → Result A → ErrorCode
code_of (ok a) = success
code_of (err e) = e

-- The test `error != NETCHUNK_SUCCESS`.
abbrev pub failed : ErrorCode → Bool
failed success = false
failed code = true

pub failed_cases : (e : ErrorCode) → (e ≡ success) ⊎ (failed e ≡ true)
failed_cases success = inl refl
failed_cases code = inr refl

pub Result-cases {ℓ} :
    {A : Type ℓ} (x : Result A) → ((e : ErrorCode) × (x ≡ err e)) ⊎ ((a : A) × (x ≡ ok a))
Result-cases (ok a) = inr (a, refl)
Result-cases (err e) = inl (e, refl)
