-- ===== src/Domain/Errors.antt =====
-- Domain.Errors: the codes of domain/errors/errors.go, and what a method that may fail returns. An error keeps
-- its code and the fixed part of its message; the details, which only decorate the answer, are left out.
pub mod Outcomes
pub mod Related
use flexitype.Prelude.{◌≡◌, refl, String}

pub data Code : Type 0 where
  validation not_found conflict archived dependency_violation forbidden plain : Code

pub record Error : Type 0 where
  pub code : Code
  pub message : String

abbrev pub new_validation : String → Error
new_validation message = record { code = validation; message = message }

abbrev pub new_archived : String → Error
new_archived entity = record { code = archived; message = entity }

abbrev pub new_dependency_violation : String → Error
new_dependency_violation message = record { code = dependency_violation; message = message }

abbrev pub new_forbidden : String → Error
new_forbidden message = record { code = forbidden; message = message }

abbrev pub new_conflict : String → Error
new_conflict message = record { code = conflict; message = message }

abbrev pub new_not_found : String → Error
new_not_found entity = record { code = not_found; message = entity }

-- An error of fmt.Errorf, or of a library, which carries no code.
abbrev pub plain_error : String → Error
plain_error message = record { code = plain; message = message }

-- What a method that may fail returns.
pub data Result {ℓ} (A : Type ℓ) : Type ℓ where
  err : Error → Result A
  ok : A → Result A

infixl 10 ◌>>=◌ ◌>>◌
-- An error ends the method.
abbrev pub ◌>>=◌ {ℓ κ} : {A : Type ℓ} {B : Type κ} → Result A → (A → Result B) → Result B
err refusal >>= rest = err refusal
ok a >>= rest = rest a

-- A check before the rest of the method.
abbrev pub ◌>>◌ {ℓ} : {B : Type ℓ} → Result (Unit {0}) → Result B → Result B
err refusal >> rest = err refusal
ok passed >> rest = rest

-- domainerrors.NewValidation(err.Error()).
abbrev pub as_validation {ℓ} : {A : Type ℓ} → Result A → Result A
as_validation (ok a) = ok a
as_validation (err e) = err (new_validation e.message)
