-- ===== src/Errors.antt =====
-- What a method raises, and the effects of a method on the shared state: what was written before a
-- raise stays written.
pub mod Ensures
use conversation_service.Prelude.{ℕ}
use conversation_service.Model.{Text}

pub data Error : Type 0 where
  storage : Error
  pending_registration : Error
  custom_mode_unavailable : Error
  lookup_error : Error
  value_error : Error
  permission_error : Error
  os_error : Error
  file_not_found : Error
  invalid_media : Error
  render_unavailable : Error
  render_rejected : Text → Error
  artifact_not_found : Error
  retry_limit_reached : Error
  artifact_spec_error : Error
  custom_mode_limit : ℕ → Error
  custom_mode_name_taken : Error
  custom_mode_not_found : Error
  custom_mode_conflict : ℕ → Error
  preferences_conflict : ℕ → Error
  invalid_default_mode : Error
  unknown_catalog_item : Error

pub data Result {ℓ} (A : Type ℓ) : Type ℓ where
  ok : A → Result A
  raised : Error → Result A

-- A method over a state `S`.
abbrev pub Method {ℓ} : Type ℓ → Type ℓ → Type ℓ
Method S A = S → Result A × S

module _ {ℓ} {S A B : Type ℓ} where
  abbrev pub continue : Result A → (A → Method S B) → S → Result B × S
  continue (ok a) f s = f a s
  continue (raised e) f s = (raised e, s)

  infixl 10 ◌>>=◌ ◌>>◌
  abbrev pub ◌>>=◌ : Method S A → (A → Method S B) → Method S B
  ◌>>=◌ m f s = let (r, s') = m s in continue r f s'

  abbrev pub ◌>>◌ : Method S A → Method S B → Method S B
  m >> n = m >>= λ _. n

module _ {ℓ} {S A : Type ℓ} where
  abbrev pub return : A → Method S A
  return a s = (ok a, s)

  abbrev pub fail : Error → Method S A
  fail e s = (raised e, s)

module _ {ℓ} {S A : Type ℓ} where
  -- try: ... except Exception as e: ...
  abbrev pub except : Result A × S → (Error → Method S A) → Result A × S
  except (ok a, s) handler = (ok a, s)
  except (raised e, s) handler = handler e s
