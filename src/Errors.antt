-- ===== src/Errors.antt =====
-- The exceptions of the services, and results that may be one. `value_error` is Python's;
-- `integrity_error` is SQLAlchemy's, raised when a row breaks a constraint of app/models.py.
use document_intelligence_mv.Prelude.{◌≡◌, refl, Bool, true, false}

pub data Error : Type 0 where
  parsing_error package_rejected object_not_found indexing_error : Error
  profiling_error vector_store_error reindex_error reindex_not_found : Error
  no_stored_chunks file_too_large empty_file unsupported_file_type : Error
  value_error integrity_error unexpected : Error

-- What a call comes to: the value that it returns, or the exception that it raises.
pub data Result {ℓ} (A : Type ℓ) : Type ℓ where
  raises : Error → Result A
  returns : A → Result A

module _ {ℓ κ} {A : Type ℓ} {B : Type κ} where
  infixl 5 ◌>>=◌
  -- An exception passes by the rest of the block.
  abbrev pub ◌>>=◌ : Result A → (A → Result B) → Result B
  raises problem >>= rest = raises problem
  returns value >>= rest = rest value

  -- A block that returns has a first step that returns.
  pub >>=-returns :
      (m : Result A) (rest : A → Result B) (b : B)
      → (m >>= rest) ≡ returns b
      → (a : A) × (m ≡ returns a) × (rest a ≡ returns b)
  >>=-returns (returns a) rest b h = (a, refl, h)
  >>=-returns (raises problem) rest b h = cc

module _ {ℓ} {B : Type ℓ} where
  infixl 5 ◌>>◌
  abbrev pub ◌>>◌ : Result (Unit {0}) → Result B → Result B
  check >> rest = check >>= λ _. rest

-- `if test: raise problem`
abbrev pub raise_if : Bool → Error → Result (Unit {0})
raise_if false problem = returns tt
raise_if true problem = raises problem

module _ {ℓ} {B : Type ℓ} where
  -- A block that returns has passed its check.
  pub raise_if-returns :
      (test : Bool) (problem : Error) (rest : Result B) (b : B)
      → (raise_if test problem >> rest) ≡ returns b
      → (test ≡ false) × (rest ≡ returns b)
  raise_if-returns false problem rest b h = (refl, h)
  raise_if-returns true problem rest b h = cc
