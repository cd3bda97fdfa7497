-- ===== src/Errors.antt =====
-- The engine's failure categories (errors.go), and a fallible call as a value or a category.
pub mod Laws

pub data ErrorCategory : Type 0 where
  invalid_argument permission_denied not_found conflict failed_precondition : ErrorCategory
  resource_exhausted canceled deadline_exceeded unavailable : ErrorCategory
  unsupported_artifact cursor_expired integrity internal : ErrorCategory

-- Go's `(A, error)` where the value is not read beside an error.
pub data Result {ℓ} (A : Type ℓ) : Type ℓ where
  ok : A → Result A
  err : ErrorCategory → Result A

infixl 5 ◌>>=◌ ◌>>◌
abbrev pub ◌>>=◌ {ℓ κ} : {A : Type ℓ} {B : Type κ} → Result A → (A → Result B) → Result B
ok a >>= f = f a
err e >>= f = err e

abbrev pub ◌>>◌ {ℓ κ} : {A : Type ℓ} {B : Type κ} → Result A → Result B → Result B
a >> b = a >>= (λ x. b)
