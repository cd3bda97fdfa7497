-- ===== src/Errors/Laws.antt =====
-- A chain of fallible calls that succeeds.
use policy_engine.Prelude.{◌≡◌, refl, ap, arith}
use policy_engine.Errors.{Result, ErrorCategory, ok, err, ◌>>=◌}

pub err_ok {ℓ} : {A : Type ℓ} (e : ErrorCategory) (b : A) → err e ≡ ok b → ⊥
err_ok e b h = ground arith

pub bound {ℓ κ} :
    {A : Type ℓ} {B : Type κ} (m : Result A) (f : A → Result B) (b : B)
    → (m >>= f) ≡ ok b
    → (a : A) × (m ≡ ok a) × (f a ≡ ok b)
bound (ok a) f b h = (a, refl, h)
bound (err e) f b h = absurd (err_ok e b h)

pub same_ok {ℓ} : {A : Type ℓ} (a b : A) → ok a ≡ ok b → a ≡ b
same_ok a b h = ap (λ r. elim r [ ok x ↦ x | err e ↦ a ]) h
