-- ===== src/Prelude/Eq.antt =====
-- Go's `==` on comparable types, as an interface.
use policy_engine.Prelude.{◌≡◌, ◌↔◌, Bool, true}

pub record Eq {ℓ} (A : Type ℓ) : Type ℓ where
  pub beq : A → A → Bool
  pub beq_iff : (a b : A) → (beq a b ≡ true) ↔ (a ≡ b)
