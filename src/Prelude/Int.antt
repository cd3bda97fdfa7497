-- ===== src/Prelude/Int.antt =====
-- Go's `int`: integers over the native numbers, for what the code compares, adds and subtracts in
-- range, and the wrap-around of a product.
use policy_engine.Prelude.{
  ℕ, suc, ◌+◌, ◌-◌, ◌≤◌, ◌<◌, ◌≡◌, refl, ◌%◌, ◌^◌, Bool, true, false, arith, ltb, leb,
  if◌then◌else◌,
}

-- `negsuc n` is -(n + 1).
pub data ℤ : Type 0 where
  pos : ℕ → ℤ
  negsuc : ℕ → ℤ

abbrev pub pos_part : ℤ → ℕ
pos_part (pos n) = n
pos_part (negsuc n) = 0

abbrev pub neg_part : ℤ → ℕ
neg_part (pos n) = 0
neg_part (negsuc n) = suc n

-- a - b, as an integer.
abbrev pub sub_ℕ : ℕ → ℕ → ℤ
sub_ℕ a b = if leb b a then pos (a - b) else negsuc (b - a - 1)

infixl 65 ◌+ℤ◌ ◌-ℤ◌
abbrev pub ◌+ℤ◌ : ℤ → ℤ → ℤ
a +ℤ b = sub_ℕ (pos_part a + pos_part b) (neg_part a + neg_part b)

abbrev pub ◌-ℤ◌ : ℤ → ℤ → ℤ
a -ℤ b = sub_ℕ (pos_part a + neg_part b) (neg_part a + pos_part b)

abbrev pub ltb_ℤ : ℤ → ℤ → Bool
ltb_ℤ a b = ltb (pos_part a + neg_part b) (pos_part b + neg_part a)

abbrev pub is_negative : ℤ → Bool
is_negative (pos n) = false
is_negative (negsuc n) = true

-- The integer of 64 bits, in two's complement, that a product wraps around to.
unfoldable pub wrap_int : ℕ → ℤ
wrap_int n = let r = n % 2 ^ 64 in if ltb r (2 ^ 63) then pos r else negsuc (2 ^ 64 - 1 - r)

pub wrap_int-small : (n : ℕ) → n < 2 ^ 63 → wrap_int n ≡ pos n
unfolding wrap_int
wrap_int-small n h =
    let e : n % 2 ^ 64 ≡ n = omega arith in
    let l : ltb n (2 ^ 63) ≡ true = ground arith in rw (e, l) refl

-- How the difference of two heights tests.
pub above_one : (a b : ℕ) → b + 1 < a → ltb_ℤ (pos 1) (pos a -ℤ pos b) ≡ true
above_one a b h = ground arith

pub not_above_one : (a b : ℕ) → a ≤ b + 1 → ltb_ℤ (pos 1) (pos a -ℤ pos b) ≡ false
not_above_one a b h = ground arith

pub below_one : (a b : ℕ) → a + 1 < b → ltb_ℤ (pos a -ℤ pos b) (negsuc 0) ≡ true
below_one a b h = ground arith

pub not_below_one : (a b : ℕ) → b ≤ a + 1 → ltb_ℤ (pos a -ℤ pos b) (negsuc 0) ≡ false
not_below_one a b h = ground arith

pub above_zero : (a b : ℕ) → b < a → ltb_ℤ (pos 0) (pos a -ℤ pos b) ≡ true
above_zero a b h = ground arith

pub not_above_zero : (a b : ℕ) → a ≤ b → ltb_ℤ (pos 0) (pos a -ℤ pos b) ≡ false
not_above_zero a b h = ground arith

pub below_zero : (a b : ℕ) → a < b → ltb_ℤ (pos a -ℤ pos b) (pos 0) ≡ true
below_zero a b h = ground arith

pub not_below_zero : (a b : ℕ) → b ≤ a → ltb_ℤ (pos a -ℤ pos b) (pos 0) ≡ false
not_below_zero a b h = ground arith
