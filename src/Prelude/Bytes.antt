-- ===== src/Prelude/Bytes.antt =====
-- Unsigned integers as big-endian bytes, and what taking and dropping does to a concatenation.
use policy_engine.Prelude.{
  ℕ, zero, suc, ◌+◌, ◌*◌, ◌/◌, ◌%◌, ◌^◌, ◌<◌, ◌≡◌, refl, ap, ◌∙◌, arith, List, [], ◌∷◌, ◌++◌,
  length, take, drop, length-append,
}
use policy_engine.Prelude.Text.{Text}

-- `binary.BigEndian.PutUint…` into that many bytes.
unfoldable pub put_bytes : ℕ → ℕ → Text
put_bytes zero n = []
put_bytes (suc k) n = put_bytes k (n / 256) ++ ((n % 256) ∷ [])

abbrev pub read_from : ℕ → Text → ℕ
read_from acc [] = acc
read_from acc (b ∷ bs) = read_from (acc * 256 + b) bs

-- `binary.BigEndian.Uint…`
unfoldable pub read_bytes : Text → ℕ
read_bytes bs = read_from 0 bs

pub length-put_bytes : (k n : ℕ) → length (put_bytes k n) ≡ k
unfolding put_bytes
length-put_bytes zero n = refl
length-put_bytes (suc k) n =
    length-append (put_bytes k (n / 256)) ((n % 256) ∷ [])
    ∙ omega (arith, length-put_bytes k (n / 256))

read_from-append :
    (acc : ℕ) (xs : Text) (b : ℕ) → read_from acc (xs ++ (b ∷ [])) ≡ read_from acc xs * 256 + b
read_from-append acc [] b = refl
read_from-append acc (x ∷ xs) b = read_from-append (acc * 256 + x) xs b

div_bound : (k n : ℕ) → n < 256 ^ suc k → n / 256 < 256 ^ k
div_bound k n h = omega arith

pub read_bytes-put_bytes : (k n : ℕ) → n < 256 ^ k → read_bytes (put_bytes k n) ≡ n
unfolding read_bytes put_bytes
read_bytes-put_bytes zero n h = omega arith
read_bytes-put_bytes (suc k) n h =
    read_from-append 0 (put_bytes k (n / 256)) (n % 256)
    ∙ omega (arith, read_bytes-put_bytes k (n / 256) (div_bound k n h))

module _ {ℓ} {A : Type ℓ} where
  pub take-append : (n : ℕ) (xs ys : List A) → length xs ≡ n → take n (xs ++ ys) ≡ xs
  take-append zero [] ys h = refl
  take-append zero (x ∷ xs) ys h = ground arith
  take-append (suc n) [] ys h = ground arith
  take-append (suc n) (x ∷ xs) ys h = ap (x ∷◌) (take-append n xs ys (omega arith))

  pub drop-append : (n : ℕ) (xs ys : List A) → length xs ≡ n → drop n (xs ++ ys) ≡ ys
  drop-append zero [] ys h = refl
  drop-append zero (x ∷ xs) ys h = ground arith
  drop-append (suc n) [] ys h = ground arith
  drop-append (suc n) (x ∷ xs) ys h = drop-append n xs ys (omega arith)

  pub take-all : (n : ℕ) (xs : List A) → length xs ≡ n → take n xs ≡ xs
  take-all zero [] h = refl
  take-all zero (x ∷ xs) h = ground arith
  take-all (suc n) [] h = ground arith
  take-all (suc n) (x ∷ xs) h = ap (x ∷◌) (take-all n xs (omega arith))
