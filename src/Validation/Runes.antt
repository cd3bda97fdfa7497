-- ===== src/Validation/Runes.antt =====
-- UTF-8 as `utf8.ValidString` accepts it, and the runes that a loop over a valid string meets.
use policy_engine.Prelude.{
  ℕ, zero, suc, ◌+◌, ◌*◌, ◌-◌, ◌&&◌, List, [], ◌∷◌, Option, none, some, if◌then◌else◌, ltb, leb,
  ◌==◌,
}
use policy_engine.Prelude.Text.{Text}

-- Between two runes, or inside one that needs further bytes, of which the next lies in a range.
pub data Decoder : Type 0 where
  boundary : Decoder
  inside : ℕ → ℕ → ℕ → ℕ → Decoder
  malformed : Decoder

-- After the first byte of a rune.
abbrev lead : ℕ → Decoder × Option ℕ
lead b =
    if ltb b 128
    then (boundary, some b)
    else if ltb b 194
    then (malformed, none)
    else if ltb b 224
    then (inside 0 128 191 (b - 192), none)
    else if b == 224
    then (inside 1 160 191 0, none)
    else if b == 237
    then (inside 1 128 159 13, none)
    else if ltb b 240
    then (inside 1 128 191 (b - 224), none)
    else if b == 240
    then (inside 2 144 191 0, none)
    else if ltb b 244
    then (inside 2 128 191 (b - 240), none)
    else if b == 244
    then (inside 2 128 143 4, none)
    else (malformed, none)

abbrev continued : ℕ → ℕ → Decoder × Option ℕ
continued zero bits = (boundary, some bits)
continued (suc n) bits = (inside n 128 191 bits, none)

abbrev next : Decoder → ℕ → Decoder × Option ℕ
next boundary b = lead b
next (inside n low high bits) b =
    if leb low b && leb b high then continued n (bits * 64 + (b - 128)) else (malformed, none)
next malformed b = (malformed, none)

abbrev emit : Option ℕ → Option (List ℕ) → Option (List ℕ)
emit r none = none
emit none (some rs) = some rs
emit (some r) (some rs) = some (r ∷ rs)

abbrev decode : Decoder → Text → Option (List ℕ)
decode boundary [] = some []
decode (inside n low high bits) [] = none
decode malformed [] = none
decode d (b ∷ bs) = let s = next d b in emit s.1 (decode s.0 bs)

-- The runes of a text, if it is valid.
unfoldable pub runes : Text → Option (List ℕ)
runes s = decode boundary s
