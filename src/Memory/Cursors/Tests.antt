-- ===== src/Memory/Cursors/Tests.antt =====
-- A cursor of an event, under a stand-in for HMAC and base64 that keeps the promised lengths.
use policy_engine.Prelude.{
  ℕ, zero, suc, ◌+◌, ◌-◌, ◌*◌, ◌/◌, ◌%◌, ◌≡◌, refl, ap, arith, true, [], ◌∷◌, ◌++◌, some, length,
  take, length-append, replicate,
}
use policy_engine.Prelude.Bytes.{put_bytes, read_bytes, take-append}
use policy_engine.Prelude.Text.{Text, codes, text_eq}
use policy_engine.Errors.{Result, ok, err, invalid_argument}
use policy_engine.Memory.Cursors.{
  CursorState, Sealing, encoded_len, new_cursor, cursor_state, cursor_scope,
}
use policy_engine.Memory.Cursors.Fields.{SealingLaws}
use policy_engine.Memory.Cursors.Laws.{cursor_state-new_cursor}

program : Unit {0}
unfolding put_bytes read_bytes text_eq cursor_scope new_cursor cursor_state
program = tt

abbrev pad : Text → Text
pad t = t ++ replicate (encoded_len (length t) - length t) 45

abbrev unpad : Text → Text
unpad s = take (length s * 6 / 8) s

-- A checksum that tells texts apart by their sum.
abbrev sum : Text → ℕ
sum [] = 0
sum (c ∷ t) = c + sum t

abbrev key : Sealing
key = record {
  mac = λ t. (sum t % 256) ∷ replicate 31 7;
  encode = pad;
  decode = λ s. some (unpad s);
  key_ok = true;
}

length-replicate : (n c : ℕ) → length (replicate n c) ≡ n
length-replicate zero c = refl
length-replicate (suc n) c = ap suc (length-replicate n c)

length-pad : (t : Text) → length (pad t) ≡ encoded_len (length t)
length-pad t =
    rw
      (
        length-append t (replicate (encoded_len (length t) - length t) 45),
        length-replicate (encoded_len (length t) - length t) 45,
      )
      (omega arith)

unpad-pad : (t : Text) → unpad (pad t) ≡ t
unpad-pad t =
    let cut : length (pad t) * 6 / 8 ≡ length t = omega (arith, length-pad t) in
    rw cut (take-append (length t) t (replicate (encoded_len (length t) - length t) 45) refl)

key-SealingLaws : SealingLaws key
key-SealingLaws = record {
  length_mac = λ p. refl;
  decode_encode = λ t. ap some (unpad-pad t);
  length_encode = length-pad;
}

abbrev event_cursor : CursorState
event_cursor = record {
  domain = codes "event";
  namespace = codes "acme";
  slot = [];
  position = 258;
  revision_published_at = 0;
  revision_id = [];
}

abbrev token_of : Result Text → Text
token_of (ok t) = t
token_of (err e) = []

abbrev token : Text
unfolding program
token = token_of (new_cursor key event_cursor)

sealed : new_cursor key event_cursor ≡ ok token
unfolding program
sealed = refl

-- The cursor is refused in another namespace.
elsewhere : cursor_state key token (codes "event") (codes "other") [] ≡ err invalid_argument
unfolding program
elsewhere = refl

cursor_state-new_cursor_example :
    cursor_state key token (codes "event") (codes "acme") [] ≡ ok event_cursor
cursor_state-new_cursor_example =
    cursor_state-new_cursor key event_cursor token key-SealingLaws (omega arith) (omega arith)
      sealed
