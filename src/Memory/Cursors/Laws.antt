-- ===== src/Memory/Cursors/Laws.antt =====
-- A sealed cursor opens, in its scope, to the state that it was made of.
use policy_engine.Prelude.{
  ℕ, zero, suc, ◌+◌, ◌-◌, ◌/◌, ◌^◌, ◌<◌, ◌≡◌, refl, sym, ◌∙◌, arith, true, false, [], ◌∷◌, ◌++◌,
  Option, none, some, length, take, ltb, length-append, ap, ◌≤◌,
}
use policy_engine.Prelude.Bytes.{take-append, drop-append}
use policy_engine.Prelude.Text.{Text, codes, text_eq, text_eq_refl, is_empty}
use policy_engine.Errors.{ok}
use policy_engine.Limits.{max_identifier_bytes}
use policy_engine.Memory.Cursors.{
  CursorState, Sealing, cursor_fixed_len, cursor_mac_len, second, cursor_domain_id, cursor_scope,
  cursor_fits, encoded_len, cursor_payload, seal, new_cursor, open_payload, open_token,
  cursor_state, new_cursor_at, cursor_state_at,
}
use policy_engine.Memory.Cursors.Fields.{SealingLaws, fields_of, read_fields, length_fields}

length-take : (n : ℕ) (t : Text) → n ≤ length t → length (take n t) ≡ n
length-take zero t h = refl
length-take (suc n) [] h = ground arith
length-take (suc n) (x ∷ t) h = ap suc (length-take n t (omega arith))

length-cursor_scope :
    (key : Sealing) (d n s : Text) → SealingLaws key → length (cursor_scope key d n s) ≡ 16
unfolding cursor_scope
length-cursor_scope key d n s laws =
    let input = codes "scope" ++ (0 ∷ d ++ (0 ∷ n ++ (0 ∷ s))) in
    length-take 16 (key.mac input) (omega (arith, laws.length_mac input))

le→ltb : (a b : ℕ) → a ≤ b → ltb b a ≡ false
le→ltb a b h = ground arith

open_payload_lem :
    (key : Sealing) (id : ℕ) (c : CursorState)
    → SealingLaws key
    → cursor_fits id c.position c.revision_published_at c.revision_id ≡ true
    → c.position < 2 ^ 64
    → c.revision_published_at / second < 2 ^ 63
    → length c.revision_id < 2 ^ 16
    → open_payload key id c.domain c.namespace c.slot
        (cursor_payload key id c)
        (key.mac (cursor_payload key id c))
      ≡ ok c
unfolding open_payload text_eq cursor_payload
open_payload_lem key id c laws fits small old short =
    let scope = cursor_scope key c.domain c.namespace c.slot in
    let wide = length-cursor_scope key c.domain c.namespace c.slot laws in
    rw
      (
        text_eq_refl (key.mac (cursor_payload key id c)),
        text_eq_refl (1 ∷ id ∷ []),
        take-append 16 scope (fields_of id c) wide,
        drop-append 16 scope (fields_of id c) wide,
        text_eq_refl scope,
      )
      (read_fields id c fits small old short)

length_payload :
    (key : Sealing) (id : ℕ) (c : CursorState)
    → SealingLaws key
    → length (cursor_payload key id c) ≡ 40 + length c.revision_id
unfolding cursor_payload
length_payload key id c laws =
    let scope = cursor_scope key c.domain c.namespace c.slot in
    let wide = length-cursor_scope key c.domain c.namespace c.slot laws in
    rw (length-append scope (fields_of id c), wide, length_fields id c) (omega arith)

open_token_lem :
    (key : Sealing) (id : ℕ) (d n s payload mac : Text)
    → length mac ≡ 32
    → 40 ≤ length payload
    → open_token key id d n s (some (payload ++ mac)) ≡ open_payload key id d n s payload mac
open_token_lem key id d n s payload mac h l =
    let whole = length-append payload mac in
    let wide : ltb (length (payload ++ mac)) cursor_fixed_len ≡ false = ground (arith, whole) in
    let cut : length (payload ++ mac) - cursor_mac_len ≡ length payload = omega (arith, whole) in
    rw
      (
        wide,
        cut,
        take-append (length payload) payload mac refl,
        drop-append (length payload) payload mac refl,
      )
      refl

cursor_state_at-seal :
    (key : Sealing) (id : ℕ) (c : CursorState)
    → SealingLaws key
    → key.key_ok ≡ true
    → encoded_len (cursor_fixed_len + length c.revision_id) ≤ max_identifier_bytes
    → cursor_fits id c.position c.revision_published_at c.revision_id ≡ true
    → c.position < 2 ^ 64
    → c.revision_published_at / second < 2 ^ 63
    → cursor_state_at key (seal key (cursor_payload key id c)) c.domain c.namespace c.slot (some id)
      ≡ ok c
unfolding cursor_payload
cursor_state_at-seal key id c laws ready room fits small old =
    let payload = cursor_payload key id c in
    let mac = key.mac payload in
    let size = length_payload key id c laws in
    let wide = laws.length_mac payload in
    let encoded = laws.length_encode (payload ++ mac) in
    let whole = length-append payload mac in
    let total : length (payload ++ mac) ≡ cursor_fixed_len + length c.revision_id =
      omega (arith, size, wide, whole) in
    let fit : ltb max_identifier_bytes (length (key.encode (payload ++ mac))) ≡ false =
      rw (encoded, total)
        (le→ltb (encoded_len (cursor_fixed_len + length c.revision_id)) max_identifier_bytes
          room) in
    rw (ready, fit, laws.decode_encode (payload ++ mac))
      (open_token_lem key id c.domain c.namespace c.slot payload mac wide (omega (arith, size))
        ∙ open_payload_lem key id c laws fits small old (omega (arith, room)))

-- The checks that a sealed cursor has passed.
record Sealed (key : Sealing) (id : ℕ) (c : CursorState) (value : Text) : Type 0 where
  ready : key.key_ok ≡ true
  fits : cursor_fits id c.position c.revision_published_at c.revision_id ≡ true
  room : encoded_len (cursor_fixed_len + length c.revision_id) ≤ max_identifier_bytes
  token : seal key (cursor_payload key id c) ≡ value

new_cursor_at-Sealed :
    (key : Sealing) (id : ℕ) (c : CursorState) (value : Text)
    → new_cursor_at key c (some id) ≡ ok value
    → Sealed key id c value
new_cursor_at-Sealed key id c value h = record {
  ready = ground arith;
  fits = ground arith;
  room = ground arith;
  token = ground arith;
}

not_empty : (t : Text) → 0 < length t → is_empty t ≡ false
not_empty [] h = ground arith
not_empty (x ∷ t) h = refl

seal-not_empty :
    (key : Sealing) (id : ℕ) (c : CursorState)
    → SealingLaws key
    → is_empty (seal key (cursor_payload key id c)) ≡ false
seal-not_empty key id c laws =
    let payload = cursor_payload key id c in
    let token = payload ++ key.mac payload in
    not_empty (key.encode token) (
      omega (
        arith,
        laws.length_encode token,
        length-append payload (key.mac payload),
        laws.length_mac payload,
      ))

opens :
    (key : Sealing) (c : CursorState) (value : Text) (o : Option ℕ)
    → SealingLaws key
    → c.position < 2 ^ 64
    → c.revision_published_at / second < 2 ^ 63
    → new_cursor_at key c o ≡ ok value
    → (is_empty value ≡ false) × (cursor_state_at key value c.domain c.namespace c.slot o ≡ ok c)
opens key c value none laws small old h = ground arith
opens key c value (some id) laws small old h =
    let s = new_cursor_at-Sealed key id c value h in
    (
      rw (sym s.token) (seal-not_empty key id c laws),
      rw (sym s.token) (cursor_state_at-seal key id c laws s.ready s.room s.fits small old),
    )

-- Where HMAC gives 32 bytes and base64 decodes what it encoded, a cursor that the store made opens, in
-- the same domain, namespace and slot, to the state that it was made of, for every position of 64 bits
-- and every time whose seconds fit 63 bits.
pub cursor_state-new_cursor :
    (key : Sealing) (c : CursorState) (value : Text)
    → SealingLaws key
    → c.position < 2 ^ 64
    → c.revision_published_at / second < 2 ^ 63
    → new_cursor key c ≡ ok value
    → cursor_state key value c.domain c.namespace c.slot ≡ ok c
unfolding new_cursor cursor_state
cursor_state-new_cursor key c value laws small old h =
    let o = opens key c value (cursor_domain_id c.domain) laws small old h in rw (o.0, o.1) refl
