-- ===== src/Memory/Cursors/Fields.antt =====
-- The fields of a cursor's payload: what is written at fixed widths is read back.
use policy_engine.Prelude.{
  ℕ, ◌+◌, ◌/◌, ◌%◌, ◌^◌, ◌<◌, ◌≡◌, refl, ◌∙◌, arith, true, false, [], ◌∷◌, ◌++◌, some,
  if◌then◌else◌, length, take, drop, leb, ◌==◌, length-append, Bool-cases, inl, inr,
}
use policy_engine.Prelude.Bytes.{
  put_bytes, read_bytes, length-put_bytes, read_bytes-put_bytes, take-append, drop-append,
}
use policy_engine.Prelude.Text.{Text, is_empty}
use policy_engine.Errors.{ok}
use policy_engine.Memory.Cursors.{
  CursorState, Sealing, second, unix_seconds, unix_time, is_revision, cursor_fits, encoded_len,
  cursor_fields,
}

-- What HMAC with SHA-256 and unpadded base64 promise.
pub record SealingLaws (key : Sealing) : Type 0 where
  pub length_mac : (p : Text) → length (key.mac p) ≡ 32
  pub decode_encode : (t : Text) → key.decode (key.encode t) ≡ some t
  pub length_encode : (t : Text) → length (key.encode t) ≡ encoded_len (length t)

pub unix_time-unix_seconds :
    (t : ℕ) → t / second < 2 ^ 63 → unix_time (unix_seconds t) (t % second) ≡ t
unix_time-unix_seconds t h = omega arith

abbrev pub fields_of : ℕ → CursorState → Text
unfolding put_bytes
fields_of id c =
    put_bytes 8 c.position
    ++ (put_bytes 8 (if is_revision id then unix_seconds c.revision_published_at else 0)
        ++ (put_bytes 4 (if is_revision id then c.revision_published_at % second else 0)
            ++ (put_bytes 2 (length c.revision_id) ++ c.revision_id)))

-- The numbers and the identifier that are read are those that were written.
pub record Reads (position seconds nanos len : ℕ) (revision_id rest : Text) : Type 0 where
  pub at_position : read_bytes (take 8 rest) ≡ position
  pub at_seconds : read_bytes (take 8 (drop 8 rest)) ≡ seconds
  pub at_nanos : read_bytes (take 4 (drop 8 (drop 8 rest))) ≡ nanos
  pub at_len : read_bytes (take 2 (drop 4 (drop 8 (drop 8 rest)))) ≡ len
  pub at_id : drop 2 (drop 4 (drop 8 (drop 8 rest))) ≡ revision_id

read_put : (k n : ℕ) (rest : Text) → n < 256 ^ k → read_bytes (take k (put_bytes k n ++ rest)) ≡ n
read_put k n rest h =
    rw (take-append k (put_bytes k n) rest (length-put_bytes k n)) (read_bytes-put_bytes k n h)

drop_put : (k n : ℕ) (rest : Text) → drop k (put_bytes k n ++ rest) ≡ rest
drop_put k n rest = drop-append k (put_bytes k n) rest (length-put_bytes k n)

put-Reads :
    (position seconds nanos len : ℕ) (revision_id : Text)
    → position < 256 ^ 8
    → seconds < 256 ^ 8
    → nanos < 256 ^ 4
    → len < 256 ^ 2
    → Reads position seconds nanos len revision_id (
        put_bytes 8 position
        ++ (put_bytes 8 seconds ++ (put_bytes 4 nanos ++ (put_bytes 2 len ++ revision_id))))
put-Reads p s n l r hp hs hn hl =
    let tail2 = put_bytes 2 l ++ r in
    let tail4 = put_bytes 4 n ++ tail2 in
    let tail8 = put_bytes 8 s ++ tail4 in
    record {
      at_position = read_put 8 p tail8 hp;
      at_seconds = rw (drop_put 8 p tail8) (read_put 8 s tail4 hs);
      at_nanos = rw (drop_put 8 p tail8, drop_put 8 s tail4) (read_put 4 n tail2 hn);
      at_len = rw (drop_put 8 p tail8, drop_put 8 s tail4, drop_put 4 n tail2) (read_put 2 l r hl);
      at_id = rw (drop_put 8 p tail8, drop_put 8 s tail4, drop_put 4 n tail2) (drop_put 2 l r);
    }

is_empty_lem : (t : Text) → is_empty t ≡ true → t ≡ []
is_empty_lem [] h = refl
is_empty_lem (x ∷ t) h = ground arith

-- Fields that were read make the state again.
revision_fields :
    (id : ℕ) (c : CursorState) (rest : Text)
    → is_revision id ≡ true
    → cursor_fits id c.position c.revision_published_at c.revision_id ≡ true
    → c.revision_published_at / second < 2 ^ 63
    → Reads c.position
        (unix_seconds c.revision_published_at)
        (c.revision_published_at % second)
        (length c.revision_id)
        c.revision_id
        rest
    → cursor_fields id c.domain c.namespace c.slot rest ≡ ok c
unfolding cursor_fields
revision_fields id c rest b fits old r =
    let short : leb second (c.revision_published_at % second) ≡ false = ground arith in
    let same : (length c.revision_id == length c.revision_id) ≡ true = ground arith in
    rw
      (
        r.at_position,
        r.at_seconds,
        r.at_nanos,
        r.at_len,
        r.at_id,
        b,
        unix_time-unix_seconds c.revision_published_at old,
        short,
        same,
      )
      (ground arith)

other_fields :
    (id : ℕ) (c : CursorState) (rest : Text)
    → is_revision id ≡ false
    → cursor_fits id c.position c.revision_published_at c.revision_id ≡ true
    → Reads c.position 0 0 (length c.revision_id) c.revision_id rest
    → cursor_fields id c.domain c.namespace c.slot rest ≡ ok c
unfolding cursor_fields
other_fields id c rest b fits r =
    let same : (length c.revision_id == length c.revision_id) ≡ true = ground arith in
    let zero_time : c.revision_published_at ≡ 0 = ground arith in
    rw (r.at_position, r.at_seconds, r.at_nanos, r.at_len, r.at_id, b, same) (ground arith)

pub read_fields :
    (id : ℕ) (c : CursorState)
    → cursor_fits id c.position c.revision_published_at c.revision_id ≡ true
    → c.position < 2 ^ 64
    → c.revision_published_at / second < 2 ^ 63
    → length c.revision_id < 2 ^ 16
    → cursor_fields id c.domain c.namespace c.slot (fields_of id c) ≡ ok c
unfolding fields_of
read_fields id c fits small old short = elim (Bool-cases (is_revision id)) [
  | inl b ↦ revision_fields id c (fields_of id c) b fits old (
      rw b (
        put-Reads c.position (unix_seconds c.revision_published_at)
          (c.revision_published_at % second) (length c.revision_id) c.revision_id (omega arith)
          (omega arith) (omega arith) (omega arith)))
  | inr b ↦ other_fields id c (fields_of id c) b fits (
      rw b (
        put-Reads c.position 0 0 (length c.revision_id) c.revision_id (omega arith) (omega arith)
          (omega arith) (omega arith)))
]

pub length_put-append : (k n : ℕ) (rest : Text) → length (put_bytes k n ++ rest) ≡ k + length rest
length_put-append k n rest = length-append (put_bytes k n) rest ∙ rw (length-put_bytes k n) refl

pub length_fields : (id : ℕ) (c : CursorState) → length (fields_of id c) ≡ 22 + length c.revision_id
unfolding fields_of
length_fields id c =
    let seconds = if is_revision id then unix_seconds c.revision_published_at else 0 in
    let nanos = if is_revision id then c.revision_published_at % second else 0 in
    let tail2 = put_bytes 2 (length c.revision_id) ++ c.revision_id in
    let tail4 = put_bytes 4 nanos ++ tail2 in
    let tail8 = put_bytes 8 seconds ++ tail4 in
    rw
      (
        length_put-append 8 c.position tail8,
        length_put-append 8 seconds tail4,
        length_put-append 4 nanos tail2,
        length_put-append 2 (length c.revision_id) c.revision_id,
      )
      (omega arith)
