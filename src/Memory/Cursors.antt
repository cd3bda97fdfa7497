-- ===== src/Memory/Cursors.antt =====
-- store/memory/cursors.go: sealed cursors. HMAC with SHA-256 under the store's key and the unpadded
-- URL encoding of base64 are parameters.
pub mod Fields
pub mod Laws
mod Tests
use policy_engine.Prelude.{
  ℕ, ◌+◌, ◌-◌, ◌*◌, ◌/◌, ◌%◌, ◌^◌, Bool, true, false, ◌&&◌, ◌||◌, not, List, [], ◌∷◌, ◌++◌, Option,
  none, some, if◌then◌else◌, length, take, drop, ltb, leb, ◌==◌,
}
use policy_engine.Prelude.Bytes.{put_bytes, read_bytes}
use policy_engine.Prelude.Text.{Text, codes, text_eq, is_empty}
use policy_engine.Errors.{Result, ok, err, ◌>>=◌, ◌>>◌, internal, invalid_argument}
use policy_engine.Limits.{max_identifier_bytes}

pub record CursorState : Type 0 where
  pub domain : Text
  pub namespace : Text
  pub slot : Text
  pub position : ℕ
  pub revision_published_at : ℕ
  pub revision_id : Text

-- The store's key, as the functions that use it, and whether it was initialized.
pub record Sealing : Type 0 where
  pub mac : Text → Text
  pub encode : Text → Text
  pub decode : Text → Option Text
  pub key_ok : Bool

abbrev pub cursor_version : ℕ
cursor_version = 1

abbrev pub cursor_scope_len : ℕ
cursor_scope_len = 16

abbrev pub cursor_mac_len : ℕ
cursor_mac_len = 32

abbrev pub cursor_fixed_len : ℕ
cursor_fixed_len = 1 + 1 + cursor_scope_len + 8 + 8 + 4 + 2 + cursor_mac_len

-- Nanoseconds in a second, and the seconds from the zero time to the Unix epoch.
abbrev pub second : ℕ
second = 1000000000

abbrev pub epoch : ℕ
epoch = 62135596800

-- `uint64(t.Unix())`, in two's complement, and back.
abbrev pub unix_seconds : ℕ → ℕ
unix_seconds t = (t / second + (2 ^ 64 - epoch)) % 2 ^ 64

abbrev pub unix_time : ℕ → ℕ → ℕ
unix_time seconds nanos = ((seconds + epoch) % 2 ^ 64) * second + nanos

abbrev pub cursor_domain_id : Text → Option ℕ
cursor_domain_id domain =
    if text_eq domain (codes "revision")
    then some 1
    else if text_eq domain (codes "history")
    then some 2
    else if text_eq domain (codes "event")
    then some 3
    else none

abbrev pub is_revision : ℕ → Bool
is_revision id = id == 1

unfoldable pub cursor_scope : Sealing → Text → Text → Text → Text
cursor_scope key domain namespace slot =
    take cursor_scope_len (key.mac (codes "scope" ++ (0 ∷ domain ++ (0 ∷ namespace ++ (0 ∷ slot)))))

-- The fields that a cursor of the domain has, and no other.
abbrev pub cursor_fits : ℕ → ℕ → ℕ → Text → Bool
cursor_fits id position published_at revision_id =
    if is_revision id
    then (position == 0) && not (published_at == 0) && not (is_empty revision_id)
    else not (position == 0) && (published_at == 0) && is_empty revision_id

-- `base64.RawURLEncoding.EncodedLen`
abbrev pub encoded_len : ℕ → ℕ
encoded_len n = (n * 8 + 5) / 6

abbrev pub cursor_payload : Sealing → ℕ → CursorState → Text
unfolding cursor_scope put_bytes
cursor_payload key id cursor =
    cursor_version ∷ id ∷ cursor_scope key cursor.domain cursor.namespace cursor.slot
    ++ (put_bytes 8 cursor.position
        ++ (put_bytes 8 (if is_revision id then unix_seconds cursor.revision_published_at else 0)
            ++ (put_bytes 4 (if is_revision id then cursor.revision_published_at % second else 0)
                ++ (put_bytes 2 (length cursor.revision_id) ++ cursor.revision_id))))

abbrev seal : Sealing → Text → Text
seal key payload = key.encode (payload ++ key.mac payload)

abbrev new_cursor_at : Sealing → CursorState → Option ℕ → Result Text
new_cursor_at key cursor none = err internal
new_cursor_at key cursor (some id) =
    if not key.key_ok
      || ltb (2 ^ 16 - 1) (length cursor.revision_id)
      || not (cursor_fits id cursor.position cursor.revision_published_at cursor.revision_id)
      || ltb max_identifier_bytes (encoded_len (cursor_fixed_len + length cursor.revision_id))
    then err internal
    else ok (seal key (cursor_payload key id cursor))

unfoldable pub new_cursor : Sealing → CursorState → Result Text
new_cursor key cursor = new_cursor_at key cursor (cursor_domain_id cursor.domain)

-- The fields behind the version, the domain and the scope.
abbrev pub cursor_fields : ℕ → Text → Text → Text → Text → Result CursorState
unfolding read_bytes
cursor_fields id domain namespace slot rest =
    let position = read_bytes (take 8 rest) in
    let seconds = read_bytes (take 8 (drop 8 rest)) in
    let nanos = read_bytes (take 4 (drop 8 (drop 8 rest))) in
    let revision_len = read_bytes (take 2 (drop 4 (drop 8 (drop 8 rest)))) in
    let revision_id = drop 2 (drop 4 (drop 8 (drop 8 rest))) in
    let published_at = if is_revision id then unix_time seconds nanos else 0 in
    if leb second nanos
      || not (revision_len == length revision_id)
      || (not (is_revision id) && not ((seconds == 0) && (nanos == 0)))
      || not (cursor_fits id position published_at revision_id)
    then err invalid_argument
    else ok (record {
      domain = domain;
      namespace = namespace;
      slot = slot;
      position = position;
      revision_published_at = published_at;
      revision_id = revision_id;
    })

abbrev pub open_payload : Sealing → ℕ → Text → Text → Text → Text → Text → Result CursorState
unfolding cursor_scope
open_payload key id domain namespace slot payload supplied =
    if not (text_eq supplied (key.mac payload))
      || not (text_eq (take 2 payload) (cursor_version ∷ id ∷ []))
      || not (
          text_eq (take cursor_scope_len (drop 2 payload)) (cursor_scope key domain namespace slot))
    then err invalid_argument
    else cursor_fields id domain namespace slot (drop cursor_scope_len (drop 2 payload))

abbrev pub open_token : Sealing → ℕ → Text → Text → Text → Option Text → Result CursorState
open_token key id domain namespace slot none = err invalid_argument
open_token key id domain namespace slot (some token) =
    let n = length token - cursor_mac_len in
    if ltb (length token) cursor_fixed_len
    then err invalid_argument
    else open_payload key id domain namespace slot (take n token) (drop n token)

abbrev cursor_state_at : Sealing → Text → Text → Text → Text → Option ℕ → Result CursorState
cursor_state_at key value domain namespace slot none = err internal
cursor_state_at key value domain namespace slot (some id) =
    if not key.key_ok
    then err internal
    else if ltb max_identifier_bytes (length value)
    then err invalid_argument
    else open_token key id domain namespace slot (key.decode value)

abbrev no_cursor : CursorState
no_cursor = record {
  domain = [];
  namespace = [];
  slot = [];
  position = 0;
  revision_published_at = 0;
  revision_id = [];
}

unfoldable pub cursor_state : Sealing → Text → Text → Text → Text → Result CursorState
cursor_state key value domain namespace slot =
    if is_empty value
    then ok no_cursor
    else cursor_state_at key value domain namespace slot (cursor_domain_id domain)

abbrev pub cursor_position : Sealing → Text → Text → Text → Text → Result ℕ
unfolding cursor_state
cursor_position key value domain namespace slot =
    cursor_state key value domain namespace slot >>= (λ c. ok c.position)
