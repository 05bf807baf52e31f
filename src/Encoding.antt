-- ===== src/Encoding.antt =====
-- Encoding into a buffer and decoding of URLs: `buffer_append_string_encoded`, `hex2int` and
-- `buffer_urldecode_*` of storage/src/lighttpd/src/buffer.c. A byte is below 256.
pub mod Chars
pub mod Bytewise
pub mod Append
pub mod Decode
pub mod Url
mod Tests
use ylem.Base.{
  ℕ, zero, suc, ◌+◌, ◌-◌, ◌*◌, ◌/◌, ◌%◌, Bytes, Bool, true, false, ◌&&◌, ◌||◌, Option, none, some,
  List, [], ◌∷◌, ◌++◌, length, get_elem?, get_or, ltb, ◌==◌, if◌then◌else◌, ◌>>=◌,
}
use ylem.Memory.{Allocator, memcpy_at, splice, add_size}
use ylem.Buffer.{Buffer, ok, failed, Code, Out, prepare_append}
use ylem.Encoding.Chars.{
  hex_chars, encoded_chars_rel_uri_part, encoded_chars_rel_uri, encoded_chars_html,
  encoded_chars_minimal_xml, encoded_chars_hex, encoded_chars_http_header,
}

-- `buffer_encoding_t`
pub data Encoding : Type 0 where
  unset rel_uri rel_uri_part html minimal_xml hex http_header : Encoding

-- The first `switch`; NULL for ENCODING_UNSET.
unfoldable pub char_map : Encoding → Option Bytes
char_map unset = none
char_map rel_uri = some encoded_chars_rel_uri
char_map rel_uri_part = some encoded_chars_rel_uri_part
char_map html = some encoded_chars_html
char_map minimal_xml = some encoded_chars_minimal_xml
char_map hex = some encoded_chars_hex
char_map http_header = some encoded_chars_http_header

-- What a byte that is to be encoded adds to the length that is counted.
unfoldable pub escape_length : Encoding → ℕ
escape_length unset = 0
escape_length rel_uri = 3
escape_length rel_uri_part = 3
escape_length html = 6
escape_length minimal_xml = 6
escape_length hex = 2
escape_length http_header = 2

abbrev pub high_digit : ℕ → ℕ
high_digit c = get_or hex_chars (c / 16 % 16) 0

abbrev pub low_digit : ℕ → ℕ
low_digit c = get_or hex_chars (c % 16) 0

-- What is written for it.
unfoldable pub escape : Encoding → ℕ → Bytes
escape unset c = []
escape rel_uri c = b'%' ∷ high_digit c ∷ low_digit c ∷ []
escape rel_uri_part c = b'%' ∷ high_digit c ∷ low_digit c ∷ []
escape html c = b'&' ∷ b'#' ∷ b'x' ∷ high_digit c ∷ low_digit c ∷ b';' ∷ []
escape minimal_xml c = b'&' ∷ b'#' ∷ b'x' ∷ high_digit c ∷ low_digit c ∷ b';' ∷ []
escape hex c = high_digit c ∷ low_digit c ∷ []
escape http_header c = c ∷ b'\t' ∷ []

-- The loop that counts.
unfoldable pub encoded_length : Encoding → Bytes → Bytes → ℕ
encoded_length e chars [] = 0
encoded_length e chars (c ∷ cs) =
    (if get_or chars c 0 == 0 then 1 else escape_length e) + encoded_length e chars cs

-- The loop that writes.
unfoldable pub encode : Encoding → Bytes → Bytes → Bytes
encode e chars [] = []
encode e chars (c ∷ cs) =
    (if get_or chars c 0 == 0 then c ∷ [] else escape e c) ++ encode e chars cs

-- From `buffer_prepare_append` on; `n` is the length that was counted.
unfoldable pub put_encoded : Buffer → Bytes → Out
put_encoded c out = do
  p ← memcpy_at c.ptr (c.used - 1) out
  q ← memcpy_at p (c.used + length out - 1) (0 ∷ [])
  some (record c { ptr = q; used = add_size c.used (length out) }, ok)

module _ (a : Allocator) where
  -- Behind the test of the last byte.
  unfoldable pub append_checked : Buffer → Bytes → Encoding → Out
  append_checked b s e = elim (length s == 0) [
    | true ↦ some (b, ok)
    | false ↦ char_map e >>= λ chars.
        put_encoded (prepare_append a b (encoded_length e chars s)) (encode e chars s)
  ]

  -- The byte before `b->ptr + b->used` is read first, whether there is one or not; it must be the
  -- terminator.
  unfoldable pub append_string_encoded : Buffer → Option Bytes → Encoding → Out
  append_string_encoded b none e = some (b, failed)
  append_string_encoded b (some s) e =
      if b.used == 0
      then none
      else (get_elem? b.ptr (b.used - 1) >>= λ last. elim (last == 0) [
        | true ↦ append_checked b s e
        | false ↦ none
      ])

-- `x | 0x20` on a byte or a small `int`.
abbrev pub set_bit_5 : ℕ → ℕ
set_bit_5 x = if x / 32 % 2 == 0 then x + 32 else x

-- The conversion wraps in `unsigned char`: 0xFF for what is no hexadecimal digit.
unfoldable pub hex2int : ℕ → ℕ
hex2int c =
    let digit = (c + 256 - b'0') % 256 in
    let letter = (set_bit_5 (digit + b'0' - 1) + 256 - b'a' + 11) % 256 in
    let value = if ltb 9 digit then letter else digit in if ltb 15 value then 0xff else value

-- "map control-characters out"
abbrev pub map_control : ℕ → ℕ
map_control c = if ltb c 32 || c == 127 then b'_' else c

-- The byte for the two behind a `%`, if both are digits.
unfoldable pub hex_pair : ℕ → ℕ → Option ℕ
hex_pair h l =
    let high = hex2int h in
    let low = hex2int l in
    if high == 0xff || low == 0xff then none else some (map_control ((high * 16 + low) % 256))

-- The loop over the bytes before the terminator; `skip` of them are passed over by `src += 2`. The
-- bytes ahead are read as they were, since `dst` never overtakes `src`; behind the last one stands
-- the terminator, which is no digit.
unfoldable pub decode_from : Bool → ℕ → Bytes → Bytes
decode_from is_query skip [] = []
decode_from is_query (suc skip) (c ∷ cs) = decode_from is_query skip cs
decode_from is_query zero (c ∷ cs) = elim (is_query && (c == b'+')) [
  | true ↦ b' ' ∷ decode_from is_query 0 cs
  | false ↦ elim (c == b'%') [
    | false ↦ c ∷ decode_from is_query 0 cs
    | true ↦ elim (hex_pair (get_or cs 0 0) (get_or cs 1 0)) [
      | none ↦ b'%' ∷ decode_from is_query 0 cs
      | some x ↦ x ∷ decode_from is_query 2 cs
    ]
  ]
]

-- The bytes before the first terminator, if there is one.
unfoldable pub until_zero : Bytes → Option Bytes
until_zero [] = none
until_zero (c ∷ cs) = elim (c == 0) [ true ↦ some [] | false ↦ until_zero cs >>= λ s. some (c ∷ s) ]

-- `buffer_urldecode_internal`; a NULL storage is the empty one.
unfoldable pub urldecode_internal : Bool → Buffer → Out
urldecode_internal is_query url = if length url.ptr == 0 then some (url, failed) else do
  s ← until_zero url.ptr
  let out = decode_from is_query 0 s
  some (record url { ptr = splice url.ptr 0 (out ++ 0 ∷ []); used = length out + 1 }, ok)

unfoldable pub urldecode_path : Buffer → Out
urldecode_path url = urldecode_internal false url

unfoldable pub urldecode_query : Buffer → Out
urldecode_query url = urldecode_internal true url
