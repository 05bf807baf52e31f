-- ===== src/Request.antt =====
-- Parsing of requests: storage/src/lighttpd/src/request.c. This file has the state that the parser
-- writes, the headers as an interface, and the small functions on characters.
--
-- The fields `http_content_type`, `http_if_modified_since`, `http_if_none_match` and `http_range`
-- are `char *` into the value of a header of their name. What the parser needs of them is whether
-- they are NULL, and whether the value that they point into is still there. `http_host` points to
-- the buffer of the header Host.
pub mod Numbers
pub mod Host
pub mod Split
pub mod Line
pub mod Field
pub mod Headers
pub mod Finish
pub mod Parse
pub mod Samples
use ylem.Base.{
  ℕ, ◌+◌, ◌≤◌, ℤ, Bytes, Bool, true, false, not, ◌||◌, ◌&&◌, Option, none, some, List, [], ◌∷◌,
  ◌++◌, ◌≡◌, ◌≢◌, map, ltb, ◌==◌, if◌then◌else◌, codes, is_null, bytes_eq, length, drop, take, leb,
  ◌-◌,
}
use ylem.Keyvalue.{HttpVersion}
use ylem.Letters.{lower}

-- A `char *` into a header's value; `freed` points into storage that has been given back.
pub data Pointer : Type 0 where
  null live freed : Pointer

-- `keep_alive_set`
pub data Connection : Type 0 where
  connection_unset connection_keepalive connection_close : Connection

-- The settings that the parser reads.
pub record Settings : Type 0 where
  pub allow_http11 : Bool
  pub max_request_size : ℕ

-- `con->request.headers`, an array of strings, by the operations that the parser calls: `find` is the
-- value of `array_get_element`, `insert` is `array_insert_unique`, `extend` is
-- `buffer_append_string` on the value of the element, and `moves` tells whether that allocates the
-- value anew. Nothing is assumed of them.
pub record HeaderArray : Type 1 where
  pub Table : Type 0
  pub find : Table → Bytes → Option Bytes
  pub insert : Table → Bytes → Bytes → Table
  pub extend : Table → Bytes → Bytes → Table
  pub moves : Table → Bytes → Bytes → Bool

-- The fields of the connection that the parser writes, and its variables `con_length_set`,
-- `keep_alive_set` and `key` with `key_len`. A buffer is its text, and `none` if nothing is in use.
pub record Request (T : Type 0) : Type 0 where
  pub http_status : ℕ
  pub keep_alive : Bool
  pub response_keep_alive : Bool
  pub http_method : ℤ
  pub http_version : HttpVersion
  pub request_line : Bytes
  pub uri : Option Bytes
  pub orig_uri : Option Bytes
  pub headers : T
  pub http_host : Bool
  pub http_content_type : Pointer
  pub http_if_modified_since : Pointer
  pub http_if_none_match : Pointer
  pub http_range : Pointer
  pub content_length : ℕ
  pub header_len : ℕ
  pub con_length_set : Bool
  pub keep_alive_set : Connection
  pub key : Option Bytes

-- What a part of the parser ends with: the parser goes on, it returns 0 behind an answer, it
-- returns 1 because a body follows, or it has read outside of an object.
pub data Outcome (T : Type 0) : Type 0 where
  proceed : Request T → Outcome T
  answer : Request T → Outcome T
  body : Request T → Outcome T
  fault : Outcome T

module _ {T : Type 0} where
  infixl 5 ◌>=>◌
  abbrev pub ◌>=>◌ : Outcome T → (Request T → Outcome T) → Outcome T
  proceed s >=> f = f s
  answer s >=> f = answer s
  body s >=> f = body s
  fault >=> f = fault

  -- `con->http_status = n; con->keep_alive = 0;`
  unfoldable pub refuse : ℕ → Request T → Outcome T
  refuse n s = answer (record s { http_status = n; keep_alive = false })

  -- The same with `con->response.keep_alive = 0`.
  unfoldable pub refuse_both : ℕ → Request T → Outcome T
  refuse_both n s =
      answer (record s { http_status = n; keep_alive = false; response_keep_alive = false })

unfoldable pub uri_is_valid_char : ℕ → Bool
uri_is_valid_char c =
    if leb c 32 then false else if c == 127 then false else if c == 255 then false else true

-- Is `s` at the front, and is it anywhere before the first NUL?
unfoldable pub starts_with : Bytes → Bytes → Bool
starts_with [] t = true
starts_with (c ∷ s) [] = false
starts_with (c ∷ s) (d ∷ t) = elim (c == d) [ true ↦ starts_with s t | false ↦ false ]

unfoldable pub strstr : Bytes → Bytes → Bool
strstr s [] = starts_with s []
strstr s (c ∷ t) = elim (starts_with s (c ∷ t)) [
  | true ↦ true
  | false ↦ elim (c == 0) [ true ↦ false | false ↦ strstr s t ]
]

-- The text of a C string that begins at `s`.
unfoldable pub c_str : Bytes → Bytes
c_str [] = []
c_str (c ∷ s) = elim (c == 0) [ true ↦ [] | false ↦ c ∷ c_str s ]

-- `http_request_header_finished` for the text of the buffer without its terminator.
unfoldable pub header_finished : Bytes → Bool
header_finished request =
    if ltb (length request) 4
    then false
    else bytes_eq (drop (length request - 4) request) (codes "\r\n\r\n")
      || strstr (codes "\r\n\r\n") (request ++ 0 ∷ [])
