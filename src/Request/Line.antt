-- ===== src/Request/Line.antt =====
-- The request line in `http_request_parse` of request.c.
pub mod Read
use ylem.Base.{
  ℕ, ◌+◌, ◌-◌, ◌%◌, ◌^◌, ℤ, pos, negsuc, ◌==ℤ◌, Bytes, Bool, true, false, not, ◌&&◌, ◌||◌, Option,
  none, some, List, [], ◌∷◌, ◌++◌, ◌==◌, length, if◌then◌else◌, is_null, codes, drop,
}
use ylem.Keyvalue.{HttpVersion, version_1_0, version_1_1, get_http_method_key}
use ylem.Request.{
  Request, Settings, Outcome, proceed, answer, ◌>=>◌, refuse, refuse_both, uri_is_valid_char,
  starts_with, c_str,
}
use ylem.Request.Numbers.{strtol}

-- How the first loop ends. The fields are the texts between the spaces.
pub data FirstLine : Type 0 where
  -- at CR LF, behind `line`, with the text behind CR LF
  line_end : (line : Bytes) (method uri : Option Bytes) (proto rest : Bytes) → FirstLine
  -- at a third space
  too_many_spaces : FirstLine
  -- at the end of the buffer
  no_line : FirstLine

-- Is LF next?
abbrev pub lf_next : Bytes → Bool
lf_next [] = false
lf_next (c ∷ s) = c == b'\n'

-- `line` is the text so far, `token` the text from `first` on; `request_line_stage` is the number of
-- texts that are there.
unfoldable pub read_line : Bytes → Bytes → Option Bytes → Option Bytes → Bytes → FirstLine
read_line line token method uri [] = no_line
read_line line token method uri (c ∷ s) = elim (c == b'\r' && lf_next s) [
  | true ↦ line_end line method uri token (drop 1 s)
  | false ↦ elim (c == b' ') [
    | false ↦ read_line (line ++ c ∷ []) (token ++ c ∷ []) method uri s
    | true ↦ elim method [
      | none ↦ read_line (line ++ c ∷ []) [] (some token) uri s
      | some m ↦ elim uri [
        | none ↦ read_line (line ++ c ∷ []) [] (some m) (some token) s
        | some u ↦ too_many_spaces
      ]
    ]
  ]
]

-- `strchr (s, c)`: the text before it, and the one behind it.
unfoldable pub split_at : ℕ → Bytes → Option (Bytes × Bytes)
split_at c [] = none
split_at c (d ∷ s) = elim (d == c) [
  | true ↦ some ([], s)
  | false ↦ elim (split_at c s) [ none ↦ none | some p ↦ some (d ∷ p.0, p.1) ]
]

abbrev pub no_bytes : Bytes → Bool
no_bytes [] = true
no_bytes (c ∷ s) = false

-- The two numbers of a version, as `int`; `none` for `invalid_version`.
unfoldable pub version_numbers : Bytes → Option (ℕ × ℕ)
version_numbers s = elim (split_at b'.' s) [
  | none ↦ none
  | some p ↦
      if no_bytes p.0 || no_bytes p.1
      then none
      else if no_bytes (strtol p.0).1 && no_bytes (strtol p.1).1
      then some ((strtol p.0).0 % 2 ^ 32, (strtol p.1).0 % 2 ^ 32)
      else none
]

-- "ignore the host-part": the text that is copied to `con->request.uri`.
unfoldable pub uri_text : Bytes → Bytes
uri_text uri =
    if starts_with (codes "http://") (c_str uri)
    then elim (split_at b'/' (drop 7 (c_str uri))) [
      | none ↦ uri
      | some p ↦ drop (7 + length p.0) uri
    ]
    else uri

unfoldable pub all_valid : Bytes → Bool
all_valid [] = true
all_valid (c ∷ s) = uri_is_valid_char c && all_valid s

module _ {T : Type 0} (conf : Settings) where
  unfoldable pub version_of : ℕ × ℕ → Request T → Outcome T
  version_of n s =
      if n.0 == 1 && n.1 == 1
      then proceed
          (record s { http_version = if conf.allow_http11 then version_1_1 else version_1_0 })
      else if n.0 == 1 && n.1 == 0
      then proceed (record s { http_version = version_1_0 })
      else answer (record s { http_status = 505 })

  unfoldable pub read_version : Bytes → Request T → Outcome T
  read_version proto s =
      if starts_with (codes "HTTP/") proto
      then elim (version_numbers (drop 5 proto)) [ none ↦ refuse 400 s | some n ↦ version_of n s ]
      else refuse 400 s

  unfoldable pub read_uri : Bytes → Request T → Outcome T
  read_uri uri s =
      let t = record s { uri = some uri } in
      if all_valid uri
      then proceed (record t { orig_uri = some uri; http_status = 0 })
      else refuse 400 t

  -- At the end of the line, from the lookup of the method on.
  unfoldable pub read_method : Bytes → Bytes → Bytes → Request T → Outcome T
  read_method method uri proto s =
      let r = get_http_method_key (c_str method) in
      if r ==ℤ negsuc 0
      then refuse_both 501 s
      else (read_version (c_str proto) (record s { http_method = r }) >=> read_uri (uri_text uri))

  unfoldable pub end_line : Bytes → Option Bytes → Option Bytes → Bytes → Request T → Outcome T
  end_line line (some method) (some uri) proto s =
      read_method method uri proto (record s { request_line = line })
  end_line line (some method) none proto s = refuse_both 400 (record s { request_line = line })
  end_line line none uri proto s = refuse_both 400 (record s { request_line = line })
