-- ===== src/Request/Field.antt =====
-- One header field in `http_request_parse` of request.c: the branch on its name, and how it gets
-- into the headers.
pub mod Signs
pub mod Names
pub mod Store
use ylem.Base.{
  ℕ, ◌+◌, ◌-◌, ℤ, pos, ◌==ℤ◌, Bytes, Bool, true, false, not, ◌&&◌, ◌||◌, Option, none, some, List,
  [], ◌∷◌, ◌++◌, ◌==◌, if◌then◌else◌, is_null, codes, drop, take, map, bytes_eq, length, negsuc,
}
use ylem.Compare.{caseless_compare}
use ylem.Letters.{lower, light_isdigit}
use ylem.Request.{
  Request, Pointer, null, live, freed, Outcome, proceed, answer, fault, refuse, HeaderArray, c_str,
}
use ylem.Request.Numbers.{strtoul}
use ylem.Request.Split.{split_value, connection_words}

-- The names that the parser knows.
pub data Field : Type 0 where
  connection content_length content_type expect host if_modified_since if_none_match range : Field
  other : Field

pub record Entry : Type 0 where
  pub name : Bytes
  pub field : Field

abbrev pub entry : Bytes → Field → Entry
entry n f = record { name = n; field = f }

-- "the list of options is sorted to simplify the search"
abbrev pub known_fields : List Entry
known_fields =
    entry (codes "Connection") connection
    ∷ entry (codes "Content-Length") content_length
    ∷ entry (codes "Content-Type") content_type
    ∷ entry (codes "Expect") expect
    ∷ entry (codes "Host") host
    ∷ entry (codes "If-Modified-Since") if_modified_since
    ∷ entry (codes "If-None-Match") if_none_match
    ∷ entry (codes "Range") range
    ∷ []

-- The sign of a comparison.
pub data Sign : Type 0 where
  negative equal positive : Sign

abbrev pub sign : ℤ → Sign
sign (pos n) = if n == 0 then equal else positive
sign (negsuc n) = negative

-- The chain of `cmp > 0 && 0 == (cmp = buffer_caseless_compare (key, name))`: the next name is tried
-- while the key stands behind the one before. The comparison is the same however the texts are
-- aligned.
unfoldable pub field_of : Bytes → List Entry → Field
field_of key [] = other
field_of key (e ∷ es) = elim (sign (caseless_compare false key e.name)) [
  | equal ↦ e.field
  | positive ↦ field_of key es
  | negative ↦ other
]

-- `0 == strncasecmp (s, "bytes=", 6) && strchr (s + 6, '-')`
unfoldable pub has_char : ℕ → Bytes → Bool
has_char c [] = false
has_char c (d ∷ s) = d == c || has_char c s

abbrev pub is_bytes_range : Bytes → Bool
is_bytes_range v = bytes_eq (map lower (take 6 v)) (codes "bytes=") && has_char b'-' (drop 6 v)

unfoldable pub only_digits : Bytes → Bool
only_digits [] = true
only_digits (c ∷ s) = light_isdigit c && only_digits s

abbrev pub is_nowhere : Pointer → Bool
is_nowhere null = true
is_nowhere _ = false

-- A pointer into storage that is given back.
abbrev pub dangle : Pointer → Pointer
dangle null = null
dangle live = freed
dangle freed = freed

-- The value of the header of that name has moved.
unfoldable pub move_value : {T : Type 0} → Field → Request T → Request T
move_value content_type s = record s { http_content_type = dangle s.http_content_type }
move_value if_modified_since s = record s {
  http_if_modified_since = dangle s.http_if_modified_since;
}
move_value if_none_match s = record s { http_if_none_match = dangle s.http_if_none_match }
move_value range s = record s { http_range = dangle s.http_range }
move_value _ s = s

module _ (h : HeaderArray) where
  -- `array_insert_unique (con->request.headers, ds)`
  abbrev pub store : Bytes → Bytes → Request h.Table → Request h.Table
  store key value s = record s { headers = h.insert s.headers key value }

  -- Where a pointer into the new value points once it is stored: the value of a second element of
  -- one name is appended to the first one's, and given back.
  abbrev pub stored_pointer : Bytes → Request h.Table → Pointer
  stored_pointer key s = if is_null (h.find s.headers key) then live else freed

  unfoldable pub set_connection : Bytes → Bytes → Request h.Table → Outcome h.Table
  set_connection key value s = elim (split_value value) [
    | none ↦ fault
    | some vals ↦
        proceed
          (store key value (record s { keep_alive_set = connection_words s.keep_alive_set vals }))
  ]

  unfoldable pub set_content_length : Bytes → Bytes → Request h.Table → Outcome h.Table
  set_content_length key value s =
      if s.con_length_set
      then refuse 400 s
      else if only_digits value
      then elim (strtoul value).1 [
        | [] ↦ proceed (
            store key value
              (record s { con_length_set = true; content_length = (strtoul value).0 }))
        | c ∷ err ↦ refuse 400 (store key value s)
      ]
      else refuse 400 (store key value s)

  unfoldable pub set_content_type : Bytes → Bytes → Request h.Table → Outcome h.Table
  set_content_type key value s =
      if is_nowhere s.http_content_type
      then proceed (store key value (record s { http_content_type = stored_pointer key s }))
      else refuse 400 s

  unfoldable pub set_host : Bytes → Bytes → Request h.Table → Outcome h.Table
  set_host key value s =
      if s.http_host
      then refuse 400 s
      else proceed (store key value (record s { http_host = true }))

  -- `strcasecmp` of the text that the pointer leads to, the value of the header of that name.
  abbrev pub same_text : Option Bytes → Bytes → Bool
  same_text none value = false
  same_text (some old) value = bytes_eq (map lower old) (map lower value)

  unfoldable pub set_if_modified_since : Bytes → Bytes → Request h.Table → Outcome h.Table
  set_if_modified_since key value s = elim s.http_if_modified_since [
    | null ↦ proceed (store key value (record s { http_if_modified_since = stored_pointer key s }))
    | freed ↦ fault
    | live ↦
        if same_text (h.find s.headers (codes "If-Modified-Since")) value
        then proceed s
        else refuse 400 s
  ]

  unfoldable pub set_if_none_match : Bytes → Bytes → Request h.Table → Outcome h.Table
  set_if_none_match key value s =
      if is_nowhere s.http_if_none_match
      then proceed (store key value (record s { http_if_none_match = stored_pointer key s }))
      else refuse 400 s

  unfoldable pub set_range : Bytes → Bytes → Request h.Table → Outcome h.Table
  set_range key value s =
      if is_nowhere s.http_range
      then (if is_bytes_range value
          then proceed (store key value (record s { http_range = stored_pointer key s }))
          else proceed (store key value s))
      else refuse 400 s

  unfoldable pub set_field : Field → Bytes → Bytes → Request h.Table → Outcome h.Table
  set_field connection key value s = set_connection key value s
  set_field content_length key value s = set_content_length key value s
  set_field content_type key value s = set_content_type key value s
  set_field expect key value s = refuse 417 (store key value s)
  set_field host key value s = set_host key value s
  set_field if_modified_since key value s = set_if_modified_since key value s
  set_field if_none_match key value s = set_if_none_match key value s
  set_field range key value s = set_range key value s
  set_field other key value s = proceed (store key value s)

  -- "empty header-fields are not allowed by HTTP-RFC, we just ignore them"
  unfoldable pub add_field : Bytes → Bytes → Request h.Table → Outcome h.Table
  add_field key [] s = proceed s
  add_field key (c ∷ value) s = set_field (field_of key known_fields) key (c ∷ value) s
