-- ===== src/Request/Split.antt =====
-- `http_request_split_value` of request.c: the elements of a list with commas. The text is the used
-- bytes of the buffer, which end before a NUL. The elements have no key of their own, so that
-- `array_insert_unique` gives each a new index and adds it at the end.
pub mod Elements
use ylem.Base.{
  ℕ, Bytes, Bool, true, false, ◌&&◌, ◌||◌, Option, none, some, List, [], ◌∷◌, ◌++◌, ◌==◌,
  if◌then◌else◌, ◌>>=◌, pos, ◌==ℤ◌, codes,
}
use ylem.Compare.{caseless_compare}
use ylem.Request.{Connection, connection_unset, connection_keepalive, connection_close}

abbrev pub is_ws : ℕ → Bool
is_ws c = c == b' ' || c == b'\t'

-- The text without the white space at its end.
unfoldable pub trim_end : Bytes → Bytes
trim_end [] = []
trim_end (c ∷ s) = elim (trim_end s) [ [] ↦ if is_ws c then [] else c ∷ [] | d ∷ r ↦ c ∷ d ∷ r ]

-- The loop back from the last byte of a value stops at its first byte.
unfoldable pub trim_value : Bytes → Bytes
trim_value [] = []
trim_value (c ∷ s) = c ∷ trim_end s

-- `state`: 0, or 1 with the bytes from `start` to `s`.
pub data SplitState : Type 0 where
  white_space : SplitState
  in_element : Bytes → SplitState

-- Behind `before` bytes are there any? The loop that strips an empty value reads the byte before
-- it, which is outside of the buffer at its beginning.
unfoldable pub split_from : Bool → SplitState → Bytes → Option (List Bytes)
split_from before white_space [] = some []
split_from before white_space (c ∷ s) = elim (is_ws c) [
  | true ↦ split_from true white_space s
  | false ↦ elim (c == b',') [
    | true ↦ if before then (split_from true white_space s >>= λ vals. some ([] ∷ vals)) else none
    | false ↦ split_from true (in_element (c ∷ [])) s
  ]
]
split_from before (in_element v) [] = some (trim_value v ∷ [])
split_from before (in_element v) (c ∷ s) = elim (c == b',') [
  | true ↦ split_from true white_space s >>= λ vals. some (trim_value v ∷ vals)
  | false ↦ split_from true (in_element (v ++ c ∷ [])) s
]

unfoldable pub split_value : Bytes → Option (List Bytes)
split_value text = split_from false white_space text

-- The loop over `vals` in the parser: the first known word decides.
unfoldable pub connection_words : Connection → List Bytes → Connection
connection_words set [] = set
connection_words set (v ∷ vals) = elim (caseless_compare false v (codes "keep-alive") ==ℤ pos 0) [
  | true ↦ connection_keepalive
  | false ↦ elim (caseless_compare false v (codes "close") ==ℤ pos 0) [
    | true ↦ connection_close
    | false ↦ connection_words set vals
  ]
]
