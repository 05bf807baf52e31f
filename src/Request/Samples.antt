-- ===== src/Request/Samples.antt =====
-- An array of headers to try the parser with: a list of names and values.
use ylem.Base.{
  Bytes, Bool, ltb, length, true, false, Option, none, some, List, [], ◌∷◌, ◌++◌, bytes_eq, map,
  codes,
}
use ylem.Letters.{lower}
use ylem.Request.{HeaderArray}

pub record Header : Type 0 where
  pub name : Bytes
  pub value : Bytes

unfoldable pub same_name : Bytes → Bytes → Bool
same_name k j = bytes_eq (map lower k) (map lower j)

unfoldable pub find : List Header → Bytes → Option Bytes
find [] k = none
find (x ∷ t) k = elim (same_name x.name k) [ true ↦ some x.value | false ↦ find t k ]

-- A value behind that of the first header of its name, or a new header at the end.
unfoldable pub put : Bytes → List Header → Bytes → Bytes → List Header
put separator [] k v = record { name = k; value = v } ∷ []
put separator (x ∷ t) k v = elim (same_name x.name k) [
  | true ↦ record x { value = x.value ++ separator ++ v } ∷ t
  | false ↦ x ∷ put separator t k v
]

-- A value has room for 64 bytes, or it is moved.
abbrev pub no_room : List Header → Bytes → Bytes → Bool
no_room t k v = elim (find t k) [ none ↦ false | some w ↦ ltb 63 (length (w ++ v)) ]

abbrev pub assoc : HeaderArray
assoc = record {
  Table = List Header;
  find = find;
  insert = put (codes ", ");
  extend = put [];
  moves = no_room;
}
