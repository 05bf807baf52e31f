-- ===== src/Arrays.antt =====
-- Arrays of named elements: the search of storage/src/lighttpd/src/array.c. `sorted` lists the indices
-- of the elements in the order of their names; what is behind `used` is not looked at. A name is
-- compared with its terminator.
pub mod Ints
pub mod Search
mod Tests
use ylem.Base.{
  ℕ, zero, suc, ◌+◌, ◌-◌, ◌*◌, ◌/◌, ◌%◌, ◌^◌, ℤ, pos, negsuc, Bytes, Bool, true, false, Option,
  none, some, List, [], ◌∷◌, ◌++◌, leb, ltb, ◌==◌, if◌then◌else◌, get_elem?, ◌>>=◌,
}
use ylem.Compare.{caseless_compare}

pub record Element {ℓ} (V : Type ℓ) : Type ℓ where
  pub key : Bytes
  pub value : V

pub record Array {ℓ} (V : Type ℓ) : Type ℓ where
  pub elements : List (Element V)
  pub sorted : List ℕ
  pub used : ℕ
  pub next_power_of_2 : ℕ

-- What a search ends with: a read outside of the arrays, not enough fuel, the index of an element of
-- that name, or none; and the position in `sorted` where it stopped.
pub data Found : Type 0 where
  fault no_fuel : Found
  found : (ndx : ℕ) (position : ℤ) → Found
  missing : (position : ℤ) → Found

-- One turn of the loop: it breaks with an index, or `pos` changes.
pub data Turn : Type 0 where
  broken : Turn
  stop : (ndx : ℕ) → Turn
  move : (position : ℤ) → Turn

-- Sum and difference, before they are cut to an `int`.
abbrev pub add : ℤ → ℕ → ℤ
add (pos p) i = pos (p + i)
add (negsuc m) i = if leb i m then negsuc (m - i) else pos (i - m - 1)

abbrev pub subtract : ℤ → ℕ → ℤ
subtract (pos p) i = if leb i p then pos (p - i) else negsuc (i - p - 1)
subtract (negsuc m) i = negsuc (m + i)

-- The `int` that a number of type `size_t` or a sum of two `int` is cut to: its low 32 bits.
unfoldable pub to_int : ℕ → ℤ
to_int n = let low = n % 2 ^ 32 in if ltb low (2 ^ 31) then pos low else negsuc (2 ^ 32 - 1 - low)

unfoldable pub wrap : ℤ → ℤ
unfolding to_int
wrap (pos n) = to_int n
wrap (negsuc m) = to_int (2 ^ 32 - 1 - m % 2 ^ 32)

-- `pos += i` and `pos -= i` for an `int`.
unfoldable pub plus_int : ℤ → ℤ → ℤ
unfolding wrap
plus_int p (pos i) = wrap (add p i)
plus_int p (negsuc m) = wrap (subtract p (m + 1))

unfoldable pub minus_int : ℤ → ℤ → ℤ
unfolding wrap
minus_int p (pos i) = wrap (subtract p i)
minus_int p (negsuc m) = wrap (add p (m + 1))

-- `i >>= 1`, with the sign kept.
abbrev pub shift_right : ℤ → ℤ
shift_right (pos i) = pos (i / 2)
shift_right (negsuc m) = negsuc (m / 2)

abbrev pub is_zero : ℤ → Bool
is_zero (pos i) = i == 0
is_zero (negsuc m) = false

-- `p >= u` for a `p` that is not negative.
abbrev pub at_least : ℕ → ℤ → Bool
at_least p (pos u) = leb u p
at_least p (negsuc m) = true

-- Enough for an `int` that is not negative.
abbrev pub most_turns : ℕ
most_turns = 33

module _ {ℓ} {V : Type ℓ} (a : Array V) (key : Bytes) where
  -- `buffer_caseless_compare (key, a->data[a->sorted[p]]->key)`
  unfoldable pub compare_at : ℕ → Option (ℕ × ℤ)
  compare_at p = do
    ndx ← get_elem? a.sorted p
    e ← get_elem? a.elements ndx
    some (ndx, caseless_compare false (key ++ 0 ∷ []) (e.key ++ 0 ∷ []))

  unfoldable pub turn : ℤ → ℤ → Turn
  unfolding plus_int minus_int to_int
  turn i (negsuc m) = move (plus_int (negsuc m) i)
  turn i (pos p) = elim (at_least p (to_int a.used)) [
    | true ↦ move (minus_int (pos p) i)
    | false ↦ elim (compare_at p) [
      | none ↦ broken
      | some r ↦ elim r.1 [
        | pos d ↦ if d == 0 then stop r.0 else move (plus_int (pos p) i)
        | negsuc d ↦ move (minus_int (pos p) i)
      ]
    ]
  ]

  -- `for (...; ; i >>= 1)` with `if (i == 0) break` at its end.
  unfoldable pub search : ℕ → ℤ → ℤ → Found
  search zero i p = no_fuel
  search (suc fuel) i p = elim (turn i p) [
    | broken ↦ fault
    | stop ndx ↦ found ndx p
    | move q ↦ elim (is_zero i) [ true ↦ missing q | false ↦ search fuel (shift_right i) q ]
  ]

  unfoldable pub get_index : Found
  unfolding to_int
  get_index = let middle = to_int (a.next_power_of_2 / 2) in search most_turns middle middle

  unfoldable pub get_element : Option (Element V)
  get_element = elim get_index [ found ndx p ↦ get_elem? a.elements ndx | _ ↦ none ]
