-- ===== src/Arrays/Tests.antt =====
-- The search at concrete arrays.
use ylem.Base.{ℕ, zero, suc, ◌<◌, ◌≡◌, ◌≢◌, refl, ℤ, pos, Bytes, none, some, [], ◌∷◌, codes, arith}
use ylem.Compare.{caseless_compare, compare_bytes, skip_words, pair_difference}
use ylem.Arrays.{
  Element, Array, found, no_fuel, to_int, wrap, plus_int, minus_int, compare_at, turn, search,
  get_index, get_element,
}
use ylem.Arrays.Search.{Placed, get_index-Placed, get_index-no_fuel}

abbrev of_name : Bytes → ℕ → Element ℕ
of_name k v = record { key = k; value = v }

-- The second element was inserted before the first one.
abbrev fields : Array ℕ
fields = record {
  elements = of_name (codes "Host") 7 ∷ of_name (codes "Accept") 9 ∷ [];
  sorted = 1 ∷ 0 ∷ [];
  used = 2;
  next_power_of_2 = 2;
}

accept_before :
    (p : ℕ)
    → p < 1
    → (n : ℕ) × (d : ℕ) × (compare_at fields (codes "host") p ≡ some (n, pos (suc d)))
unfolding compare_at caseless_compare compare_bytes skip_words pair_difference
accept_before zero h = (1, 6, refl)
accept_before (suc p) h = absurd (omega arith)

host-Placed : Placed fields (codes "host") 1 0
unfolding compare_at caseless_compare compare_bytes skip_words pair_difference
host-Placed = record {
  inside = omega arith;
  here = refl;
  before = accept_before;
  behind = λ p h k. absurd (omega arith);
}

get_index-Placed_example : (q : ℤ) × (get_index fields (codes "host") ≡ found 0 q)
get_index-Placed_example =
    get_index-Placed fields (codes "host") 1 0 1 host-Placed refl (omega arith) (omega arith)

get_index-no_fuel_example : get_index fields (codes "host") ≢ no_fuel
get_index-no_fuel_example = get_index-no_fuel fields (codes "host") (omega arith)

-- A capital sorts before a low line and a small letter behind it: the element is found by its own
-- name, and not by the same name in small letters.
abbrev mixed : Array ℕ
mixed = record {
  elements = of_name (codes "A") 7 ∷ of_name (codes "_") 9 ∷ [];
  sorted = 0 ∷ 1 ∷ [];
  used = 2;
  next_power_of_2 = 2;
}

capital_found : get_element mixed (codes "A") ≡ some (of_name (codes "A") 7)
unfolding get_element get_index search turn plus_int minus_int wrap to_int compare_at
    caseless_compare compare_bytes skip_words pair_difference
capital_found = refl

small_letter_missing : get_element mixed (codes "a") ≡ none
unfolding get_element get_index search turn plus_int minus_int wrap to_int compare_at
    caseless_compare compare_bytes skip_words pair_difference
small_letter_missing = refl
