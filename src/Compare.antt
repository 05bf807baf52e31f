-- ===== src/Compare.antt =====
-- The comparisons of buffer.c in storage/src/lighttpd/src: `buffer_caseless_compare`, which orders
-- header names. A `char` is signed, and a byte is below 256.
pub mod Caseless
mod Tests
use ylem.Base.{
  ℕ, zero, suc, ◌+◌, ◌-◌, ◌/◌, ◌%◌, min, ℤ, pos, negsuc, ◌==ℤ◌, Bytes, Bool, true, false, ◌&&◌, [],
  ◌∷◌, length, take, drop, leb, ltb, ◌==◌, if◌then◌else◌, bytes_eq,
}

abbrev pub is_upper : ℕ → Bool
is_upper c = leb b'A' c && leb c b'Z'

abbrev pub is_lower : ℕ → Bool
is_lower c = leb b'a' c && leb c b'z'

-- The difference of two numbers as an `int`.
abbrev pub difference : ℕ → ℕ → ℤ
difference x y = if ltb x y then negsuc (y - x - 1) else pos (x - y)

-- The difference of two signed bytes: 128 added to both does not change it.
abbrev pub char_difference : ℕ → ℕ → ℤ
char_difference a b = difference ((a + 128) % 256) ((b + 128) % 256)

-- `a1 - b1` in the loop; a letter `| 32` is the letter plus 32.
unfoldable pub pair_difference : ℕ → ℕ → ℤ
pair_difference a b =
    if a == b
    then pos 0
    else if is_upper a && is_lower b
    then char_difference (a + 32) b
    else if is_lower a && is_upper b
    then char_difference a (b + 32)
    else char_difference a b

-- The loop over bytes up to the shorter length, then the difference of the lengths.
unfoldable pub compare_bytes : ℕ → ℕ → Bytes → Bytes → ℤ
compare_bytes a_len b_len [] b = difference a_len b_len
compare_bytes a_len b_len (x ∷ a) [] = difference a_len b_len
compare_bytes a_len b_len (x ∷ a) (y ∷ b) = elim (pair_difference x y ==ℤ pos 0) [
  | true ↦ compare_bytes a_len b_len a b
  | false ↦ pair_difference x y
]

-- The loop over whole words, on aligned strings: it ends at the first words that differ.
unfoldable pub skip_words : ℕ → Bytes → Bytes → Bytes × Bytes
skip_words zero a b = (a, b)
skip_words (suc n) a b = elim (bytes_eq (take 8 a) (take 8 b)) [
  | true ↦ skip_words n (drop 8 a) (drop 8 b)
  | false ↦ (a, b)
]

-- `aligned` is the test of the two addresses. The lengths are below 2^31.
unfoldable pub caseless_compare : Bool → Bytes → Bytes → ℤ
caseless_compare aligned a b =
    let words = if aligned then min (length a) (length b) / 8 else 0 in
    let (c, d) = skip_words words a b in compare_bytes (length a) (length b) c d
