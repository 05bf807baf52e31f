-- ===== src/Request/Numbers.antt =====
-- `strtol` and `strtoul` in base ten, as the parser uses them: the number as the bits of a `long`,
-- and the text behind the digits. A number that is too large is the largest one.
use ylem.Base.{
  ℕ, ◌+◌, ◌-◌, ◌*◌, ◌%◌, ◌^◌, Bytes, Bool, true, false, ◌&&◌, ◌||◌, [], ◌∷◌, leb, ◌==◌, min,
  if◌then◌else◌,
}
use ylem.Letters.{light_isdigit}

-- `isspace` in the C locale.
abbrev pub is_space : ℕ → Bool
is_space c = c == 32 || leb 9 c && leb c 13

-- The digits in front, onto `n`; `limit` is never passed.
unfoldable pub read_digits : ℕ → ℕ → Bytes → ℕ × Bytes
read_digits limit n [] = (n, [])
read_digits limit n (c ∷ s) = elim (light_isdigit c) [
  | true ↦ read_digits limit (min limit (n * 10 + (c - b'0'))) s
  | false ↦ (n, c ∷ s)
]

unfoldable pub skip_space : Bytes → Bytes
skip_space [] = []
skip_space (c ∷ s) = elim (is_space c) [ true ↦ skip_space s | false ↦ c ∷ s ]

-- Is there a digit in front?
abbrev pub digit_first : Bytes → Bool
digit_first [] = false
digit_first (c ∷ s) = light_isdigit c

-- Behind the sign; without digits nothing is read.
abbrev pub signed_digits : Bool → Bytes → Bytes → ℕ × Bytes
signed_digits minus whole s =
    if digit_first s
    then (if minus
        then (let (n, rest) = read_digits (2 ^ 63) 0 s in ((2 ^ 64 - n) % 2 ^ 64, rest))
        else read_digits (2 ^ 63 - 1) 0 s)
    else (0, whole)

abbrev pub after_space : Bytes → Bytes → ℕ × Bytes
after_space whole [] = (0, whole)
after_space whole (c ∷ s) =
    if c == b'-'
    then signed_digits true whole s
    else if c == b'+'
    then signed_digits false whole s
    else signed_digits false whole (c ∷ s)

unfoldable pub strtol : Bytes → ℕ × Bytes
strtol s = after_space s (skip_space s)

-- `strtoul` of a text of digits.
unfoldable pub strtoul : Bytes → ℕ × Bytes
strtoul s = read_digits (2 ^ 64 - 1) 0 s
