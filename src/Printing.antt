-- ===== src/Printing.antt =====
-- Printing of numbers: `LI_ltostr`, `buffer_append_long`, `buffer_copy_long` and
-- `buffer_append_long_hex` of storage/src/lighttpd/src/buffer.c. A `long` has 64 bits.
pub mod Reversal
pub mod Decimal
pub mod Storage
mod Tests
use ylem.Base.{
  ℕ, zero, suc, ◌+◌, ◌-◌, ◌*◌, ◌/◌, ◌%◌, ◌^◌, ℤ, pos, negsuc, Bytes, Bool, true, false, Option,
  none, some, [], ◌∷◌, ◌++◌, length, ltb, ◌==◌, if◌then◌else◌, ◌>>=◌, get_or,
}
use ylem.Memory.{Allocator, add_size}
use ylem.Buffer.{Buffer, Out, prepare_append, put_string}
use ylem.Encoding.Chars.{hex_chars}

-- `while (val > 9) *(end++) = '0' + (val % 10)`, and the first digit behind the others.
unfoldable pub digits_from : ℕ → ℕ → Bytes
digits_from zero n = []
digits_from (suc fuel) n = elim (ltb 9 n) [
  | true ↦ (b'0' + n % 10) ∷ digits_from fuel (n / 10)
  | false ↦ (b'0' + n) ∷ []
]

-- A `long` has 19 digits at most.
abbrev pub most_digits : ℕ
most_digits = 20

-- The last byte apart from the others.
unfoldable pub split_last : ℕ → Bytes → Bytes × ℕ
split_last x [] = ([], x)
split_last x (y ∷ s) = let (m, z) = split_last y s in (x ∷ m, z)

-- `while (buf < end)`: the first and the last byte are exchanged, then those between them.
unfoldable pub swap_ends : ℕ → Bytes → Bytes
swap_ends zero s = s
swap_ends (suc fuel) [] = []
swap_ends (suc fuel) (x ∷ []) = x ∷ []
swap_ends (suc fuel) (x ∷ y ∷ s) = let (m, z) = split_last y s in z ∷ (swap_ends fuel m ++ x ∷ [])

-- The text that is written, without its terminator. `-val` of the smallest `long` is that number
-- again: the loop is not entered, and the low byte of '0' + val is written.
unfoldable pub li_ltostr : ℤ → Bytes
li_ltostr (pos n) = let ds = digits_from most_digits n in swap_ends (length ds) ds
li_ltostr (negsuc m) =
    if m == 2 ^ 63 - 1
    then b'-' ∷ (b'0' + 2 ^ 64 - 2 ^ 63) % 256 ∷ []
    else (let ds = digits_from most_digits (m + 1) in b'-' ∷ swap_ends (length ds) ds)

-- "shift": the number of hexadecimal digits, made even.
unfoldable pub count_shift : ℕ → ℕ → ℕ
count_shift zero copy = 0
count_shift (suc fuel) copy = elim (copy == 0) [
  | true ↦ 0
  | false ↦ suc (count_shift fuel (copy / 16))
]

abbrev pub make_even : ℕ → ℕ
make_even shift =
    let some_digit = if shift == 0 then 1 else shift in
    if some_digit % 2 == 1 then some_digit + 1 else some_digit

-- The loop over `shift`: the digit at `value >> shift`, from the highest to the lowest.
unfoldable pub hex_from : ℕ → ℕ → Bytes
hex_from zero value = []
hex_from (suc shift) value = get_or hex_chars (value / 16 ^ shift % 16) 0 ∷ hex_from shift value

unfoldable pub long_hex : ℕ → Bytes
long_hex value = hex_from (make_even (count_shift 16 value)) value

module _ (a : Allocator) where
  unfoldable pub append_long : Buffer → ℤ → Out
  append_long b val = put_string (prepare_append a b 32) (li_ltostr val)

  unfoldable pub copy_long : Buffer → ℤ → Out
  copy_long b val = append_long (record b { used = 0 }) val

  unfoldable pub append_long_hex : Buffer → ℕ → Out
  append_long_hex b value =
      let s = long_hex value in put_string (prepare_append a b (add_size (length s) 1)) s
