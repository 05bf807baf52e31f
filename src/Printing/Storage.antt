-- ===== src/Printing/Storage.antt =====
-- Printed numbers in a buffer.
use ylem.Base.{
  ℕ, zero, suc, ◌+◌, ◌-◌, ◌/◌, ◌^◌, ◌≤◌, ◌≡◌, refl, ap, ◌∙◌, inl, inr, ℤ, pos, negsuc, Bytes, [],
  ◌∷◌, ◌++◌, length, reverse, reverse-cons, arith, length-append, ◌==◌, Bool-cases,
}
use ylem.Memory.{Allocator, add_size}
use ylem.Buffer.{Buffer, prepare_append}
use ylem.Buffer.Inv.{IsValid, Holds, IsSmall, prepare_append-Extended}
use ylem.Buffer.Append.{Yields, put_string-Yields}
use ylem.Printing.{
  digits_from, swap_ends, li_ltostr, count_shift, hex_from, long_hex, append_long, copy_long,
  append_long_hex, most_digits, make_even,
}
use ylem.Printing.Reversal.{swap_ends-reverse}

length-reverse : (s : Bytes) → length (reverse s) ≡ length s
length-reverse [] = refl
length-reverse (c ∷ s) =
    ap length (reverse-cons c s)
    ∙ omega (arith, length-append (reverse s) (c ∷ []), length-reverse s)

length-digits_from : (fuel n : ℕ) → length (digits_from fuel n) ≤ fuel
unfolding digits_from
length-digits_from zero n = omega arith
length-digits_from (suc fuel) n = ground (arith, length-digits_from fuel (n / 10))

length-swap_ends :
    (n : ℕ) → let ds = digits_from most_digits n in length (swap_ends (length ds) ds) ≤ 20
length-swap_ends n =
    let ds = digits_from most_digits n in
    omega (
      arith,
      ap length (swap_ends-reverse (length ds) ds (omega arith)),
      length-reverse ds,
      length-digits_from most_digits n,
    )

length-li_ltostr : (v : ℤ) → length (li_ltostr v) ≤ 21
unfolding li_ltostr
length-li_ltostr (pos n) = omega (arith, length-swap_ends n)
length-li_ltostr (negsuc m) = elim (Bool-cases (m == 2 ^ 63 - 1)) [
  | inl e ↦ rw (li_ltostr, e) (omega arith)
  | inr e ↦ rw (li_ltostr, e) (omega (arith, length-swap_ends (m + 1)))
]

-- `buffer_append_long` on a valid buffer that stands for `t` returns 0 and leaves a valid buffer that
-- stands for `t` and the number, within the 32 bytes that it makes room for, if no size overflows.
pub append_long-Yields :
    (a : Allocator) (b : Buffer) (t : Bytes) (v : ℤ)
    → IsValid b
    → Holds b t
    → IsSmall b 32
    → Yields (append_long a b v) (t ++ li_ltostr v)
unfolding append_long
append_long-Yields a b t v valid holds small =
    put_string-Yields b (prepare_append a b 32) t (li_ltostr v) 32
      (omega (arith, length-li_ltostr v)) holds (prepare_append-Extended a b 32 valid small) small

pub copy_long-Yields :
    (a : Allocator) (b : Buffer) (v : ℤ)
    → IsValid b
    → IsSmall b 32
    → Yields (copy_long a b v) (li_ltostr v)
unfolding copy_long
copy_long-Yields a b v valid small =
    append_long-Yields a (record b { used = 0 }) [] v (ground arith) (inl (refl, refl)) small

length-hex_from : (shift value : ℕ) → length (hex_from shift value) ≡ shift
unfolding hex_from
length-hex_from zero value = refl
length-hex_from (suc shift) value = ap suc (length-hex_from shift value)

count_shift-bound : (fuel copy : ℕ) → count_shift fuel copy ≤ fuel
unfolding count_shift
count_shift-bound zero copy = omega arith
count_shift-bound (suc fuel) copy = ground (arith, count_shift-bound fuel (copy / 16))

make_even-bound : (shift : ℕ) → make_even shift ≤ shift + 2
make_even-bound shift = ground arith

length-long_hex : (value : ℕ) → length (long_hex value) ≤ 18
unfolding long_hex
length-long_hex value =
    let shift = count_shift 16 value in
    omega (
      arith,
      length-hex_from (make_even shift) value,
      make_even-bound shift,
      count_shift-bound 16 value,
    )

-- `buffer_append_long_hex` does the same with the hexadecimal digits, for which it makes room.
pub append_long_hex-Yields :
    (a : Allocator) (b : Buffer) (t : Bytes) (value : ℕ)
    → IsValid b
    → Holds b t
    → IsSmall b 32
    → Yields (append_long_hex a b value) (t ++ long_hex value)
unfolding append_long_hex
append_long_hex-Yields a b t value valid holds small =
    let n = length (long_hex value) + 1 in
    let fits : IsSmall b n = omega (arith, length-long_hex value) in
    let size : add_size (length (long_hex value)) 1 ≡ n = omega (arith, length-long_hex value) in
    rw size (
      put_string-Yields b (prepare_append a b n) t (long_hex value) n (omega arith) holds
        (prepare_append-Extended a b n valid fits) fits)
