-- ===== src/Printing/Decimal.antt =====
-- A number that is printed is read back by `strtol`.
use ylem.Base.{
  ℕ, zero, suc, ◌+◌, ◌-◌, ◌*◌, ◌/◌, ◌%◌, ◌^◌, ◌≤◌, ◌<◌, ◌≡◌, refl, sym, ap, ◌∙◌, inl, inr, ℤ, pos,
  negsuc, Bytes, true, false, [], ◌∷◌, ◌++◌, length, reverse, reverse-cons, arith, append_assoc,
  min, ltb, ◌==◌, Bool-cases,
}
use ylem.Letters.{light_isdigit}
use ylem.Request.Numbers.{read_digits, skip_space, is_space, digit_first, signed_digits, strtol}
use ylem.Printing.{digits_from, most_digits, li_ltostr}
use ylem.Printing.Reversal.{swap_ends-reverse}

-- The digits of a number, the highest first.
abbrev digits : ℕ → ℕ → Bytes
digits fuel n = reverse (digits_from fuel n)

digit-IsDigit : (d : ℕ) → d < 10 → light_isdigit (b'0' + d) ≡ true
unfolding light_isdigit
digit-IsDigit d h = ground arith

digits-step :
    (fuel n : ℕ)
    → ltb 9 n ≡ true
    → digits (suc fuel) n ≡ digits fuel (n / 10) ++ (b'0' + n % 10) ∷ []
unfolding digits_from
digits-step fuel n h =
    rw (digits_from, h) (reverse-cons (b'0' + n % 10) (digits_from fuel (n / 10)))

digits-single : (fuel n : ℕ) → ltb 9 n ≡ false → digits (suc fuel) n ≡ (b'0' + n) ∷ []
unfolding digits_from
digits-single fuel n h = rw (digits_from, h) refl

-- One digit behind the number so far.
read_digit :
    (limit acc d : ℕ) (s : Bytes)
    → d < 10
    → acc * 10 + d ≤ limit
    → read_digits limit acc ((b'0' + d) ∷ s) ≡ read_digits limit (acc * 10 + d) s
unfolding read_digits
read_digit limit acc d s h small =
    let value : min limit (acc * 10 + (b'0' + d - b'0')) ≡ acc * 10 + d = omega arith in
    rw (read_digits, digit-IsDigit d h, value) refl

read_digits-digits :
    (limit fuel n : ℕ) (s : Bytes)
    → n < 10 ^ fuel
    → n ≤ limit
    → read_digits limit 0 (digits fuel n ++ s) ≡ read_digits limit n s
unfolding digits_from
read_digits-digits limit zero n s h small = ap (λ m. read_digits limit m s) (omega arith)
read_digits-digits limit (suc fuel) n s h small = elim (Bool-cases (ltb 9 n)) [
  | inl e ↦
      ap (λ t. read_digits limit 0 (t ++ s)) (digits-step fuel n e)
      ∙ ap (read_digits limit 0) (append_assoc (digits fuel (n / 10)) ((b'0' + n % 10) ∷ []) s)
      ∙ read_digits-digits limit fuel (n / 10) ((b'0' + n % 10) ∷ s) (omega arith) (omega arith)
      ∙ read_digit limit (n / 10) (n % 10) s (omega arith) (omega arith)
      ∙ ap (λ m. read_digits limit m s) (omega arith)
  | inr e ↦
      ap (λ t. read_digits limit 0 (t ++ s)) (digits-single fuel n e)
      ∙ read_digit limit 0 n s (ground arith) (omega arith)
      ∙ ap (λ m. read_digits limit m s) (omega arith)
]

-- The first of the digits.
digits-first :
    (fuel n : ℕ)
    → n < 10 ^ suc fuel
    → (d : ℕ) × (r : Bytes) × (digits (suc fuel) n ≡ d ∷ r) × (light_isdigit d ≡ true)
digits-first zero n h =
    (b'0' + n, [], digits-single 0 n (ground arith), digit-IsDigit n (omega arith))
digits-first (suc fuel) n h = elim (Bool-cases (ltb 9 n)) [
  | inl e ↦
      let (d, r, same, digit) = digits-first fuel (n / 10) (omega arith) in
      (
        d,
        r ++ (b'0' + n % 10) ∷ [],
        digits-step (suc fuel) n e ∙ ap (λ t. t ++ (b'0' + n % 10) ∷ []) same,
        digit,
      )
  | inr e ↦ (b'0' + n, [], digits-single (suc fuel) n e, digit-IsDigit n (ground arith))
]

-- `val` as the bits of a `long`.
abbrev pub bits : ℤ → ℕ
bits (pos n) = n
bits (negsuc m) = 2 ^ 64 - (m + 1)

-- The numbers that are printed right: all but the smallest `long`.
abbrev pub IsLong : ℤ → Type 0
IsLong (pos n) = n < 2 ^ 63
IsLong (negsuc m) = m + 1 < 2 ^ 63

print-digits : (n : ℕ) → li_ltostr (pos n) ≡ digits most_digits n
unfolding li_ltostr
print-digits n =
    swap_ends-reverse (length (digits_from most_digits n)) (digits_from most_digits n) (omega arith)

print-minus : (m : ℕ) → m + 1 < 2 ^ 63 → li_ltostr (negsuc m) ≡ b'-' ∷ digits most_digits (m + 1)
unfolding li_ltostr
print-minus m h =
    let last : (m == 2 ^ 63 - 1) ≡ false = ground arith in
    rw last (
      ap (λ t. b'-' ∷ t)
        (swap_ends-reverse (length (digits_from most_digits (m + 1)))
          (digits_from most_digits (m + 1)) (omega arith)))

stopped : (limit n : ℕ) (s : Bytes) → digit_first s ≡ false → read_digits limit n s ≡ (n, s)
unfolding read_digits
stopped limit n [] h = refl
stopped limit n (c ∷ s) h = rw (read_digits, h) refl

read_whole :
    (limit n : ℕ) (s : Bytes)
    → n < 2 ^ 64
    → n ≤ limit
    → digit_first s ≡ false
    → read_digits limit 0 (digits most_digits n ++ s) ≡ (n, s)
read_whole limit n s h small stop =
    read_digits-digits limit most_digits n s (omega arith) small ∙ stopped limit n s stop

digits-begin : (n : ℕ) (s : Bytes) → n < 2 ^ 64 → digit_first (digits most_digits n ++ s) ≡ true
digits-begin n s h =
    let (d, r, same, digit) = digits-first 19 n (omega arith) in
    ap (λ t. digit_first (t ++ s)) same ∙ digit

no_space : (c : ℕ) → light_isdigit c ≡ true → is_space c ≡ false
unfolding light_isdigit
no_space c h = ground arith

no_sign : (c : ℕ) → light_isdigit c ≡ true → ((c == b'-') ≡ false) × ((c == b'+') ≡ false)
unfolding light_isdigit
no_sign c h = ground arith

strtol-digit :
    (c : ℕ) (s : Bytes)
    → light_isdigit c ≡ true
    → strtol (c ∷ s) ≡ signed_digits false (c ∷ s) (c ∷ s)
unfolding strtol skip_space
strtol-digit c s h = rw (strtol, skip_space, no_space c h, (no_sign c h).0, (no_sign c h).1) refl

strtol-minus : (s : Bytes) → strtol (b'-' ∷ s) ≡ signed_digits true (b'-' ∷ s) s
unfolding strtol skip_space
strtol-minus s = refl

-- `strtol` reads the number that `LI_ltostr` has printed, with its sign, up to the text behind it,
-- if that does not begin with a digit and the number is not the smallest `long`.
pub strtol-li_ltostr :
    (v : ℤ) (s : Bytes) → IsLong v → digit_first s ≡ false → strtol (li_ltostr v ++ s) ≡ (bits v, s)
strtol-li_ltostr (pos n) s h stop =
    let (d, r, same, digit) = digits-first 19 n (omega arith) in
    let whole : digits most_digits n ++ s ≡ d ∷ (r ++ s) = ap (λ t. t ++ s) same in
    ap (λ t. strtol (t ++ s)) (print-digits n)
    ∙ ap strtol whole
    ∙ strtol-digit d (r ++ s) digit
    ∙ ap (λ t. signed_digits false t t) (sym whole)
    ∙ rw
        (
          digits-begin n s (omega arith),
          read_whole (2 ^ 63 - 1) n s (omega arith) (omega arith) stop,
        )
        refl
strtol-li_ltostr (negsuc m) s h stop =
    ap (λ t. strtol (t ++ s)) (print-minus m h)
    ∙ strtol-minus (digits most_digits (m + 1) ++ s)
    ∙ rw
        (
          digits-begin (m + 1) s (omega arith),
          read_whole (2 ^ 63) (m + 1) s (omega arith) (omega arith) stop,
        )
        (ap (λ n. (n, s)) (omega arith))

abbrev pub AllDigits : Bytes → Type 0
AllDigits [] = Unit
AllDigits (c ∷ s) = (light_isdigit c ≡ true) × AllDigits s

AllDigits-last :
    (s : Bytes) (c : ℕ) → AllDigits s → light_isdigit c ≡ true → AllDigits (s ++ c ∷ [])
AllDigits-last [] c h d = (d, tt)
AllDigits-last (x ∷ s) c h d = (h.0, AllDigits-last s c h.1 d)

digits-AllDigits : (fuel n : ℕ) → AllDigits (digits fuel n)
unfolding digits_from
digits-AllDigits zero n = tt
digits-AllDigits (suc fuel) n = elim (Bool-cases (ltb 9 n)) [
  | inl e ↦ rw (digits-step fuel n e) (
      AllDigits-last (digits fuel (n / 10)) (b'0' + n % 10) (digits-AllDigits fuel (n / 10))
        (digit-IsDigit (n % 10) (omega arith)))
  | inr e ↦ rw (digits-single fuel n e) (digit-IsDigit n (ground arith), tt)
]

-- A number that is not negative is printed in digits, one at least.
pub li_ltostr-AllDigits :
    (n : ℕ)
    → n < 2 ^ 63
    → AllDigits (li_ltostr (pos n)) × ((d : ℕ) × (r : Bytes) × (li_ltostr (pos n) ≡ d ∷ r))
li_ltostr-AllDigits n h =
    let (d, r, same, _) = digits-first 19 n (omega arith) in
    (rw (print-digits n) (digits-AllDigits most_digits n), (d, r, print-digits n ∙ same))
