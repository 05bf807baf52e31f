-- ===== src/HttpChunk/Digits.antt =====
-- The number that the digits of `http_chunk_append_len` spell.
use ylem.Base.{
  ℕ, zero, suc, ◌+◌, ◌-◌, ◌*◌, ◌/◌, ◌%◌, ◌^◌, ◌≤◌, ◌<◌, ◌≡◌, refl, ap, ◌∙◌, Bytes, Option, none,
  some, [], ◌∷◌, ◌++◌, length, arith, ◌==◌, leb, ltb, ltb→lt, if◌then◌else◌, Bool-cases, inl, inr,
  ◌&&◌, length-append, append_assoc, codes,
}
use ylem.HttpChunk.{count_digits, hex_digit}

-- The last `i` hexadecimal digits of a number.
abbrev pub hex_text : ℕ → ℕ → Bytes
hex_text zero n = []
hex_text (suc i) n = hex_text i (n / 16) ++ hex_digit (n % 16) ∷ []

-- The text in front of a chunk of `n` bytes.
abbrev pub len_text : ℕ → Bytes
len_text n = if n == 0 then codes "0" else hex_text (count_digits 8 n) n

-- The value of a hexadecimal digit.
abbrev pub digit_value : ℕ → Option ℕ
digit_value c =
    if leb b'0' c && leb c b'9'
    then some (c - b'0')
    else if leb b'a' c && leb c b'f'
    then some (c - (b'a' - 10))
    else none

-- The number at the front, behind the digits of `acc`, and the text after it.
unfoldable pub read_hex : ℕ → Bytes → ℕ × Bytes
read_hex acc [] = (acc, [])
read_hex acc (c ∷ s) = elim (digit_value c) [
  | some d ↦ read_hex (acc * 16 + d) s
  | none ↦ (acc, c ∷ s)
]

digit_value-hex : (d : ℕ) → d < 16 → digit_value (hex_digit d) ≡ some d
digit_value-hex d h = ground arith

read_digit :
    (acc d : ℕ) (s : Bytes) → d < 16 → read_hex acc (hex_digit d ∷ s) ≡ read_hex (acc * 16 + d) s
unfolding read_hex
read_digit acc d s h = rw (read_hex, digit_value-hex d h) refl

-- What `i` digits of `n` add to a number that stands in front of them.
abbrev shifted : ℕ → ℕ → ℕ → ℕ
shifted zero acc n = acc
shifted (suc i) acc n = shifted i acc (n / 16) * 16 + n % 16

read_hex-text :
    (i acc n : ℕ) (s : Bytes) → read_hex acc (hex_text i n ++ s) ≡ read_hex (shifted i acc n) s
read_hex-text zero acc n s = refl
read_hex-text (suc i) acc n s =
    ap (read_hex acc) (append_assoc (hex_text i (n / 16)) (hex_digit (n % 16) ∷ []) s)
    ∙ read_hex-text i acc (n / 16) (hex_digit (n % 16) ∷ s)
    ∙ read_digit (shifted i acc (n / 16)) (n % 16) s (omega arith)

shifted-eight : (n : ℕ) → shifted 8 0 n ≡ n % 2 ^ 32
shifted-eight n = omega arith

-- Numbers of at most `k` digits are spelled whole.
shifted-count : (k n : ℕ) → n < 16 ^ k → shifted (count_digits k n) 0 n ≡ n
unfolding count_digits
shifted-count zero n h = omega arith
shifted-count (suc k) n h = elim (Bool-cases (n == 0)) [
  | inl e ↦ ground arith
  | inr e ↦ rw (count_digits, e) (omega (arith, shifted-count k (n / 16) (omega arith)))
]

pow_pos : (k : ℕ) → 1 ≤ 16 ^ k
pow_pos zero = omega arith
pow_pos (suc k) = omega (arith, pow_pos k)

-- A larger number has all the digits there is room for.
count_digits-full : (k n : ℕ) → 16 ^ k ≤ n → count_digits k n ≡ k
unfolding count_digits
count_digits-full zero n h = refl
count_digits-full (suc k) n h = elim (Bool-cases (n == 0)) [
  | inl e ↦ absurd (ground (arith, pow_pos k))
  | inr e ↦ rw (count_digits, e) (ap suc (count_digits-full k (n / 16) (omega arith)))
]

shifted_lem : (n : ℕ) → shifted (count_digits 8 n) 0 n ≡ n % 2 ^ 32
shifted_lem n = elim (Bool-cases (ltb n (16 ^ 8))) [
  | inl e ↦ let h : n < 16 ^ 8 = ltb→lt n (16 ^ 8) e in omega (arith, shifted-count 8 n h)
  | inr e ↦ ap (λ k. shifted k 0 n) (count_digits-full 8 n (ground arith)) ∙ shifted-eight n
]

-- The digits that are written are read as the number modulo 2 ^ 32: eight digits are the most.
pub read_hex-len_text : (n : ℕ) (s : Bytes) → read_hex 0 (len_text n ++ s) ≡ read_hex (n % 2 ^ 32) s
read_hex-len_text n s = elim (Bool-cases (n == 0)) [
  | inl e ↦ rw e (read_digit 0 0 s (omega arith) ∙ ap (λ m. read_hex m s) (ground arith))
  | inr e ↦ rw e (read_hex-text (count_digits 8 n) 0 n s ∙ ap (λ m. read_hex m s) (shifted_lem n))
]

pub length-hex_text : (i n : ℕ) → length (hex_text i n) ≡ i
length-hex_text zero n = refl
length-hex_text (suc i) n = omega (
  arith,
  length-append (hex_text i (n / 16)) (hex_digit (n % 16) ∷ []),
  length-hex_text i (n / 16),
)

pub count_digits-bound : (k n : ℕ) → count_digits k n ≤ k
unfolding count_digits
count_digits-bound zero n = omega arith
count_digits-bound (suc k) n = ground (arith, count_digits-bound k (n / 16))

pub length-len_text : (n : ℕ) → (1 ≤ length (len_text n)) × (length (len_text n) ≤ 8)
unfolding count_digits
length-len_text n =
    ground (arith, length-hex_text (count_digits 8 n) n, count_digits-bound 7 (n / 16))
