-- ===== src/Encoding/Bytewise.antt =====
-- What the tables say of every byte, by a run over all of them, and what it means for the output
-- of an encoding.
use ylem.Base.{
  ℕ, zero, suc, ◌/◌, ◌%◌, ◌<◌, Bytes, Bool, true, not, ◌&&◌, ◌||◌, [], ◌∷◌, ◌++◌, length, get_or,
  ltb, ◌==◌, ◌≡◌, refl, arith, Bool-cases, inl, inr, length-append,
}
use ylem.Encoding.{
  Encoding, unset, rel_uri, rel_uri_part, html, minimal_xml, hex, http_header, escape,
  escape_length, encode, encoded_length, high_digit, low_digit,
}
use ylem.Encoding.Chars.{hex_chars, encoded_chars_html, encoded_chars_rel_uri_part}

unfoldable pub all_below : ℕ → (ℕ → Bool) → Bool
all_below zero p = true
all_below (suc n) p = p n && all_below n p

pub all_below-lt : (n : ℕ) (p : ℕ → Bool) (i : ℕ) → all_below n p ≡ true → i < n → p i ≡ true
unfolding all_below
all_below-lt zero p i h l = absurd (omega arith)
all_below-lt (suc n) p i h l = elim (Bool-cases (i == n)) [
  | inl e ↦ ground arith
  | inr e ↦ ground (arith, all_below-lt n p i)
]

length-escape : (e : Encoding) (c : ℕ) → length (escape e c) ≡ escape_length e
unfolding escape escape_length
length-escape unset c = refl
length-escape rel_uri c = refl
length-escape rel_uri_part c = refl
length-escape html c = refl
length-escape minimal_xml c = refl
length-escape hex c = refl
length-escape http_header c = refl

-- The loop that counts gives the length of what the loop that writes writes.
pub length-encode :
    (e : Encoding) (chars s : Bytes) → length (encode e chars s) ≡ encoded_length e chars s
unfolding encode encoded_length
length-encode e chars [] = refl
length-encode e chars (c ∷ cs) = elim (Bool-cases (get_or chars c 0 == 0)) [
  | inl z ↦ rw z (omega (arith, length-encode e chars cs))
  | inr z ↦ rw z (
      omega (
        arith,
        length-append (escape e c) (encode e chars cs),
        length-escape e c,
        length-encode e chars cs,
      ))
]

pub encode-nil : (e : Encoding) (chars : Bytes) → encode e chars [] ≡ []
unfolding encode
encode-nil e chars = refl

-- Every byte passes the test.
abbrev pub all_bytes : (ℕ → Bool) → Bytes → Bool
all_bytes p [] = true
all_bytes p (c ∷ cs) = p c && all_bytes p cs

pub all_bytes-append :
    (p : ℕ → Bool) (s t : Bytes)
    → all_bytes p s ≡ true
    → all_bytes p t ≡ true
    → all_bytes p (s ++ t) ≡ true
all_bytes-append p [] t a b = b
all_bytes-append p (c ∷ s) t a b = ground (arith, all_bytes-append p s t)

-- A byte of a `char`.
abbrev pub is_byte : ℕ → Bool
is_byte c = ltb c 256

-- The bytes that are kept pass the test, and so does what the others become: then all that is
-- written passes it.
all_bytes-encode :
    (p : ℕ → Bool) (e : Encoding) (chars s : Bytes)
    → all_below 256 (λ c. not (get_or chars c 0 == 0) || p c) ≡ true
    → ((c : ℕ) → all_bytes p (escape e c) ≡ true)
    → all_bytes is_byte s ≡ true
    → all_bytes p (encode e chars s) ≡ true
unfolding encode
all_bytes-encode p e chars [] kept esc b = refl
all_bytes-encode p e chars (c ∷ cs) kept esc b =
    let rest = all_bytes-encode p e chars cs kept esc (ground arith) in
    let here = all_below-lt 256 (λ n. not (get_or chars n 0 == 0) || p n) c kept (ground arith) in
    elim (Bool-cases (get_or chars c 0 == 0)) [
      | inl z ↦ rw z (ground arith)
      | inr z ↦ rw z (all_bytes-append p (escape e c) (encode e chars cs) (esc c) rest)
    ]

-- A test that the sixteen digits pass.
module _ (p : ℕ → Bool) (digits : all_below 16 (λ k. p (get_or hex_chars k 0)) ≡ true) where
  high_digit_lem : (c : ℕ) → p (high_digit c) ≡ true
  high_digit_lem c =
      all_below-lt 16 (λ k. p (get_or hex_chars k 0)) (c / 16 % 16) digits (omega arith)

  low_digit_lem : (c : ℕ) → p (low_digit c) ≡ true
  low_digit_lem c = all_below-lt 16 (λ k. p (get_or hex_chars k 0)) (c % 16) digits (omega arith)

-- No tag begins or ends at such a byte, and it is no control character below 32.
abbrev pub is_inert : ℕ → Bool
is_inert c = ltb 31 c && not (c == b'<' || c == b'>')

-- Bytes encoded with ENCODING_HTML have no `<`, no `>` and no control character below 32.
html-is_inert :
    (s : Bytes)
    → all_bytes is_byte s ≡ true
    → all_bytes is_inert (encode html encoded_chars_html s) ≡ true
unfolding all_below encoded_chars_html escape
html-is_inert s b =
    all_bytes-encode is_inert html encoded_chars_html s refl
      (λ c. ground (arith, high_digit_lem is_inert refl c, low_digit_lem is_inert refl c)) b

-- No separator of a URL, no white space, no control character.
abbrev pub is_uri_part : ℕ → Bool
is_uri_part c =
    ltb b' ' c
    && ltb c 127
    && not (c == b'/' || c == b'?' || c == b'#' || c == b'&' || c == b'=' || c == b'+' || c == b'"')

-- Bytes encoded with ENCODING_REL_URI_PART are printable ASCII without space and the separators
-- `/ ? # & = + "`.
rel_uri_part-is_uri_part :
    (s : Bytes)
    → all_bytes is_byte s ≡ true
    → all_bytes is_uri_part (encode rel_uri_part encoded_chars_rel_uri_part s) ≡ true
unfolding all_below encoded_chars_rel_uri_part escape
rel_uri_part-is_uri_part s b =
    all_bytes-encode is_uri_part rel_uri_part encoded_chars_rel_uri_part s refl
      (λ c. ground (arith, high_digit_lem is_uri_part refl c, low_digit_lem is_uri_part refl c)) b
