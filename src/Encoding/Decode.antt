-- ===== src/Encoding/Decode.antt =====
-- Decoding a URL undoes the encoding of a part of it.
use ylem.Base.{
  ℕ, ◌+◌, ◌*◌, ◌/◌, ◌%◌, ◌<◌, Bytes, Bool, true, false, not, none, ◌&&◌, ◌||◌, some, [], ◌∷◌, ◌++◌,
  get_or, ltb, ◌==◌, if◌then◌else◌, ◌≡◌, refl, ap, arith, Bool-cases, inl, inr, ◌∙◌, ==_iff,
}
use ylem.Encoding.{
  rel_uri_part, escape, encode, hex2int, hex_pair, map_control, high_digit, low_digit, decode_from,
}
use ylem.Encoding.Chars.{hex_chars, encoded_chars_rel_uri_part}
use ylem.Encoding.Bytewise.{all_below, all_below-lt, all_bytes}

-- A byte that decoding does not replace by `_`.
abbrev pub is_shown : ℕ → Bool
is_shown c = ltb 31 c && ltb c 256 && not (c == 127)

hex2int-digits : all_below 16 (λ n. hex2int (get_or hex_chars n 0) == n) ≡ true
unfolding all_below hex2int
hex2int-digits = refl

hex2int-digit : (k : ℕ) → k < 16 → hex2int (get_or hex_chars k 0) ≡ k
hex2int-digit k h =
    (==_iff (hex2int (get_or hex_chars k 0)) k).0
      (all_below-lt 16 (λ n. hex2int (get_or hex_chars n 0) == n) k hex2int-digits h)

kept-plain :
    all_below 256
      (λ c. not (get_or encoded_chars_rel_uri_part c 0 == 0) || not (c == b'%' || c == b'+'))
    ≡ true
unfolding all_below encoded_chars_rel_uri_part
kept-plain = refl

pair_value :
    (c : ℕ)
    → is_shown c ≡ true
    → (if (c / 16 % 16 == 0xff) || (c % 16 == 0xff)
        then none
        else some (map_control ((c / 16 % 16 * 16 + c % 16) % 256)))
      ≡ some c
pair_value c h =
    let whole : (c / 16 % 16 * 16 + c % 16) % 256 ≡ c = ground arith in
    let low : ltb c 32 ≡ false = ground arith in
    let del : (c == 127) ≡ false = ground arith in
    let h_in : (c / 16 % 16 == 0xff) ≡ false = ground arith in
    let l_in : (c % 16 == 0xff) ≡ false = ground arith in rw (h_in, l_in, whole, low, del) refl

hex_pair-digits : (c : ℕ) → is_shown c ≡ true → hex_pair (high_digit c) (low_digit c) ≡ some c
unfolding hex_pair
hex_pair-digits c h =
    let high = hex2int-digit (c / 16 % 16) (omega arith) in
    let low = hex2int-digit (c % 16) (omega arith) in rw (high, low) (pair_value c h)

-- One escape, whatever follows it.
decode-escape :
    (is_query : Bool) (c : ℕ) (rest : Bytes)
    → is_shown c ≡ true
    → decode_from is_query 0 (escape rel_uri_part c ++ rest) ≡ c ∷ decode_from is_query 0 rest
unfolding decode_from escape
decode-escape true c rest h = rw (decode_from, hex_pair-digits c h) refl
decode-escape false c rest h = rw (decode_from, hex_pair-digits c h) refl

decode-kept :
    (is_query : Bool) (c : ℕ) (rest : Bytes)
    → (c == b'%' || c == b'+') ≡ false
    → decode_from is_query 0 (c ∷ rest) ≡ c ∷ decode_from is_query 0 rest
unfolding decode_from
decode-kept is_query c rest h = ground arith

kept_lem :
    (c : ℕ)
    → (get_or encoded_chars_rel_uri_part c 0 == 0) ≡ true
    → is_shown c ≡ true
    → (c == b'%' || c == b'+') ≡ false
kept_lem c z h =
    let here =
      all_below-lt 256
        (λ n. not (get_or encoded_chars_rel_uri_part n 0 == 0) || not (n == b'%' || n == b'+')) c
        kept-plain (ground arith) in
    ground arith

nothing_left : (is_query : Bool) → decode_from is_query 0 [] ≡ []
unfolding decode_from
nothing_left is_query = refl

-- Decoding, as a path or as a query, gives back the bytes that were encoded as a part of a URL,
-- if none of them is a control character.
pub decode-encode :
    (is_query : Bool) (s : Bytes)
    → all_bytes is_shown s ≡ true
    → decode_from is_query 0 (encode rel_uri_part encoded_chars_rel_uri_part s) ≡ s
unfolding encode
decode-encode is_query [] h = nothing_left is_query
decode-encode is_query (c ∷ cs) h = elim (Bool-cases (get_or encoded_chars_rel_uri_part c 0 == 0)) [
  | inl z ↦ rw z (
      decode-kept is_query c (encode rel_uri_part encoded_chars_rel_uri_part cs)
        (kept_lem c z (ground arith))
      ∙ ap (λ t. c ∷ t) (decode-encode is_query cs (ground arith)))
  | inr z ↦ rw z (
      decode-escape is_query c (encode rel_uri_part encoded_chars_rel_uri_part cs) (ground arith)
      ∙ ap (λ t. c ∷ t) (decode-encode is_query cs (ground arith)))
]
