-- ===== src/Request/Field/Signs.antt =====
-- Comparisons with a known name do not depend on the case of the letters.
use ylem.Base.{
  ℕ, ◌+◌, ◌%◌, ◌<◌, ℤ, pos, negsuc, ◌==ℤ◌, Bytes, Bool, true, false, ◌&&◌, ◌||◌, [], ◌∷◌, ◌==◌, leb,
  if◌then◌else◌, map, false≢true, ◌≡◌, ◌≢◌, ◌⊎◌, refl, sym, ap, ◌∙◌, inl, inr, arith, Bool-cases,
}
use ylem.Encoding.Bytewise.{all_bytes}
use ylem.Compare.{is_upper, is_lower, char_difference, pair_difference, compare_bytes}
use ylem.Compare.Caseless.{fold}
use ylem.Request.Field.{equal, sign}

-- The bytes of the known names: letters and hyphens.
abbrev pub is_name_byte : ℕ → Bool
is_name_byte c = c == b'-' || leb b'A' c && leb c b'Z' || leb b'a' c && leb c b'z'

-- A capital and its small letter stand alike to a hyphen, a capital and a small letter.
upper_to_hyphen :
    (x : ℕ)
    → is_upper x ≡ true
    → sign (pair_difference x b'-') ≡ sign (pair_difference (x + 32) b'-')
unfolding pair_difference
upper_to_hyphen x h = ground arith

own_difference : (b : ℕ) → char_difference b b ≡ pos 0
own_difference b = ground arith

both_shifted : (x b : ℕ) → x < 96 → b < 96 → char_difference x b ≡ char_difference (x + 32) (b + 32)
both_shifted x b hx hb =
    let mx : (x + 128) % 256 ≡ x + 128 = omega arith in
    let mb : (b + 128) % 256 ≡ b + 128 = omega arith in
    let nx : (x + 32 + 128) % 256 ≡ x + 160 = omega arith in
    let nb : (b + 32 + 128) % 256 ≡ b + 160 = omega arith in rw (mx, mb, nx, nb) (ground arith)

shifted-sign :
    (x b : ℕ)
    → x < 96
    → b < 96
    → sign (if x == b then pos 0 else char_difference x b)
      ≡ sign (char_difference (x + 32) (b + 32))
shifted-sign x b hx hb = elim (Bool-cases (x == b)) [
  | inl e ↦
      let same : x ≡ b = ground arith in
      rw (e, same) (ap sign (sym (own_difference b) ∙ both_shifted b b hb hb))
  | inr e ↦ rw e (ap sign (both_shifted x b hx hb))
]

upper_to_upper :
    (x b : ℕ)
    → is_upper x ≡ true
    → is_upper b ≡ true
    → sign (pair_difference x b) ≡ sign (pair_difference (x + 32) b)
unfolding pair_difference
upper_to_upper x b h hb =
    let bl : is_lower b ≡ false = ground arith in
    let xl : is_lower x ≡ false = ground arith in
    let sl : is_lower (x + 32) ≡ true = ground arith in
    let su : is_upper (x + 32) ≡ false = ground arith in
    let ne : (x + 32 == b) ≡ false = ground arith in
    rw (h, hb, bl, xl, sl, su, ne) (shifted-sign x b (ground arith) (ground arith))

upper_to_lower :
    (x b : ℕ)
    → is_upper x ≡ true
    → is_lower b ≡ true
    → sign (pair_difference x b) ≡ sign (pair_difference (x + 32) b)
unfolding pair_difference
upper_to_lower x b h hb = ground arith

name_byte-cases :
    (b : ℕ) → is_name_byte b ≡ true → (b ≡ b'-') ⊎ (is_upper b ≡ true) ⊎ (is_lower b ≡ true)
name_byte-cases b h = ground arith

pair_sign-upper :
    (x b : ℕ)
    → is_upper x ≡ true
    → is_name_byte b ≡ true
    → sign (pair_difference x b) ≡ sign (pair_difference (x + 32) b)
pair_sign-upper x b h hb = elim (name_byte-cases b hb) [
  | inl e ↦ rw e (upper_to_hyphen x h)
  | inr (inl u) ↦ upper_to_upper x b h u
  | inr (inr l) ↦ upper_to_lower x b h l
]

pair_sign-fold :
    (x b : ℕ)
    → is_name_byte b ≡ true
    → sign (pair_difference x b) ≡ sign (pair_difference (fold x) b)
pair_sign-fold x b hb = elim (Bool-cases (is_upper x)) [
  | inl u ↦ rw u (pair_sign-upper x b u hb)
  | inr u ↦ rw u refl
]

pair_sign :
    (x y b : ℕ)
    → is_name_byte b ≡ true
    → fold x ≡ fold y
    → sign (pair_difference x b) ≡ sign (pair_difference y b)
pair_sign x y b hb e =
    pair_sign-fold x b hb ∙ ap (λ c. sign (pair_difference c b)) e ∙ sym (pair_sign-fold y b hb)

sign-zero : (z : ℤ) → (z ==ℤ pos 0) ≡ true → sign z ≡ equal
sign-zero (pos n) h = ground arith
sign-zero (negsuc n) h = absurd (false≢true h)

sign-nonzero : (z : ℤ) → (z ==ℤ pos 0) ≡ false → sign z ≢ equal
sign-nonzero (pos n) h e = ground arith
sign-nonzero (negsuc n) h e = ground arith

-- Keys that differ in the case of letters only compare alike with a known name.
pub compare-sign :
    (m n : ℕ) (k j name : Bytes)
    → all_bytes is_name_byte name ≡ true
    → map fold k ≡ map fold j
    → sign (compare_bytes m n k name) ≡ sign (compare_bytes m n j name)
unfolding compare_bytes
compare-sign m n [] [] name h e = refl
compare-sign m n [] (y ∷ j) name h e = absurd (ground arith)
compare-sign m n (x ∷ k) [] name h e = absurd (ground arith)
compare-sign m n (x ∷ k) (y ∷ j) [] h e = refl
compare-sign m n (x ∷ k) (y ∷ j) (b ∷ name) h e =
    let same = pair_sign x y b (ground arith) (ground arith) in
    elim (Bool-cases (pair_difference x b ==ℤ pos 0)) [
      | inl p ↦ elim (Bool-cases (pair_difference y b ==ℤ pos 0)) [
        | inl q ↦ rw (compare_bytes, p, q) (compare-sign m n k j name (ground arith) (ground arith))
        | inr q ↦
            absurd
              (sign-nonzero (pair_difference y b) q (sym same ∙ sign-zero (pair_difference x b) p))
      ]
      | inr p ↦ elim (Bool-cases (pair_difference y b ==ℤ pos 0)) [
        | inl q ↦
            absurd (sign-nonzero (pair_difference x b) p (same ∙ sign-zero (pair_difference y b) q))
        | inr q ↦ rw (compare_bytes, p, q) same
      ]
    ]
