-- ===== src/Compare/Caseless.antt =====
-- When `buffer_caseless_compare` says that two strings are the same.
use ylem.Base.{
  ℕ, zero, suc, ◌+◌, ◌/◌, ◌<◌, min, pos, ◌==ℤ◌, ==ℤ-refl, Bytes, Bool, true, [], ◌∷◌, ◌++◌, length,
  take, drop, if◌then◌else◌, bytes_eq, bytes_eq-eq, take-append-drop, ◌≡◌, ◌↔◌, refl, sym, ap, ◌∙◌,
  map, append_assoc, arith, inl, inr, Bool-cases,
}
use ylem.Compare.{is_upper, pair_difference, compare_bytes, skip_words, caseless_compare}
use ylem.Encoding.Bytewise.{all_bytes, is_byte}

-- A letter in lower case.
abbrev pub fold : ℕ → ℕ
fold c = if is_upper c then c + 32 else c

pub pair-zero :
    (x y : ℕ) → x < 256 → y < 256 → (pair_difference x y ==ℤ pos 0) ≡ true → fold x ≡ fold y
unfolding pair_difference
pair-zero x y hx hy h = ground arith

zero-pair : (x y : ℕ) → x < 256 → y < 256 → fold x ≡ fold y → (pair_difference x y ==ℤ pos 0) ≡ true
unfolding pair_difference
zero-pair x y hx hy h = ground arith

pair-same : (x : ℕ) → (pair_difference x x ==ℤ pos 0) ≡ true
unfolding pair_difference
pair-same x = ground arith

-- Equal bytes in front change nothing.
compare_bytes-append :
    (m n : ℕ) (p c d : Bytes) → compare_bytes m n (p ++ c) (p ++ d) ≡ compare_bytes m n c d
unfolding compare_bytes
compare_bytes-append m n [] c d = refl
compare_bytes-append m n (x ∷ p) c d =
    rw (compare_bytes, pair-same x) (compare_bytes-append m n p c d)

-- The loop over words passes over equal bytes.
skip_words_lem :
    (n : ℕ) (a b : Bytes)
    → (p : Bytes) × (a ≡ p ++ (skip_words n a b).0) × (b ≡ p ++ (skip_words n a b).1)
unfolding skip_words
skip_words_lem zero a b = ([], refl, refl)
skip_words_lem (suc n) a b = elim (Bool-cases (bytes_eq (take 8 a) (take 8 b))) [
  | inl e ↦
      let (p, ha, hb) = skip_words_lem n (drop 8 a) (drop 8 b) in
      rw (skip_words, e)
        (
          take 8 a ++ p,
          sym (take-append-drop 8 a)
              ∙ ap (λ t. take 8 a ++ t) ha
              ∙ sym (append_assoc (take 8 a) p _),
          sym (take-append-drop 8 b)
              ∙ ap (λ t. t ++ drop 8 b) (sym (bytes_eq-eq (take 8 a) (take 8 b) e))
              ∙ ap (λ t. take 8 a ++ t) hb
              ∙ sym (append_assoc (take 8 a) p _),
        )
  | inr e ↦ rw (skip_words, e) ([], refl, refl)
]

-- Words or not, the outcome is that of the loop over bytes.
pub caseless_compare-bytes :
    (aligned : Bool) (a b : Bytes)
    → caseless_compare aligned a b ≡ compare_bytes (length a) (length b) a b
unfolding caseless_compare
caseless_compare-bytes aligned a b =
    let words = if aligned then min (length a) (length b) / 8 else 0 in
    let (p, ha, hb) = skip_words_lem words a b in
    let rest = skip_words words a b in
    sym (compare_bytes-append (length a) (length b) p rest.0 rest.1)
    ∙ ap (λ x. compare_bytes (length a) (length b) x (p ++ rest.1)) (sym ha)
    ∙ ap (λ y. compare_bytes (length a) (length b) a y) (sym hb)

-- From lengths `m` and `n` whose difference is that of what is left.
zero-fold :
    (m n : ℕ) (a b : Bytes)
    → m + length b ≡ n + length a
    → all_bytes is_byte a ≡ true
    → all_bytes is_byte b ≡ true
    → compare_bytes m n a b ≡ pos 0
    → map fold a ≡ map fold b
unfolding compare_bytes
zero-fold m n [] [] l ha hb h = refl
zero-fold m n [] (y ∷ b) l ha hb h = absurd (ground arith)
zero-fold m n (x ∷ a) [] l ha hb h = absurd (ground arith)
zero-fold m n (x ∷ a) (y ∷ b) l ha hb h = elim (Bool-cases (pair_difference x y ==ℤ pos 0)) [
  | inl e ↦ cc (
    pair-zero x y (ground arith) (ground arith) e,
    zero-fold m n a b (omega arith) (ground arith) (ground arith) (ground arith),
  )
  | inr e ↦ absurd (ground (arith, ==ℤ-refl (pair_difference x y)))
]

fold-zero :
    (m n : ℕ) (a b : Bytes)
    → m + length b ≡ n + length a
    → all_bytes is_byte a ≡ true
    → all_bytes is_byte b ≡ true
    → map fold a ≡ map fold b
    → compare_bytes m n a b ≡ pos 0
unfolding compare_bytes
fold-zero m n [] [] l ha hb h = ground arith
fold-zero m n [] (y ∷ b) l ha hb h = absurd (ground arith)
fold-zero m n (x ∷ a) [] l ha hb h = absurd (ground arith)
fold-zero m n (x ∷ a) (y ∷ b) l ha hb h =
    let here = zero-pair x y (ground arith) (ground arith) (ground arith) in
    rw (compare_bytes, here)
      (fold-zero m n a b (omega arith) (ground arith) (ground arith) (ground arith))

-- `buffer_caseless_compare` returns 0 exactly if the strings are the same once their ASCII letters
-- are in lower case, whatever the alignment.
pub caseless_compare-fold :
    (aligned : Bool) (a b : Bytes)
    → all_bytes is_byte a ≡ true
    → all_bytes is_byte b ≡ true
    → (caseless_compare aligned a b ≡ pos 0) ↔ (map fold a ≡ map fold b)
caseless_compare-fold aligned a b ha hb = (
  λ h.
      zero-fold (length a) (length b) a b (omega arith) ha hb
        (sym (caseless_compare-bytes aligned a b) ∙ h),
  λ h.
      caseless_compare-bytes aligned a b
      ∙ fold-zero (length a) (length b) a b (omega arith) ha hb h,
)
