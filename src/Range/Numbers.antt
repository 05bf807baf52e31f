-- ===== src/Range/Numbers.antt =====
-- How far `strtoll` reads, and the numbers that it returns.
use ylem.Base.{
  ℕ, ◌+◌, ◌-◌, ◌*◌, ◌^◌, ◌≤◌, ◌<◌, ◌≡◌, refl, ap, ◌∙◌, ◌⊎◌, inl, inr, Bytes, Bool, true, false,
  some, [], ◌∷◌, length, arith, ◌==◌, min, Bool-cases, Option-cases, ==_iff, false≢true,
}
use ylem.Letters.{light_isdigit}
use ylem.Request.Numbers.{
  read_digits, skip_space, is_space, digit_first, signed_digits, after_space, strtol,
}
use ylem.Request.Line.{split_at}

read_digits-bound :
    (limit n : ℕ) (s : Bytes)
    → n ≤ limit
    → ((read_digits limit n s).0 ≤ limit) × (length (read_digits limit n s).1 ≤ length s)
unfolding read_digits
read_digits-bound limit n [] h = (h, omega arith)
read_digits-bound limit n (c ∷ s) h = elim (Bool-cases (light_isdigit c)) [
  | inl e ↦
      let m = min limit (n * 10 + (c - b'0')) in
      let ih = read_digits-bound limit m s (omega arith) in
      rw (read_digits, e) (ih.0, omega (arith, ih))
  | inr e ↦ rw (read_digits, e) (h, omega arith)
]

length-skip_space : (s : Bytes) → length (skip_space s) ≤ length s
unfolding skip_space
length-skip_space [] = omega arith
length-skip_space (c ∷ s) = ground (arith, length-skip_space s)

-- Behind spaces a hyphen is the first one.
skip_space-hyphen :
    (s t before after : Bytes)
    → split_at b'-' s ≡ some (before, after)
    → skip_space s ≡ b'-' ∷ t
    → length t ≡ length after
unfolding skip_space split_at
skip_space-hyphen [] t before after h e = absurd (ground arith)
skip_space-hyphen (c ∷ s) t before after h e = elim (Bool-cases (is_space c)) [
  | inl sp ↦
      let other : (c == b'-') ≡ false = ground arith in
      let e' : skip_space s ≡ b'-' ∷ t = rw (skip_space, sp) at e in
      elim (Option-cases (split_at b'-' s)) [
        | inl n ↦ absurd (ground arith)
        | inr (p, q) ↦
            let last : p.1 ≡ after = ground arith in
            skip_space-hyphen s t p.0 p.1 q e' ∙ ap length last
      ]
  | inr black ↦ ground arith
]

-- Behind a sign.
signed_digits-bound :
    (minus : Bool) (whole s : Bytes)
    → length s ≤ length whole
    → ((signed_digits minus whole s).0 < 2 ^ 64)
      × (length (signed_digits minus whole s).1 ≤ length whole)
      × (((signed_digits minus whole s).0 < 2 ^ 63)
          ⊎ (minus ≡ true) × (length (signed_digits minus whole s).1 ≤ length s))
signed_digits-bound minus whole s h = elim (Bool-cases (digit_first s)) [
  | inl e ↦ go minus e
  | inr e ↦ rw e (omega arith, omega arith, inl (omega arith))
]
  where
    go :
        (minus : Bool)
        → digit_first s ≡ true
        → ((signed_digits minus whole s).0 < 2 ^ 64)
          × (length (signed_digits minus whole s).1 ≤ length whole)
          × (((signed_digits minus whole s).0 < 2 ^ 63)
              ⊎ (minus ≡ true) × (length (signed_digits minus whole s).1 ≤ length s))
    go true e =
        let b = read_digits-bound (2 ^ 63) 0 s (omega arith) in
        rw e (omega (arith, b), omega (arith, b), inr (refl, b.1))
    go false e =
        let b = read_digits-bound (2 ^ 63 - 1) 0 s (omega arith) in
        rw e (omega (arith, b), omega (arith, b), inl (omega (arith, b)))

-- A number below 0 is read behind a hyphen.
strtol-within :
    (s : Bytes) (k : ℕ)
    → ((t : Bytes) → skip_space s ≡ b'-' ∷ t → length t ≤ k)
    → ((strtol s).0 < 2 ^ 64)
      × (length (strtol s).1 ≤ length s)
      × (((strtol s).0 < 2 ^ 63) ⊎ (length (strtol s).1 ≤ k))
unfolding strtol
strtol-within s k h = go (skip_space s) refl
  where
    plus :
        (t : Bytes)
        → length t ≤ length s
        → ((signed_digits false s t).0 < 2 ^ 64)
          × (length (signed_digits false s t).1 ≤ length s)
          × (((signed_digits false s t).0 < 2 ^ 63) ⊎ (length (signed_digits false s t).1 ≤ k))
    plus t fits =
        let (small, forward, low) = signed_digits-bound false s t fits in
        (small, forward, elim low [ inl x ↦ inl x | inr (f, _) ↦ absurd (false≢true f) ])

    go :
        (u : Bytes)
        → skip_space s ≡ u
        → ((after_space s u).0 < 2 ^ 64)
          × (length (after_space s u).1 ≤ length s)
          × (((after_space s u).0 < 2 ^ 63) ⊎ (length (after_space s u).1 ≤ k))
    go [] e = (omega arith, omega arith, inl (omega arith))
    go (c ∷ t) e =
        let shorter : length t + 1 ≤ length s = omega (arith, length-skip_space s, ap length e) in
        elim (Bool-cases (c == b'-')) [
          | inl m ↦
              let (small, forward, low) = signed_digits-bound true s t (omega arith) in
              let hyphen : skip_space s ≡ b'-' ∷ t = e ∙ ap (λ d. d ∷ t) ((==_iff c b'-').0 m) in
              let same = h t hyphen in
              rw m (
                small,
                forward,
                elim low [ inl x ↦ inl x | inr (_, y) ↦ inr (omega (arith, y, same)) ],
              )
          | inr m ↦ elim (Bool-cases (c == b'+')) [
            | inl p ↦ rw (m, p) (plus t (omega arith))
            | inr p ↦ rw (m, p) (plus (c ∷ t) (omega arith))
          ]
        ]

-- `strtoll` returns an `off_t` and reads forward; a number below 0 in a text with a hyphen is read
-- with that hyphen as its sign.
pub strtol-bound :
    (s before after : Bytes)
    → split_at b'-' s ≡ some (before, after)
    → ((strtol s).0 < 2 ^ 64)
      × (length (strtol s).1 ≤ length s)
      × (((strtol s).0 < 2 ^ 63) ⊎ (length (strtol s).1 ≤ length after))
strtol-bound s before after h =
    strtol-within s (length after) (λ t e. omega (arith, skip_space-hyphen s t before after h e))

pub strtol-forward : (s : Bytes) → ((strtol s).0 < 2 ^ 64) × (length (strtol s).1 ≤ length s)
strtol-forward s =
    let (small, forward, _) =
      strtol-within s (length s) (λ t e. omega (arith, length-skip_space s, ap length e)) in
    (small, forward)
