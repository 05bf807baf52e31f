-- ===== src/Arrays/Ints.antt =====
-- Sums and differences that an `int` can hold.
use ylem.Base.{ℕ, ◌+◌, ◌-◌, ◌%◌, ◌^◌, ◌<◌, ◌≡◌, ap, ◌∙◌, ℤ, pos, negsuc, arith}
use ylem.Arrays.{add, subtract, to_int, wrap, plus_int, minus_int}

pub to_int-small : (n : ℕ) → n < 2 ^ 31 → to_int n ≡ pos n
unfolding to_int
to_int-small n h = ground arith

to_int-negative : (m : ℕ) → m < 2 ^ 31 → to_int (2 ^ 32 - 1 - m) ≡ negsuc m
unfolding to_int
to_int-negative m h = ground arith

-- A number that an `int` can hold.
IsInt : ℤ → Type 0
IsInt (pos n) = n < 2 ^ 31
IsInt (negsuc m) = m < 2 ^ 31

wrap-IsInt : (p : ℤ) → IsInt p → wrap p ≡ p
unfolding IsInt wrap
wrap-IsInt (pos n) h = to_int-small n h
wrap-IsInt (negsuc m) h =
    let e : 2 ^ 32 - 1 - m % 2 ^ 32 ≡ 2 ^ 32 - 1 - m = omega arith in
    ap to_int e ∙ to_int-negative m h

pub plus_int-up : (p i : ℕ) → p + i < 2 ^ 31 → plus_int (pos p) (pos i) ≡ pos (p + i)
unfolding plus_int IsInt
plus_int-up p i h = wrap-IsInt (pos (p + i)) h

pub plus_int-back :
    (m i : ℕ) → m < 2 ^ 31 → i < 2 ^ 31 → plus_int (negsuc m) (pos i) ≡ add (negsuc m) i
unfolding plus_int IsInt
plus_int-back m i h k = wrap-IsInt (add (negsuc m) i) (ground arith)

pub minus_int-down :
    (p i : ℕ) → p < 2 ^ 31 → i < 2 ^ 31 → minus_int (pos p) (pos i) ≡ subtract (pos p) i
unfolding minus_int IsInt
minus_int-down p i h k = wrap-IsInt (subtract (pos p) i) (ground arith)
