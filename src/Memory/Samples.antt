-- ===== src/Memory/Samples.antt =====
-- An allocator for tests: fresh bytes are 170, and a grown object keeps its bytes.
use ylem.Base.{
  ℕ, suc, zero, ◌-◌, ◌≤◌, ◌≡◌, refl, ap, ◌∙◌, Bytes, ◌++◌, length, take, replicate, arith,
  length-append, length-take, take-append_le, take-take,
}
use ylem.Memory.{Allocator}

abbrev pub fill : ℕ → Bytes
fill n = replicate n 170

pub length-fill : (n : ℕ) → length (fill n) ≡ n
length-fill zero = refl
length-fill (suc n) = ap suc (length-fill n)

abbrev pub grow : Bytes → ℕ → Bytes
grow p n = take n p ++ fill (n - length p)

pub length-grow : (p : Bytes) (n : ℕ) → length (grow p n) ≡ n
length-grow p n = omega (
  arith,
  length-append (take n p) (fill (n - length p)),
  length-take n p,
  length-fill (n - length p),
)

pub take-grow : (p : Bytes) (n k : ℕ) → k ≤ length p → k ≤ n → take k (grow p n) ≡ take k p
take-grow p n k h h' =
    take-append_le k (take n p) _ (omega (arith, length-take n p)) ∙ take-take k n p h'

abbrev pub plain : Allocator
plain = record {
  malloc = fill;
  realloc = grow;
  length-malloc = length-fill;
  length-realloc = length-grow;
  take-realloc = take-grow;
}
