-- ===== src/Memory.antt =====
-- C memory as the buffer code of storage/src/lighttpd/src uses it: `size_t` arithmetic, objects as
-- lists of bytes, bounds-checked copies, and the allocator of the C library as a parameter.
pub mod Copy
pub mod Samples
use ylem.Base.{
  ℕ, ◌+◌, ◌%◌, ◌^◌, ◌≤◌, ◌≡◌, Bytes, Option, none, some, ◌++◌, length, take, drop, leb, ltb, Bool,
  if◌then◌else◌,
}

-- `size_t` addition wraps.
abbrev pub add_size : ℕ → ℕ → ℕ
add_size a b = (a + b) % 2 ^ 64

-- `x < y` for two `off_t`.
abbrev pub slt : ℕ → ℕ → Bool
slt x y = ltb ((x + 2 ^ 63) % 2 ^ 64) ((y + 2 ^ 63) % 2 ^ 64)

-- `malloc` and `realloc`, when they succeed: the source asserts that they do. The bytes of a fresh
-- object are unspecified.
pub record Allocator : Type 0 where
  pub malloc : ℕ → Bytes
  pub realloc : Bytes → ℕ → Bytes
  pub length-malloc : (n : ℕ) → length (malloc n) ≡ n
  pub length-realloc : (p : Bytes) (n : ℕ) → length (realloc p n) ≡ n
  pub take-realloc : (p : Bytes) (n k : ℕ) → k ≤ length p → k ≤ n → take k (realloc p n) ≡ take k p

-- The object after `s` is written at `off`.
unfoldable pub splice : Bytes → ℕ → Bytes → Bytes
splice p off s = take off p ++ (s ++ drop (off + length s) p)

-- `memcpy (p + off, s, length s)`; a write outside the object faults.
unfoldable pub memcpy_at : Bytes → ℕ → Bytes → Option Bytes
memcpy_at p off s = if leb (off + length s) (length p) then some (splice p off s) else none
