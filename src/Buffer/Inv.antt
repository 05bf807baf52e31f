-- ===== src/Buffer/Inv.antt =====
-- The representation invariant of a buffer, the byte string that it stands for, and what the two
-- `prepare` functions guarantee.
use ylem.Base.{ℕ, ◌+◌, ◌-◌, ◌^◌, ◌≤◌, ◌<◌, ◌≡◌, ◌⊎◌, Bytes, [], ◌∷◌, ◌++◌, length, take, arith, ◌%◌}
use ylem.Memory.{Allocator}
use ylem.Buffer.{Buffer, reset, prepare_copy, prepare_append}

-- `used` bytes of `size` allocated ones are in use.
pub record IsValid (b : Buffer) : Type 0 where
  pub storage : length b.ptr ≡ b.size
  pub fits : b.used ≤ b.size

-- The buffer stands for the byte string `s`: it is empty, or holds `s` and a terminator.
abbrev pub Holds : Buffer → Bytes → Type 0
Holds b s = (b.used ≡ 0) × (s ≡ []) ⊎ (b.used ≡ length s + 1) × (take b.used b.ptr ≡ s ++ 0 ∷ [])

-- Sizes for which no `size_t` addition of an operation on `n` more bytes wraps.
abbrev pub IsSmall : Buffer → ℕ → Type 0
IsSmall b n = b.size + n + 256 < 2 ^ 64

-- The storage holds `n` bytes and nothing is in use.
pub record Prepared (b : Buffer) (n : ℕ) (c : Buffer) : Type 0 where
  pub valid : IsValid c
  pub room : n ≤ c.size
  pub empty : c.used ≡ 0
  pub bounded : c.size ≤ b.size + n + 64

-- The storage holds `n` more bytes, and the bytes in use are those of `b`.
pub record Extended (b : Buffer) (n : ℕ) (c : Buffer) : Type 0 where
  pub valid : IsValid c
  pub room : b.used + n ≤ c.size
  pub same_used : c.used ≡ b.used
  pub same_bytes : take b.used c.ptr ≡ take b.used b.ptr
  pub bounded : c.size ≤ b.size + n + 64

module _ (a : Allocator) (b : Buffer) (n : ℕ) (v : IsValid b) (small : IsSmall b n) where
  pub prepare_copy-Prepared : Prepared b n (prepare_copy a b n)
  unfolding prepare_copy
  prepare_copy-Prepared = ground (arith, a.length-malloc (n + (64 - n % 64)))

  -- `buffer_prepare_append` makes room for `n` more bytes on a valid buffer, keeps the bytes in use,
  -- and allocates less than `n` and a piece beyond the old size, if no size overflows.
  pub prepare_append-Extended : Extended b n (prepare_append a b n)
  unfolding prepare_append
  prepare_append-Extended = ground (
    arith,
    a.length-malloc (n + (64 - n % 64)),
    a.length-realloc b.ptr (b.size + n + (64 - (b.size + n) % 64)),
    a.take-realloc b.ptr (b.size + n + (64 - (b.size + n) % 64)) b.used,
  )

-- `buffer_reset` leaves a valid buffer that stands for the empty string.
pub reset_lem : (b : Buffer) → IsValid b → IsValid (reset b) × Holds (reset b) []
unfolding reset
reset_lem b v = ground arith
