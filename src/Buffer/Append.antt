-- ===== src/Buffer/Append.antt =====
-- What the appending operations leave in the buffer.
use ylem.Base.{
  ℕ, ◌+◌, ◌-◌, ◌≤◌, ◌≡◌, inl, inr, refl, sym, ◌∙◌, ap, Bytes, false, some, [], ◌∷◌, ◌++◌, length,
  take, arith, append-nil, take-take, take-append_length, ◌==◌, Bool-cases, length-append,
  length-eq-zero, ==_iff, append_assoc,
}
use ylem.Memory.{Allocator, add_size, splice, memcpy_at}
use ylem.Memory.Copy.{
  terminated, memcpy_at-first, memcpy_at-terminated, length-terminated, take-terminated,
  length-splice, take-splice, memcpy_at-splice,
}
use ylem.Buffer.{
  Buffer, ok, Out, open_used, prepare_append, put_bytes, put_string, append_string_len,
  append_string, append_string_buffer, append_memory,
}
use ylem.Buffer.Inv.{IsValid, Holds, IsSmall, Extended, prepare_append-Extended}

-- The operation returns 0 and leaves a valid buffer that stands for `s`.
abbrev pub Yields : Out → Bytes → Type 0
Yields out s = (c : Buffer) × (out ≡ some (c, ok)) × IsValid c × Holds c s

-- Where the next byte goes, and what stands before it.
Holds-open :
    (b : Buffer) (t : Bytes)
    → Holds b t
    → (open_used b.used ≡ length t + 1) × (take (open_used b.used - 1) b.ptr ≡ t)
Holds-open b t (inl (e, n)) = ground arith
Holds-open b t (inr (e, h)) = ground (
  arith,
  take-take (length t) b.used b.ptr,
  ap (take (length t)) h,
  take-append_length (length t) t (0 ∷ []),
)

-- The bytes that are read from a buffer as a source.
pub Holds-content : (b : Buffer) (t : Bytes) → Holds b t → take (b.used - 1) b.ptr ≡ t
Holds-content b t (inl (e, n)) = ground arith
Holds-content b t (inr (e, h)) = ground (
  arith,
  take-take (length t) b.used b.ptr,
  ap (take (length t)) h,
  take-append_length (length t) t (0 ∷ []),
)

-- The common end of the operations: `s` and a terminator at the open end of a buffer with room.
module _ (b c : Buffer) (t s : Bytes) (n : ℕ) (fits : length s + 1 ≤ n) (h : Holds b t)
    (x : Extended b n c) (small : IsSmall b n) where
  abbrev end_of : ℕ
  end_of = open_used c.used - 1

  end_of-eq : end_of ≡ length t
  end_of-eq = ground (arith, Holds-open b t h)

  end_fits : end_of + length s + 1 ≤ length c.ptr
  end_fits = ground (arith, Holds-open b t h)

  take-end_of : take end_of c.ptr ≡ t
  take-end_of = ground (
    arith,
    x.same_bytes,
    Holds-open b t h,
    take-take (open_used c.used - 1) b.used c.ptr,
    take-take (open_used c.used - 1) b.used b.ptr,
  )

  used-eq : open_used c.used + length s ≡ end_of + length s + 1
  used-eq = ground (arith, end_of-eq, Holds-open b t h)

  -- Any storage that holds the old bytes, `s` and a terminator will do.
  module _ (q : Bytes) (len : length q ≡ length c.ptr)
      (image : take (end_of + length s + 1) q ≡ (take end_of c.ptr ++ s) ++ 0 ∷ []) where
    abbrev extended : Buffer
    extended = record c { ptr = q; used = open_used c.used + length s }

    extended-IsValid : IsValid extended
    extended-IsValid = ground (arith, end_fits, end_of-eq, Holds-open b t h)

    extended-Holds : Holds extended (t ++ s)
    extended-Holds = inr (
      omega (arith, Holds-open b t h, ap open_used x.same_used, length-append t s),
      ap (λ n. take n q) used-eq ∙ image ∙ ap (λ u. (u ++ s) ++ 0 ∷ []) take-end_of,
    )

  end-eq :
      (add_size (open_used c.used) (length s) ≡ open_used c.used + length s)
      × (open_used c.used + length s - 1 ≡ end_of + length s)
  end-eq = ground (arith, x.bounded, x.room, Holds-open b t h)

  pub put_bytes-Yields : Yields (put_bytes c s) (t ++ s)
  unfolding put_bytes
  put_bytes-Yields =
      let q = terminated c.ptr end_of s end_fits in
      let len = length-terminated c.ptr end_of s end_fits in
      let image = take-terminated c.ptr end_of s end_fits in
      (
        extended q len image,
        rw
            (
              end-eq.0,
              end-eq.1,
              memcpy_at-first c.ptr end_of s end_fits,
              memcpy_at-terminated c.ptr end_of s end_fits,
            )
            refl,
        extended-IsValid q len image,
        extended-Holds q len image,
      )

  -- The terminator copied together with `s`.
  pub put_string-Yields : Yields (put_string c s) (t ++ s)
  unfolding put_string
  put_string-Yields =
      let fits : end_of + length (s ++ 0 ∷ []) ≤ length c.ptr =
        omega (arith, end_fits, length-append s (0 ∷ [])) in
      let q = splice c.ptr end_of (s ++ 0 ∷ []) in
      let len = length-splice c.ptr end_of (s ++ 0 ∷ []) fits in
      let image : take (end_of + length s + 1) q ≡ (take end_of c.ptr ++ s) ++ 0 ∷ [] =
        ap (λ n. take n q) (omega (arith, length-append s (0 ∷ [])))
        ∙ take-splice c.ptr end_of (s ++ 0 ∷ []) fits
        ∙ sym (append_assoc (take end_of c.ptr) s (0 ∷ [])) in
      (
        extended q len image,
        rw (end-eq.0, memcpy_at-splice c.ptr end_of (s ++ 0 ∷ []) fits) refl,
        extended-IsValid q len image,
        extended-Holds q len image,
      )

module _ (a : Allocator) (b : Buffer) (t s : Bytes) (v : IsValid b) (h : Holds b t)
    (small : IsSmall b (length s + 1)) where
  small_size : add_size (length s) 1 ≡ length s + 1
  small_size = omega arith

  x : Extended b (length s + 1) (prepare_append a b (length s + 1))
  x = prepare_append-Extended a b (length s + 1) v small

  -- `buffer_append_string_len` returns 0 and appends exactly the bytes of `s`: on a valid buffer that
  -- stands for `t` it leaves a valid buffer that stands for `t ++ s`, and no write leaves the storage,
  -- if no size overflows.
  pub append_string_len-Yields : Yields (append_string_len a b (some s)) (t ++ s)
  unfolding append_string_len
  append_string_len-Yields = elim (Bool-cases (length s == 0)) [
    | inl e ↦ rw e (b, refl, v, rw (length-eq-zero s ((==_iff (length s) 0).0 e), append-nil) h)
    | inr e ↦ rw e (
        rw small_size (
          put_bytes-Yields b (prepare_append a b (length s + 1)) t s (length s + 1) (omega arith) h
            x small))
  ]

  -- `buffer_append_string` on a valid buffer that stands for `t` returns 0 and leaves a valid buffer
  -- that stands for `t ++ s`, if no size overflows.
  pub append_string-Yields : Yields (append_string a b (some s)) (t ++ s)
  unfolding append_string
  append_string-Yields = rw small_size (
      put_string-Yields b (prepare_append a b (length s + 1)) t s (length s + 1) (omega arith) h x
        small)

-- A whole buffer appended to another.
module _ (a : Allocator) (b src : Buffer) (t s : Bytes) (v : IsValid b) (h : Holds b t)
    (hs : Holds src s) (small : IsSmall b (length s + 1)) where
  pub append_string_buffer-Yields : Yields (append_string_buffer a b (some src)) (t ++ s)
  unfolding append_string_buffer
  append_string_buffer-Yields = elim hs [
    | inl (e, n) ↦ rw e (b, refl, v, rw (n, append-nil) h)
    | inr (e, hold) ↦
        let used_pos : (src.used == 0) ≡ false = ground arith in
        rw (used_pos, Holds-content src s (inr (e, hold)))
          (append_string_len-Yields a b t s v h small)
  ]

-- `buffer_append_memory` on a valid buffer returns 0, keeps the bytes in use, a terminator included, and
-- puts exactly the given bytes behind them, within the storage, if no size overflows.
pub append_memory_lem :
    (a : Allocator) (b : Buffer) (s : Bytes)
    → IsValid b
    → IsSmall b (length s)
    → (c : Buffer) × (append_memory a b (some s) ≡ some (c, ok))
      × IsValid c
      × (c.used ≡ b.used + length s)
      × (take c.used c.ptr ≡ take b.used b.ptr ++ s)
unfolding append_memory
append_memory_lem a b s v small = elim (Bool-cases (length s == 0)) [
  | inl e ↦
      let n : s ≡ [] = length-eq-zero s ((==_iff (length s) 0).0 e) in
      rw e (b, refl, v, rw n (omega arith), rw (n, append-nil))
  | inr e ↦
      let c = prepare_append a b (length s) in
      let x = prepare_append-Extended a b (length s) v small in
      let fits : c.used + length s ≤ length c.ptr = omega (arith, x.valid, x.room, x.same_used) in
      let q = splice c.ptr c.used s in
      rw (e, memcpy_at-splice c.ptr c.used s fits)
        (
          record c { ptr = q; used = c.used + length s },
          ground (arith, x.bounded, x.same_used, v.fits),
          record {
            storage = length-splice c.ptr c.used s fits ∙ x.valid.storage;
            fits = omega (arith, x.valid, x.room, x.same_used);
          },
          omega (arith, x.same_used),
          take-splice c.ptr c.used s fits
              ∙ ap (λ u. u ++ s) (ap (λ n. take n c.ptr) x.same_used ∙ x.same_bytes),
        )
]

-- The storage that an append leaves is the one that was prepared.
pub append_string-size :
    (a : Allocator) (b c : Buffer) (s : Bytes)
    → append_string a b (some s) ≡ some (c, ok)
    → c.size ≡ (prepare_append a b (add_size (length s) 1)).size
unfolding append_string put_string memcpy_at
append_string-size a b c s h = ground arith
