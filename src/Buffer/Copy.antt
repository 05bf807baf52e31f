-- ===== src/Buffer/Copy.antt =====
-- What the copying operations leave in the buffer, and the long-hex printer's storage.
use ylem.Base.{
  ◌+◌, ◌≤◌, ◌≡◌, inl, inr, refl, ◌∙◌, ap, Bytes, false, some, [], ◌∷◌, ◌++◌, length, take, arith,
  ◌==◌, length-append,
}
use ylem.Memory.{Allocator, add_size, memcpy_at, splice}
use ylem.Memory.Copy.{
  terminated, memcpy_at-first, memcpy_at-terminated, length-terminated, take-terminated,
  length-splice, take-splice, memcpy_at-splice,
}
use ylem.Buffer.{
  Buffer, ok, prepare_copy, copy_string, copy_string_len, copy_string_buffer, copy_memory,
}
use ylem.Buffer.Inv.{IsValid, Holds, IsSmall, Prepared, prepare_copy-Prepared}
use ylem.Buffer.Append.{Yields, Holds-content, append_memory_lem}

module _ (a : Allocator) (b : Buffer) (s : Bytes) (v : IsValid b)
    (small : IsSmall b (length s + 1)) where
  small_size : add_size (length s) 1 ≡ length s + 1
  small_size = omega arith

  abbrev fresh : Buffer
  fresh = prepare_copy a b (length s + 1)

  x : Prepared b (length s + 1) fresh
  x = prepare_copy-Prepared a b (length s + 1) v small

  fits : 0 + length s + 1 ≤ length fresh.ptr
  fits = omega (arith, x)

  -- A storage whose first bytes are `s` and a terminator is what the operation has to leave.
  copied :
      (q : Bytes)
      → length q ≡ length fresh.ptr
      → take (0 + length s + 1) q ≡ s ++ 0 ∷ []
      → let c = record fresh { ptr = q; used = length s + 1 } in IsValid c × Holds c s
  copied q len image =
      (omega (arith, x, x.valid), inr (refl, ap (λ n. take n q) (omega arith) ∙ image))

  second :
      memcpy_at (splice fresh.ptr 0 s) (length s) (0 ∷ []) ≡ some (terminated fresh.ptr 0 s fits)
  second =
      ap (λ n. memcpy_at (splice fresh.ptr 0 s) n (0 ∷ [])) (omega arith)
      ∙ memcpy_at-terminated fresh.ptr 0 s fits

  -- `buffer_copy_string_len` returns 0 and replaces whatever a valid buffer held by `s` and a
  -- terminator, within the storage, if no size overflows.
  pub copy_string_len-Yields : Yields (copy_string_len a b (some s)) s
  unfolding copy_string_len
  copy_string_len-Yields =
      let q = terminated fresh.ptr 0 s fits in
      let done =
        copied q (length-terminated fresh.ptr 0 s fits) (take-terminated fresh.ptr 0 s fits) in
      rw (small_size, memcpy_at-first fresh.ptr 0 s fits, second)
        (record fresh { ptr = q; used = length s + 1 }, refl, done.0, done.1)

  string_fits : 0 + length (s ++ 0 ∷ []) ≤ length fresh.ptr
  string_fits = omega (arith, fits, length-append s (0 ∷ []))

  -- `buffer_copy_string` does the same for a C string.
  pub copy_string-Yields : Yields (copy_string a b (some s)) s
  unfolding copy_string
  copy_string-Yields =
      let q = splice fresh.ptr 0 (s ++ 0 ∷ []) in
      let image : take (0 + length s + 1) q ≡ s ++ 0 ∷ [] =
        ap (λ n. take n q) (omega (arith, length-append s (0 ∷ [])))
        ∙ take-splice fresh.ptr 0 (s ++ 0 ∷ []) string_fits in
      let done = copied q (length-splice fresh.ptr 0 (s ++ 0 ∷ []) string_fits) image in
      rw (small_size, memcpy_at-splice fresh.ptr 0 (s ++ 0 ∷ []) string_fits)
        (record fresh { ptr = q; used = length s + 1 }, refl, done.0, done.1)

-- A whole buffer copied over another; the destination need not hold a string.
module _ (a : Allocator) (b src : Buffer) (s : Bytes) (v : IsValid b) (hs : Holds src s)
    (small : IsSmall b (length s + 1)) where
  pub copy_string_buffer-Yields : Yields (copy_string_buffer a b (some src)) s
  unfolding copy_string_buffer
  copy_string_buffer-Yields = elim hs [
    | inl (e, n) ↦ rw e (record b { used = 0 }, refl, ground arith, inl (refl, n))
    | inr (e, hold) ↦
        let used_pos : (src.used == 0) ≡ false = ground arith in
        rw (used_pos, Holds-content src s (inr (e, hold))) (copy_string_len-Yields a b s v small)
  ]

-- `buffer_copy_memory` leaves exactly the given bytes, with no terminator.
pub copy_memory_lem :
    (a : Allocator) (b : Buffer) (s : Bytes)
    → IsValid b
    → IsSmall b (length s)
    → (c : Buffer) × (copy_memory a b (some s) ≡ some (c, ok))
      × IsValid c
      × (c.used ≡ length s)
      × (take c.used c.ptr ≡ s)
unfolding copy_memory
copy_memory_lem a b s v small =
    let (c, e, valid, used, bytes) =
      append_memory_lem a (record b { used = 0 }) s (ground arith) small in
    (c, e, valid, omega arith, bytes)

-- The storage that a copy leaves is the one that was prepared.
pub copy_string-size :
    (a : Allocator) (b c : Buffer) (s : Bytes)
    → copy_string a b (some s) ≡ some (c, ok)
    → c.size ≡ (prepare_copy a b (add_size (length s) 1)).size
unfolding copy_string memcpy_at
copy_string-size a b c s h = ground arith
