-- ===== src/Memory/Copy.antt =====
-- What a copy into an object leaves there.
use ylem.Base.{
  ℕ, ◌+◌, ◌≤◌, ◌≡◌, sym, ◌∙◌, Bytes, some, [], ◌∷◌, ◌++◌, length, take, drop, arith, ap,
  length-append, length-take, length-drop, take-append_le, take-take, take-append_length,
  append_assoc,
}
use ylem.Memory.{splice, memcpy_at}

module _ (p : Bytes) (off : ℕ) (s : Bytes) (fits : off + length s ≤ length p) where
  pub length-splice : length (splice p off s) ≡ length p
  unfolding splice
  length-splice = omega (
    arith,
    length-append (take off p) (s ++ drop (off + length s) p),
    length-append s (drop (off + length s) p),
    length-take off p,
    length-drop (off + length s) p,
  )

  pub memcpy_at-splice : memcpy_at p off s ≡ some (splice p off s)
  unfolding memcpy_at
  memcpy_at-splice = ground arith

  -- Bytes below the offset stay.
  pub take-splice_le : (k : ℕ) → k ≤ off → take k (splice p off s) ≡ take k p
  unfolding splice
  take-splice_le k h =
      take-append_le k (take off p) _ (omega (arith, length-take off p)) ∙ take-take k off p h

  -- Up to the end of the copy stand the old bytes and then the copied ones.
  pub take-splice : take (off + length s) (splice p off s) ≡ take off p ++ s
  unfolding splice
  take-splice =
      ap (take (off + length s)) (sym (append_assoc (take off p) s _))
      ∙ take-append_length (off + length s) (take off p ++ s) _
          (omega (arith, length-append (take off p) s, length-take off p))

-- Two copies, one behind the other, with the terminator as the second.
module _ (p : Bytes) (off : ℕ) (s : Bytes) (fits : off + length s + 1 ≤ length p) where
  pub terminated : Bytes
  terminated = splice (splice p off s) (off + length s) (0 ∷ [])

  pub memcpy_at-first : memcpy_at p off s ≡ some (splice p off s)
  memcpy_at-first = memcpy_at-splice p off s (omega arith)

  pub memcpy_at-terminated : memcpy_at (splice p off s) (off + length s) (0 ∷ []) ≡ some terminated
  unfolding terminated
  memcpy_at-terminated =
      memcpy_at-splice (splice p off s) (off + length s) (0 ∷ [])
        (omega (arith, length-splice p off s (omega arith)))

  pub length-terminated : length terminated ≡ length p
  unfolding terminated
  length-terminated =
      length-splice (splice p off s) (off + length s) (0 ∷ [])
        (omega (arith, length-splice p off s (omega arith)))
      ∙ length-splice p off s (omega arith)

  pub take-terminated : take (off + length s + 1) terminated ≡ (take off p ++ s) ++ 0 ∷ []
  unfolding terminated
  take-terminated =
      take-splice (splice p off s) (off + length s) (0 ∷ [])
        (omega (arith, length-splice p off s (omega arith)))
      ∙ ap (λ t. t ++ 0 ∷ []) (take-splice p off s (omega arith))
