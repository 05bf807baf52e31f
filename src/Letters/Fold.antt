-- ===== src/Letters/Fold.antt =====
-- What case folding leaves in a buffer.
use ylem.Base.{
  ℕ, ◌+◌, Bytes, true, false, some, [], ◌∷◌, ◌++◌, length, take, drop, ◌==◌, ◌≡◌, refl, sym, ap,
  ◌∙◌, inl, inr, map, arith, length-append, take-append-drop, append_assoc, take-append_length,
}
use ylem.Buffer.{Buffer}
use ylem.Buffer.Inv.{IsValid, Holds}
use ylem.Buffer.Append.{Yields}
use ylem.Encoding.Bytewise.{all_bytes}
use ylem.Encoding.Url.{is_text}
use ylem.Letters.{lower, upper, change_from, change_case, to_lower, to_upper}

module _ (f : ℕ → ℕ) where
  pub length-map : (t : Bytes) → length (map f t) ≡ length t
  length-map [] = refl
  length-map (c ∷ t) = omega (arith, length-map t)

  change_from-text :
      (t rest : Bytes)
      → all_bytes is_text t ≡ true
      → change_from f (t ++ 0 ∷ rest) ≡ some (map f t ++ 0 ∷ rest)
  unfolding change_from
  change_from-text [] rest h = refl
  change_from-text (c ∷ t) rest h =
      let here : (c == 0) ≡ false = ground arith in
      rw (change_from, here, change_from-text t rest (ground arith)) refl

  module _ (b : Buffer) (t : Bytes) (v : IsValid b) (text : all_bytes is_text t ≡ true)
      (e : b.used ≡ length t + 1) (held : take b.used b.ptr ≡ t ++ 0 ∷ []) where
    abbrev rest : Bytes
    rest = drop b.used b.ptr

    abbrev changed : Bytes
    changed = map f t ++ 0 ∷ rest

    storage-eq : b.ptr ≡ t ++ 0 ∷ rest
    storage-eq =
        sym (take-append-drop b.used b.ptr)
        ∙ ap (λ y. y ++ rest) held
        ∙ append_assoc t (0 ∷ []) rest

    length-changed : length changed ≡ length b.ptr
    length-changed = omega (
      arith,
      length-append (map f t) (0 ∷ rest),
      length-append t (0 ∷ rest),
      length-map t,
      ap length storage-eq,
    )

    image : take b.used changed ≡ map f t ++ 0 ∷ []
    image =
        ap (take b.used) (sym (append_assoc (map f t) (0 ∷ []) rest))
        ∙ take-append_length b.used (map f t ++ 0 ∷ []) rest
            (omega (arith, length-append (map f t) (0 ∷ []), length-map t, e))

    done : Yields (change_case f b) (map f t)
    unfolding change_case
    done =
        let busy : (b.used == 0) ≡ false = ground (arith, e) in
        rw (busy, ap (change_from f) storage-eq ∙ change_from-text t rest text)
          (
            record b { ptr = changed },
            refl,
            record { storage = length-changed ∙ v.storage; fits = v.fits },
            inr (omega (arith, e, length-map t), image),
          )

  change_case-Yields :
      (b : Buffer) (t : Bytes)
      → IsValid b
      → Holds b t
      → all_bytes is_text t ≡ true
      → Yields (change_case f b) (map f t)
  unfolding change_case
  change_case-Yields b t v (inl (z, n)) text =
      let empty : (b.used == 0) ≡ true = ground (arith, z) in
      (b, rw empty refl, v, inl (z, ap (map f) n))
  change_case-Yields b t v (inr (e, held)) text = done b t v text e held

-- On a valid buffer that holds a string, `buffer_to_lower` returns 0 and leaves the string with its
-- ASCII capitals in lower case, and every other byte as it was.
to_lower-Yields :
    (b : Buffer) (t : Bytes)
    → IsValid b
    → Holds b t
    → all_bytes is_text t ≡ true
    → Yields (to_lower b) (map lower t)
unfolding to_lower
to_lower-Yields b t v h text = change_case-Yields lower b t v h text

-- The same for `buffer_to_upper` and small letters.
pub to_upper-Yields :
    (b : Buffer) (t : Bytes)
    → IsValid b
    → Holds b t
    → all_bytes is_text t ≡ true
    → Yields (to_upper b) (map upper t)
unfolding to_upper
to_upper-Yields b t v h text = change_case-Yields upper b t v h text
