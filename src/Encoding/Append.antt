-- ===== src/Encoding/Append.antt =====
-- `buffer_append_string_encoded` stays within the storage and appends the encoded text.
use ylem.Base.{
  ◌+◌, ◌-◌, ◌≤◌, Bytes, false, some, [], ◌∷◌, ◌++◌, length, take, get_elem?, ◌==◌, ◌≡◌, ◌≢◌, refl,
  sym, ap, ◌∙◌, inl, inr, arith, Bool-cases, append-nil, get_elem?-append_ge, get_elem?-take,
  length-append, length-eq-zero, take-take,
}
use ylem.Memory.{Allocator, add_size}
use ylem.Memory.Copy.{
  terminated, memcpy_at-first, memcpy_at-terminated, length-terminated, take-terminated,
}
use ylem.Buffer.{Buffer, prepare_append}
use ylem.Buffer.Inv.{IsValid, Holds, IsSmall, Extended, prepare_append-Extended}
use ylem.Buffer.Append.{Yields, Holds-content}
use ylem.Encoding.{Encoding, char_map, encode, put_encoded, append_checked, append_string_encoded}
use ylem.Encoding.Bytewise.{length-encode, encode-nil}

module _ (b c : Buffer) (t out : Bytes) (h : Holds b t) (busy : b.used ≢ 0)
    (x : Extended b (length out) c) (small : IsSmall b (length out)) where
  used-eq : c.used ≡ length t + 1
  used-eq = elim h [ inl e ↦ absurd (busy e.0) | inr e ↦ omega (arith, x.same_used, e.0) ]

  fits : c.used - 1 + length out + 1 ≤ length c.ptr
  fits = ground (arith, used-eq)

  abbrev q : Bytes
  q = terminated c.ptr (c.used - 1) out fits

  second : c.used + length out - 1 ≡ c.used - 1 + length out
  second = omega (arith, used-eq)

  total : add_size c.used (length out) ≡ c.used - 1 + length out + 1
  total = ground (arith, used-eq)

  before : take (c.used - 1) c.ptr ≡ t
  before = ground (
    arith,
    x.same_bytes,
    Holds-content b t h,
    take-take (c.used - 1) b.used c.ptr,
    take-take (c.used - 1) b.used b.ptr,
  )

  image : take (add_size c.used (length out)) q ≡ (t ++ out) ++ 0 ∷ []
  image =
      ap (λ n. take n q) total
      ∙ take-terminated c.ptr (c.used - 1) out fits
      ∙ ap (λ y. (y ++ out) ++ 0 ∷ []) before

  put_encoded-Yields : Yields (put_encoded c out) (t ++ out)
  unfolding put_encoded
  put_encoded-Yields =
      rw
        (
          memcpy_at-first c.ptr (c.used - 1) out fits,
          second,
          memcpy_at-terminated c.ptr (c.used - 1) out fits,
        )
        (
          record c { ptr = q; used = add_size c.used (length out) },
          refl,
          record {
            storage = length-terminated c.ptr (c.used - 1) out fits ∙ x.valid.storage;
            fits = omega (arith, total, x.room, x.same_used);
          },
          inr (omega (arith, total, used-eq, length-append t out), image),
        )

Holds-last :
    (b : Buffer) (t : Bytes)
    → Holds b t
    → b.used ≢ 0
    → IsValid b
    → get_elem? b.ptr (b.used - 1) ≡ some 0
Holds-last b t (inl e) busy v = absurd (busy e.0)
Holds-last b t (inr (e, h)) busy v =
    let last : b.used - 1 ≡ length t = omega arith in
    let none_before : length t - length t ≡ 0 = omega arith in
    sym (get_elem?-take b.used b.ptr (b.used - 1) (omega arith))
    ∙ ap (λ y. get_elem? y (b.used - 1)) h
    ∙ ap (get_elem? (t ++ 0 ∷ [])) last
    ∙ get_elem?-append_ge t (0 ∷ []) (length t) (omega arith)
    ∙ ap (get_elem? (0 ∷ [])) none_before

module _ (a : Allocator) (b : Buffer) (t s chars : Bytes) (e : Encoding) (v : IsValid b)
    (h : Holds b t) (busy : b.used ≢ 0) (found : char_map e ≡ some chars)
    (small : IsSmall b (length (encode e chars s))) where
  grown : Extended b (length (encode e chars s)) (prepare_append a b (length (encode e chars s)))
  grown = prepare_append-Extended a b (length (encode e chars s)) v small

  append_checked-Yields : Yields (append_checked a b s e) (t ++ encode e chars s)
  unfolding append_checked
  append_checked-Yields = elim (Bool-cases (length s == 0)) [
    | inl z ↦
        let empty : s ≡ [] = length-eq-zero s (ground arith) in
        (b, rw (z, append_checked) refl, v, rw (empty, encode-nil e chars, append-nil t) h)
    | inr z ↦
        rw (append_checked, z, found, sym (length-encode e chars s))
          (put_encoded-Yields b (prepare_append a b (length (encode e chars s))) t
            (encode e chars s) h busy grown small)
  ]

  -- On a valid buffer that holds a string in use, `buffer_append_string_encoded` returns 0 with
  -- every encoding but ENCODING_UNSET, writes within the storage and appends the encoded bytes, if
  -- no size overflows.
  pub append_string_encoded-Yields :
      Yields (append_string_encoded a b (some s) e) (t ++ encode e chars s)
  unfolding append_string_encoded
  append_string_encoded-Yields =
      let no : (b.used == 0) ≡ false = ground arith in
      rw (no, Holds-last b t h busy v) append_checked-Yields
