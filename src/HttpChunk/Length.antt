-- ===== src/HttpChunk/Length.antt =====
-- The line with the length of a chunk, as `http_chunk_append_len` writes it into its buffer.
use ylem.Base.{
  ℕ, zero, suc, ◌+◌, ◌/◌, ◌%◌, ◌^◌, ◌≤◌, ◌<◌, ◌≡◌, refl, sym, ap, ◌∙◌, inl, inr, Bytes, some, [],
  ◌∷◌, ◌++◌, length, take, drop, arith, ◌==◌, if◌then◌else◌, ◌⊎◌, Bool-cases, length-append,
  append_assoc, codes, length-drop, length-take, take-append_length, ◌>>=◌,
}
use ylem.Memory.{Allocator, splice}
use ylem.Memory.Copy.{memcpy_at-splice, length-splice, take-splice}
use ylem.Buffer.{Buffer, prepare_copy, prepare_append, copy_string}
use ylem.Buffer.Inv.{IsValid, Holds, prepare_copy-Prepared, Prepared}
use ylem.Buffer.Append.{append_string-Yields, append_string-size}
use ylem.Buffer.Copy.{copy_string-Yields, copy_string-size}
use ylem.HttpChunk.{count_digits, hex_digit, write_digits, write_len, len_line}
use ylem.HttpChunk.Digits.{hex_text, len_text, length-len_text, length-hex_text, count_digits-bound}

drop-append_length : (n : ℕ) (s t : Bytes) → length s ≡ n → drop n (s ++ t) ≡ t
drop-append_length zero [] t h = refl
drop-append_length zero (c ∷ s) t h = absurd (omega arith)
drop-append_length (suc n) [] t h = absurd (omega arith)
drop-append_length (suc n) (c ∷ s) t h = drop-append_length n s t (omega arith)

drop-splice :
    (p : Bytes) (j d : ℕ) → j < length p → drop j (splice p j (d ∷ [])) ≡ d ∷ drop (j + 1) p
unfolding splice
drop-splice p j d h = drop-append_length j (take j p) _ (omega (arith, length-take j p))

-- The loop writes the digits over the front of the storage.
write_digits_lem :
    (i n : ℕ) (p : Bytes) → i ≤ length p → write_digits i n p ≡ some (hex_text i n ++ drop i p)
unfolding write_digits
write_digits_lem zero n p h = refl
write_digits_lem (suc j) n p h =
    let d = hex_digit (n % 16) in
    let q = splice p j (d ∷ []) in
    rw (memcpy_at-splice p j (d ∷ []) (omega arith)) (
      write_digits_lem j (n / 16) q (omega (arith, length-splice p j (d ∷ []) (omega arith)))
      ∙ ap (λ t. some (hex_text j (n / 16) ++ t)) (drop-splice p j d (omega arith))
      ∙ ap (λ t. some (hex_text j (n / 16) ++ d ∷ drop t p)) {y = suc j} (omega arith)
      ∙ ap some (sym (append_assoc (hex_text j (n / 16)) (d ∷ []) (drop (suc j) p))))

-- A valid buffer far below the end of memory.
abbrev pub IsModest : Buffer → Type 0
IsModest b = IsValid b × (b.size + 2048 < 2 ^ 64)

module _ (a : Allocator) (b : Buffer) (n : ℕ) (v : IsModest b) where
  abbrev digits : ℕ
  digits = count_digits 8 n

  abbrev prepared : Buffer
  prepared = prepare_copy a b (digits + 1)

  x : Prepared b (digits + 1) prepared
  x = prepare_copy-Prepared a b (digits + 1) v.0 (omega (arith, count_digits-bound 8 n, v.1))

  abbrev spelled : Bytes
  spelled = hex_text digits n ++ drop digits prepared.ptr

  length-spelled : length spelled ≡ length prepared.ptr
  length-spelled = omega (
    arith,
    length-append (hex_text digits n) (drop digits prepared.ptr),
    length-hex_text digits n,
    length-drop digits prepared.ptr,
    x.valid,
    x.room,
  )

  write_len-Holds :
      (c : Buffer) × (write_len a b n ≡ some c)
      × IsValid c
      × Holds c (hex_text digits n)
      × (c.size ≡ prepared.size)
  unfolding write_len
  write_len-Holds =
      let room : digits + 1 ≤ length spelled = omega (arith, length-spelled, x.valid, x.room) in
      let q = splice spelled digits (0 ∷ []) in
      let image : take (digits + 1) q ≡ hex_text digits n ++ 0 ∷ [] =
        take-splice spelled digits (0 ∷ []) room
        ∙ ap (λ t. t ++ 0 ∷ [])
            (take-append_length digits (hex_text digits n) _ (length-hex_text digits n)) in
      (
        record prepared { ptr = q; used = digits + 1 },
        rw
            (
              write_digits_lem digits n prepared.ptr (omega (arith, x.valid, x.room)),
              memcpy_at-splice spelled digits (0 ∷ []) room,
            )
            refl,
        omega (arith, length-splice spelled digits (0 ∷ []) room, length-spelled, x.valid, x.room),
        inr (omega (arith, length-hex_text digits n), image),
        refl,
      )

-- Room for ten bytes is made at most once.
prepare_copy_lem :
    (a : Allocator) (b : Buffer) (n : ℕ)
    → n ≤ 9
    → ((prepare_copy a b n).size ≤ b.size) ⊎ ((prepare_copy a b n).size ≤ 128)
unfolding prepare_copy
prepare_copy_lem a b n k = ground arith

prepare_append_lem :
    (a : Allocator) (b : Buffer)
    → b.used ≤ 9
    → ((prepare_append a b 3).size ≤ b.size) ⊎ ((prepare_append a b 3).size ≤ 256)
unfolding prepare_append
prepare_append_lem a b k = ground arith

module _ (a : Allocator) (b : Buffer) (n : ℕ) (v : IsModest b) where
  -- The length without CRLF.
  start_line :
      (c : Buffer) × ((if n == 0
          then copy_string a b (some (codes "0")) >>= (λ r. some r.0)
          else write_len a b n)
        ≡ some c)
      × IsValid c
      × Holds c (len_text n)
      × ((c.size ≤ b.size) ⊎ (c.size ≤ 128))
  start_line = elim (Bool-cases (n == 0)) [
    | inl e ↦
        let (c, done, valid, holds) = copy_string-Yields a b (codes "0") v.0 (omega (arith, v.1)) in
        rw (e, done)
          (
            c,
            refl,
            valid,
            holds,
            rw (copy_string-size a b c (codes "0") done) (prepare_copy_lem a b 2 (omega arith)),
          )
    | inr e ↦
        let (c, done, valid, holds, size) = write_len-Holds a b n v in
        rw (e, done)
          (
            c,
            refl,
            valid,
            holds,
            rw size (
                prepare_copy_lem a b (count_digits 8 n + 1)
                  (omega (arith, count_digits-bound 8 n))),
          )
  ]

  -- The buffer holds the length in hexadecimal and CRLF, whatever it held before.
  pub len_line-Holds :
      (c : Buffer) × (len_line a b n ≡ some c) × IsModest c × Holds c (len_text n ++ codes "\r\n")
  unfolding len_line
  len_line-Holds =
      let (c, started, valid, holds, size) = start_line in
      let (d, done, valid', holds') =
        append_string-Yields a c (len_text n) (codes "\r\n") valid holds
          (omega (arith, v.1, size)) in
      let few : c.used ≤ 9 = omega (arith, holds, length-len_text n) in
      rw (started, done)
        (
          d,
          refl,
          (
            valid',
            omega (
              arith,
              append_string-size a c d (codes "\r\n") done,
              prepare_append_lem a c few,
              size,
              v.1,
            ),
          ),
          holds',
        )
