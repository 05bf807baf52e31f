-- ===== src/HttpChunk/Decode.antt =====
-- A reader of chunked bodies, and what it makes of framed data.
use ylem.Base.{
  ℕ, zero, suc, ◌+◌, ◌%◌, ◌^◌, ◌≤◌, ◌<◌, ◌≡◌, refl, ap, ◌∙◌, Bytes, true, false, Option, none, some,
  List, [], ◌∷◌, ◌++◌, length, take, drop, arith, ltb, leb, ◌==◌, if◌then◌else◌, codes, bytes_eq,
  append_assoc, length-append, take-append_length,
}
use ylem.HttpChunk.Digits.{len_text, read_hex, read_hex-len_text, length-len_text}

-- What http_chunk.c puts around the bytes `d`: their length modulo 2 ^ 32 in hexadecimal digits. Below
-- 2 ^ 32 bytes it is a chunk, and without bytes the last chunk, with no trailer.
abbrev pub frame : Bytes → Bytes
frame d = len_text (length d) ++ (codes "\r\n" ++ (d ++ codes "\r\n"))

-- The text behind CRLF.
unfoldable pub skip_crlf : Bytes → Option Bytes
skip_crlf [] = none
skip_crlf (c ∷ []) = none
skip_crlf (c ∷ d ∷ s) = if c == b'\r' then (if d == b'\n' then some s else none) else none

-- At least one digit, and CRLF.
unfoldable pub read_length : Bytes → Option (ℕ × Bytes)
read_length s =
    if ltb (length (read_hex 0 s).1) (length s)
    then elim (skip_crlf (read_hex 0 s).1) [ none ↦ none | some t ↦ some ((read_hex 0 s).0, t) ]
    else none

-- The data up to the last chunk, with nothing behind it; `fuel` bounds the number of chunks.
unfoldable pub decode_chunks : ℕ → Bytes → Option Bytes
decode_chunks zero s = none
decode_chunks (suc fuel) s = elim (read_length s) [
  | none ↦ none
  | some p ↦ elim (p.0 == 0) [
    | true ↦ if bytes_eq p.1 (codes "\r\n") then some [] else none
    | false ↦ elim (leb p.0 (length p.1)) [
      | false ↦ none
      | true ↦ elim (skip_crlf (drop p.0 p.1)) [
        | none ↦ none
        | some rest ↦ elim (decode_chunks fuel rest) [
          | none ↦ none
          | some more ↦ some (take p.0 p.1 ++ more)
        ]
      ]
    ]
  ]
]

abbrev pub decode : Bytes → Option Bytes
decode s = decode_chunks (length s) s

abbrev pub concat : List Bytes → Bytes
concat [] = []
concat (d ∷ ds) = d ++ concat ds

-- Data in chunks, and the last chunk.
abbrev pub body_of : List Bytes → Bytes
body_of [] = frame []
body_of (d ∷ ds) = frame d ++ body_of ds

-- Neither empty nor as long as a length of eight digits.
abbrev pub IsPiece : Bytes → Type 0
IsPiece d = (1 ≤ length d) × (length d < 2 ^ 32)

abbrev pub AllPieces : List Bytes → Type 0
AllPieces [] = Unit
AllPieces (d ∷ ds) = IsPiece d × AllPieces ds

read_hex-crlf : (n : ℕ) (s : Bytes) → read_hex n (codes "\r\n" ++ s) ≡ (n, codes "\r\n" ++ s)
unfolding read_hex
read_hex-crlf n s = refl

read_length-len_text :
    (n : ℕ) (s : Bytes) → n < 2 ^ 32 → read_length (len_text n ++ (codes "\r\n" ++ s)) ≡ some (n, s)
unfolding read_length skip_crlf
read_length-len_text n s h =
    let whole : read_hex 0 (len_text n ++ (codes "\r\n" ++ s)) ≡ (n, codes "\r\n" ++ s) =
      read_hex-len_text n (codes "\r\n" ++ s)
      ∙ read_hex-crlf (n % 2 ^ 32) s
      ∙ ap (λ m. (m, codes "\r\n" ++ s)) (omega arith) in
    let shorter : ltb (length (codes "\r\n" ++ s)) (length (len_text n ++ (codes "\r\n" ++ s)))
        ≡ true =
      ground (arith, length-append (len_text n) (codes "\r\n" ++ s), length-len_text n) in
    rw (whole, shorter, whole) refl

past_crlf : (s : Bytes) → skip_crlf (codes "\r\n" ++ s) ≡ some s
unfolding skip_crlf
past_crlf s = refl

drop-length : (s t : Bytes) → drop (length s) (s ++ t) ≡ t
drop-length [] t = refl
drop-length (c ∷ s) t = drop-length s t

pub decode-frame :
    (fuel : ℕ) (d rest more : Bytes)
    → IsPiece d
    → decode_chunks fuel rest ≡ some more
    → decode_chunks (suc fuel) (frame d ++ rest) ≡ some (d ++ more)
unfolding decode_chunks
decode-frame fuel d rest more h e =
    let same : frame d ++ rest
        ≡ len_text (length d) ++ (codes "\r\n" ++ (d ++ (codes "\r\n" ++ rest))) =
      simp append_assoc in
    let some_bytes : (length d == 0) ≡ false = ground arith in
    let enough : leb (length d) (length (d ++ (codes "\r\n" ++ rest))) ≡ true =
      ground (arith, length-append d (codes "\r\n" ++ rest)) in
    rw
      (
        same,
        decode_chunks,
        read_length-len_text (length d) (d ++ (codes "\r\n" ++ rest)) h.1,
        some_bytes,
        enough,
        drop-length d (codes "\r\n" ++ rest),
        past_crlf rest,
        e,
        take-append_length (length d) d (codes "\r\n" ++ rest) refl,
      )
      refl

last_frame : (fuel : ℕ) → decode_chunks (suc fuel) (frame []) ≡ some []
unfolding decode_chunks read_length read_hex skip_crlf bytes_eq
last_frame fuel = refl

decode-body :
    (ds : List Bytes) (fuel : ℕ)
    → length ds + 1 ≤ fuel
    → AllPieces ds
    → decode_chunks fuel (body_of ds) ≡ some (concat ds)
decode-body ds zero f h = absurd (omega arith)
decode-body [] (suc fuel) f h = last_frame fuel
decode-body (d ∷ ds) (suc fuel) f h =
    decode-frame fuel d (body_of ds) (concat ds) h.0 (decode-body ds fuel (omega arith) h.1)

length-body : (ds : List Bytes) → length ds + 1 ≤ length (body_of ds)
length-body [] = omega arith
length-body (d ∷ ds) = omega (
  arith,
  length-body ds,
  length-append (frame d) (body_of ds),
  length-append (len_text (length d)) (codes "\r\n" ++ (d ++ codes "\r\n")),
  length-len_text (length d),
)

-- The reader gets the data back.
pub decode-body_of : (ds : List Bytes) → AllPieces ds → decode (body_of ds) ≡ some (concat ds)
decode-body_of ds h = decode-body ds (length (body_of ds)) (length-body ds) h
