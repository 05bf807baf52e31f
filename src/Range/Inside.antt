-- ===== src/Range/Inside.antt =====
-- What is queued lies in the file, and is counted.
use ylem.Base.{
  ℕ, zero, suc, ◌+◌, ◌%◌, ◌^◌, ◌≤◌, ◌<◌, ◌≡◌, refl, ◌⊎◌, inl, inr, Bytes, Bool, true, false, ◌||◌,
  none, some, List, [], ◌∷◌, ◌++◌, length, arith, Bool-cases, Option-cases,
}
use ylem.Request.Line.{split_at}
use ylem.Memory.{slt}
use ylem.Range.{
  Piece, text, part, Reply, pred, Parsed, bad, good, parse_one, add_text, add_part, span,
  queue_range, cut_start, cut_stop, Served, failed, served, no_fuel, serve_ranges, finish_ranges,
  insert_range, parse_range, boundary_header,
}
use ylem.Range.Cut.{cut-Inside, parse_one-good}

-- A part of the file lies in it and is not empty.
abbrev pub IsInside : ℕ → Piece → Type 0
IsInside size (text s) = Unit
IsInside size (part start len) = (1 ≤ len) × (start + len ≤ size)

abbrev pub AllInside : ℕ → List Piece → Type 0
AllInside size [] = Unit
AllInside size (p ∷ ps) = IsInside size p × AllInside size ps

abbrev pub piece_length : Piece → ℕ
piece_length (text s) = length s
piece_length (part start len) = len

abbrev pub total : List Piece → ℕ
total [] = 0
total (p ∷ ps) = piece_length p + total ps

-- The parts lie in the file, and `content_length` is the number of bytes that are queued.
abbrev pub Fits : ℕ → Reply → Type 0
Fits size r = AllInside size r.pieces × (r.content_length ≡ total r.pieces % 2 ^ 64)

AllInside-append :
    (size : ℕ) (ps : List Piece) (p : Piece)
    → AllInside size ps
    → IsInside size p
    → AllInside size (ps ++ p ∷ [])
AllInside-append size [] p h i = (i, tt)
AllInside-append size (q ∷ ps) p h i = (h.0, AllInside-append size ps p h.1 i)

total-append : (ps : List Piece) (p : Piece) → total (ps ++ p ∷ []) ≡ total ps + piece_length p
total-append [] p = omega arith
total-append (q ∷ ps) p = omega (arith, total-append ps p)

add_text-Fits : (size : ℕ) (s : Bytes) (r : Reply) → Fits size r → Fits size (add_text s r)
unfolding add_text
add_text-Fits size s r h =
    (AllInside-append size r.pieces (text s) h.0 tt, omega (arith, total-append r.pieces (text s)))

add_part-Fits :
    (size start len : ℕ) (r : Reply)
    → IsInside size (part start len)
    → Fits size r
    → Fits size (add_part start len r)
unfolding add_part
add_part-Fits size start len r i h = (
  AllInside-append size r.pieces (part start len) h.0 i,
  omega (arith, total-append r.pieces (part start len)),
)

queue_range-Fits :
    (size start stop : ℕ) (multipart : Bool) (r : Reply)
    → size < 2 ^ 63
    → start ≤ stop
    → stop < size
    → Fits size r
    → Fits size (queue_range size multipart start stop r)
unfolding queue_range
queue_range-Fits size start stop true r small le lt h =
    let headed = add_text (boundary_header start stop size r.content_type) r in
    add_part-Fits size start (span start stop) headed (omega arith, omega arith)
      (add_text-Fits size (boundary_header start stop size r.content_type) r h)
queue_range-Fits size start stop false r small le lt h =
    add_part-Fits size start (span start stop) r (omega arith, omega arith) h

-- The loop ends, and what it leaves fits.
abbrev Kept : ℕ → Served → Type 0
Kept size (failed r) = Fits size r
Kept size (served start stop multipart r) = Fits size r
Kept size no_fuel = ⊥

Parsed-cases :
    (p : Parsed)
    → (p ≡ bad none)
      ⊎ ((n : ℕ) × (p ≡ bad (some n)))
      ⊎ ((x : ℕ) × (y : ℕ) × (c : Bool) × (t : Bytes) × (p ≡ good x y c t))
Parsed-cases (bad none) = inl refl
Parsed-cases (bad (some n)) = inr (inl (n, refl))
Parsed-cases (good x y c t) = inr (inr (x, y, c, t, refl))

serve_ranges-Kept :
    (fuel size : ℕ) (s : Bytes) (start stop : ℕ) (multipart : Bool) (r : Reply)
    → size < 2 ^ 63
    → length s < fuel
    → Fits size r
    → Kept size (serve_ranges fuel size s start stop multipart r)
unfolding serve_ranges
serve_ranges-Kept zero size s start stop multipart r small f h = absurd (omega arith)
serve_ranges-Kept (suc fuel) size s start stop multipart r small f h =
    elim (Option-cases (split_at b'-' s)) [
      | inl n ↦ rw (serve_ranges, n) h
      | inr ((before, after), q) ↦ elim (Parsed-cases (parse_one size s before after)) [
        | inl e ↦ rw (serve_ranges, q, e) h
        | inr (inl (n, e)) ↦ rw (serve_ranges, q, e) h
        | inr (inr (x, y, c, t, e)) ↦ elim (Bool-cases (slt (pred size) (cut_start x))) [
          | inl z ↦ rw (serve_ranges, q, e, z) h
          | inr z ↦
              let (range, shorter) = parse_one-good size s before after t x y c q e in
              let (le, lt) = cut-Inside size x y small range z in
              rw (serve_ranges, q, e, z)
                (serve_ranges-Kept fuel size t (cut_start x) (cut_stop size y) (multipart || c)
                  (queue_range size (multipart || c) (cut_start x) (cut_stop size y) r) small
                  (omega (arith, shorter))
                  (queue_range-Fits size (cut_start x) (cut_stop size y) (multipart || c) r small le
                    lt h))
        ]
      ]
    ]

finish_ranges-Fits : (size : ℕ) (o : Served) → Kept size o → Fits size (finish_ranges size o).1
unfolding finish_ranges insert_range
finish_ranges-Fits size (failed r) h = h
finish_ranges-Fits size (served start stop true r) h = add_text-Fits size _ r h
finish_ranges-Fits size (served start stop false r) h = h
finish_ranges-Fits size no_fuel h = absurd h

-- Whatever the header Range says, each part that is queued lies in the file and is not empty, and the
-- content length is the number of all bytes that are queued, also those of the boundaries, if the
-- write queue was empty and the size is an `off_t`.
pub parse_range-Fits :
    (size : ℕ) (range : Bytes) (r : Reply)
    → size < 2 ^ 63
    → r.pieces ≡ []
    → Fits size (parse_range size range r).1
unfolding parse_range
parse_range-Fits size range r small empty =
    let start = record r { content_length = 0 } in
    let begin : Fits size start = rw empty (tt, refl) in
    finish_ranges-Fits size (serve_ranges (suc (length range)) size range 0 (pred size) false start)
      (serve_ranges-Kept (suc (length range)) size range 0 (pred size) false start small
        (omega arith) begin)
