-- ===== src/Range/Single.antt =====
-- One range of two numbers.
use ylem.Base.{
  ℕ, zero, suc, ◌+◌, ◌-◌, ◌^◌, ◌≤◌, ◌<◌, ◌≡◌, refl, sym, ap, ◌∙◌, pos, Bytes, true, false, none,
  some, [], ◌∷◌, ◌++◌, length, arith, ◌==◌, if◌then◌else◌, codes, min, append-nil, length-append,
}
use ylem.Letters.{light_isdigit}
use ylem.Memory.{add_size, slt}
use ylem.Printing.{li_ltostr}
use ylem.Printing.Decimal.{strtol-li_ltostr, li_ltostr-AllDigits, AllDigits}
use ylem.Prepare.{header_insert}
use ylem.Request.Numbers.{strtol}
use ylem.Request.Line.{split_at, no_bytes}
use ylem.Range.{
  part, Reply, pred, bad, good, range_ends, parse_one, range_text, add_part, span, queue_range,
  cut_start, cut_stop, served, serve_ranges, insert_range, finish_ranges, parse_range, serve_file,
}

digit_other : (c : ℕ) → light_isdigit c ≡ true → (c == b'-') ≡ false
unfolding light_isdigit
digit_other c h = ground arith

digit_going : (c : ℕ) (s : Bytes) → light_isdigit c ≡ true → range_ends (c ∷ s) ≡ false
unfolding light_isdigit
digit_going c s h = ground arith

split_at-digits : (d t : Bytes) → AllDigits d → split_at b'-' (d ++ b'-' ∷ t) ≡ some (d, t)
unfolding split_at
split_at-digits [] t h = refl
split_at-digits (c ∷ d) t h =
    let other : (c == b'-') ≡ false = digit_other c h.0 in
    rw (split_at, other, split_at-digits d t h.1) refl

abbrev pub range_of : ℕ → ℕ → Bytes
range_of a b = li_ltostr (pos a) ++ b'-' ∷ li_ltostr (pos b)

print-going : (n : ℕ) → n < 2 ^ 63 → range_ends (li_ltostr (pos n)) ≡ false
print-going n h =
    let (all, (d, r, e)) = li_ltostr-AllDigits n h in
    let first : AllDigits (d ∷ r) = rw e at all in ap range_ends e ∙ digit_going d r first.0

print-some : (n : ℕ) → n < 2 ^ 63 → no_bytes (li_ltostr (pos n)) ≡ false
print-some n h = let (_, (d, r, e)) = li_ltostr-AllDigits n h in ap no_bytes e

module _ (a b : ℕ) (ha : a < 2 ^ 63) (hb : b < 2 ^ 63) where
  split_at-range_of : split_at b'-' (range_of a b) ≡ some (li_ltostr (pos a), li_ltostr (pos b))
  split_at-range_of =
      split_at-digits (li_ltostr (pos a)) (li_ltostr (pos b)) (li_ltostr-AllDigits a ha).0

  strtol-first : strtol (range_of a b) ≡ (a, b'-' ∷ li_ltostr (pos b))
  unfolding light_isdigit
  strtol-first = strtol-li_ltostr (pos a) (b'-' ∷ li_ltostr (pos b)) ha refl

  strtol-second : strtol (li_ltostr (pos b)) ≡ (b, [])
  strtol-second =
      ap strtol (sym (append-nil (li_ltostr (pos b)))) ∙ strtol-li_ltostr (pos b) [] hb refl

  parse_one-range_of :
      (size : ℕ)
      → parse_one size (range_of a b) (li_ltostr (pos a)) (li_ltostr (pos b))
        ≡ (if slt b a then bad none else good a b false [])
  unfolding parse_one
  parse_one-range_of size =
      let same : (length (b'-' ∷ li_ltostr (pos b)) == length (li_ltostr (pos b)) + 1) ≡ true =
        ground arith in
      rw (parse_one, print-some a ha, print-going b hb, strtol-first, same, strtol-second) refl

  ended :
      (fuel size start stop : ℕ) (r : Reply)
      → 1 ≤ fuel
      → serve_ranges fuel size [] start stop false r ≡ served start stop false r
  unfolding serve_ranges split_at
  ended zero size start stop r h = absurd (omega arith)
  ended (suc fuel) size start stop r h = refl

  some_text : 1 ≤ length (range_of a b)
  some_text = omega (arith, length-append (li_ltostr (pos a)) (b'-' ∷ li_ltostr (pos b)))

  -- A range of two numbers in order that begins in the file is answered by that part, cut at the end
  -- of the file, and by its Content-Range, which is inserted: a header of that name that is there
  -- gets a second line. The numbers and the size are below 2 ^ 63.
  pub parse_range-single :
      (size : ℕ) (r : Reply)
      → a ≤ b
      → a < size
      → size < 2 ^ 63
      → let stop = min b (size - 1) in
        parse_range size (range_of a b) r ≡ (
          true,
          record r {
            content_length = stop - a + 1;
            pieces = r.pieces ++ part a (stop - a + 1) ∷ [];
            content_range =
                header_insert r.content_range_key r.content_range
                  (some (codes "bytes " ++ range_text a stop size));
          },
        )
  unfolding parse_range serve_ranges finish_ranges queue_range add_part insert_range
  parse_range-single size r le lt small =
      let stop = min b (size - 1) in
      let forward : slt b a ≡ false = ground arith in
      let inside : slt (pred size) (cut_start a) ≡ false = ground arith in
      let begin : cut_start a ≡ a = ground arith in
      let end : cut_stop size b ≡ stop = ground arith in
      let len : span a stop ≡ stop - a + 1 = omega arith in
      let count : add_size 0 (stop - a + 1) ≡ stop - a + 1 = omega arith in
      rw
        (
          serve_ranges,
          split_at-range_of,
          parse_one-range_of size,
          forward,
          inside,
          begin,
          end,
          len,
          ended (length (range_of a b)) size a stop
              (add_part a (stop - a + 1) (record r { content_length = 0 })) some_text,
        )
        (rw count refl)

  -- A range of two numbers below 2 ^ 63 whose end lies before its start is refused with neither a
  -- part of the file nor a status: nothing is queued, and the status stays what it was.
  pub serve_file-reversed :
      (size : ℕ) (r : Reply)
      → b < a
      → serve_file size (some (range_of a b)) r ≡ record r { content_length = 0 }
  unfolding serve_file parse_range serve_ranges finish_ranges
  serve_file-reversed size r lt =
      let backward : slt b a ≡ true = ground arith in
      rw
        (
          serve_file,
          parse_range,
          serve_ranges,
          split_at-range_of,
          parse_one-range_of size,
          backward,
        )
        refl
