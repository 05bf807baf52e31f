-- ===== src/Range/Tests.antt =====
-- The theorems on range requests at concrete headers.
use ylem.Base.{◌≡◌, refl, true, some, [], ◌∷◌, ◌++◌, codes, arith}
use ylem.Prepare.{absent, holds, header_insert}
use ylem.Range.{part, Reply, range_text, parse_range, serve_file}
use ylem.Range.Inside.{Fits, parse_range-Fits}
use ylem.Range.Single.{range_of, parse_range-single, serve_file-reversed}

abbrev fresh : Reply
fresh = record {
  http_status = 0;
  content_length = 0;
  pieces = [];
  content_type = codes "text/plain";
  content_range_key = codes "Content-Range";
  content_range = absent;
}

parse_range-Fits_example : Fits 100 (parse_range 100 (codes "0-4,90-200") fresh).1
parse_range-Fits_example = parse_range-Fits 100 (codes "0-4,90-200") fresh (omega arith) refl

-- A module has set the header already.
abbrev marked : Reply
marked = record fresh {
  content_range_key = codes "content-range";
  content_range = holds (codes "x");
}

parse_range-single_example : parse_range 100 (range_of 90 200) marked ≡ (
  true,
  record marked {
    content_length = 10;
    pieces = part 90 10 ∷ [];
    content_range = holds (codes "x\r\ncontent-range: bytes " ++ range_text 90 99 100);
  },
)
unfolding header_insert
parse_range-single_example =
    parse_range-single 90 200 (omega arith) (omega arith) 100 marked (omega arith) (omega arith)
      (omega arith)

serve_file-reversed_example : serve_file 100 (some (range_of 9 3)) fresh ≡ fresh
serve_file-reversed_example =
    serve_file-reversed 9 3 (omega arith) (omega arith) 100 fresh (omega arith)
