-- ===== src/Range.antt =====
-- Range requests: `http_response_parse_range` of storage/src/lighttpd/src/mod_staticfile.c and the end
-- of `mod_staticfile_subrequest`, which calls it. A number of type `off_t` is its bits, below
-- 2 ^ 64. The chunks that are appended to the write queue are listed by what they stand for; the
-- file is `con->physical.path`, whose size and Content-Type come from the stat cache.
pub mod Numbers
pub mod Cut
pub mod Inside
pub mod Single
mod Tests
use ylem.Base.{
  ℕ, zero, suc, ◌+◌, ◌-◌, ◌%◌, ◌^◌, ℤ, pos, negsuc, Bytes, Bool, true, false, not, ◌&&◌, ◌||◌,
  Option, none, some, List, [], ◌∷◌, ◌++◌, length, leb, ltb, ◌==◌, if◌then◌else◌, codes, is_null,
}
use ylem.Memory.{add_size, slt}
use ylem.Printing.{li_ltostr}
use ylem.Prepare.{HeaderValue, absent, header_insert}
use ylem.Request.Numbers.{strtol}
use ylem.Request.Line.{split_at, no_bytes}

-- A chunk: a text, or the bytes of the file from `start` on.
pub data Piece : Type 0 where
  text : (bytes : Bytes) → Piece
  part : (start len : ℕ) → Piece

-- The fields of the connection that are written: the status, `response.content_length`, the write
-- queue, the value of the header Content-Type, and the header Content-Range with the name it is
-- stored under, which is `Content-Range` if there is none yet.
pub record Reply : Type 0 where
  pub http_status : ℕ
  pub content_length : ℕ
  pub pieces : List Piece
  pub content_type : Bytes
  pub content_range_key : Bytes
  pub content_range : HeaderValue

-- `x - 1`
abbrev pub pred : ℕ → ℕ
pred x = (x + 2 ^ 64 - 1) % 2 ^ 64

-- One range: `error = 1`, with a status if one is set; or `start`, `end`, whether a comma follows,
-- and the text from the new `s` on.
pub data Parsed : Type 0 where
  bad : (status : Option ℕ) → Parsed
  good : (start stop : ℕ) (comma : Bool) (rest : Bytes) → Parsed

-- The text behind the numbers ends the header, or is a comma with more ranges behind it.
abbrev pub after_range : ℕ → ℕ → Bytes → Parsed
after_range start stop [] = good start stop false []
after_range start stop (c ∷ s) = if c == b',' then good start stop true s else bad none

abbrev pub range_ends : Bytes → Bool
range_ends [] = true
range_ends (c ∷ s) = c == b','

-- `s` with the text `before` its first hyphen and the text `after` it. `strtoll` ends at the hyphen
-- exactly if it leaves one byte more than `after` has.
unfoldable pub parse_one : ℕ → Bytes → Bytes → Bytes → Parsed
parse_one size s before after =
    let (la, err) = strtol s in
    if no_bytes before
    then (if la == 0 then bad (some 416) else after_range (add_size size la) (pred size) err)
    else if range_ends after
    then (if length err == length after + 1 then after_range la (pred size) after else bad none)
    else if length err == length after + 1
    then (let (le, err') = strtol after in if slt le la then bad none else after_range la le err')
    else bad none

abbrev pub boundary : Bytes
boundary = codes "fkj49sn38dcn3"

-- `start-end/size`
abbrev pub range_text : ℕ → ℕ → ℕ → Bytes
range_text start stop size =
    li_ltostr (pos start)
    ++ (codes "-" ++ (li_ltostr (pos stop) ++ (codes "/" ++ li_ltostr (pos size))))

abbrev pub boundary_header : ℕ → ℕ → ℕ → Bytes → Bytes
boundary_header start stop size content_type =
    codes "\r\n--"
    ++ (boundary
        ++ (codes "\r\nContent-Range: bytes "
            ++ (range_text start stop size
                ++ (codes "\r\nContent-Type: " ++ (content_type ++ codes "\r\n\r\n")))))

unfoldable pub add_text : Bytes → Reply → Reply
add_text s r = record r {
  pieces = r.pieces ++ text s ∷ [];
  content_length = add_size r.content_length (length s);
}

unfoldable pub add_part : ℕ → ℕ → Reply → Reply
add_part start len r = record r {
  pieces = r.pieces ++ part start len ∷ [];
  content_length = add_size r.content_length len;
}

-- The number of bytes from `start` to `stop`, both included.
abbrev pub span : ℕ → ℕ → ℕ
span start stop = add_size (add_size stop (2 ^ 64 - start)) 1

-- "if (!error)": the range is cut to the file, and queued.
unfoldable pub queue_range : ℕ → Bool → ℕ → ℕ → Reply → Reply
queue_range size multipart start stop r =
    let headed =
      if multipart then add_text (boundary_header start stop size r.content_type) r else r in
    add_part start (span start stop) headed

abbrev pub cut_start : ℕ → ℕ
cut_start start = if leb (2 ^ 63) start then 0 else start

abbrev pub cut_stop : ℕ → ℕ → ℕ
cut_stop size stop = if slt (pred size) stop then pred size else stop

-- Where the loop ends: with `error`, or with the last range and `multipart`.
pub data Served : Type 0 where
  failed : Reply → Served
  served : (start stop : ℕ) (multipart : Bool) → Reply → Served
  no_fuel : Served

unfoldable pub serve_ranges : ℕ → ℕ → Bytes → ℕ → ℕ → Bool → Reply → Served
serve_ranges zero size s start stop multipart r = no_fuel
serve_ranges (suc fuel) size s start stop multipart r = elim (split_at b'-' s) [
  | none ↦ served start stop multipart r
  | some halves ↦ elim (parse_one size s halves.0 halves.1) [
    | bad none ↦ failed r
    | bad (some status) ↦ failed (record r { http_status = status })
    | good start' stop' comma rest ↦ elim (slt (pred size) (cut_start start')) [
      | true ↦ failed (record r { http_status = 416 })
      | false ↦
          serve_ranges fuel size rest (cut_start start') (cut_stop size stop') (multipart || comma)
            (queue_range size (multipart || comma) (cut_start start') (cut_stop size stop') r)
    ]
  ]
]

-- `response_header_insert` of Content-Range: a value that is there gets a second line.
unfoldable pub insert_range : Bytes → Reply → Reply
unfolding header_insert
insert_range v r = record r {
  content_range = header_insert r.content_range_key r.content_range (some v);
}

-- "add boundary end", or the header Content-Range.
unfoldable pub finish_ranges : ℕ → Served → Bool × Reply
finish_ranges size no_fuel = (
  false,
  record {
    http_status = 0;
    content_length = 0;
    pieces = [];
    content_type = [];
    content_range_key = [];
    content_range = absent;
  },
)
finish_ranges size (failed r) = (false, r)
finish_ranges size (served start stop true r) = (
  true,
  record (add_text (codes "\r\n--" ++ (boundary ++ codes "--\r\n")) r) {
    content_type = codes "multipart/byteranges; boundary=" ++ boundary;
  },
)
finish_ranges size (served start stop false r) =
    (true, insert_range (codes "bytes " ++ range_text start stop size) r)

-- Is 0 returned, and what is left of the reply? `range` is `con->request.http_range`.
unfoldable pub parse_range : ℕ → Bytes → Reply → Bool × Reply
parse_range size range r = finish_ranges size (
    serve_ranges (suc (length range)) size range 0 (pred size) false
      (record r { content_length = 0 }))

-- The end of `mod_staticfile_subrequest`; `range` is none for a request without that header, or
-- one whose If-Range does not match. The response is not chunked at that time.
unfoldable pub serve_file : ℕ → Option Bytes → Reply → Reply
serve_file size none r = record r {
  http_status = 200;
  pieces = if size == 0 then r.pieces else r.pieces ++ part 0 size ∷ [];
}
serve_file size (some range) r =
    let (done, r') = parse_range size range r in
    if done then record r' { http_status = 206 } else r'
