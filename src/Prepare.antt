-- ===== src/Prepare.antt =====
-- The response before its header is written: `connection_handle_write_prepare` of
-- storage/src/lighttpd/src/connections.c up to the call of `http_response_write_header`, with
-- `response_header_insert` and `response_header_overwrite` of http-header-glue.c. The chunks of the
-- write queue are listed by what they stand for.
pub mod Delimited
mod Tests
use ylem.Base.{
  ℕ, ◌+◌, ◌-◌, ◌%◌, ◌^◌, ℤ, pos, negsuc, Bytes, Bool, true, false, not, ◌&&◌, ◌||◌, Option, none,
  some, List, [], ◌∷◌, ◌++◌, length, ltb, leb, ◌==◌, if◌then◌else◌, codes,
}
use ylem.Memory.{add_size, slt}
use ylem.Printing.{li_ltostr}
use ylem.HttpChunk.Digits.{len_text}
use ylem.Keyvalue.{
  HttpMethod, method_unset, method_get, method_post, method_head, method_options, method_propfind,
  method_mkcol, method_put, method_delete, method_copy, method_move, method_proppatch, method_lock,
  method_unlock, get_http_status_name, get_http_status_body_name,
}

-- A chunk: a text, or `len` bytes of the file of that name from `start` on.
pub data Body : Type 0 where
  body_text : (bytes : Bytes) → Body
  body_file : (name : Bytes) (start len : ℕ) → Body

-- A header of the response: there is none of that name, or its value is unused, or it has a value.
pub data HeaderValue : Type 0 where
  absent unused : HeaderValue
  holds : (value : Bytes) → HeaderValue

-- The fields of the connection that the function reads or writes. `direct` is `mode == DIRECT`;
-- `has_length` and `has_connection` are HTTP_CONTENT_LENGTH and HTTP_CONNECTION of
-- `parsed_response`, and `chunked` is the bit of `response.transfer_encoding`. A buffer is its
-- text, none if it is unused.
pub record ResponseState : Type 0 where
  pub direct : Bool
  pub http_method : HttpMethod
  pub http_status : ℕ
  pub uri_path : Option Bytes
  pub physical_path : Bytes
  pub errorfile_prefix : Option Bytes
  pub file_finished : Bool
  pub keep_alive : Bool
  pub response_keep_alive : Bool
  pub has_length : Bool
  pub has_connection : Bool
  pub chunked : Bool
  pub write_queue : List Body
  pub allow : HeaderValue
  pub content_type : HeaderValue
  pub content_length : HeaderValue

-- `response_header_insert`: a value that is there gets a second line.
unfoldable pub header_insert : Bytes → HeaderValue → Option Bytes → HeaderValue
header_insert key absent none = unused
header_insert key absent (some v) = holds v
header_insert key unused none = unused
header_insert key unused (some v) = holds v
header_insert key (holds old) none = holds (old ++ (codes "\r\n" ++ (key ++ codes ": ")))
header_insert key (holds old) (some v) = holds (old ++ (codes "\r\n" ++ (key ++ (codes ": " ++ v))))

-- `response_header_overwrite`; `buffer_copy_string` of NULL does nothing.
unfoldable pub header_overwrite : Bytes → HeaderValue → Option Bytes → HeaderValue
unfolding header_insert
header_overwrite key absent v = header_insert key absent v
header_overwrite key unused none = unused
header_overwrite key unused (some v) = holds v
header_overwrite key (holds old) none = holds old
header_overwrite key (holds old) (some v) = holds v

unfoldable pub one_of : ℕ → List ℕ → Bool
one_of n [] = false
one_of n (m ∷ ms) = n == m || one_of n ms

abbrev pub ok_or_unset : ℕ → Bool
ok_or_unset status = status == 0 || status == 200

abbrev pub names_file : Option Bytes → Bool
names_file none = false
names_file (some []) = true
names_file (some (c ∷ s)) = not (c == b'*')

-- `OPTIONS`, with the server's own answer.
unfoldable pub answer_options : ResponseState → ResponseState
unfolding header_insert
answer_options con = record con {
  allow = header_insert (codes "Allow") con.allow (some (codes "OPTIONS, GET, HEAD, POST"));
  chunked = false;
  has_length = false;
  http_status = 200;
  file_finished = true;
  write_queue = [];
}

unfoldable pub refuse_method : ResponseState → ResponseState
unfolding one_of
refuse_method con =
    if one_of con.http_status (400 ∷ 414 ∷ 505 ∷ 207 ∷ [])
    then con
    else record con { http_status = 501 }

-- The switch over the method.
unfoldable pub check_request_method : ResponseState → ResponseState
unfolding refuse_method answer_options
check_request_method con = elim con.http_method [
  | method_get ↦ con
  | method_post ↦ con
  | method_head ↦ con
  | method_put ↦ con
  | method_mkcol ↦ con
  | method_delete ↦ con
  | method_copy ↦ con
  | method_move ↦ con
  | method_propfind ↦ con
  | method_proppatch ↦ con
  | method_lock ↦ con
  | method_unlock ↦ con
  | method_options ↦
      if ok_or_unset con.http_status && names_file con.uri_path then answer_options con else con
  | _ ↦ refuse_method con
]

abbrev pub default_status : ResponseState → ResponseState
default_status con = if con.http_status == 0 then record con { http_status = 403 } else con

abbrev pub body_length : Body → ℕ
body_length (body_text s) = length s
body_length (body_file name start len) = len

-- `chunkqueue_length`, in `off_t`.
unfoldable pub bodies_length : List Body → ℕ
bodies_length [] = 0
bodies_length (b ∷ bs) = add_size (body_length b) (bodies_length bs)

-- What `http_chunk_append_file` queues.
unfoldable pub file_chunks : Bool → Bytes → ℕ → List Body
file_chunks chunked name size =
    let part = if size == 0 then [] else body_file name 0 size ∷ [] in
    if chunked
    then body_text (len_text size ++ codes "\r\n")
      ∷ (part ++ (if size == 0 then [] else body_text (codes "\r\n") ∷ []))
    else part

abbrev pub text_of : Option Bytes → Bytes
text_of none = []
text_of (some s) = s

abbrev pub page_head : Bytes
page_head =
    codes
      "<?xml version=\"1.0\" encoding=\"iso-8859-1\"?>\n<!DOCTYPE html PUBLIC \"-//W3C//DTD XHTML 1.0 Transitional//EN\"\n         \"http://www.w3.org/TR/xhtml1/DTD/xhtml1-transitional.dtd\">\n<html xmlns=\"http://www.w3.org/1999/xhtml\" xml:lang=\"en\" lang=\"en\">\n <head>\n  <title>"

abbrev pub page_middle : Bytes
page_middle = codes "</title>\n </head>\n <body>\n  <h1>"

abbrev pub page_end : Bytes
page_end = codes "</h1>\n </body>\n</html>\n"

-- The status with its name, twice in the page.
abbrev pub status_line : ℕ → Bytes
status_line status =
    li_ltostr (pos status) ++ (codes " - " ++ text_of (get_http_status_name (pos status)))

unfoldable pub error_page : ℕ → Bytes
error_page status =
    page_head ++ (status_line status ++ (page_middle ++ (status_line status ++ page_end)))

-- The file for the status, if it is there: `stat` is `stat_cache_get_entry`, none for
-- HANDLER_ERROR, else the size and the Content-Type of a file.
unfoldable pub error_file :
    (Bytes → Option (ℕ × Option Bytes)) → Bytes → ResponseState → ResponseState
unfolding header_overwrite
error_file stat prefix con =
    let path = prefix ++ text_of (get_http_status_body_name (pos con.http_status)) in
    let con' = record con { physical_path = path } in
    elim (stat path) [
      | none ↦ con'
      | some entry ↦ record con' {
        file_finished = true;
        write_queue = con'.write_queue ++ file_chunks con'.chunked path entry.0;
        content_type = header_overwrite (codes "Content-Type") con'.content_type entry.1;
      }
    ]

unfoldable pub default_page : ResponseState → ResponseState
unfolding header_overwrite
default_page con = record con {
  physical_path = [];
  file_finished = true;
  write_queue = con.write_queue ++ body_text (error_page con.http_status) ∷ [];
  content_type =
      header_overwrite (codes "Content-Type") con.content_type (some (codes "text/html"));
}

unfoldable pub error_body : (Bytes → Option (ℕ × Option Bytes)) → ResponseState → ResponseState
unfolding error_file default_page
error_body stat con =
    let start = record con { file_finished = false; physical_path = [] } in
    let tried : ResponseState = elim con.errorfile_prefix [
      | none ↦ start
      | some prefix ↦ error_file stat prefix start
    ] in
    if tried.file_finished then tried else default_page tried

unfoldable pub no_body : ResponseState → ResponseState
no_body con = record con {
  chunked = false;
  has_length = false;
  write_queue = [];
  file_finished = true;
}

abbrev pub error_statuses : List ℕ
error_statuses = 400 ∷ 401 ∷ 403 ∷ 404 ∷ 408 ∷ 409 ∷ 411 ∷ 416 ∷ 423 ∷ 500 ∷ 501 ∷ 503 ∷ 505 ∷ []

abbrev pub body_statuses : List ℕ
body_statuses = 207 ∷ 200 ∷ 201 ∷ 300 ∷ 301 ∷ 302 ∷ 303 ∷ 307 ∷ 206 ∷ []

-- The switch over the status.
unfoldable pub prepare_body : (Bytes → Option (ℕ × Option Bytes)) → ResponseState → ResponseState
unfolding one_of error_body no_body
prepare_body stat con =
    if one_of con.http_status error_statuses
    then (if con.direct then error_body stat con else con)
    else if one_of con.http_status body_statuses
    then con
    else no_body con

-- A status of an answer that has no body.
unfoldable pub without_body : ℕ → Bool
without_body status = leb 100 status && ltb status 200 || (status == 204 || status == 304)

-- `buffer_reset (ds->value)`, if there is such a header.
abbrev pub reset_value : HeaderValue → HeaderValue
reset_value absent = absent
reset_value unused = unused
reset_value (holds v) = unused

-- The number of type `off_t` with these bits.
unfoldable pub signed : ℕ → ℤ
signed n = if ltb n (2 ^ 63) then pos n else negsuc (2 ^ 64 - 1 - n)

unfoldable pub is_head : HttpMethod → Bool
is_head m = elim m [ method_head ↦ true | _ ↦ false ]

-- The Content-Length of a response whose content is all there.
unfoldable pub set_length : ResponseState → ResponseState
unfolding header_overwrite without_body is_head signed bodies_length
set_length con =
    let qlen = bodies_length con.write_queue in
    if con.has_length || con.chunked
    then con
    else if without_body con.http_status
    then record con { content_length = reset_value con.content_length }
    else if slt 0 qlen || not (is_head con.http_method)
    then record con {
      content_length =
          header_overwrite (codes "Content-Length") con.content_length
            (some (li_ltostr (signed qlen)));
    }
    else con

-- A response whose content is not all there yet.
unfoldable pub choose_keep_alive : ResponseState → ResponseState
choose_keep_alive con =
    let con' =
      if not con.has_length && not con.chunked then record con { keep_alive = false } else con in
    if con'.has_connection && (con'.keep_alive && not con'.response_keep_alive)
    then record con' { keep_alive = false }
    else con'

unfoldable pub finish_body : ResponseState → ResponseState
unfolding set_length choose_keep_alive
finish_body con = if con.file_finished then set_length con else choose_keep_alive con

unfoldable pub drop_body : ResponseState → ResponseState
unfolding is_head
drop_body con =
    if is_head con.http_method
    then record con { file_finished = true; write_queue = []; chunked = false }
    else con

unfoldable pub write_prepare : (Bytes → Option (ℕ × Option Bytes)) → ResponseState → ResponseState
unfolding check_request_method prepare_body finish_body drop_body
write_prepare stat con =
    let checked = if con.direct then check_request_method con else con in
    drop_body (finish_body (prepare_body stat (default_status checked)))
