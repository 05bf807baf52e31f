-- ===== src/HttpChunk.antt =====
-- Chunked framing of responses: storage/src/lighttpd/src/http_chunk.c. The connection is not NULL;
-- of it and of the server, the functions use the write queue, the buffer `tmp_chunk_len`, and the
-- bit HTTP_TRANSFER_ENCODING_CHUNKED of `response.transfer_encoding`.
pub mod Digits
pub mod Length
pub mod Decode
pub mod Steps
pub mod Frame
pub mod Trip
mod Tests
use ylem.Base.{
  ℕ, zero, suc, ◌+◌, ◌-◌, ◌/◌, ◌%◌, ◌^◌, Bytes, Bool, true, false, not, ◌&&◌, Option, none, some,
  [], ◌∷◌, ltb, leb, ◌==◌, if◌then◌else◌, codes, ◌>>=◌,
}
use ylem.Memory.{Allocator, memcpy_at}
use ylem.Buffer.{Buffer, prepare_copy, copy_string, append_string}
use ylem.Chunk.{ChunkQueue, pred_size, queue_length}
use ylem.Chunk

pub record Response : Type 0 where
  pub write_queue : ChunkQueue
  pub tmp_chunk_len : Buffer
  pub chunked : Bool

-- "i is the number of hex digits we have": the loop `i < 8 && len`, with `len >>= 4`.
unfoldable pub count_digits : ℕ → ℕ → ℕ
count_digits zero len = 0
count_digits (suc k) len = elim (len == 0) [ true ↦ 0 | false ↦ suc (count_digits k (len / 16)) ]

-- `(len & 0xf) + (((len & 0xf) <= 9) ? '0' : 'a' - 10)`
abbrev pub hex_digit : ℕ → ℕ
hex_digit d = if leb d 9 then d + b'0' else d + (b'a' - 10)

-- The loop that writes the digits from the last one, at `j - 1`, to the first one.
unfoldable pub write_digits : ℕ → ℕ → Bytes → Option Bytes
write_digits zero len p = some p
write_digits (suc j) len p =
    memcpy_at p j (hex_digit (len % 16) ∷ []) >>= λ q. write_digits j (len / 16) q

-- The operation on the queue changes `con->write_queue`.
abbrev pub set_queue : Response → Option ChunkQueue → Option Response
set_queue con out = out >>= λ q. some (record con { write_queue = q })

module _ (a : Allocator) where
  -- `len != 0`: the digits and a terminator.
  unfoldable pub write_len : Buffer → ℕ → Option Buffer
  write_len b len = do
    let i = count_digits 8 len
    let c = prepare_copy a b (i + 1)
    p ← write_digits i len c.ptr
    q ← memcpy_at p i (0 ∷ [])
    some (record c { ptr = q; used = i + 1 })

  -- The length in the buffer `b`, with CRLF.
  unfoldable pub len_line : Buffer → ℕ → Option Buffer
  len_line b len = do
    c ← if len == 0 then copy_string a b (some (codes "0")) >>= (λ r. some r.0) else write_len b len
    (line, _) ← append_string a c (some (codes "\r\n"))
    some line

  unfoldable pub append_len : Response → ℕ → Option Response
  append_len con len = do
    line ← len_line con.tmp_chunk_len len
    set_queue (record con { tmp_chunk_len = line }) (Chunk.append_buffer a con.write_queue line)

  -- The length in front of the data, if the response is chunked.
  abbrev pub begin_chunk : Response → ℕ → Option Response
  begin_chunk con len = if con.chunked then append_len con len else some con

  -- `chunkqueue_append_mem (cq, s, len)`
  abbrev pub queue_mem : Response → Bytes → ℕ → Option Response
  queue_mem con s len = set_queue con (Chunk.append_mem a con.write_queue s len)

  -- CRLF behind the data.
  abbrev pub end_chunk : Bool → Response → Option Response
  end_chunk some_data con =
      if con.chunked && some_data then queue_mem con (codes "\r\n") (2 + 1) else some con

  -- `len > 0` is a test of an `off_t`.
  unfoldable pub append_file : Response → Buffer → ℕ → ℕ → Option Response
  append_file con fn offset len = do
    c ← begin_chunk con len
    d ← set_queue c (Chunk.append_file a c.write_queue fn offset len)
    end_chunk (not (len == 0) && ltb len (2 ^ 63)) d

  unfoldable pub append_buffer : Response → Buffer → Option Response
  append_buffer con mem = do
    c ← begin_chunk con (pred_size mem.used)
    d ← set_queue c (Chunk.append_buffer a c.write_queue mem)
    end_chunk (not (mem.used == 0)) d

  -- `len` counts a terminator.
  unfoldable pub append_mem : Response → Bytes → ℕ → Option Response
  append_mem con mem len =
      if len == 0
      then (if con.chunked then queue_mem con (codes "0\r\n\r\n") (5 + 1) else queue_mem con [] 1)
      else do c ← begin_chunk con (len - 1); d ← queue_mem c mem len; end_chunk true d

unfoldable pub http_chunkqueue_length : Response → ℕ
http_chunkqueue_length con = queue_length con.write_queue.first 0
