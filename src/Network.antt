-- ===== src/Network.antt =====
-- Sending of a write queue: `network_write_chunkqueue` of storage/src/lighttpd/src/network.c with the
-- backend `network_write_chunkqueue_write` of network_write.c, as built with mmap and without SSL.
-- The corking of the socket has no effect on what is sent, and is left out. Offsets and sums are
-- the bits of `off_t` and `size_t`.
pub mod Chunks
pub mod Queue
pub mod Complete
pub mod Writing
mod Tests
use ylem.Base.{
  ℕ, suc, ◌+◌, ◌-◌, ◌*◌, ◌%◌, ◌^◌, ◌≤◌, ◌≡◌, Bytes, Bool, true, false, not, ◌&&◌, Option, none,
  some, List, [], ◌∷◌, ◌++◌, length, take, drop, ◌==◌, if◌then◌else◌,
}
use ylem.Memory.{add_size, slt}
use ylem.Chunk.{
  Chunk, mem_chunk, file_chunk, unused_chunk, ChunkQueue, remove_finished_chunks, is_empty,
}

-- The system, at each turn of the loop: `write` returns how many bytes it took, none for -1;
-- `stat_cache_get_entry` returns the size of a file; `open` and `mmap` may fail. A part of a file
-- that is sent in two steps is the same bytes.
pub record System : Type 0 where
  pub write : ℕ → Bytes → Option ℕ
  pub stat_size : ℕ → Bytes → Option ℕ
  pub open_file : ℕ → Bytes → Bool
  pub mmap : ℕ → Bytes → Bool
  pub file : Bytes → ℕ → ℕ → Bytes
  pub write-le : (t : ℕ) (s : Bytes) (r : ℕ) → write t s ≡ some r → r ≤ length s
  pub length-file : (name : Bytes) (offset n : ℕ) → length (file name offset n) ≡ n
  pub file-append :
      (name : Bytes) (offset n r : ℕ)
      → r ≤ n
      → take r (file name offset n) ++ file name (offset + r) (n - r) ≡ file name offset n

-- `x - y` for sizes.
abbrev pub sub_size : ℕ → ℕ → ℕ
sub_size x y = (x + 2 ^ 64 - y) % 2 ^ 64

-- What one chunk does to the loop: `return -1`, or the bytes that were taken, and
-- `chunk_finished`.
pub data Sent : Type 0 where
  failed : Sent
  sent : (bytes : Bytes) (finished : Bool) → Sent

-- `c->offset += r`
abbrev pub advance : Chunk → ℕ → Chunk
advance c r = record c { offset = add_size c.offset r }

abbrev pub file_name : Chunk → Bytes
file_name c = take (c.file.name.used - 1) c.file.name.ptr

-- What the loop leaves: the chunks, `cq->bytes_out`, the bytes that were sent, and the value that is
-- returned, none for -1.
pub record BackendRun : Type 0 where
  pub chunks : List Chunk
  pub bytes_out : ℕ
  pub wire : Bytes
  pub code : Option ℕ

abbrev pub next_code : Option ℕ → Option ℕ
next_code none = none
next_code (some n) = some (suc n)

module _ (sys : System) where
  abbrev pub send_mem : ℕ → Chunk → Sent
  send_mem t c =
      if c.mem.used == 0
      then sent [] true
      else (let s = take (sub_size (c.mem.used - 1) c.offset) (drop c.offset c.mem.ptr) in
          elim (sys.write t s) [
            | none ↦ failed
            | some r ↦ sent (take r s) (add_size c.offset r == c.mem.used - 1)
          ])

  -- Behind the checks: a `write` of no bytes is an error.
  abbrev pub send_mapped : ℕ → Chunk → Sent
  send_mapped t c =
      let s =
        sys.file (file_name c) (add_size c.file.start c.offset) (sub_size c.file.length c.offset) in
      elim (sys.write t s) [
        | none ↦ failed
        | some r ↦ if r == 0 then failed else sent (take r s) (add_size c.offset r == c.file.length)
      ]

  abbrev pub send_file : ℕ → Chunk → Sent
  send_file t c = elim (sys.stat_size t (file_name c)) [
    | none ↦ failed
    | some size ↦
        if slt size (add_size c.file.start c.offset)
        then failed
        else if not (sys.open_file t (file_name c))
        then failed
        else if not (sys.mmap t (file_name c))
        then failed
        else send_mapped t c
  ]

  unfoldable pub send_chunk : ℕ → Chunk → Sent
  send_chunk t c = elim c.type [
    | mem_chunk ↦ send_mem t c
    | file_chunk ↦ send_file t c
    | unused_chunk ↦ failed
  ]

  -- The loop from the turn `t` on.
  unfoldable pub write_chunks : ℕ → ℕ → List Chunk → BackendRun
  write_chunks t out [] = record { chunks = []; bytes_out = out; wire = []; code = some 0 }
  write_chunks t out (c ∷ cs) = elim (send_chunk t c) [
    | failed ↦ record { chunks = c ∷ cs; bytes_out = out; wire = []; code = none }
    | sent s finished ↦ elim finished [
      | false ↦ record {
        chunks = advance c (length s) ∷ cs;
        bytes_out = add_size out (length s);
        wire = s;
        code = some 0;
      }
      | true ↦
          let rest = write_chunks (suc t) (add_size out (length s)) cs in
          record rest {
            chunks = advance c (length s) ∷ rest.chunks;
            wire = s ++ rest.wire;
            code = next_code rest.code;
          }
    ]
  ]

-- The limits and the counters of a connection; `jobs` counts the calls of `joblist_append`.
pub record Traffic : Type 0 where
  pub global_kbytes_per_second : ℕ
  pub global_bytes_cnt : ℕ
  pub kbytes_per_second : ℕ
  pub bytes_written : ℕ
  pub bytes_written_cur_second : ℕ
  pub traffic_limit_reached : Bool
  pub jobs : ℕ

abbrev pub limit_reached : ℕ → ℕ → Bool
limit_reached kbytes bytes = not (kbytes == 0) && slt (kbytes * 1024) bytes

abbrev pub to_joblist : Traffic → Traffic
to_joblist con = record con { traffic_limit_reached = true; jobs = con.jobs + 1 }

-- The counters after `written` bytes.
unfoldable pub account : ℕ → Traffic → Traffic
account written con =
    let con' = record con {
      bytes_written = add_size con.bytes_written written;
      bytes_written_cur_second = add_size con.bytes_written_cur_second written;
      global_bytes_cnt = add_size con.global_bytes_cnt written;
    } in
    if limit_reached con'.kbytes_per_second con'.bytes_written_cur_second
    then to_joblist con'
    else con'

-- What `network_write_chunkqueue` leaves, the bytes that it sent, and its value, none for -1.
pub record Delivery : Type 0 where
  pub traffic : Traffic
  pub queue : ChunkQueue
  pub wire : Bytes
  pub code : Option ℕ

unfoldable pub write_chunkqueue : System → Traffic → ChunkQueue → Delivery
write_chunkqueue sys con q =
    if limit_reached con.global_kbytes_per_second con.global_bytes_cnt
    then record { traffic = to_joblist con; queue = q; wire = []; code = some 1 }
    else (let run = write_chunks sys 0 q.bytes_out q.first in
        let left = record q { first = run.chunks; bytes_out = run.bytes_out } in
        let traffic = account (sub_size run.bytes_out q.bytes_out) con in
        elim run.code [
          | none ↦ record { traffic = traffic; queue = left; wire = run.wire; code = none }
          | some n ↦
              let clean = remove_finished_chunks left in
              record {
                traffic = traffic;
                queue = clean;
                wire = run.wire;
                code = some (if is_empty clean then 0 else 1);
              }
        ])
