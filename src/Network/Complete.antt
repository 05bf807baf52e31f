-- ===== src/Network/Complete.antt =====
-- A queue is sent as a whole when every call succeeds.
use ylem.Base.{
  ℕ, suc, ◌+◌, ◌-◌, ◌^◌, ◌≤◌, ◌<◌, ◌≡◌, refl, ap, ◌∙◌, inl, inr, Bytes, true, false, some, List, [],
  ◌∷◌, length, take, drop, ◌==◌, if◌then◌else◌, arith, take-all,
}
use ylem.Memory.{add_size, slt}
use ylem.Chunk.{Chunk, mem_chunk, file_chunk, ChunkQueue, remove_finished_chunks, is_empty}
use ylem.Chunk.Queue.{IsValid}
use ylem.Chunk.Finished.{unfinished, remove_finished_chunks_lem}
use ylem.Network.{
  System, sub_size, sent, next_code, send_mem, send_mapped, send_file, send_chunk, write_chunks,
  Traffic, write_chunkqueue, limit_reached, file_name,
}
use ylem.Network.Chunks.{
  IsSendable, remaining, remaining-mem, remaining-file, remaining-empty, length-remaining,
  shape_cases, Progressed, send_chunk-Progressed, send_chunk_lem,
}
use ylem.Network.Queue.{AllSendable, waiting, left-IsValid, write_chunkqueue-Sending}

empty-is_empty : (q : ChunkQueue) → q.first ≡ [] → is_empty q ≡ true
unfolding is_empty
empty-is_empty q e = ground arith

module _ (sys : System) where
  -- A part of a file that is not sent as a whole, of a file that can be opened and is long enough.
  pub record Readable (c : Chunk) : Type 0 where
    pub unsent : c.offset < c.file.length
    pub size : ℕ
    pub small : size < 2 ^ 63
    pub found : (t : ℕ) → sys.stat_size t (file_name c) ≡ some size
    pub inside : c.file.start + c.offset ≤ size
    pub opened : (t : ℕ) → sys.open_file t (file_name c) ≡ true
    pub mapped : (t : ℕ) → sys.mmap t (file_name c) ≡ true

  abbrev pub AllReadable : List Chunk → Type 0
  AllReadable [] = Unit
  AllReadable (c ∷ cs) = (c.type ≡ file_chunk → Readable c) × AllReadable cs

  module _ (willing : (t : ℕ) (s : Bytes) → sys.write t s ≡ some (length s)) where
    send_mem-all :
        (t : ℕ) (c : Chunk)
        → c.type ≡ mem_chunk
        → IsSendable c
        → send_mem sys t c ≡ sent (remaining sys c) true
    send_mem-all t c k h = elim (shape_cases c h) [
      | inl (_, u) ↦
          let empty : (c.mem.used == 0) ≡ true = ground arith in
          rw (empty, remaining-empty sys c k u) refl
      | inr (inl (_, o, u, l)) ↦
          let full : (c.mem.used == 0) ≡ false = ground arith in
          let size : sub_size (c.mem.used - 1) c.offset ≡ c.mem.used - 1 - c.offset = omega arith in
          let s : Bytes = take (sub_size (c.mem.used - 1) c.offset) (drop c.offset c.mem.ptr) in
          let all : s ≡ remaining sys c = rw (remaining-mem sys c k, size) refl in
          let long : length (remaining sys c) ≡ c.mem.used - 1 - c.offset =
            ground (arith, length-remaining sys c h) in
          let last : (add_size c.offset (length (remaining sys c)) == c.mem.used - 1) ≡ true =
            ground arith in
          rw
            (
              full,
              willing t s,
              all,
              take-all (length (remaining sys c)) (remaining sys c) (omega arith),
              last,
            )
            refl
      | inr (inr f) ↦ absurd (ground arith)
    ]

    send_file-all :
        (t : ℕ) (c : Chunk)
        → c.type ≡ file_chunk
        → IsSendable c
        → Readable c
        → send_file sys t c ≡ sent (remaining sys c) true
    send_file-all t c k h r = elim (shape_cases c h) [
      | inl m ↦ absurd (ground arith)
      | inr (inl m) ↦ absurd (ground arith)
      | inr (inr (_, o, l)) ↦
          let size : sub_size c.file.length c.offset ≡ c.file.length - c.offset = omega arith in
          let at : add_size c.file.start c.offset ≡ c.file.start + c.offset = omega arith in
          let s : Bytes =
            sys.file (file_name c) (add_size c.file.start c.offset)
              (sub_size c.file.length c.offset) in
          let all : s ≡ remaining sys c = rw (remaining-file sys c k, size, at) refl in
          let long : length (remaining sys c) ≡ c.file.length - c.offset =
            ground (arith, length-remaining sys c h) in
          let some_bytes : (length (remaining sys c) == 0) ≡ false = ground (arith, r.unsent) in
          let last : (add_size c.offset (length (remaining sys c)) == c.file.length) ≡ true =
            ground arith in
          let whole : slt r.size (add_size c.file.start c.offset) ≡ false =
            ground (arith, r.inside, r.small) in
          rw
            (
              send_file,
              r.found t,
              whole,
              r.opened t,
              r.mapped t,
              send_mapped,
              willing t s,
              all,
              some_bytes,
              take-all (length (remaining sys c)) (remaining sys c) (omega arith),
              last,
            )
            refl
    ]

    send_chunk-all :
        (t : ℕ) (c : Chunk)
        → IsSendable c
        → (c.type ≡ file_chunk → Readable c)
        → send_chunk sys t c ≡ sent (remaining sys c) true
    send_chunk-all t c h r = elim (shape_cases c h) [
      | inl m ↦ (send_chunk_lem sys t c).0 m.0 ∙ send_mem-all t c m.0 h
      | inr (inl m) ↦ (send_chunk_lem sys t c).0 m.0 ∙ send_mem-all t c m.0 h
      | inr (inr m) ↦ (send_chunk_lem sys t c).1 m.0 ∙ send_file-all t c m.0 h (r m.0)
    ]

    -- The loop goes through the whole list, and finishes every chunk.
    write_chunks-all :
        (t out : ℕ) (cs : List Chunk)
        → AllSendable cs
        → AllReadable cs
        → let run = write_chunks sys t out cs in
          (unfinished run.chunks ≡ []) × (run.code ≡ some (length cs))
    unfolding write_chunks unfinished
    write_chunks-all t out [] h r = (refl, refl)
    write_chunks-all t out (c ∷ cs) h r =
        let s = remaining sys c in
        let e = send_chunk-all t c h.0 r.0 in
        let turn : Progressed sys c (sent s true) = rw e at (send_chunk-Progressed sys t c h.0) in
        let ih = write_chunks-all (suc t) (add_size out (length s)) cs h.1 r.1 in
        rw (write_chunks, e) (rw (unfinished, turn.finished_eq) ih.0, ap next_code ih.1)

    -- A queue that no limit holds back is sent as a whole, with 0 for an answer, when `write` takes
    -- all that it is given and every file can be read. The queue is valid, its chunks are sendable,
    -- and the two counters are below 2 ^ 64.
    pub write_chunkqueue-all :
        (con : Traffic) (q : ChunkQueue)
        → IsValid q
        → AllSendable q.first
        → q.bytes_out < 2 ^ 64
        → con.bytes_written < 2 ^ 64
        → AllReadable q.first
        → limit_reached con.global_kbytes_per_second con.global_bytes_cnt ≡ false
        → let o = write_chunkqueue sys con q in
          (o.code ≡ some 0) × (o.wire ≡ waiting sys q.first) × (o.queue.first ≡ [])
    unfolding write_chunkqueue remove_finished_chunks is_empty
    write_chunkqueue-all con q v h b l r g =
        let run = write_chunks sys 0 q.bytes_out q.first in
        let (gone, all) = write_chunks-all 0 q.bytes_out q.first h r in
        let left : ChunkQueue = record q { first = run.chunks; bytes_out = run.bytes_out } in
        let (_, rest, _) = remove_finished_chunks_lem left (left-IsValid sys q v h b) in
        let sending = write_chunkqueue-Sending sys q v h b con l in
        let zero : (write_chunkqueue sys con q).code ≡ some 0 =
          rw (g, all)
            (ap some (
              ap (λ e. if e then 0 else 1)
                (empty-is_empty (remove_finished_chunks left) (rest ∙ gone)))) in
        let done = sending.complete zero in (zero, done.1, done.0)
