-- ===== src/HttpChunk/Frame.antt =====
-- What the functions of http_chunk.c put into the write queue.
use ylem.Base.{
  ℕ, zero, suc, ◌+◌, ◌-◌, ◌^◌, ◌≤◌, ◌<◌, ◌≡◌, refl, sym, Bytes, false, some, [], ◌++◌, length, take,
  arith, ◌==◌, if◌then◌else◌, codes, length-take, lt→ltb, ==_iff, Bool-cases, inl, inr,
}
use ylem.Memory.{Allocator}
use ylem.Buffer.{Buffer}
use ylem.Buffer.Inv.{Holds}
use ylem.Chunk.Contents.{append_buffer-Adds, append_file-Adds}
use ylem.Chunk
use ylem.Chunk.{pred_size}
use ylem.Chunk.Contents.{contents}
use ylem.HttpChunk.Decode.{decode_chunks, IsPiece, decode-frame}
use ylem.HttpChunk.{Response, set_queue, queue_mem, append_file, append_buffer, append_mem}
use ylem.HttpChunk.Steps.{
  IsReady, sent_as, Sends, Sends-queue, queue_mem-Sends, head_of, framed, unframed, empty_buffer,
  empty_file, longest,
}

module _ (file : Bytes → ℕ → ℕ → Bytes) (n : ℕ) (a : Allocator) where
  -- `http_chunk_append_mem` puts the bytes before the terminator that `len` counts behind the write
  -- queue: as one chunk of a chunked response, else as they are. No bytes are the last chunk, also
  -- if `len` is 0.
  pub append_mem-Sends :
      (con : Response) (mem : Bytes) (len : ℕ)
      → IsReady n con
      → len - 1 ≤ length mem
      → len ≤ n
      → Sends file n con (append_mem a con mem len) (sent_as con.chunked (take (len - 1) mem))
  unfolding append_mem
  append_mem-Sends con mem zero ready enough fits = elim (Bool-cases con.chunked) [
    | inl e ↦
        let h =
          queue_mem-Sends file n a con (codes "0\r\n\r\n") 6 ready (omega arith)
            (omega (arith, ready)) in
        rw e (rw e at h)
    | inr e ↦
        let h = queue_mem-Sends file n a con [] 1 ready (omega arith) (omega (arith, ready)) in
        rw e (rw e at h)
  ]
  append_mem-Sends con mem (suc k) ready enough fits =
      let d = take (suc k - 1) mem in
      let size : length d ≡ suc k - 1 = omega (arith, length-take (suc k - 1) mem) in
      let nonzero : (suc k == 0) ≡ false = ground arith in
      rw nonzero (
        framed file n a con (suc k - 1) d (λ c. queue_mem a c mem (suc k)) ready (sym size)
          (λ r ready'.
            queue_mem-Sends file n a r mem (suc k) ready' (omega arith) (omega (arith, size))))

  -- `http_chunk_append_buffer` does the same with a buffer. A buffer with nothing in use adds no
  -- data, but to a chunked response the line of a chunk of `ffffffff` bytes.
  pub append_buffer-Sends :
      (con : Response) (mem : Buffer) (s : Bytes)
      → IsReady n con
      → Holds mem s
      → length s + 1 ≤ n
      → Sends file n con (append_buffer a con mem) (
          if mem.used == 0
          then (if con.chunked then codes "ffffffff\r\n" else [])
          else sent_as con.chunked s)
  unfolding append_buffer
  append_buffer-Sends con mem s ready held fits = elim (Bool-cases (mem.used == 0)) [
    | inl e ↦ rw e (
        rw⁻¹ (longest file n a mem.used con.chunked ((==_iff mem.used 0).0 e)) (
          unframed file n a con (pred_size mem.used)
            (λ c. set_queue c (Chunk.append_buffer a c.write_queue mem)) ready
            (λ r. empty_buffer file n a mem r e)))
    | inr e ↦
        let size : pred_size mem.used ≡ length s = ground (arith, ready.3) in
        rw (e, size)
          (framed file n a con (length s) s
            (λ c. set_queue c (Chunk.append_buffer a c.write_queue mem)) ready refl
            (λ r ready'.
              Sends-queue file n r (Chunk.append_buffer a r.write_queue mem) s ready'
                (append_buffer-Adds file n r.write_queue ready'.1 a mem s held fits)))
  ]

  append_file-Sends :
      (con : Response) (fn : Buffer) (name : Bytes) (offset len : ℕ)
      → IsReady n con
      → Holds fn name
      → length name + 1 ≤ n
      → length (file name offset len) ≡ len
      → len < 2 ^ 63
      → Sends file n con (append_file a con fn offset len) (
          if len == 0
          then (if con.chunked then codes "0\r\n" else [])
          else sent_as con.chunked (file name offset len))
  unfolding append_file
  append_file-Sends con fn name offset len ready held fits size small =
      elim (Bool-cases (len == 0)) [
        | inl e ↦
            let line : head_of file n a con.chunked len
                ≡ (if con.chunked then codes "0\r\n" else []) =
              rw e refl in
            rw e (
              rw⁻¹ line (
                unframed file n a con len
                  (λ c. set_queue c (Chunk.append_file a c.write_queue fn offset len)) ready
                  (λ r. empty_file file n a fn offset len r e)))
        | inr e ↦
            rw (e, lt→ltb len (2 ^ 63) small)
              (framed file n a con len (file name offset len)
                (λ c. set_queue c (Chunk.append_file a c.write_queue fn offset len)) ready
                (sym size)
                (λ r ready'.
                  Sends-queue file n r (Chunk.append_file a r.write_queue fn offset len) _ ready' (
                    append_file-Adds file n r.write_queue ready'.1 a fn name offset len held fits
                      size)))
      ]

  -- `http_chunk_append_file` puts text behind the write queue that carries the bytes of the file,
  -- whose length is between 1 and 2 ^ 32 - 1: without chunks they stand in front of what follows,
  -- and for a chunked response a reader of chunked bodies reads them in front of what it reads of
  -- what follows.
  pub append_file-decodes :
      (con : Response) (fn : Buffer) (name : Bytes) (offset len : ℕ)
      → IsReady n con
      → Holds fn name
      → length name + 1 ≤ n
      → length (file name offset len) ≡ len
      → 1 ≤ len
      → len < 2 ^ 32
      → (fuel : ℕ) (rest more : Bytes) → decode_chunks fuel rest ≡ some more
      → (r : Response) × (s : Bytes) × (append_file a con fn offset len ≡ some r)
        × (contents file r.write_queue.first ≡ contents file con.write_queue.first ++ s)
        × ((if con.chunked then decode_chunks (suc fuel) (s ++ rest) else some (s ++ more))
            ≡ some (file name offset len ++ more))
  append_file-decodes con fn name offset len ready held fits size low high fuel rest more e =
      let (r, done, _, _, holds) =
        append_file-Sends con fn name offset len ready held fits size (omega arith) in
      let d = file name offset len in
      let nonzero : (len == 0) ≡ false = ground arith in
      let piece : IsPiece d = (omega arith, omega arith) in
      (
        r,
        sent_as con.chunked d,
        done,
        rw nonzero at holds,
        elim (Bool-cases con.chunked) [
          | inl b ↦ rw b (decode-frame fuel d rest more piece e)
          | inr b ↦ rw b refl
        ],
      )
