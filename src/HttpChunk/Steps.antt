-- ===== src/HttpChunk/Steps.antt =====
-- The steps of the functions of http_chunk.c, and what each puts into the write queue.
use ylem.Base.{
  ℕ, ◌+◌, ◌-◌, ◌^◌, ◌≤◌, ◌<◌, ◌≡◌, ◌≢◌, refl, sym, ap, ◌∙◌, Bytes, Bool, true, false, Option, some,
  [], ◌++◌, length, take, arith, ◌==◌, if◌then◌else◌, codes, append-nil, append_assoc,
  length-append, ◌>>=◌, Bool-cases, inl, inr,
}
use ylem.Memory.{Allocator}
use ylem.Buffer.{Buffer}
use ylem.Chunk.Contents.{Ready, contents, Adds, append_mem-Adds, append_buffer-Adds}
use ylem.Chunk
use ylem.Chunk.{pred_size}
use ylem.HttpChunk.{
  Response, append_len, begin_chunk, set_queue, queue_mem, end_chunk, count_digits,
}
use ylem.HttpChunk.Digits.{len_text, length-len_text}
use ylem.HttpChunk.Length.{IsModest, len_line-Holds}
use ylem.HttpChunk.Decode.{frame}

-- A buffer and a queue that have room for `n` bytes and for the lines of a frame.
abbrev pub IsReady : ℕ → Response → Type 0
IsReady n con = IsModest con.tmp_chunk_len × Ready n con.write_queue × (11 ≤ n) × (n < 2 ^ 64)

-- Data as the response sends them.
abbrev pub sent_as : Bool → Bytes → Bytes
sent_as chunked d = if chunked then frame d else d

module _ (file : Bytes → ℕ → ℕ → Bytes) (n : ℕ) where
  -- The operation succeeds, and puts `s` at the end of the write queue.
  abbrev pub Sends : Response → Option Response → Bytes → Type 0
  Sends con out s =
      (r : Response) × (out ≡ some r)
      × IsReady n r
      × (r.chunked ≡ con.chunked)
      × (contents file r.write_queue.first ≡ contents file con.write_queue.first ++ s)

  -- One operation after another.
  pub Sends-then :
      (con : Response) (m : Option Response) (k : Response → Option Response) (s t : Bytes)
      → Sends con m s
      → ((r : Response) → IsReady n r → r.chunked ≡ con.chunked → Sends r (k r) t)
      → Sends con (m >>= k) (s ++ t)
  Sends-then con m k s t (r, done, ready, same, holds) h =
      let (q, done', ready', same', holds') = h r ready same in
      rw done (
        q,
        done',
        ready',
        same' ∙ same,
        holds' ∙ ap (λ x. x ++ t) holds ∙ append_assoc (contents file con.write_queue.first) s t,
      )

  -- An operation on the queue alone.
  pub Sends-queue :
      (con : Response) (m : Option Chunk.ChunkQueue) (s : Bytes)
      → IsReady n con
      → Adds file n con.write_queue m s
      → Sends con (set_queue con m) s
  Sends-queue con m s ready (q, done, ready', holds) =
      rw done
        (record con { write_queue = q }, refl, (ready.0, ready', ready.2, ready.3), refl, holds)

  module _ (a : Allocator) where
    append_len-Sends :
        (con : Response) (len : ℕ)
        → IsReady n con
        → Sends con (append_len a con len) (len_text len ++ codes "\r\n")
    unfolding append_len
    append_len-Sends con len ready =
        let (line, done, modest, holds) = len_line-Holds a con.tmp_chunk_len len ready.0 in
        let short : length (len_text len ++ codes "\r\n") + 1 ≤ n =
          omega (arith, ready, length-append (len_text len) (codes "\r\n"), length-len_text len) in
        let (q, done', ready', holds') =
          append_buffer-Adds file n con.write_queue ready.1 a line _ holds short in
        rw (done, done')
          (
            record con { write_queue = q; tmp_chunk_len = line },
            refl,
            (modest, ready', ready.2, ready.3),
            refl,
            holds',
          )

    pub queue_mem-Sends :
        (con : Response) (s : Bytes) (len : ℕ)
        → IsReady n con
        → len ≢ 0
        → length (take (len - 1) s) + 1 ≤ n
        → Sends con (queue_mem a con s len) (take (len - 1) s)
    queue_mem-Sends con s len ready some_len fits =
        Sends-queue con (Chunk.append_mem a con.write_queue s len) (take (len - 1) s) ready
          (append_mem-Adds file n con.write_queue ready.1 a s len some_len fits)

    -- The two lines around data, which are empty unless the response is chunked.
    abbrev pub head_of : Bool → ℕ → Bytes
    head_of chunked len = if chunked then len_text len ++ codes "\r\n" else []

    abbrev tail_of : Bool → Bytes
    tail_of chunked = if chunked then codes "\r\n" else []

    unchanged : (con : Response) → IsReady n con → Sends con (some con) []
    unchanged con ready =
        (con, refl, ready, refl, sym (append-nil (contents file con.write_queue.first)))

    begin_chunk-Sends :
        (con : Response) (len : ℕ)
        → IsReady n con
        → Sends con (begin_chunk a con len) (head_of con.chunked len)
    begin_chunk-Sends con len ready = elim (Bool-cases con.chunked) [
      | inl e ↦ let h = append_len-Sends con len ready in rw e (rw e at h)
      | inr e ↦ let h = unchanged con ready in rw e (rw e at h)
    ]

    end_chunk-Sends :
        (con : Response) → IsReady n con → Sends con (end_chunk a true con) (tail_of con.chunked)
    end_chunk-Sends con ready = elim (Bool-cases con.chunked) [
      | inl e ↦
          let h = queue_mem-Sends con (codes "\r\n") 3 ready (omega arith) (omega (arith, ready)) in
          rw e (rw e at h)
      | inr e ↦ let h = unchanged con ready in rw e (rw e at h)
    ]

    around :
        (chunked : Bool) (d : Bytes)
        → head_of chunked (length d) ++ (d ++ tail_of chunked) ≡ sent_as chunked d
    around true d = append_assoc (len_text (length d)) (codes "\r\n") (d ++ codes "\r\n")
    around false d = append-nil d

    -- Data of `len` bytes between the two lines.
    pub framed :
        (con : Response) (len : ℕ) (d : Bytes) (put : Response → Option Response)
        → IsReady n con
        → len ≡ length d
        → ((r : Response) → IsReady n r → Sends r (put r) d)
        → Sends con
            (begin_chunk a con len >>= λ c. put c >>= λ e. end_chunk a true e)
            (sent_as con.chunked d)
    framed con len d put ready size h = rw⁻¹ (around con.chunked d) (
        Sends-then con (begin_chunk a con len) (λ c. put c >>= λ e. end_chunk a true e)
          (head_of con.chunked (length d)) (d ++ tail_of con.chunked)
          (rw⁻¹ size (begin_chunk-Sends con len ready))
          (λ r ready' same.
            Sends-then r (put r) (λ e. end_chunk a true e) d (tail_of con.chunked) (h r ready')
              (λ e ready'' same'. rw⁻¹ (same' ∙ same) (end_chunk-Sends e ready''))))

    end_nothing : (con : Response) → IsReady n con → Sends con (end_chunk a false con) []
    end_nothing con ready = elim (Bool-cases con.chunked) [
      | inl e ↦ let h = unchanged con ready in rw e (rw e at h)
      | inr e ↦ let h = unchanged con ready in rw e (rw e at h)
    ]

    -- No data: only the line in front of them is sent.
    pub unframed :
        (con : Response) (len : ℕ) (put : Response → Option Response)
        → IsReady n con
        → ((r : Response) → put r ≡ some r)
        → Sends con
            (begin_chunk a con len >>= λ c. put c >>= λ e. end_chunk a false e)
            (head_of con.chunked len)
    unframed con len put ready h = rw⁻¹ (append-nil (head_of con.chunked len)) (
        Sends-then con (begin_chunk a con len) (λ c. put c >>= λ e. end_chunk a false e)
          (head_of con.chunked len) [] (begin_chunk-Sends con len ready)
          (λ r ready' same. rw (h r) (end_nothing r ready')))

    pub empty_buffer :
        (mem : Buffer) (r : Response)
        → (mem.used == 0) ≡ true
        → set_queue r (Chunk.append_buffer a r.write_queue mem) ≡ some r
    unfolding Chunk.append_buffer
    empty_buffer mem r e = rw e refl

    pub empty_file :
        (fn : Buffer) (offset len : ℕ) (r : Response)
        → (len == 0) ≡ true
        → set_queue r (Chunk.append_file a r.write_queue fn offset len) ≡ some r
    unfolding Chunk.append_file
    empty_file fn offset len r e = rw e refl

    pub longest :
        (k : ℕ) (chunked : Bool)
        → k ≡ 0
        → head_of chunked (pred_size k) ≡ (if chunked then codes "ffffffff\r\n" else [])
    unfolding count_digits
    longest k chunked e = rw e refl
