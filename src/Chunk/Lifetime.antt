-- ===== src/Chunk/Lifetime.antt =====
-- Chunks that are filled, queued, finished and used again: what the appending operations queue, and
-- what a used chunk carries over.
use ylem.Base.{
  ℕ, ◌+◌, ◌<◌, ◌^◌, ◌≡◌, ◌≢◌, refl, ap, ◌∙◌, Bytes, true, false, some, List, [], ◌∷◌, ◌++◌, length,
  ◌==◌, arith,
}
use ylem.Memory.{Allocator}
use ylem.Buffer
use ylem.Buffer.{Buffer}
use ylem.Buffer.Inv.{IsValid as BufferIsValid, Holds, IsSmall}
use ylem.Buffer.Append.{Holds-content}
use ylem.Buffer.Copy.{copy_string_buffer-Yields}
use ylem.Chunk.{
  Chunk, mem_chunk, file_chunk, ChunkQueue, unlink, get_unused_chunk, append_chunk, append_buffer,
  append_file, unlinks, chunk_reset,
}
use ylem.Chunk.Queue.{
  IsValid, Spare, get_unused_chunk-Spare, append_chunk-first, append_chunk-IsValid,
}

-- The buffers of a chunk are valid, and `n` more bytes fit into `size_t`.
abbrev pub HasRoom : ℕ → Chunk → Type 0
HasRoom n c =
    BufferIsValid c.mem × IsSmall c.mem n × BufferIsValid c.file.name × IsSmall c.file.name n

abbrev pub AllHaveRoom : ℕ → List Chunk → Type 0
AllHaveRoom n [] = n + 256 < 2 ^ 64
AllHaveRoom n (c ∷ cs) = HasRoom n c × AllHaveRoom n cs

pub taken-HasRoom :
    (n : ℕ) (q : ChunkQueue) (us : List Chunk)
    → q.unused ≡ us
    → AllHaveRoom n us
    → HasRoom n (get_unused_chunk q).0
unfolding get_unused_chunk Buffer.init
taken-HasRoom n q [] e h = ground arith
taken-HasRoom n q (u ∷ us) e h = ground arith

pub Spare-same : {c d : Chunk} {q : ChunkQueue} → Spare c q → d.addr ≡ c.addr → Spare d q
Spare-same s e = record {
  valid = s.valid;
  apart = λ n. rw e (s.apart n);
  old = omega (arith, s.old);
}

module _ (a : Allocator) (q : ChunkQueue) (mem : Buffer) (s : Bytes) (v : IsValid q)
    (held : Holds mem s) (filled : mem.used ≢ 0) (room : AllHaveRoom (length s + 1) q.unused) where
  -- `chunkqueue_append_buffer` succeeds on a valid queue, which stays valid and grows at its end by
  -- one memory chunk that holds the bytes of the buffer, none of them sent.
  pub append_buffer_lem :
      (r : ChunkQueue) × (c : Chunk) × (append_buffer a q mem ≡ some r)
      × IsValid r
      × (r.first ≡ q.first ++ c ∷ [])
      × (c.type ≡ mem_chunk)
      × (c.offset ≡ 0)
      × Holds c.mem s
  unfolding append_buffer
  append_buffer_lem =
      let (spare, same) = get_unused_chunk-Spare q v in
      let (c, q') = get_unused_chunk q in
      let (roomy, small, _, _) = taken-HasRoom (length s + 1) q q.unused refl room in
      let (copy, copied, valid, holds) = copy_string_buffer-Yields a c.mem mem s roomy held small in
      let d : Chunk = record c { type = mem_chunk; offset = 0; mem = copy } in
      let nonzero : (mem.used == 0) ≡ false = ground arith in
      (
        append_chunk q' d,
        d,
        rw (nonzero, copied) refl,
        append_chunk-IsValid q' d (Spare-same spare refl) (ground arith),
        append_chunk-first q' d spare.valid ∙ ap (λ l. l ++ d ∷ []) same,
        refl,
        refl,
        holds,
      )

-- A chunk that was a temporary file stays marked as one: `chunk_reset` leaves `is_temp`.
pub chunk_reset-is_temp : (c : Chunk) → (chunk_reset c).0.file.is_temp ≡ c.file.is_temp
unfolding chunk_reset
chunk_reset-is_temp c = refl

taken-is_temp :
    (q : ChunkQueue) (c : Chunk) (cs : List Chunk)
    → q.unused ≡ c ∷ cs
    → (get_unused_chunk q).0.file.is_temp ≡ c.file.is_temp
unfolding get_unused_chunk
taken-is_temp q c cs e = ground arith

unlinks-temp :
    (d : Chunk) (name : Bytes)
    → d.file.is_temp ≡ true
    → Holds d.file.name name
    → name ≢ []
    → unlinks d ≡ unlink name ∷ []
unfolding unlinks
unlinks-temp d name t h ne = ground (arith, Holds-content d.file.name name h)

-- What `chunkqueue_append_file` queues in a chunk that is marked.
append_file-marked :
    (a : Allocator) (q : ChunkQueue) (c : Chunk) (cs : List Chunk) (fn : Buffer) (name : Bytes)
    (offset len : ℕ)
    → IsValid q
    → q.unused ≡ c ∷ cs
    → c.file.is_temp ≡ true
    → Holds fn name
    → name ≢ []
    → AllHaveRoom (length name + 1) (c ∷ cs)
    → len ≢ 0
    → (r : ChunkQueue) × (d : Chunk) × (append_file a q fn offset len ≡ some r)
      × (r.first ≡ q.first ++ d ∷ [])
      × (d.type ≡ file_chunk)
      × (unlinks d ≡ unlink name ∷ [])
unfolding append_file
append_file-marked a q c cs fn name offset len v e temp held named room some_len =
    let (spare, same) = get_unused_chunk-Spare q v in
    let (t, q') = get_unused_chunk q in
    let (_, _, roomy, small) = taken-HasRoom (length name + 1) q (c ∷ cs) e room in
    let (copy, copied, valid, holds) =
      copy_string_buffer-Yields a t.file.name fn name roomy held small in
    let d : Chunk = record t {
      type = file_chunk;
      file = record (t.file) { name = copy; start = offset; length = len };
      offset = 0;
    } in
    let nonzero : (len == 0) ≡ false = ground arith in
    let taken : t.file.is_temp ≡ true = taken-is_temp q c cs e ∙ temp in
    (
      append_chunk q' d,
      d,
      rw (nonzero, copied) refl,
      append_chunk-first q' d spare.valid ∙ ap (λ l. l ++ d ∷ []) same,
      refl,
      unlinks-temp d name taken holds named,
    )

-- When a chunk that was a temporary file has been reset and is the next to be used again,
-- `chunkqueue_append_file` with a name that is not empty and some length queues a file that is
-- unlinked when its chunk is reset, whatever file it is. The queue is valid, and its buffers have
-- room for the name.
pub append_file-unlinks :
    (a : Allocator) (q : ChunkQueue) (c : Chunk) (cs : List Chunk) (fn : Buffer) (name : Bytes)
    (offset len : ℕ)
    → IsValid q
    → q.unused ≡ (chunk_reset c).0 ∷ cs
    → c.file.is_temp ≡ true
    → Holds fn name
    → name ≢ []
    → AllHaveRoom (length name + 1) ((chunk_reset c).0 ∷ cs)
    → len ≢ 0
    → (r : ChunkQueue) × (d : Chunk) × (append_file a q fn offset len ≡ some r)
      × (r.first ≡ q.first ++ d ∷ [])
      × (d.type ≡ file_chunk)
      × (unlinks d ≡ unlink name ∷ [])
append_file-unlinks a q c cs fn name offset len v e temp held named room some_len =
    append_file-marked a q (chunk_reset c).0 cs fn name offset len v e
      (chunk_reset-is_temp c ∙ temp) held named room some_len
