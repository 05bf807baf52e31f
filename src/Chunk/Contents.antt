-- ===== src/Chunk/Contents.antt =====
-- The bytes that a chunk queue stands for, and what the appending operations add to them. The
-- contents of a file are a parameter: the bytes of a part of the file of a name.
use ylem.Base.{
  ℕ, ◌+◌, ◌-◌, ◌≤◌, ◌≡◌, ◌≢◌, refl, sym, ap, ◌∙◌, inl, inr, Bytes, false, Option, some, List, [],
  ◌∷◌, ◌++◌, length, take, ◌==◌, ==_iff, arith, append-nil, length-eq-zero, append_assoc,
  Bool-cases,
}
use ylem.Memory.{Allocator}
use ylem.Buffer.{Buffer}
use ylem.Buffer.Inv.{Holds}
use ylem.Buffer.Append.{Holds-content}
use ylem.Buffer.Copy.{copy_string_buffer-Yields, copy_string_len-Yields}
use ylem.Chunk.{
  Chunk, mem_chunk, file_chunk, unused_chunk, ChunkQueue, get_unused_chunk, append_chunk,
  append_buffer, append_file, append_mem,
}
use ylem.Chunk.Queue.{IsValid, get_unused_chunk-Spare, append_chunk-first, append_chunk-IsValid}
use ylem.Chunk.Lifetime.{AllHaveRoom, taken-HasRoom, Spare-same}

-- A valid queue whose chunks have room for `n` bytes.
abbrev pub Ready : ℕ → ChunkQueue → Type 0
Ready n q = IsValid q × AllHaveRoom n q.unused

unused-room :
    (n : ℕ) (q : ChunkQueue) (us : List Chunk)
    → q.unused ≡ us
    → AllHaveRoom n us
    → AllHaveRoom n (get_unused_chunk q).1.unused
unfolding get_unused_chunk
unused-room n q [] e h = rw e h
unused-room n q (u ∷ us) e h = rw e h.1

module _ (file : Bytes → ℕ → ℕ → Bytes) where
  -- All the bytes of a chunk, whether they are sent or not.
  abbrev pub chunk_bytes : Chunk → Bytes
  chunk_bytes c = elim c.type [
    | mem_chunk ↦ take (c.mem.used - 1) c.mem.ptr
    | file_chunk ↦ file (take (c.file.name.used - 1) c.file.name.ptr) c.file.start c.file.length
    | unused_chunk ↦ []
  ]

  abbrev pub contents : List Chunk → Bytes
  contents [] = []
  contents (c ∷ cs) = chunk_bytes c ++ contents cs

  contents-append :
      (cs : List Chunk) (c : Chunk) → contents (cs ++ c ∷ []) ≡ contents cs ++ chunk_bytes c
  contents-append [] c = append-nil (chunk_bytes c)
  contents-append (d ∷ cs) c =
      ap (λ t. chunk_bytes d ++ t) (contents-append cs c)
      ∙ sym (append_assoc (chunk_bytes d) (contents cs) (chunk_bytes c))

  -- The operation succeeds, and the queue stays ready and has `s` at its end.
  abbrev pub Adds : ℕ → ChunkQueue → Option ChunkQueue → Bytes → Type 0
  Adds n q out s =
      (r : ChunkQueue) × (out ≡ some r) × Ready n r × (contents r.first ≡ contents q.first ++ s)

  module _ (n : ℕ) (q : ChunkQueue) (h : Ready n q) where
    -- A chunk that is taken, filled and linked.
    linked :
        (d : Chunk) (s : Bytes)
        → d.addr ≡ (get_unused_chunk q).0.addr
        → d.type ≢ unused_chunk
        → chunk_bytes d ≡ s
        → Adds n q (some (append_chunk (get_unused_chunk q).1 d)) s
    linked d s at used holds =
        let (spare, same) = get_unused_chunk-Spare q h.0 in
        let q' = (get_unused_chunk q).1 in
        (
          append_chunk q' d,
          refl,
          (
            append_chunk-IsValid q' d (Spare-same spare at) used,
            unfold append_chunk in unused-room n q q.unused refl h.1,
          ),
          ap contents (append_chunk-first q' d spare.valid)
              ∙ contents-append q'.first d
              ∙ (λ i. contents (same i) ++ holds i),
        )

    nothing : Adds n q (some q) []
    nothing = (q, refl, h, sym (append-nil (contents q.first)))

    module _ (a : Allocator) where
      pub append_mem-Adds :
          (mem : Bytes) (len : ℕ)
          → len ≢ 0
          → length (take (len - 1) mem) + 1 ≤ n
          → Adds n q (append_mem a q mem len) (take (len - 1) mem)
      unfolding append_mem
      append_mem-Adds mem len some_len fits =
          let (roomy, small, _, _) = taken-HasRoom n q q.unused refl h.1 in
          let c = (get_unused_chunk q).0 in
          let s = take (len - 1) mem in
          let (copy, copied, valid, holds) =
            copy_string_len-Yields a c.mem s roomy (omega (arith, small, fits)) in
          let nonzero : (len == 0) ≡ false = ground arith in
          rw (nonzero, copied)
            (linked (record c { type = mem_chunk; offset = 0; mem = copy }) s refl (ground arith)
              (Holds-content copy s holds))

      pub append_buffer-Adds :
          (mem : Buffer) (s : Bytes)
          → Holds mem s
          → length s + 1 ≤ n
          → Adds n q (append_buffer a q mem) s
      unfolding append_buffer
      append_buffer-Adds mem s held fits = elim (Bool-cases (mem.used == 0)) [
        | inl e ↦ let empty : s ≡ [] = ground arith in rw (e, empty) nothing
        | inr e ↦
            let (roomy, small, _, _) = taken-HasRoom n q q.unused refl h.1 in
            let c = (get_unused_chunk q).0 in
            let (copy, copied, valid, holds) =
              copy_string_buffer-Yields a c.mem mem s roomy held (omega (arith, small, fits)) in
            rw (e, copied)
              (linked (record c { type = mem_chunk; offset = 0; mem = copy }) s refl (ground arith)
                (Holds-content copy s holds))
      ]

      pub append_file-Adds :
          (fn : Buffer) (name : Bytes) (offset len : ℕ)
          → Holds fn name
          → length name + 1 ≤ n
          → length (file name offset len) ≡ len
          → Adds n q (append_file a q fn offset len) (file name offset len)
      unfolding append_file
      append_file-Adds fn name offset len held fits size = elim (Bool-cases (len == 0)) [
        | inl e ↦
            let zero_len : len ≡ 0 = (==_iff len 0).0 e in
            rw (e, length-eq-zero (file name offset len) (size ∙ zero_len)) nothing
        | inr e ↦
            let (_, _, roomy, small) = taken-HasRoom n q q.unused refl h.1 in
            let c = (get_unused_chunk q).0 in
            let (copy, copied, valid, holds) =
              copy_string_buffer-Yields a c.file.name fn name roomy held
                (omega (arith, small, fits)) in
            rw (e, copied)
              (linked
                (record c {
                  type = file_chunk;
                  file = record (c.file) { name = copy; start = offset; length = len };
                  offset = 0;
                })
                (file name offset len) refl (ground arith)
                (ap (λ t. file t offset len) (Holds-content copy name holds)))
      ]
