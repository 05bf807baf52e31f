-- ===== src/Network/Chunks.antt =====
-- What a chunk still has to send, and what the loop of `network_write_chunkqueue_write` takes of it.
use ylem.Base.{
  ℕ, ◌+◌, ◌-◌, ◌^◌, ◌≤◌, ◌<◌, ◌≡◌, refl, ap, ◌∙◌, ◌⊎◌, inl, inr, Bytes, Bool, true, false, some, [],
  ◌++◌, length, take, drop, ◌==◌, arith, Bool-cases, Option-cases, take-append-drop, take-nil,
  length-take, length-drop, drop-drop, drop-take, length-eq-zero,
}
use ylem.Memory.{add_size, slt}
use ylem.Chunk.{Chunk, mem_chunk, file_chunk, unused_chunk, is_finished, pred_size}
use ylem.Network.{
  System, sub_size, Sent, failed, sent, advance, file_name, send_mem, send_mapped, send_file,
  send_chunk,
}

-- A chunk that is not sent beyond its end, with sizes that `off_t` can hold.
unfoldable pub IsSendable : Chunk → Type 0
IsSendable c = elim c.type [
  | mem_chunk ↦
      (c.mem.used ≡ 0)
      ⊎ (c.offset + 1 ≤ c.mem.used) × (c.mem.used ≤ length c.mem.ptr) × (c.mem.used < 2 ^ 63)
  | file_chunk ↦ (c.offset ≤ c.file.length) × (c.file.start + c.file.length < 2 ^ 63)
  | unused_chunk ↦ ⊥
]

-- The three shapes of a chunk that can be sent.
pub shape_cases :
    (c : Chunk)
    → IsSendable c
    → (c.type ≡ mem_chunk) × (c.mem.used ≡ 0)
      ⊎ (c.type ≡ mem_chunk)
        × (c.offset + 1 ≤ c.mem.used)
        × (c.mem.used ≤ length c.mem.ptr)
        × (c.mem.used < 2 ^ 63)
      ⊎ (c.type ≡ file_chunk) × (c.offset ≤ c.file.length) × (c.file.start + c.file.length < 2 ^ 63)
unfolding IsSendable
shape_cases c h = ground arith

module _ (sys : System) where
  -- The bytes of a chunk that are not sent yet.
  unfoldable pub remaining : Chunk → Bytes
  remaining c = elim c.type [
    | mem_chunk ↦ take (c.mem.used - 1 - c.offset) (drop c.offset c.mem.ptr)
    | file_chunk ↦ sys.file (file_name c) (c.file.start + c.offset) (c.file.length - c.offset)
    | unused_chunk ↦ []
  ]

  pub length-remaining :
      (c : Chunk)
      → IsSendable c
      → length (remaining c) ≡ (elim c.type [
        | mem_chunk ↦ c.mem.used - 1 - c.offset
        | file_chunk ↦ c.file.length - c.offset
        | unused_chunk ↦ 0
      ])
  unfolding remaining
  length-remaining c h = elim (shape_cases c h) [
    | inl (t, u) ↦ ground (arith, length-take (c.mem.used - 1 - c.offset) (drop c.offset c.mem.ptr))
    | inr (inl (t, o, u, b)) ↦ ground (
      arith,
      length-take (c.mem.used - 1 - c.offset) (drop c.offset c.mem.ptr),
      length-drop c.offset c.mem.ptr,
    )
    | inr (inr (t, o, b)) ↦
        ground (
          arith,
          sys.length-file (file_name c) (c.file.start + c.offset) (c.file.length - c.offset),
        )
  ]

  -- A finished chunk has nothing left.
  pub remaining-is_finished : (c : Chunk) → IsSendable c → is_finished c ≡ true → remaining c ≡ []
  unfolding is_finished
  remaining-is_finished c h e = length-eq-zero (remaining c) (elim (shape_cases c h) [
    | inl s ↦ ground (arith, length-remaining c h)
    | inr (inl s) ↦ ground (arith, length-remaining c h)
    | inr (inr s) ↦ ground (arith, length-remaining c h)
  ])

  pub remaining-mem :
      (c : Chunk)
      → c.type ≡ mem_chunk
      → remaining c ≡ take (c.mem.used - 1 - c.offset) (drop c.offset c.mem.ptr)
  unfolding remaining
  remaining-mem c t = ground arith

  pub remaining-file :
      (c : Chunk)
      → c.type ≡ file_chunk
      → remaining c ≡ sys.file (file_name c) (c.file.start + c.offset) (c.file.length - c.offset)
  unfolding remaining
  remaining-file c t = ground arith

  pub remaining-empty : (c : Chunk) → c.type ≡ mem_chunk → c.mem.used ≡ 0 → remaining c ≡ []
  remaining-empty c t u =
      let n : c.mem.used - 1 - c.offset ≡ 0 = omega arith in
      remaining-mem c t ∙ ap (λ k. take k (drop c.offset c.mem.ptr)) n

  -- The bytes behind the first `r` ones are what is left `r` bytes on.
  split-advance :
      (c : Chunk) (r : ℕ)
      → IsSendable c
      → r ≤ length (remaining c)
      → (take r (remaining c) ++ remaining (advance c r) ≡ remaining c) × IsSendable (advance c r)
  split-advance c r h b = elim (shape_cases c h) [
    | inl (t, u) ↦
        let all = remaining-empty c t u in
        let all' = remaining-empty (advance c r) t u in
        (rw (all, all', take-nil r) refl, unfold IsSendable in rw t (inl u))
    | inr (inl (t, o, u, l)) ↦
        let all : length (remaining c) ≡ c.mem.used - 1 - c.offset =
          ground (arith, length-remaining c h) in
        let moved : add_size c.offset r ≡ c.offset + r = omega arith in
        let n : ℕ = c.mem.used - 1 - c.offset in
        let left : c.mem.used - 1 - (c.offset + r) ≡ n - r = omega arith in
        let rest : remaining (advance c r) ≡ drop r (remaining c) =
          remaining-mem (advance c r) t
          ∙ rw
              (
                moved,
                left,
                remaining-mem c t,
                drop-take r n (drop c.offset c.mem.ptr),
                drop-drop r c.offset c.mem.ptr,
              )
              refl in
        (
          rw rest (take-append-drop r (remaining c)),
          unfold IsSendable in rw t (inr (omega arith, u, l)),
        )
    | inr (inr (t, o, l)) ↦
        let all : length (remaining c) ≡ c.file.length - c.offset =
          ground (arith, length-remaining c h) in
        let moved : add_size c.offset r ≡ c.offset + r = omega arith in
        let left : c.file.length - (c.offset + r) ≡ c.file.length - c.offset - r = omega arith in
        let at : c.file.start + (c.offset + r) ≡ c.file.start + c.offset + r = omega arith in
        let rest : remaining (advance c r)
            ≡ sys.file (file_name c) (c.file.start + c.offset + r) (c.file.length - c.offset - r) =
          remaining-file (advance c r) t ∙ rw (moved, left, at) refl in
        (
          rw (rest, remaining-file c t)
              (sys.file-append (file_name c) (c.file.start + c.offset) (c.file.length - c.offset) r
                (omega arith)),
          unfold IsSendable in rw t (omega arith, l),
        )
  ]

  -- A turn on a chunk: nothing is sent twice, nothing is left out.
  pub record Progress (c : Chunk) (s : Bytes) (finished : Bool) : Type 0 where
    pub split : s ++ remaining (advance c (length s)) ≡ remaining c
    pub sendable : IsSendable (advance c (length s))
    pub finished_eq : is_finished (advance c (length s)) ≡ finished

  abbrev pub Progressed : Chunk → Sent → Type 0
  Progressed c failed = Unit
  Progressed c (sent s finished) = Progress c s finished

  take-Progress :
      (c : Chunk) (r : ℕ) (finished : Bool)
      → IsSendable c
      → r ≤ length (remaining c)
      → is_finished (advance c r) ≡ finished
      → Progress c (take r (remaining c)) finished
  take-Progress c r finished h b f =
      let size : length (take r (remaining c)) ≡ r = omega (arith, length-take r (remaining c)) in
      let (split, sendable) = split-advance c r h b in
      record { split = rw size split; sendable = rw size sendable; finished_eq = rw size f }

  -- A call of `write` with all that remains.
  write-Progress :
      (c : Chunk) (t r : ℕ) (s : Bytes) (finished : Bool)
      → IsSendable c
      → s ≡ remaining c
      → sys.write t s ≡ some r
      → is_finished (advance c r) ≡ finished
      → Progress c (take r s) finished
  write-Progress c t r s finished h e w f =
      rw e (take-Progress c r finished h (rw e at (sys.write-le t s r w)) f)

  send_mem-Progressed :
      (t : ℕ) (c : Chunk) → c.type ≡ mem_chunk → IsSendable c → Progressed c (send_mem sys t c)
  unfolding is_finished
  send_mem-Progressed t c k h = elim (shape_cases c h) [
    | inl (_, u) ↦
        let empty : (c.mem.used == 0) ≡ true = ground arith in
        rw empty (take-Progress c 0 true h (omega arith) (rw (k, u) refl))
    | inr (inl (_, o, u, l)) ↦
        let full : (c.mem.used == 0) ≡ false = ground arith in
        let size : sub_size (c.mem.used - 1) c.offset ≡ c.mem.used - 1 - c.offset = omega arith in
        let last : pred_size c.mem.used ≡ c.mem.used - 1 = omega arith in
        let s : Bytes = take (sub_size (c.mem.used - 1) c.offset) (drop c.offset c.mem.ptr) in
        let all : s ≡ remaining c = rw (remaining-mem c k, size) refl in
        rw full (elim (Option-cases (sys.write t s)) [
          | inl e ↦ rw e tt
          | inr (r, e) ↦ rw e (
              write-Progress c t r s (add_size c.offset r == c.mem.used - 1) h all e
                (rw (k, full, last) refl))
        ])
    | inr (inr f) ↦ absurd (ground arith)
  ]

  send_mapped-Progressed :
      (t : ℕ) (c : Chunk) → c.type ≡ file_chunk → IsSendable c → Progressed c (send_mapped sys t c)
  unfolding is_finished
  send_mapped-Progressed t c k h = elim (shape_cases c h) [
    | inl m ↦ absurd (ground arith)
    | inr (inl m) ↦ absurd (ground arith)
    | inr (inr (_, o, l)) ↦
        let size : sub_size c.file.length c.offset ≡ c.file.length - c.offset = omega arith in
        let at : add_size c.file.start c.offset ≡ c.file.start + c.offset = omega arith in
        let s : Bytes =
          sys.file (file_name c) (add_size c.file.start c.offset)
            (sub_size c.file.length c.offset) in
        let all : s ≡ remaining c = rw (remaining-file c k, size, at) refl in
        elim (Option-cases (sys.write t s)) [
          | inl e ↦ rw (Progressed, e) tt
          | inr (r, e) ↦ elim (Bool-cases (r == 0)) [
            | inl z ↦ rw (Progressed, e, z) tt
            | inr z ↦
                rw (Progressed, e, z)
                  (write-Progress c t r s (add_size c.offset r == c.file.length) h all e
                    (rw k refl))
          ]
        ]
  ]

  send_file-Progressed :
      (t : ℕ) (c : Chunk) → c.type ≡ file_chunk → IsSendable c → Progressed c (send_file sys t c)
  send_file-Progressed t c k h = elim (Option-cases (sys.stat_size t (file_name c))) [
    | inl e ↦ rw (Progressed, e) tt
    | inr (size, e) ↦
        let after = send_mapped-Progressed t c k h in
        elim (Bool-cases (slt size (add_size c.file.start c.offset))) [
          | inl l ↦ rw (Progressed, e, l) tt
          | inr l ↦ elim (Bool-cases (sys.open_file t (file_name c))) [
            | inr f ↦ rw (Progressed, e, l, f) tt
            | inl f ↦ elim (Bool-cases (sys.mmap t (file_name c))) [
              | inr m ↦ rw (Progressed, e, l, f, m) tt
              | inl m ↦ rw (Progressed, e, l, f, m) after
            ]
          ]
        ]
  ]

  pub send_chunk_lem :
      (t : ℕ) (c : Chunk)
      → (c.type ≡ mem_chunk → send_chunk sys t c ≡ send_mem sys t c)
        × (c.type ≡ file_chunk → send_chunk sys t c ≡ send_file sys t c)
  unfolding send_chunk
  send_chunk_lem t c = (λ k. ground arith, λ k. ground arith)

  pub send_chunk-Progressed : (t : ℕ) (c : Chunk) → IsSendable c → Progressed c (send_chunk sys t c)
  send_chunk-Progressed t c h = elim (shape_cases c h) [
    | inl m ↦ rw ((send_chunk_lem t c).0 m.0) (send_mem-Progressed t c m.0 h)
    | inr (inl m) ↦ rw ((send_chunk_lem t c).0 m.0) (send_mem-Progressed t c m.0 h)
    | inr (inr m) ↦ rw ((send_chunk_lem t c).1 m.0) (send_file-Progressed t c m.0 h)
  ]
