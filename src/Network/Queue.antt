-- ===== src/Network/Queue.antt =====
-- What `network_write_chunkqueue` sends of a queue, and what it leaves.
use ylem.Base.{
  ℕ, suc, ◌+◌, ◌%◌, ◌^◌, ◌<◌, ◌≡◌, refl, sym, ap, ◌∙◌, inl, inr, Bytes, true, false, Option, some,
  List, [], ◌∷◌, ◌++◌, length, ◌==◌, if◌then◌else◌, arith, Bool-cases, Option-cases, append_assoc,
  append-nil, length-append,
}
use ylem.Memory.{add_size}
use ylem.Chunk.{
  Chunk, ChunkQueue, is_finished, remove_finished_chunks, remove_from, drop_first, is_empty,
}
use ylem.Chunk.Queue.{IsValid, count_addr, last_addr, Queued}
use ylem.Chunk.Finished.{unfinished, remove_finished_chunks_lem}
use ylem.Network.{
  System, sub_size, Sent, failed, sent, advance, BackendRun, send_chunk, write_chunks, Traffic,
  account, Delivery, write_chunkqueue, limit_reached,
}
use ylem.Network.Chunks.{
  IsSendable, remaining, remaining-is_finished, Progressed, send_chunk-Progressed,
}

abbrev pub AllSendable : List Chunk → Type 0
AllSendable [] = Unit
AllSendable (c ∷ cs) = IsSendable c × AllSendable cs

last_addr-same :
    (c d : Chunk) (xs ys : List Chunk)
    → c.addr ≡ d.addr
    → length xs ≡ length ys
    → last_addr xs ≡ last_addr ys
    → last_addr (c ∷ xs) ≡ last_addr (d ∷ ys)
last_addr-same c d [] [] a n h = ap some a
last_addr-same c d [] (y ∷ ys) a n h = absurd (omega arith)
last_addr-same c d (x ∷ xs) [] a n h = absurd (omega arith)
last_addr-same c d (x ∷ xs) (y ∷ ys) a n h = h

module _ (sys : System) where
  -- The bytes that a list of chunks has still to send.
  abbrev pub waiting : List Chunk → Bytes
  waiting [] = []
  waiting (c ∷ cs) = remaining sys c ++ waiting cs

  -- What the loop keeps and what it sends.
  pub record Written (out : ℕ) (cs : List Chunk) (run : BackendRun) : Type 0 where
    pub split : run.wire ++ waiting run.chunks ≡ waiting cs
    pub sendable : AllSendable run.chunks
    pub counts : (n : ℕ) → count_addr n run.chunks ≡ count_addr n cs
    pub last : last_addr run.chunks ≡ last_addr cs
    pub size : length run.chunks ≡ length cs
    pub bytes_out : run.bytes_out ≡ (out + length run.wire) % 2 ^ 64

  -- One turn, from what the later turns keep.
  turn-Written :
      (t out : ℕ) (c : Chunk) (cs : List Chunk) (s : Sent)
      → send_chunk sys t c ≡ s
      → Progressed sys c s
      → out < 2 ^ 64
      → IsSendable c × AllSendable cs
      → ((out' : ℕ) → out' < 2 ^ 64 → Written out' cs (write_chunks sys (suc t) out' cs))
      → Written out (c ∷ cs) (write_chunks sys t out (c ∷ cs))
  unfolding write_chunks
  turn-Written t out c cs failed e k b h later =
      rw (write_chunks, e)
        (record {
          split = refl;
          sendable = h;
          counts = λ n. refl;
          last = refl;
          size = refl;
          bytes_out = omega arith;
        })
  turn-Written t out c cs (sent s false) e k b h later =
      rw (write_chunks, e)
        (record {
          split =
              sym (append_assoc s (remaining sys (advance c (length s))) (waiting cs))
              ∙ ap (λ r. r ++ waiting cs) k.split;
          sendable = (k.sendable, h.1);
          counts = λ n. refl;
          last = last_addr-same (advance c (length s)) c cs cs refl refl refl;
          size = refl;
          bytes_out = refl;
        })
  turn-Written t out c cs (sent s true) e k b h later =
      let rest = write_chunks sys (suc t) (add_size out (length s)) cs in
      let ih = later (add_size out (length s)) (omega arith) in
      let done = remaining-is_finished sys (advance c (length s)) k.sendable k.finished_eq in
      let whole : s ≡ remaining sys c = sym (append-nil s) ∙ (rw done at k.split) in
      rw (write_chunks, e)
        (record {
          split = rw done (
              append_assoc s rest.wire (waiting rest.chunks)
              ∙ ap (λ r. s ++ r) ih.split
              ∙ ap (λ r. r ++ waiting cs) whole);
          sendable = (k.sendable, ih.sendable);
          counts = λ n. ap (λ m. (if c.addr == n then 1 else 0) + m) (ih.counts n);
          last = last_addr-same (advance c (length s)) c rest.chunks cs refl ih.size ih.last;
          size = ap suc ih.size;
          bytes_out = rw ih.bytes_out (omega (arith, length-append s rest.wire));
        })

  pub write_chunks-Written :
      (t out : ℕ) (cs : List Chunk)
      → out < 2 ^ 64
      → AllSendable cs
      → Written out cs (write_chunks sys t out cs)
  unfolding write_chunks
  write_chunks-Written t out [] b h = (record {
    split = refl;
    sendable = tt;
    counts = λ n. refl;
    last = refl;
    size = refl;
    bytes_out = omega arith;
  })
  write_chunks-Written t out (c ∷ cs) b h =
      turn-Written t out c cs (send_chunk sys t c) refl (send_chunk-Progressed sys t c h.0) b h
        (λ out' b'. write_chunks-Written (suc t) out' cs b' h.1)

  waiting-unfinished :
      (cs : List Chunk)
      → AllSendable cs
      → (waiting (unfinished cs) ≡ waiting cs) × AllSendable (unfinished cs)
  unfolding unfinished
  waiting-unfinished [] h = (refl, tt)
  waiting-unfinished (c ∷ cs) h = elim (Bool-cases (is_finished c)) [
    | inl f ↦
        let ih = waiting-unfinished cs h.1 in
        rw (unfinished, f, remaining-is_finished sys c h.0 f) ih
    | inr f ↦ rw (unfinished, f) (refl, h)
  ]

AllSendable-Queued : (cs : List Chunk) → AllSendable cs → Queued cs
unfolding IsSendable
AllSendable-Queued [] h = tt
AllSendable-Queued (c ∷ cs) h = (λ e. ground (arith, h.0), AllSendable-Queued cs h.1)

remove_from-bytes_out :
    (q : ChunkQueue) (cs : List Chunk) → (remove_from q cs).bytes_out ≡ q.bytes_out
unfolding remove_from drop_first
remove_from-bytes_out q [] = refl
remove_from-bytes_out q (c ∷ cs) = elim (Bool-cases (is_finished c)) [
  | inl f ↦ rw (remove_from, f) (remove_from-bytes_out (drop_first q c cs) cs)
  | inr f ↦ rw (remove_from, f) refl
]

account-bytes_written :
    (n : ℕ) (con : Traffic) → (account n con).bytes_written ≡ add_size con.bytes_written n
unfolding account
account-bytes_written n con = ground arith

code-empty :
    (o : Option ℕ) (q : ChunkQueue)
    → o ≡ some (if is_empty q then 0 else 1)
    → o ≡ some 0
    → q.first ≡ []
unfolding is_empty
code-empty o q e z = ground arith

-- What is sent and what is left, of a queue `q` with the counters `con`.
pub record Sending (sys : System) (con : Traffic) (q : ChunkQueue) (o : Delivery) : Type 0 where
  pub split : o.wire ++ waiting sys o.queue.first ≡ waiting sys q.first
  pub valid : IsValid o.queue
  pub sendable : AllSendable o.queue.first
  pub bytes_out : o.queue.bytes_out ≡ (q.bytes_out + length o.wire) % 2 ^ 64
  pub bytes_written : o.traffic.bytes_written ≡ (con.bytes_written + length o.wire) % 2 ^ 64
  pub complete : o.code ≡ some 0 → (o.queue.first ≡ []) × (o.wire ≡ waiting sys q.first)

module _ (sys : System) (q : ChunkQueue) (v : IsValid q) (h : AllSendable q.first)
    (b : q.bytes_out < 2 ^ 64) where
  -- The queue that the backend leaves is valid.
  pub left-IsValid :
      let run = write_chunks sys 0 q.bytes_out q.first in
      IsValid (record q { first = run.chunks; bytes_out = run.bytes_out })
  left-IsValid =
      let w = write_chunks-Written sys 0 q.bytes_out q.first b h in
      record {
        last_eq = v.last_eq ∙ sym w.last;
        unique = λ n. rw (w.counts n) (v.unique n);
        below = λ n l. rw (w.counts n) (v.below n l);
        counted = v.counted;
        few = v.few;
        queued = AllSendable-Queued (write_chunks sys 0 q.bytes_out q.first).chunks w.sendable;
      }

  -- `network_write_chunkqueue`, on every path, errors and short writes included: what it sends and
  -- what the queue has still to send are together what the queue had to send; the queue stays
  -- valid and sendable; `bytes_out` of the queue and `bytes_written` of the connection count the
  -- bytes that were sent; and after the answer 0 the queue is empty and was sent as a whole. The
  -- queue is valid, its chunks sendable, and the two counters are below 2 ^ 64.
  pub write_chunkqueue-Sending :
      (con : Traffic) → con.bytes_written < 2 ^ 64 → Sending sys con q (write_chunkqueue sys con q)
  unfolding write_chunkqueue remove_finished_chunks is_empty
  write_chunkqueue-Sending con l =
      let run = write_chunks sys 0 q.bytes_out q.first in
      let w = write_chunks-Written sys 0 q.bytes_out q.first b h in
      let left : ChunkQueue = record q { first = run.chunks; bytes_out = run.bytes_out } in
      let (clean, rest, _) = remove_finished_chunks_lem left left-IsValid in
      let (same, sendable) = waiting-unfinished sys run.chunks w.sendable in
      let kept : waiting sys (remove_finished_chunks left).first ≡ waiting sys run.chunks =
        ap (waiting sys) rest ∙ same in
      let n : ℕ = sub_size run.bytes_out q.bytes_out in
      let counted = account-bytes_written n con in
      let written : add_size con.bytes_written n ≡ (con.bytes_written + length run.wire) % 2 ^ 64 =
        omega (arith, w.bytes_out) in
      elim (Bool-cases (limit_reached con.global_kbytes_per_second con.global_bytes_cnt)) [
        | inl g ↦ rw g (record {
          split = refl;
          valid = v;
          sendable = h;
          bytes_out = omega arith;
          bytes_written = omega arith;
          complete = λ e. absurd (ground arith);
        })
        | inr g ↦ elim (Option-cases run.code) [
          | inl e ↦
              rw (g, e)
                (record {
                  split = w.split;
                  valid = left-IsValid;
                  sendable = w.sendable;
                  bytes_out = w.bytes_out;
                  bytes_written = counted ∙ written;
                  complete = λ z. absurd (ground arith);
                })
          | inr (k, e) ↦
              rw (g, e)
                (record {
                  split = ap (λ x. run.wire ++ x) kept ∙ w.split;
                  valid = clean;
                  sendable = rw rest sendable;
                  bytes_out = remove_from-bytes_out left run.chunks ∙ w.bytes_out;
                  bytes_written = counted ∙ written;
                  complete = λ z.
                      let none_left = code-empty _ (remove_finished_chunks left) refl z in
                      (
                        none_left,
                        sym (append-nil run.wire)
                            ∙ ap (λ cs. run.wire ++ waiting sys cs) (sym none_left)
                            ∙ ap (λ x. run.wire ++ x) kept
                            ∙ w.split,
                      );
                })
        ]
      ]
