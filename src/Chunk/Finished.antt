-- ===== src/Chunk/Finished.antt =====
-- `chunkqueue_remove_finished_chunks`: which chunks go, what happens to them, and what stays.
use ylem.Base.{
  ℕ, ◌+◌, ◌≤◌, ◌≡◌, ◌≢◌, refl, sym, ap, ◌∙◌, true, false, none, some, List, [], ◌∷◌, ◌++◌, arith,
  Bool-cases, inl, inr, map, append-nil, append_assoc,
}
use ylem.Chunk.{
  Chunk, unused_chunk, ChunkQueue, Effect, unlinks, closes, unmaps, is_finished, drop_first,
  remove_from, remove_finished_chunks, mark_written, reset,
}
use ylem.Chunk.Queue.{IsValid, count_addr, last_addr, last_addr-cons, count-last, Queued}

-- The chunks behind the longest finished prefix, and what resetting that prefix does.
unfoldable pub unfinished : List Chunk → List Chunk
unfinished [] = []
unfinished (c ∷ cs) = elim (is_finished c) [ true ↦ unfinished cs | false ↦ c ∷ cs ]

unfoldable pub finish_effects : List Chunk → List Effect
finish_effects [] = []
finish_effects (c ∷ cs) = elim (is_finished c) [
  | true ↦ (unlinks c ++ (closes c ++ unmaps c)) ++ finish_effects cs
  | false ↦ []
]

drop-last :
    (q : ChunkQueue) (c : Chunk) (cs : List Chunk)
    → q.first ≡ c ∷ cs
    → IsValid q
    → (drop_first q c cs).last ≡ last_addr cs
unfolding drop_first
drop-last q c [] e v =
    let last_is : q.last ≡ some c.addr = v.last_eq ∙ ap last_addr e in ground arith
drop-last q c (d ∷ ds) e v =
    let (l, p) = last_addr-cons d ds in
    let last_is : q.last ≡ some l = v.last_eq ∙ ap last_addr e ∙ p in
    let twice : count_addr l (c ∷ d ∷ ds) ≤ 1 = ground (arith, v.unique l) in
    ground (arith, count-last l (d ∷ ds) p)

drop_first-IsValid :
    (q : ChunkQueue) (c : Chunk) (cs : List Chunk)
    → q.first ≡ c ∷ cs
    → IsValid q
    → IsValid (drop_first q c cs)
unfolding drop_first
drop_first-IsValid q c cs e v = record {
  last_eq = drop-last q c cs e v;
  unique = λ n. ground (arith, v.unique n);
  below = λ n h. ground (arith, v.below n);
  counted = ground (arith, v.counted);
  few = ground (arith, v.few);
  queued = ground (arith, v.queued);
}

record Removed (q : ChunkQueue) (cs : List Chunk) (r : ChunkQueue) : Type 0 where
  pub valid : IsValid r
  pub rest : r.first ≡ unfinished cs
  pub done : r.effects ≡ q.effects ++ finish_effects cs

-- One round of the loop, at a finished chunk and at one that is not.
step_finished :
    (q : ChunkQueue) (c : Chunk) (cs : List Chunk)
    → is_finished c ≡ true
    → (remove_from q (c ∷ cs) ≡ remove_from (drop_first q c cs) cs)
      × (unfinished (c ∷ cs) ≡ unfinished cs)
      × (finish_effects (c ∷ cs) ≡ (unlinks c ++ (closes c ++ unmaps c)) ++ finish_effects cs)
unfolding remove_from unfinished finish_effects
step_finished q c cs h = ground arith

step_unfinished :
    (q : ChunkQueue) (c : Chunk) (cs : List Chunk)
    → is_finished c ≡ false
    → (remove_from q (c ∷ cs) ≡ q) × (unfinished (c ∷ cs) ≡ c ∷ cs) × (finish_effects (c ∷ cs) ≡ [])
unfolding remove_from unfinished finish_effects
step_unfinished q c cs h = ground arith

drop_first-fields :
    (q : ChunkQueue) (c : Chunk) (cs : List Chunk)
    → ((drop_first q c cs).first ≡ cs)
      × ((drop_first q c cs).effects ≡ q.effects ++ (unlinks c ++ (closes c ++ unmaps c)))
unfolding drop_first
drop_first-fields q c cs = (refl, refl)

remove_from-Removed :
    (q : ChunkQueue) (cs : List Chunk) → q.first ≡ cs → IsValid q → Removed q cs (remove_from q cs)
remove_from-Removed q [] e v = record {
  valid = unfold remove_from in v;
  rest = unfold remove_from unfinished in e;
  done = unfold remove_from finish_effects in sym (append-nil q.effects);
}
remove_from-Removed q (c ∷ cs) e v = elim (Bool-cases (is_finished c)) [
  | inl f ↦
      let (r, u, d) = step_finished q c cs f in
      let (first, effects) = drop_first-fields q c cs in
      let ih = remove_from-Removed (drop_first q c cs) cs first (drop_first-IsValid q c cs e v) in
      rw r (record {
        valid = ih.valid;
        rest = ih.rest ∙ sym u;
        done = rw (ih.done, effects, d) (append_assoc q.effects _ (finish_effects cs));
      })
  | inr f ↦
      let (r, u, d) = step_unfinished q c cs f in
      rw r (record { valid = v; rest = e ∙ sym u; done = rw (d, append-nil) refl })
]

-- `chunkqueue_remove_finished_chunks` keeps the invariant, removes exactly the longest finished prefix
-- and so leaves no finished chunk in front, and makes the system calls of each removed chunk in order.
pub remove_finished_chunks_lem :
    (q : ChunkQueue)
    → IsValid q
    → let r = remove_finished_chunks q in
      IsValid r × (r.first ≡ unfinished q.first) × (r.effects ≡ q.effects ++ finish_effects q.first)
unfolding remove_finished_chunks
remove_finished_chunks_lem q v =
    let h = remove_from-Removed q q.first refl v in (h.valid, h.rest, h.done)

mark_written-addr : (c : Chunk) → (mark_written c).addr ≡ c.addr
unfolding mark_written
mark_written-addr c = ground arith

count_addr-map : (n : ℕ) (cs : List Chunk) → count_addr n (map mark_written cs) ≡ count_addr n cs
count_addr-map n [] = refl
count_addr-map n (c ∷ cs) = rw (mark_written-addr c, count_addr-map n cs)

last_addr-map : (cs : List Chunk) → last_addr (map mark_written cs) ≡ last_addr cs
last_addr-map [] = refl
last_addr-map (c ∷ []) = ap some (mark_written-addr c)
last_addr-map (c ∷ d ∷ ds) = last_addr-map (d ∷ ds)

Queued-map : (cs : List Chunk) → Queued cs → Queued (map mark_written cs)
Queued-map [] h = tt
Queued-map (c ∷ cs) h = (unfold mark_written in ground (arith, h.0), Queued-map cs h.1)

-- What resetting every chunk of a list does.
unfoldable pub all_effects : List Chunk → List Effect
all_effects [] = []
all_effects (c ∷ cs) = (unlinks c ++ (closes c ++ unmaps c)) ++ all_effects cs

mark_written-is_finished : (c : Chunk) → c.type ≢ unused_chunk → is_finished (mark_written c) ≡ true
unfolding mark_written is_finished
mark_written-is_finished c h = ground arith

mark_written-effects :
    (c : Chunk)
    → let d = mark_written c in
      unlinks d ++ (closes d ++ unmaps d) ≡ unlinks c ++ (closes c ++ unmaps c)
unfolding mark_written unlinks closes unmaps
mark_written-effects c = ground arith

unfinished-mark_written :
    (cs : List Chunk)
    → Queued cs
    → (unfinished (map mark_written cs) ≡ [])
      × (finish_effects (map mark_written cs) ≡ all_effects cs)
unfolding unfinished finish_effects all_effects
unfinished-mark_written [] h = (refl, refl)
unfinished-mark_written (c ∷ cs) h =
    let ih = unfinished-mark_written cs h.1 in
    rw (mark_written-is_finished c h.0, unfinished, finish_effects, mark_written-effects c, ih.1)
      (ih.0, refl)

-- `chunkqueue_reset` empties a valid queue: every chunk is reset, with its system calls made in order,
-- the queue stays valid, and the two byte counters are zero.
pub queue_reset_lem :
    (q : ChunkQueue)
    → IsValid q
    → let r = reset q in
      IsValid r
      × (r.first ≡ [])
      × (r.last ≡ none)
      × (r.bytes_in + r.bytes_out ≡ 0)
      × (r.effects ≡ q.effects ++ all_effects q.first)
unfolding reset
queue_reset_lem q v =
    let m : ChunkQueue = record q { first = map mark_written q.first } in
    let marked : IsValid m = record {
      last_eq = v.last_eq ∙ sym (last_addr-map q.first);
      unique = λ n. rw (count_addr-map n q.first) (v.unique n);
      below = λ n h. rw (count_addr-map n q.first) (v.below n h);
      counted = v.counted;
      few = v.few;
      queued = Queued-map q.first v.queued;
    } in
    let (valid, rest, done) = remove_finished_chunks_lem m marked in
    let gone = unfinished-mark_written q.first v.queued in
    let empty = rest ∙ gone.0 in
    (
      record {
        last_eq = valid.last_eq;
        unique = valid.unique;
        below = valid.below;
        counted = valid.counted;
        few = valid.few;
        queued = valid.queued;
      },
      empty,
      valid.last_eq ∙ ap last_addr empty,
      refl,
      done ∙ ap (λ e. q.effects ++ e) gone.1,
    )
