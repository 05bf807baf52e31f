-- ===== src/Chunk/Queue.antt =====
-- The invariant of the chunk queue, kept by taking a chunk and linking it at either end.
use ylem.Base.{
  ℕ, ◌+◌, ◌≤◌, ◌<◌, ◌≡◌, ◌≢◌, refl, ap, ◌∙◌, Option, none, some, List, [], ◌∷◌, ◌++◌, length, ◌==◌,
  if◌then◌else◌, arith,
}
use ylem.Chunk.{
  Chunk, unused_chunk, ChunkQueue, init, get_unused_chunk, prepend_chunk, link_after, append_chunk,
}

-- How often an address occurs in a list of chunks.
abbrev pub count_addr : ℕ → List Chunk → ℕ
count_addr n [] = 0
count_addr n (c ∷ cs) = (if c.addr == n then 1 else 0) + count_addr n cs

abbrev pub last_addr : List Chunk → Option ℕ
last_addr [] = none
last_addr (c ∷ []) = some c.addr
last_addr (c ∷ d ∷ ds) = last_addr (d ∷ ds)

abbrev pub Queued : List Chunk → Type 0
Queued [] = Unit
Queued (c ∷ cs) = (c.type ≢ unused_chunk) × Queued cs

-- `last` points to the end of the list at `first`; no chunk stands in two places; the chunks that are
-- kept for reuse are counted, and five at most.
pub record IsValid (q : ChunkQueue) : Type 0 where
  pub last_eq : q.last ≡ last_addr q.first
  pub unique : (n : ℕ) → count_addr n q.first + count_addr n q.unused ≤ 1
  pub below : (n : ℕ) → q.next_addr ≤ n → count_addr n q.first + count_addr n q.unused ≡ 0
  pub counted : q.unused_chunks ≡ length q.unused
  pub few : length q.unused ≤ 5
  pub queued : Queued q.first

-- `c` is in neither list of a valid queue.
pub record Spare (c : Chunk) (q : ChunkQueue) : Type 0 where
  pub valid : IsValid q
  pub apart :
      (n : ℕ) → (if c.addr == n then 1 else 0) + count_addr n q.first + count_addr n q.unused ≤ 1
  pub old : c.addr < q.next_addr

pub init-IsValid : IsValid init
unfolding init
init-IsValid = record {
  last_eq = refl;
  unique = λ n. omega arith;
  below = λ n h. omega arith;
  counted = refl;
  few = omega arith;
  queued = tt;
}

-- The chunk that is taken is spare, and the list at `first` stays.
get_unused-Spare :
    (q : ChunkQueue) (us : List Chunk)
    → q.unused ≡ us
    → IsValid q
    → let (c, q') = get_unused_chunk q in Spare c q' × (q'.first ≡ q.first)
unfolding get_unused_chunk
get_unused-Spare q [] e v = (
  record {
    valid = record {
      last_eq = ground (arith, v.last_eq);
      unique = λ n. ground (arith, v.unique n);
      below = λ n h. ground (arith, v.below n);
      counted = ground (arith, v.counted);
      few = ground (arith, v.few);
      queued = ground (arith, v.queued);
    };
    apart = λ n. ground (arith, v.unique n, v.below n);
    old = ground arith;
  },
  ground arith,
)
get_unused-Spare q (u ∷ us) e v = (
  record {
    valid = record {
      last_eq = ground (arith, v.last_eq);
      unique = λ n. ground (arith, v.unique n);
      below = λ n h. ground (arith, v.below n);
      counted = ground (arith, v.counted);
      few = ground (arith, v.few);
      queued = ground (arith, v.queued);
    };
    apart = λ n. ground (arith, v.unique n);
    old = ground (arith, v.below u.addr);
  },
  ground arith,
)

pub get_unused_chunk-Spare :
    (q : ChunkQueue)
    → IsValid q
    → let (c, q') = get_unused_chunk q in Spare c q' × (q'.first ≡ q.first)
get_unused_chunk-Spare q v = get_unused-Spare q q.unused refl v

count_addr-append :
    (n : ℕ) (xs ys : List Chunk) → count_addr n (xs ++ ys) ≡ count_addr n xs + count_addr n ys
count_addr-append n [] ys = omega arith
count_addr-append n (x ∷ xs) ys = omega (arith, count_addr-append n xs ys)

pub last_addr-append : (xs : List Chunk) (c : Chunk) → last_addr (xs ++ c ∷ []) ≡ some c.addr
last_addr-append [] c = refl
last_addr-append (x ∷ []) c = refl
last_addr-append (x ∷ y ∷ ys) c = last_addr-append (y ∷ ys) c

Queued-append :
    (xs : List Chunk) (c : Chunk) → Queued xs → c.type ≢ unused_chunk → Queued (xs ++ c ∷ [])
Queued-append [] c h t = (t, tt)
Queued-append (x ∷ xs) c h t = (h.0, Queued-append xs c h.1 t)

pub count-last : (l : ℕ) (xs : List Chunk) → last_addr xs ≡ some l → 1 ≤ count_addr l xs
count-last l [] h = absurd (cc h)
count-last l (x ∷ []) h = ground arith
count-last l (x ∷ y ∷ ys) h = ground (arith, count-last l (y ∷ ys) h)

-- Linking behind the address of the last chunk appends, if no other chunk has that address.
link_after-append :
    (l : ℕ) (c : Chunk) (xs : List Chunk)
    → last_addr xs ≡ some l
    → count_addr l xs ≤ 1
    → link_after l c xs ≡ xs ++ c ∷ []
unfolding link_after
link_after-append l c [] h u = absurd (cc h)
link_after-append l c (x ∷ []) h u = ground arith
link_after-append l c (x ∷ y ∷ ys) h u =
    ground (arith, count-last l (y ∷ ys) h, link_after-append l c (y ∷ ys) h)

pub last_addr-cons : (x : Chunk) (xs : List Chunk) → (l : ℕ) × (last_addr (x ∷ xs) ≡ some l)
last_addr-cons x [] = (x.addr, refl)
last_addr-cons x (y ∷ ys) = last_addr-cons y ys

append-first_of :
    (q : ChunkQueue) (c : Chunk) (xs : List Chunk)
    → q.first ≡ xs
    → IsValid q
    → (append_chunk q c).first ≡ xs ++ c ∷ []
unfolding append_chunk
append-first_of q c [] e v = ground (arith, v.last_eq)
append-first_of q c (x ∷ xs) e v =
    let (l, p) = last_addr-cons x xs in
    let once : count_addr l (x ∷ xs) ≤ 1 = ground (arith, v.unique l) in
    let last_is : q.last ≡ some l = v.last_eq ∙ ap last_addr e ∙ p in
    let linked = link_after-append l c (x ∷ xs) p once in ground arith

-- The list at `first` of a valid queue grows by the chunk at its end.
pub append_chunk-first :
    (q : ChunkQueue) (c : Chunk) → IsValid q → (append_chunk q c).first ≡ q.first ++ c ∷ []
append_chunk-first q c v = append-first_of q c q.first refl v

-- Linking a chunk that is in neither list at the end of a valid queue keeps the queue valid: `last`
-- points to the new end, and no chunk stands in two places.
pub append_chunk-IsValid :
    (q : ChunkQueue) (c : Chunk) → Spare c q → c.type ≢ unused_chunk → IsValid (append_chunk q c)
append_chunk-IsValid q c s t = record {
  last_eq = rw (append_chunk-first q c s.valid, last_addr-append) (unfold append_chunk in refl);
  unique = λ n.
      rw (append_chunk-first q c s.valid, count_addr-append)
        (unfold append_chunk in omega (arith, s.apart n));
  below = λ n h.
      rw (append_chunk-first q c s.valid, count_addr-append)
        (unfold append_chunk in ground (arith, s.valid.below n h, s.old));
  counted = unfold append_chunk in s.valid.counted;
  few = unfold append_chunk in s.valid.few;
  queued = rw (append_chunk-first q c s.valid) (Queued-append q.first c s.valid.queued t);
}

prepend-last :
    (last : Option ℕ) (c : Chunk) (xs : List Chunk)
    → last ≡ last_addr xs
    → elim last [ none ↦ some c.addr | some l ↦ some l ] ≡ last_addr (c ∷ xs)
prepend-last last c [] e = ground arith
prepend-last last c (x ∷ xs) e = let (l, p) = last_addr-cons x xs in ground arith

pub prepend_chunk-IsValid :
    (q : ChunkQueue) (c : Chunk) → Spare c q → c.type ≢ unused_chunk → IsValid (prepend_chunk q c)
unfolding prepend_chunk
prepend_chunk-IsValid q c s t = record {
  last_eq = prepend-last q.last c q.first s.valid.last_eq;
  unique = λ n. omega (arith, s.apart n);
  below = λ n h. ground (arith, s.valid.below n, s.old);
  counted = s.valid.counted;
  few = s.valid.few;
  queued = (t, s.valid.queued);
}
