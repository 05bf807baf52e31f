-- ===== src/Chunk.antt =====
-- The chunk queue of storage/src/lighttpd/src/chunk.{h,c}. A chunk has an address, so that `last` can
-- point into the list that starts at `first`; the list is followed through `next`, and a write
-- through `last` changes that list where it holds the chunk. The system calls of a reset (unlink,
-- close, munmap) are recorded in order. Offsets are the bit patterns of `off_t`, below 2 ^ 64.
pub mod Queue
pub mod Finished
pub mod Lifetime
pub mod Contents
mod Tests
use ylem.Base.{
  ℕ, suc, ◌+◌, ◌-◌, ◌%◌, ◌^◌, Bytes, Bool, true, false, not, ◌&&◌, ◌||◌, Option, none, some, List,
  [], ◌∷◌, ◌++◌, length, take, map, ltb, ◌==◌, if◌then◌else◌, ◌>>=◌,
}
use ylem.Memory.{add_size, Allocator}
use ylem.Buffer
use ylem.Buffer.{Buffer}

-- `x - 1` in `size_t`, also read as `off_t`.
abbrev pub pred_size : ℕ → ℕ
pred_size x = (x + 2 ^ 64 - 1) % 2 ^ 64

pub data ChunkType : Type 0 where
  unused_chunk mem_chunk file_chunk : ChunkType

-- `c->file`: `fd` is none for -1, `mapped` tells whether `mmap.start` is not MAP_FAILED.
pub record FilePart : Type 0 where
  pub name : Buffer
  pub start : ℕ
  pub length : ℕ
  pub fd : Option ℕ
  pub mapped : Bool
  pub is_temp : Bool

pub record Chunk : Type 0 where
  pub addr : ℕ
  pub type : ChunkType
  pub mem : Buffer
  pub file : FilePart
  pub offset : ℕ

pub data Effect : Type 0 where
  unlink : Bytes → Effect
  close : ℕ → Effect
  munmap : ℕ → Effect

pub record ChunkQueue : Type 0 where
  pub first : List Chunk
  pub last : Option ℕ
  pub unused : List Chunk
  pub unused_chunks : ℕ
  pub tempdirs : Option (List Buffer)
  pub bytes_in : ℕ
  pub bytes_out : ℕ
  -- the next address that `calloc` returns
  pub next_addr : ℕ
  pub effects : List Effect

unfoldable pub init : ChunkQueue
init = record {
  first = [];
  last = none;
  unused = [];
  unused_chunks = 0;
  tempdirs = none;
  bytes_in = 0;
  bytes_out = 0;
  next_addr = 0;
  effects = [];
}

unfoldable pub chunk_init : ℕ → Chunk
unfolding Buffer.init
chunk_init addr = record {
  addr = addr;
  type = unused_chunk;
  mem = Buffer.init;
  file = record {
    name = Buffer.init;
    start = 0;
    length = 0;
    fd = none;
    mapped = false;
    is_temp = false;
  };
  offset = 0;
}

-- The system calls that `chunk_reset` makes on a chunk.
unfoldable pub unlinks : Chunk → List Effect
unlinks c =
    if c.file.is_temp && not (c.file.name.used == 0)
    then unlink (take (c.file.name.used - 1) c.file.name.ptr) ∷ []
    else []

unfoldable pub closes : Chunk → List Effect
closes c = elim c.file.fd [ none ↦ [] | some fd ↦ close fd ∷ [] ]

unfoldable pub unmaps : Chunk → List Effect
unmaps c = if c.file.mapped then munmap c.addr ∷ [] else []

unfoldable pub chunk_reset : Chunk → Chunk × List Effect
chunk_reset c = (
  record c {
    mem = Buffer.reset c.mem;
    file = record (c.file) { name = Buffer.reset c.file.name; fd = none; mapped = false };
  },
  unlinks c ++ (closes c ++ unmaps c),
)

-- A stack of chunks to be used again, or a new one.
unfoldable pub get_unused_chunk : ChunkQueue → Chunk × ChunkQueue
unfolding chunk_init
get_unused_chunk q = pick q.unused
  where
    pick : List Chunk → Chunk × ChunkQueue
    pick [] = (chunk_init q.next_addr, record q { next_addr = q.next_addr + 1 })
    pick (c ∷ cs) = (c, record q { unused = cs; unused_chunks = q.unused_chunks - 1 })

unfoldable pub prepend_chunk : ChunkQueue → Chunk → ChunkQueue
prepend_chunk q c = record q {
  first = c ∷ q.first;
  last = elim q.last [ none ↦ some c.addr | some l ↦ some l ];
}

-- `last->next = c` where the list holds the chunk at that address.
unfoldable pub link_after : ℕ → Chunk → List Chunk → List Chunk
link_after l c [] = []
link_after l c (x ∷ xs) = elim (x.addr == l) [ true ↦ x ∷ c ∷ [] | false ↦ x ∷ link_after l c xs ]

unfoldable pub append_chunk : ChunkQueue → Chunk → ChunkQueue
unfolding link_after
append_chunk q c = record q { first = start linked; last = some c.addr }
  where
    linked : List Chunk
    linked = elim q.last [ none ↦ q.first | some l ↦ link_after l c q.first ]

    start : List Chunk → List Chunk
    start [] = c ∷ []
    start (x ∷ xs) = x ∷ xs

unfoldable pub is_finished : Chunk → Bool
is_finished c = elim c.type [
  | mem_chunk ↦ c.mem.used == 0 || c.offset == pred_size c.mem.used
  | file_chunk ↦ c.offset == c.file.length
  | unused_chunk ↦ false
]

-- What the loop of `chunkqueue_remove_finished_chunks` does with its finished first chunk.
unfoldable pub drop_first : ChunkQueue → Chunk → List Chunk → ChunkQueue
unfolding chunk_reset
drop_first q c rest =
    let (fresh, done) = chunk_reset c in
    let keep = not (ltb 4 q.unused_chunks) in
    record q {
      first = rest;
      last = elim q.last [ none ↦ none | some l ↦ if c.addr == l then none else some l ];
      unused = if keep then fresh ∷ q.unused else q.unused;
      unused_chunks = if keep then q.unused_chunks + 1 else q.unused_chunks;
      effects = q.effects ++ done;
    }

unfoldable pub remove_from : ChunkQueue → List Chunk → ChunkQueue
remove_from q [] = q
remove_from q (c ∷ cs) = elim (is_finished c) [
  | true ↦ remove_from (drop_first q c cs) cs
  | false ↦ q
]

unfoldable pub remove_finished_chunks : ChunkQueue → ChunkQueue
unfolding remove_from
remove_finished_chunks q = remove_from q q.first

unfoldable pub mark_written : Chunk → Chunk
mark_written c = elim c.type [
  | mem_chunk ↦ record c { offset = pred_size c.mem.used }
  | file_chunk ↦ record c { offset = c.file.length }
  | unused_chunk ↦ c
]

unfoldable pub reset : ChunkQueue → ChunkQueue
unfolding mark_written remove_finished_chunks
reset q = record (remove_finished_chunks (record q { first = map mark_written q.first })) {
  bytes_in = 0;
  bytes_out = 0;
}

-- Sums are taken in `off_t`.
unfoldable pub queue_length : List Chunk → ℕ → ℕ
queue_length [] len = len
queue_length (c ∷ cs) len = queue_length cs (elim c.type [
  | mem_chunk ↦ add_size len (if c.mem.used == 0 then 0 else c.mem.used - 1)
  | file_chunk ↦ add_size len c.file.length
  | unused_chunk ↦ len
])

unfoldable pub queue_written : List Chunk → ℕ → ℕ
queue_written [] len = len
queue_written (c ∷ cs) len = queue_written cs (elim c.type [
  | mem_chunk ↦ add_size len c.offset
  | file_chunk ↦ add_size len c.offset
  | unused_chunk ↦ len
])

unfoldable pub is_empty : ChunkQueue → Bool
is_empty q = elim q.first [ [] ↦ true | _ ∷ _ ↦ false ]

module _ (a : Allocator) where
  unfoldable pub append_file : ChunkQueue → Buffer → ℕ → ℕ → Option ChunkQueue
  append_file q fn offset len = if len == 0 then some q else do
    let (c, q') = get_unused_chunk q
    (name, _) ← Buffer.copy_string_buffer a c.file.name (some fn)
    some (
        append_chunk q' (record c {
          type = file_chunk;
          file = record (c.file) { name = name; start = offset; length = len };
          offset = 0;
        }))

  mem_of : Chunk → Buffer → Option Chunk
  mem_of c mem = do
    (copy, _) ← Buffer.copy_string_buffer a c.mem (some mem)
    some (record c { type = mem_chunk; offset = 0; mem = copy })

  unfoldable pub append_buffer : ChunkQueue → Buffer → Option ChunkQueue
  unfolding mem_of
  append_buffer q mem =
      if mem.used == 0
      then some q
      else do let (c, q') = get_unused_chunk q; c' ← mem_of c mem; some (append_chunk q' c')

  unfoldable pub prepend_buffer : ChunkQueue → Buffer → Option ChunkQueue
  unfolding mem_of
  prepend_buffer q mem =
      if mem.used == 0
      then some q
      else do let (c, q') = get_unused_chunk q; c' ← mem_of c mem; some (prepend_chunk q' c')

  -- `len` counts a terminator: the chunk holds the first `len - 1` bytes of `mem`.
  unfoldable pub append_mem : ChunkQueue → Bytes → ℕ → Option ChunkQueue
  append_mem q mem len = if len == 0 then some q else do
    let (c, q') = get_unused_chunk q
    (copy, _) ← Buffer.copy_string_len a c.mem (some (take (len - 1) mem))
    some (append_chunk q' (record c { type = mem_chunk; offset = 0; mem = copy }))

-- The buffer itself becomes the storage of the chunk.
unfoldable pub append_buffer_weak : ChunkQueue → Buffer → ChunkQueue
append_buffer_weak q mem =
    if mem.used == 0
    then q
    else let (c, q') = get_unused_chunk q in
      append_chunk q' (record c { type = mem_chunk; offset = 0; mem = mem })

-- The address of the chunk stands for the pointer to its `mem` that is returned.
unfoldable pub get_append_buffer : ChunkQueue → ℕ × ChunkQueue
get_append_buffer q =
    let (c, q') = get_unused_chunk q in
    (c.addr, append_chunk q' (record c { type = mem_chunk; offset = 0; mem = Buffer.reset c.mem }))

unfoldable pub get_prepend_buffer : ChunkQueue → ℕ × ChunkQueue
get_prepend_buffer q =
    let (c, q') = get_unused_chunk q in
    (c.addr, prepend_chunk q' (record c { type = mem_chunk; offset = 0; mem = Buffer.reset c.mem }))
