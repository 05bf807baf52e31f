-- ===== src/Chunk/Tests.antt =====
-- The theorems of the chunk queue at concrete queues.
use ylem.Base.{◌+◌, ◌≡◌, refl, inr, true, false, none, some, [], ◌∷◌, ◌++◌, arith, codes}
use ylem.Memory.Samples.{plain}
use ylem.Buffer
use ylem.Buffer.{Buffer}
use ylem.Buffer.Inv.{Holds}
use ylem.Chunk.{
  Chunk, file_chunk, mem_chunk, ChunkQueue, unlink, close, append_file, remove_finished_chunks,
  chunk_reset, is_finished, unlinks, closes, unmaps, reset,
}
use ylem.Chunk.Queue.{IsValid}
use ylem.Chunk.Finished.{
  unfinished, finish_effects, all_effects, remove_finished_chunks_lem, queue_reset_lem,
}
use ylem.Chunk.Lifetime.{HasRoom, append_file-unlinks}

abbrev empty : Buffer
empty = record { ptr = []; used = 0; size = 0 }

abbrev hi : Buffer
hi = record { ptr = codes "hi" ++ 0 ∷ []; used = 3; size = 3 }

hi-Holds : Holds hi (codes "hi")
hi-Holds = inr (refl, refl)

-- A temporary file of five bytes, all of them sent, whose descriptor is 7.
abbrev sent : Chunk
sent = record {
  addr = 0;
  type = file_chunk;
  mem = empty;
  file = record { name = hi; start = 0; length = 5; fd = some 7; mapped = false; is_temp = true };
  offset = 5;
}

abbrev waiting : Chunk
waiting = record sent { addr = 1; type = mem_chunk; mem = hi; offset = 0 }

abbrev spare : Chunk
spare = record sent { addr = 2; offset = 0 }

-- That chunk when it has been reset.
abbrev cleared : Chunk
cleared = (chunk_reset spare).0

abbrev two : ChunkQueue
two = record {
  first = sent ∷ waiting ∷ [];
  last = some 1;
  unused = [];
  unused_chunks = 0;
  tempdirs = none;
  bytes_in = 0;
  bytes_out = 5;
  next_addr = 3;
  effects = [];
}

two-IsValid : IsValid two
two-IsValid = record {
  last_eq = refl;
  unique = λ n. ground arith;
  below = λ n h. ground arith;
  counted = refl;
  few = omega arith;
  queued = (λ e. cc e, (λ e. cc e, tt));
}

finish_effects-two : finish_effects two.first ≡ unlink (codes "hi") ∷ close 7 ∷ []
unfolding finish_effects is_finished unlinks closes unmaps
finish_effects-two = refl

unfinished-two : unfinished two.first ≡ waiting ∷ []
unfolding unfinished is_finished
unfinished-two = refl

remove_finished_chunks_lem_example :
    let r = remove_finished_chunks two in
    IsValid r × (r.first ≡ unfinished two.first) × (r.effects ≡ finish_effects two.first)
remove_finished_chunks_lem_example = remove_finished_chunks_lem two two-IsValid

queue_reset_lem_example :
    let r = reset two in
    IsValid r
    × (r.first ≡ [])
    × (r.last ≡ none)
    × (r.bytes_in + r.bytes_out ≡ 0)
    × (r.effects ≡ all_effects two.first)
queue_reset_lem_example = queue_reset_lem two two-IsValid

-- The queue whose next chunk to be used again was a temporary file.
abbrev again : ChunkQueue
again = record two { first = []; last = none; unused = cleared ∷ []; unused_chunks = 1 }

again-IsValid : IsValid again
unfolding chunk_reset
again-IsValid = record {
  last_eq = refl;
  unique = λ n. ground arith;
  below = λ n h. ground arith;
  counted = refl;
  few = omega arith;
  queued = tt;
}

again-HasRoom : HasRoom 3 cleared
unfolding chunk_reset Buffer.reset
again-HasRoom = ground arith

append_file-unlinks_example :
    (r : ChunkQueue) × (d : Chunk) × (append_file plain again hi 0 9 ≡ some r)
    × (r.first ≡ again.first ++ d ∷ [])
    × (d.type ≡ file_chunk)
    × (unlinks d ≡ unlink (codes "hi") ∷ [])
append_file-unlinks_example =
    append_file-unlinks plain again spare [] hi (codes "hi") 0 9 again-IsValid refl refl hi-Holds
      (λ e. cc e) (again-HasRoom, omega arith) (λ e. omega arith)
