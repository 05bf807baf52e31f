-- ===== src/HttpChunk/Tests.antt =====
-- The theorems of the chunked framing at concrete responses.
use ylem.Base.{
  ℕ, ◌≡◌, refl, inr, Bytes, true, none, some, [], ◌∷◌, ◌++◌, replicate, codes, arith, bytes_eq,
}
use ylem.Memory.Samples.{plain}
use ylem.Buffer.{Buffer}
use ylem.Buffer.Inv.{Holds}
use ylem.Chunk.{ChunkQueue}
use ylem.Chunk.Queue.{IsValid}
use ylem.Chunk.Contents.{contents}
use ylem.HttpChunk.{Response, append_mem, append_buffer, append_file, count_digits}
use ylem.HttpChunk.Digits.{len_text, read_hex}
use ylem.HttpChunk.Decode.{frame, decode, decode_chunks, read_length, skip_crlf}
use ylem.HttpChunk.Steps.{IsReady, Sends}
use ylem.HttpChunk.Frame.{append_mem-Sends, append_buffer-Sends, append_file-decodes}
use ylem.HttpChunk.Trip.{send_all, decode-send_all}

abbrev none_queued : ChunkQueue
none_queued = record {
  first = [];
  last = none;
  unused = [];
  unused_chunks = 0;
  tempdirs = none;
  bytes_in = 0;
  bytes_out = 0;
  next_addr = 0;
  effects = [];
}

abbrev idle : Response
idle = record {
  write_queue = none_queued;
  tmp_chunk_len = record { ptr = []; used = 0; size = 0 };
  chunked = true;
}

none_queued-IsValid : IsValid none_queued
none_queued-IsValid = record {
  last_eq = refl;
  unique = λ m. omega arith;
  below = λ m h. omega arith;
  counted = refl;
  few = omega arith;
  queued = tt;
}

idle-IsReady : IsReady 100 idle
idle-IsReady = (
  (record { storage = refl; fits = omega arith }, omega arith),
  (none_queued-IsValid, omega arith),
  omega arith,
  omega arith,
)

-- Files of zero bytes.
abbrev zeros : Bytes → ℕ → ℕ → Bytes
zeros name offset len = replicate len 0

abbrev hi : Buffer
hi = record { ptr = codes "hi" ++ 0 ∷ []; used = 3; size = 3 }

hi-Holds : Holds hi (codes "hi")
hi-Holds = inr (refl, refl)

len_text-26 : len_text 26 ≡ codes "1a"
unfolding count_digits
len_text-26 = refl

append_mem-Sends_example :
    Sends zeros 100 idle (append_mem plain idle (codes "hi") 3) (frame (codes "hi"))
append_mem-Sends_example =
    append_mem-Sends zeros 100 plain idle (codes "hi") 3 idle-IsReady (omega arith) (omega arith)

append_buffer-Sends_example :
    Sends zeros 100 idle (append_buffer plain idle hi) (frame (codes "hi"))
append_buffer-Sends_example =
    append_buffer-Sends zeros 100 plain idle hi (codes "hi") idle-IsReady hi-Holds (omega arith)

last_chunk : decode_chunks 1 (frame []) ≡ some []
unfolding decode_chunks read_length read_hex skip_crlf bytes_eq
last_chunk = refl

append_file-decodes_example :
    (r : Response) × (s : Bytes) × (append_file plain idle hi 5 3 ≡ some r)
    × (contents zeros r.write_queue.first ≡ contents zeros idle.write_queue.first ++ s)
    × (decode_chunks 2 (s ++ frame []) ≡ some (0 ∷ 0 ∷ 0 ∷ []))
append_file-decodes_example =
    append_file-decodes zeros 100 plain idle hi (codes "hi") 5 3 idle-IsReady hi-Holds (omega arith)
      refl (omega arith) (omega arith) 1 (frame []) [] last_chunk

decode-send_all_example :
    (r : Response) × (body : Bytes) × (send_all plain idle (codes "ab" ∷ codes "c" ∷ []) ≡ some r)
    × (contents zeros r.write_queue.first ≡ body)
    × (decode body ≡ some (codes "abc"))
decode-send_all_example =
    decode-send_all zeros 100 plain (codes "ab" ∷ codes "c" ∷ []) idle idle-IsReady refl
      (omega arith, (omega arith, tt))
      ((omega arith, omega arith), ((omega arith, omega arith), tt))
