-- ===== src/Network/Tests.antt =====
-- The theorems on sending at a concrete queue and system.
use ylem.Base.{
  ℕ, zero, suc, ◌-◌, ◌≤◌, ◌≡◌, ◌≢◌, refl, ap, inr, Bytes, true, false, none, some, [], ◌∷◌, ◌++◌,
  length, take, replicate, min, codes, arith,
}
use ylem.Buffer.{Buffer}
use ylem.Chunk.{Chunk, mem_chunk, file_chunk, ChunkQueue}
use ylem.Chunk.Queue.{IsValid}
use ylem.Network.{System, Traffic, send_chunk, write_chunks, write_chunkqueue}
use ylem.Network.Chunks.{IsSendable}
use ylem.Network.Queue.{AllSendable, waiting, Sending, write_chunkqueue-Sending}
use ylem.Network.Writing.{
  Writer, state_write, state_response_end, IsReady, handle_write, from_turn, Reaches, stop, turn,
  Reaches-split,
}
use ylem.Network.Complete.{AllReadable, write_chunkqueue-all}

abbrev zeros : ℕ → Bytes
zeros n = replicate n 0

length-zeros : (n : ℕ) → length (zeros n) ≡ n
length-zeros zero = refl
length-zeros (suc n) = ap suc (length-zeros n)

zeros-append : (n r : ℕ) → r ≤ n → take r (zeros n) ++ zeros (n - r) ≡ zeros n
zeros-append n zero h = ap zeros (omega arith)
zeros-append zero (suc r) h = absurd (omega arith)
zeros-append (suc n) (suc r) h =
    let e : suc n - suc r ≡ n - r = omega arith in
    rw e (ap (λ s. 0 ∷ s) (zeros-append n r (omega arith)))

some-le : (a b r : ℕ) → a ≤ b → some a ≡ some r → r ≤ b
some-le a b r h e = ground arith

-- Files of zero bytes, and a socket that takes all it is given.
abbrev willing : System
willing = record {
  write = λ t s. some (length s);
  stat_size = λ t name. some 100;
  open_file = λ t name. true;
  mmap = λ t name. true;
  file = λ name offset n. zeros n;
  write-le = λ t s r e. some-le (length s) (length s) r (omega arith) e;
  length-file = λ name offset n. length-zeros n;
  file-append = λ name offset n r h. zeros-append n r h;
}

-- A socket that takes one byte at a time.
abbrev slow : System
slow = record willing {
  write = λ t s. some (min 1 (length s));
  write-le = λ t s r e. some-le (min 1 (length s)) (length s) r (omega arith) e;
}

abbrev hi : Buffer
hi = record { ptr = codes "hi" ++ 0 ∷ []; used = 3; size = 3 }

abbrev head : Chunk
head = record {
  addr = 0;
  type = mem_chunk;
  mem = hi;
  file = record { name = hi; start = 10; length = 4; fd = none; mapped = true; is_temp = true };
  offset = 0;
}

abbrev body : Chunk
body = record head { addr = 1; type = file_chunk; offset = 1 }

abbrev queued : ChunkQueue
queued = record {
  first = head ∷ body ∷ [];
  last = some 1;
  unused = [];
  unused_chunks = 0;
  tempdirs = none;
  bytes_in = 0;
  bytes_out = 1;
  next_addr = 2;
  effects = [];
}

queued-IsValid : IsValid queued
queued-IsValid = record {
  last_eq = refl;
  unique = λ n. ground arith;
  below = λ n h. ground arith;
  counted = refl;
  few = omega arith;
  queued = (λ e. cc e, (λ e. cc e, tt));
}

queued-AllSendable : AllSendable queued.first
unfolding IsSendable
queued-AllSendable = (inr (omega arith, omega arith, omega arith), ((omega arith, omega arith), tt))

abbrev open_traffic : Traffic
open_traffic = record {
  global_kbytes_per_second = 1;
  global_bytes_cnt = 1024;
  kbytes_per_second = 0;
  bytes_written = 7;
  bytes_written_cur_second = 7;
  traffic_limit_reached = false;
  jobs = 0;
}

write_chunkqueue-slow : (write_chunkqueue slow open_traffic queued).wire ≡ codes "h"
unfolding write_chunkqueue write_chunks send_chunk
write_chunkqueue-slow = refl

write_chunkqueue-Sending_example :
    Sending slow open_traffic queued (write_chunkqueue slow open_traffic queued)
write_chunkqueue-Sending_example =
    write_chunkqueue-Sending slow queued queued-IsValid queued-AllSendable (omega arith)
      open_traffic (omega arith)

queued-AllReadable : AllReadable willing queued.first
queued-AllReadable = (
  λ e. cc e,
  (
    λ e. record {
      unsent = omega arith;
      size = 100;
      small = omega arith;
      found = λ t. refl;
      inside = omega arith;
      opened = λ t. refl;
      mapped = λ t. refl;
    },
    tt,
  ),
)

write_chunkqueue-all_example :
    let o = write_chunkqueue willing open_traffic queued in
    (o.code ≡ some 0) × (o.wire ≡ waiting willing queued.first) × (o.queue.first ≡ [])
write_chunkqueue-all_example =
    write_chunkqueue-all willing (λ t s. refl) open_traffic queued queued-IsValid queued-AllSendable
      (omega arith) (omega arith) queued-AllReadable refl

-- A connection that has nothing but the queue to send.
abbrev sender : Writer
sender = record {
  traffic = open_traffic;
  queue = queued;
  file_finished = true;
  is_writable = true;
  state = state_write;
}

sender-IsReady : IsReady sender
sender-IsReady = record {
  valid = queued-IsValid;
  sendable = queued-AllSendable;
  bytes_out = omega arith;
  bytes_written = omega arith;
}

-- One call with the slow socket.
abbrev called : Bytes × Writer
called = handle_write (from_turn 5 slow) sender

one_call : Reaches slow sender (called.0 ++ []) called.1
one_call = turn 5 refl stop

Reaches-split_example :
    IsReady called.1
    × ((called.0 ++ []) ++ waiting slow called.1.queue.first ≡ waiting slow queued.first)
    × (called.1.file_finished ≡ true)
    × (state_write ≢ state_response_end
        → called.1.state ≡ state_response_end
        → (called.1.queue.first ≡ []) × (true ≡ true))
Reaches-split_example = Reaches-split slow one_call sender-IsReady
