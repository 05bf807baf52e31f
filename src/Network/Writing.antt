-- ===== src/Network/Writing.antt =====
-- The state CON_STATE_WRITE: `connection_handle_write` of storage/src/lighttpd/src/connections.c, and
-- the runs of it that the events of a connection make.
use ylem.Base.{
  ℕ, ◌+◌, ◌^◌, ◌<◌, ◌≡◌, ◌≢◌, refl, sym, ap, ◌∙◌, ◌⊎◌, inl, inr, Bytes, Bool, true, false, Option,
  none, some, List, [], ◌∷◌, ◌++◌, ◌==◌, if◌then◌else◌, arith, append_assoc,
}
use ylem.Chunk.{Chunk, ChunkQueue}
use ylem.Chunk.Queue.{IsValid}
use ylem.Network.{System, Traffic, write_chunkqueue}
use ylem.Network.Chunks.{remaining}
use ylem.Network.Queue.{AllSendable, waiting, write_chunkqueue-Sending}

pub data ConnectionState : Type 0 where
  state_connect state_request_start state_read state_request_end state_read_post
        state_handle_request state_response_start state_write state_response_end state_error
        state_close :
      ConnectionState

pub record Writer : Type 0 where
  pub traffic : Traffic
  pub queue : ChunkQueue
  pub file_finished : Bool
  pub is_writable : Bool
  pub state : ConnectionState

-- `connection_set_state` and `joblist_append`.
abbrev pub leave : ConnectionState → Writer → Writer
leave s con = record con {
  state = s;
  traffic = record (con.traffic) { jobs = con.traffic.jobs + 1 };
}

-- The switch over the value of `network_write_chunkqueue`; the backend returns no -2.
unfoldable pub after_write : Option ℕ → Writer → Writer
after_write none con = leave state_error con
after_write (some n) con =
    if n == 0
    then (if con.file_finished then leave state_response_end con else con)
    else if n == 1
    then record con { is_writable = false }
    else con

-- With the bytes that are sent.
unfoldable pub handle_write : System → Writer → Bytes × Writer
unfolding after_write
handle_write sys con =
    let o = write_chunkqueue sys con.traffic con.queue in
    (o.wire, after_write o.code (record con { traffic = o.traffic; queue = o.queue }))

-- The system from the turn `k` on: the same files, and what its calls will do then.
abbrev pub from_turn : ℕ → System → System
from_turn k sys = record sys {
  write = λ t s. sys.write (k + t) s;
  stat_size = λ t name. sys.stat_size (k + t) name;
  open_file = λ t name. sys.open_file (k + t) name;
  mmap = λ t name. sys.mmap (k + t) name;
  write-le = λ t s r e. sys.write-le (k + t) s r e;
}

-- The connections that calls of `connection_handle_write` lead to, at any turns of the system, as long
-- as the state is CON_STATE_WRITE, and the bytes that are sent on the way.
pub data Reaches (sys : System) : Writer → Bytes → Writer → Type 0 where
  stop : {con : Writer} → Reaches sys con [] con
  turn :
      {con last : Writer} {s : Bytes} (k : ℕ)
      → con.state ≡ state_write
      → Reaches sys (handle_write (from_turn k sys) con).1 s last
      → Reaches sys con ((handle_write (from_turn k sys) con).0 ++ s) last

pub record IsReady (con : Writer) : Type 0 where
  pub valid : IsValid con.queue
  pub sendable : AllSendable con.queue.first
  pub bytes_out : con.queue.bytes_out < 2 ^ 64
  pub bytes_written : con.traffic.bytes_written < 2 ^ 64

-- `after_write` keeps the queue and the counters, and ends the response only after 0.
after_write-keeps :
    (o : Option ℕ) (con : Writer)
    → ((after_write o con).queue ≡ con.queue)
      × ((after_write o con).traffic.bytes_written ≡ con.traffic.bytes_written)
      × ((after_write o con).file_finished ≡ con.file_finished)
      × (con.state ≢ state_response_end
          → (after_write o con).state ≡ state_response_end
          → (o ≡ some 0) × (con.file_finished ≡ true))
unfolding after_write
after_write-keeps none con = (refl, refl, refl, λ n e. absurd (ground arith))
after_write-keeps (some k) con = ground arith

module _ (sys : System) where
  handle_write-split :
      (con : Writer)
      → IsReady con
      → con.state ≡ state_write
      → let (s, r) = handle_write sys con in
        IsReady r
        × (s ++ waiting sys r.queue.first ≡ waiting sys con.queue.first)
        × (r.file_finished ≡ con.file_finished)
        × (r.state ≡ state_response_end → (r.queue.first ≡ []) × (con.file_finished ≡ true))
  unfolding handle_write
  handle_write-split con h e =
      let o = write_chunkqueue sys con.traffic con.queue in
      let sent =
        write_chunkqueue-Sending sys con.queue h.valid h.sendable h.bytes_out con.traffic
          h.bytes_written in
      let (queue, bytes, finished, end) =
        after_write-keeps o.code (record con { traffic = o.traffic; queue = o.queue }) in
      let other : con.state ≢ state_response_end = λ z. ground arith in
      (
        record {
          valid = rw queue sent.valid;
          sendable = rw queue sent.sendable;
          bytes_out = rw queue (omega (arith, sent.bytes_out));
          bytes_written = omega (arith, bytes, sent.bytes_written);
        },
        ap (λ q. o.wire ++ waiting sys q.first) queue ∙ sent.split,
        finished,
        λ z.
            let (code, all) = end other z in
            (ap (λ q. q.first) queue ∙ (sent.complete code).0, all),
      )

ended_cases : (s : ConnectionState) → (s ≡ state_response_end) ⊎ (s ≢ state_response_end)
ended_cases state_connect = inr (λ e. cc e)
ended_cases state_request_start = inr (λ e. cc e)
ended_cases state_read = inr (λ e. cc e)
ended_cases state_request_end = inr (λ e. cc e)
ended_cases state_read_post = inr (λ e. cc e)
ended_cases state_handle_request = inr (λ e. cc e)
ended_cases state_response_start = inr (λ e. cc e)
ended_cases state_write = inr (λ e. cc e)
ended_cases state_response_end = inl refl
ended_cases state_error = inr (λ e. cc e)
ended_cases state_close = inr (λ e. cc e)

-- Nothing is sent when the response has ended.
Reaches-ended :
    (sys : System) {con last : Writer} {s : Bytes}
    → Reaches sys con s last
    → con.state ≡ state_response_end
    → last ≡ con
Reaches-ended sys stop e = refl
Reaches-ended sys (turn k w r) e = absurd (ground arith)

-- What is waiting does not depend on the turn.
waiting-from_turn :
    (sys : System) (k : ℕ) (cs : List Chunk) → waiting (from_turn k sys) cs ≡ waiting sys cs
unfolding remaining
waiting-from_turn sys k [] = refl
waiting-from_turn sys k (c ∷ cs) = ap (λ s. remaining sys c ++ s) (waiting-from_turn sys k cs)

-- However many calls of `connection_handle_write` there are, and whatever the system does in them,
-- what was sent and what the queue has still to send are together what it had to send; the queue
-- stays valid and sendable; and when the response ends, the queue is empty, so that all was sent,
-- and the content was complete. The connection is ready at first, and its response has not ended.
pub Reaches-split :
    (sys : System) {con last : Writer} {s : Bytes}
    → Reaches sys con s last
    → IsReady con
    → IsReady last
      × (s ++ waiting sys last.queue.first ≡ waiting sys con.queue.first)
      × (last.file_finished ≡ con.file_finished)
      × (con.state ≢ state_response_end
          → last.state ≡ state_response_end
          → (last.queue.first ≡ []) × (con.file_finished ≡ true))
Reaches-split sys stop h = (h, refl, refl, λ n e. absurd (n e))
Reaches-split sys {con} {last} (turn {s} k e r) h =
    let step = handle_write (from_turn k sys) con in
    let (ready, split, finished, end) = handle_write-split (from_turn k sys) con h e in
    let whole : step.0 ++ waiting sys step.1.queue.first ≡ waiting sys con.queue.first =
      ap (λ t. step.0 ++ t) (sym (waiting-from_turn sys k step.1.queue.first))
      ∙ split
      ∙ waiting-from_turn sys k con.queue.first in
    let (ready', split', finished', end') = Reaches-split sys r ready in
    (
      ready',
      append_assoc step.0 s (waiting sys last.queue.first) ∙ ap (λ t. step.0 ++ t) split' ∙ whole,
      finished' ∙ finished,
      λ n z. elim (ended_cases step.1.state) [
        | inl p ↦
            let (empty, all) = end p in
            (ap (λ w. w.queue.first) (Reaches-ended sys r p) ∙ empty, all)
        | inr p ↦ let (empty, all) = end' p z in (empty, sym finished ∙ all)
      ],
    )
