-- ===== src/HttpChunk/Trip.antt =====
-- A whole chunked response: data appended piece by piece, then the last chunk.
use ylem.Base.{
  ℕ, ◌+◌, ◌-◌, ◌≤◌, ◌≡◌, ap, ◌∙◌, Bytes, true, Option, some, List, [], ◌∷◌, ◌++◌, length, take,
  arith, take-all, ◌>>=◌,
}
use ylem.Memory.{Allocator}
use ylem.Chunk.Contents.{contents}
use ylem.HttpChunk.{Response, append_mem}
use ylem.HttpChunk.Decode.{frame, body_of, concat, AllPieces, decode, decode-body_of}
use ylem.HttpChunk.Steps.{IsReady, Sends, Sends-then, sent_as}
use ylem.HttpChunk.Frame.{append_mem-Sends}

-- `http_chunk_append_mem` of each piece, with its terminator counted, and of none at the end.
abbrev pub send_all : Allocator → Response → List Bytes → Option Response
send_all a con [] = append_mem a con [] 0
send_all a con (d ∷ ds) = append_mem a con d (length d + 1) >>= λ c. send_all a c ds

abbrev pub AllFit : ℕ → List Bytes → Type 0
AllFit n [] = Unit
AllFit n (d ∷ ds) = (length d + 1 ≤ n) × AllFit n ds

module _ (file : Bytes → ℕ → ℕ → Bytes) (n : ℕ) (a : Allocator) where
  send_all-Sends :
      (ds : List Bytes) (con : Response)
      → IsReady n con
      → con.chunked ≡ true
      → AllFit n ds
      → Sends file n con (send_all a con ds) (body_of ds)
  send_all-Sends [] con ready on fit =
      rw (ap (λ c. sent_as c []) on) at
        (append_mem-Sends file n a con [] 0 ready (omega arith) (omega arith))
  send_all-Sends (d ∷ ds) con ready on fit =
      let whole : sent_as con.chunked (take (length d + 1 - 1) d) ≡ frame d =
        ap (sent_as con.chunked) (take-all (length d + 1 - 1) d (omega arith))
        ∙ ap (λ c. sent_as c d) on in
      let first =
        append_mem-Sends file n a con d (length d + 1) ready (omega arith) (omega (arith, fit.0)) in
      Sends-then file n con (append_mem a con d (length d + 1)) (λ c. send_all a c ds) (frame d)
        (body_of ds) (rw whole at first)
        (λ r ready' same. send_all-Sends ds r ready' (same ∙ on) fit.1)

  -- What a chunked response puts into its write queue for pieces that are neither empty nor as long
  -- as 2 ^ 32 bytes, a reader of chunked bodies reads back as the pieces, one behind the other.
  pub decode-send_all :
      (ds : List Bytes) (con : Response)
      → IsReady n con
      → con.chunked ≡ true
      → AllFit n ds
      → AllPieces ds
      → (r : Response) × (body : Bytes) × (send_all a con ds ≡ some r)
        × (contents file r.write_queue.first ≡ contents file con.write_queue.first ++ body)
        × (decode body ≡ some (concat ds))
  decode-send_all ds con ready on fit pieces =
      let (r, done, _, _, holds) = send_all-Sends ds con ready on fit in
      (r, body_of ds, done, holds, decode-body_of ds pieces)
