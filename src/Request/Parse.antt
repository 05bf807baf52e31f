-- ===== src/Request/Parse.antt =====
-- `http_request_parse` of request.c as a whole.
pub mod Steps
pub mod Answers
mod Tests
use ylem.Base.{
  ℕ, ◌+◌, Bytes, Bool, true, false, not, ◌&&◌, Option, none, some, [], ◌∷◌, ◌++◌, ◌==◌, ltb, length,
  drop, take, bytes_eq, if◌then◌else◌, codes,
}
use ylem.Request.{
  Request, Settings, connection_unset, Outcome, proceed, body, answer, fault, ◌>=>◌, refuse_both,
  HeaderArray, starts_with,
}
use ylem.Request.Line.{FirstLine, line_end, too_many_spaces, no_line, read_line, end_line}
use ylem.Request.Headers.{in_key, read_headers}
use ylem.Request.Finish.{finish}

-- The text that is parsed: "we are in keep-alive and might get \r\n after a previous POST request".
unfoldable pub parse_text : ℕ → Bytes → Bytes
parse_text request_count request =
    if ltb 1 request_count && starts_with (codes "\r\n") request then drop 2 request else request

module _ (h : HeaderArray) (conf : Settings) where
  -- "no uri specified", tested behind the first line; `uri->used == 1` is the empty text.
  unfoldable pub check_uri : Request h.Table → Outcome h.Table
  check_uri s = elim s.uri [
    | none ↦ proceed s
    | some [] ↦ refuse_both 400 s
    | some (c ∷ u) ↦ proceed s
  ]

  -- Behind the first loop; `used` is the length of the whole buffer.
  unfoldable pub after_line : ℕ → FirstLine → Request h.Table → Outcome h.Table
  after_line used too_many_spaces s = refuse_both 400 s
  after_line used no_line s = check_uri s >=> read_headers h (in_key []) used [] >=> finish h conf
  after_line used (line_end line method uri proto rest) s =
      end_line conf line method uri proto s
      >=> check_uri
      >=> read_headers h (in_key []) (length line + 2) rest
      >=> finish h conf

  unfoldable pub parse : ℕ → Bytes → Request h.Table → Outcome h.Table
  parse request_count request con =
      let text = parse_text request_count request ++ 0 ∷ [] in
      after_line (length text) (read_line [] [] none none text)
        (record con { con_length_set = false; keep_alive_set = connection_unset; key = none })
