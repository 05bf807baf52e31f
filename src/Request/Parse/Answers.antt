-- ===== src/Request/Parse/Answers.antt =====
-- How `http_request_parse` ends: its errors close the connection, and what it accepts is checked.
use ylem.Base.{
  ℕ, ◌+◌, ◌==ℤ◌, Bytes, true, false, Option, none, some, [], ◌∷◌, ◌++◌, length, drop, negsuc, ◌≡◌,
  refl, inl, inr, arith, Bool-cases, Option-cases,
}
use ylem.Keyvalue.{get_http_method_key}
use ylem.Request.{
  Request, Settings, Outcome, proceed, body, answer, fault, ◌>=>◌, HeaderArray, refuse, refuse_both,
  c_str, connection_unset,
}
use ylem.Request.Line.{
  FirstLine, line_end, too_many_spaces, no_line, read_line, end_line, read_method, read_version,
  version_of, version_numbers, read_uri, uri_text,
}
use ylem.Request.Headers.{in_key, read_headers}
use ylem.Request.Finish.{check_version, check_host, check_method, check_length, finish}
use ylem.Request.Finish.Rules.{finish-body, finish-Accepted}
use ylem.Request.Parse.{parse, parse_text, after_line, check_uri}
use ylem.Request.Parse.Steps.{
  IsOpen, IsSettled, Ends, Ends-then, Ends-refuse_both, read_headers-Ends,
}

module _ (h : HeaderArray) (conf : Settings) where
  check_uri-Ends : (s : Request h.Table) → IsOpen h conf s → Ends h conf (check_uri h conf s)
  unfolding check_uri refuse_both
  check_uri-Ends s o = ground arith

  version_of-Ends :
      (n : ℕ × ℕ) (s : Request h.Table) → IsOpen h conf s → Ends h conf (version_of conf n s)
  unfolding version_of
  version_of-Ends n s o = ground arith

  read_version-Ends :
      (p : Bytes) (s : Request h.Table) → IsOpen h conf s → Ends h conf (read_version conf p s)
  unfolding read_version refuse
  read_version-Ends p s o = elim (Option-cases (version_numbers (drop 5 p))) [
    | inl n ↦ ground arith
    | inr (v, n) ↦ ground (arith, version_of-Ends v s o)
  ]

  read_uri-Ends :
      (u : Bytes) (s : Request h.Table) → IsOpen h conf s → Ends h conf (read_uri conf u s)
  unfolding read_uri refuse
  read_uri-Ends u s o = ground arith

  read_method-Ends :
      (m u p : Bytes) (s : Request h.Table)
      → IsOpen h conf s
      → Ends h conf (read_method conf m u p s)
  unfolding read_method
  read_method-Ends m u p s o = elim (Bool-cases (get_http_method_key (c_str m) ==ℤ negsuc 0)) [
    | inl e ↦ rw e (Ends-refuse_both h conf 501 s (λ z. absurd (omega arith)))
    | inr e ↦ rw e (
        Ends-then h conf
          (read_version conf (c_str p) (record s { http_method = get_http_method_key (c_str m) }))
          (read_uri conf (uri_text u))
          (read_version-Ends (c_str p) (record s { http_method = get_http_method_key (c_str m) }) o)
          (read_uri-Ends (uri_text u)))
  ]

  end_line-Ends :
      (l : Bytes) (m u : Option Bytes) (p : Bytes) (s : Request h.Table)
      → IsOpen h conf s
      → Ends h conf (end_line conf l m u p s)
  unfolding end_line
  end_line-Ends l (some m) (some u) p s o = read_method-Ends m u p (record s { request_line = l }) o
  end_line-Ends l (some m) none p s o =
      Ends-refuse_both h conf 400 (record s { request_line = l }) (λ z. absurd (omega arith))
  end_line-Ends l none u p s o =
      Ends-refuse_both h conf 400 (record s { request_line = l }) (λ z. absurd (omega arith))

  -- What the tests behind the headers leave, before anything is said of a request that passes.
  abbrev Leaves : Outcome h.Table → Type 0
  Leaves (proceed s) = IsOpen h conf s
  Leaves (answer t) = IsSettled h conf (IsOpen h conf) t
  Leaves (body t) = IsOpen h conf t
  Leaves fault = true ≡ true

  finish-Leaves : (s : Request h.Table) → IsOpen h conf s → Leaves (finish h conf s)
  unfolding finish check_version check_host check_method check_length refuse refuse_both
  finish-Leaves s o = ground arith

  Leaves-Ends :
      (s : Request h.Table) (m : Outcome h.Table)
      → IsOpen h conf s
      → finish h conf s ≡ m
      → Leaves m
      → Ends h conf m
  Leaves-Ends s (proceed t) o e l = l
  Leaves-Ends s (answer t) o e (inl l) = inl (l, finish-Accepted h conf s t o.0 e l.0)
  Leaves-Ends s (answer t) o e (inr l) = inr l
  Leaves-Ends s (body t) o e l = (l, finish-body h conf s t e)
  Leaves-Ends s fault o e l = l

  finish-Ends : (s : Request h.Table) → IsOpen h conf s → Ends h conf (finish h conf s)
  finish-Ends s o = Leaves-Ends s (finish h conf s) o refl (finish-Leaves s o)

  after_line-Ends :
      (used : ℕ) (l : FirstLine) (s : Request h.Table)
      → IsOpen h conf s
      → Ends h conf (after_line h conf used l s)
  unfolding after_line
  after_line-Ends used too_many_spaces s o =
      Ends-refuse_both h conf 400 s (λ z. absurd (omega arith))
  after_line-Ends used no_line s o =
      Ends-then h conf (check_uri h conf s >=> read_headers h (in_key []) used []) (finish h conf)
        (Ends-then h conf (check_uri h conf s) (read_headers h (in_key []) used [])
          (check_uri-Ends s o) (read_headers-Ends h conf (in_key []) used []))
        finish-Ends
  after_line-Ends used (line_end l m u p rest) s o =
      Ends-then h conf
        (end_line conf l m u p s
          >=> check_uri h conf
          >=> read_headers h (in_key []) (length l + 2) rest)
        (finish h conf)
        (Ends-then h conf (end_line conf l m u p s >=> check_uri h conf)
          (read_headers h (in_key []) (length l + 2) rest)
          (Ends-then h conf (end_line conf l m u p s) (check_uri h conf) (end_line-Ends l m u p s o)
            check_uri-Ends)
          (read_headers-Ends h conf (in_key []) (length l + 2) rest))
        finish-Ends

  -- Whatever the bytes of a request, from a connection whose status and URI are reset:
  -- `http_request_parse` returns with a status other than 0, and then that is 505 or `keep_alive` is
  -- 0, or without one. Then the stored URI has no control character, blank or byte 255, an HTTP/1.1
  -- request has a host, the host is valid, GET and HEAD announce no body, POST does, and the length is
  -- at most SSIZE_MAX; and where 1 is returned, the length is positive and within the limit. (Or the
  -- parser reads outside of an object.)
  pub parse-Ends :
      (n : ℕ) (request : Bytes) (con : Request h.Table)
      → con.http_status ≡ 0
      → con.uri ≡ none
      → Ends h conf (parse h conf n request con)
  unfolding parse
  parse-Ends n request con z u =
      let text = parse_text n request ++ 0 ∷ [] in
      after_line-Ends (length text) (read_line [] [] none none text)
        (record con { con_length_set = false; keep_alive_set = connection_unset; key = none })
        (z, λ v e. absurd (ground (arith, u, e)))
