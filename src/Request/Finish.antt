-- ===== src/Request/Finish.antt =====
-- What `http_request_parse` of request.c does behind the headers: "do some post-processing".
pub mod Rules
use ylem.Base.{
  ℕ, ◌+◌, ◌-◌, ◌*◌, ◌/◌, ◌^◌, ℤ, ◌==ℤ◌, Bytes, Bool, true, false, not, ◌&&◌, ◌||◌, Option, none,
  some, [], ◌∷◌, ◌==◌, ltb, if◌then◌else◌, is_null, codes,
}
use ylem.Keyvalue.{
  HttpVersion, version_unset, version_1_0, version_1_1, method_code, method_get, method_head,
  method_post,
}
use ylem.Request.{
  Request, Settings, Connection, connection_unset, connection_keepalive, connection_close, Outcome,
  proceed, body, answer, ◌>=>◌, refuse, refuse_both, HeaderArray,
}
use ylem.Request.Host.{check_hostname}

abbrev pub is_1_1 : HttpVersion → Bool
is_1_1 version_1_1 = true
is_1_1 _ = false

abbrev pub is_close : Connection → Bool
is_close connection_close = true
is_close _ = false

abbrev pub is_keepalive : Connection → Bool
is_keepalive connection_keepalive = true
is_keepalive _ = false

-- SSIZE_MAX
abbrev pub ssize_max : ℕ
ssize_max = 2 ^ 63 - 1

module _ (h : HeaderArray) (conf : Settings) where
  -- The text of `con->request.http_host`, if that is not NULL.
  abbrev pub host_text : Request h.Table → Option Bytes
  host_text s = if s.http_host then h.find s.headers (codes "Host") else none

  unfoldable pub check_version : Request h.Table → Outcome h.Table
  check_version s =
      if is_1_1 s.http_version
      then (if is_null (host_text s)
          then refuse_both 400 s
          else proceed (record s { keep_alive = not (is_close s.keep_alive_set) }))
      else proceed (record s { keep_alive = is_keepalive s.keep_alive_set })

  unfoldable pub check_host : Request h.Table → Outcome h.Table
  check_host s = if check_hostname (host_text s) then proceed s else refuse_both 400 s

  unfoldable pub check_method : Request h.Table → Outcome h.Table
  check_method s =
      if s.http_method ==ℤ method_code method_get || s.http_method ==ℤ method_code method_head
      then (if s.con_length_set && not (s.content_length == 0) then refuse 400 s else proceed s)
      else if s.http_method ==ℤ method_code method_post
      then (if not s.con_length_set then refuse 411 s else proceed s)
      else proceed s

  -- "check if we have read post data": 1 is returned if there are any.
  unfoldable pub check_length : Request h.Table → Outcome h.Table
  check_length s =
      if not s.con_length_set
      then answer s
      else if ltb ssize_max s.content_length
      then refuse 413 s
      else if not (conf.max_request_size == 0)
          && ltb conf.max_request_size (s.content_length / 1024)
      then refuse 413 s
      else if s.content_length == 0
      then answer s
      else body s

  unfoldable pub finish : Request h.Table → Outcome h.Table
  finish s = check_version s >=> check_host >=> check_method >=> check_length
