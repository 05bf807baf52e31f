-- ===== src/Prepare/Tests.antt =====
-- The theorems on prepared responses at concrete connections.
use ylem.Base.{ℕ, Bytes, true, false, Option, none, some, [], ◌∷◌, codes}
use ylem.Keyvalue.{method_get}
use ylem.Prepare.{ResponseState, absent, holds, body_file}

-- Every file but the empty name is there.
abbrev stat : Bytes → Option (ℕ × Option Bytes)
stat [] = none
stat (c ∷ s) = some (12, some (codes "text/plain"))

-- A range was refused behind one that is queued.
abbrev refused : ResponseState
refused = record {
  direct = true;
  http_method = method_get;
  http_status = 416;
  uri_path = some (codes "/a");
  physical_path = codes "/www/a";
  errorfile_prefix = none;
  file_finished = true;
  keep_alive = true;
  response_keep_alive = true;
  has_length = false;
  has_connection = false;
  chunked = false;
  write_queue = body_file (codes "/www/a") 0 5 ∷ [];
  allow = absent;
  content_type = holds (codes "text/plain");
  content_length = absent;
}
