-- ===== src/Request/Finish/Rules.antt =====
-- What is known of a request that has passed the tests behind the headers.
use ylem.Base.{◌+◌, ◌*◌, ◌<◌, ◌≤◌, ◌==ℤ◌, true, false, is_null, ◌≡◌, ◌⊎◌, arith}
use ylem.Keyvalue.{version_1_1, method_code, method_get, method_head, method_post}
use ylem.Request.{Request, Settings, body, answer, HeaderArray, refuse, refuse_both}
use ylem.Request.Host.{check_hostname}
use ylem.Request.Finish.{
  check_version, check_host, check_method, check_length, finish, host_text, ssize_max,
}

module _ (h : HeaderArray) (conf : Settings) where
  -- A request whose body is read.
  pub record HasBody (t : Request h.Table) : Type 0 where
    pub announced : t.con_length_set ≡ true
    pub some_bytes : 0 < t.content_length
    pub in_ssize : t.content_length ≤ ssize_max
    pub in_limit :
        (conf.max_request_size ≡ 0) ⊎ (t.content_length < (conf.max_request_size + 1) * 1024)
    pub no_get : (t.http_method ==ℤ method_code method_get) ≡ false
    pub no_head : (t.http_method ==ℤ method_code method_head) ≡ false
    pub has_host : t.http_version ≡ version_1_1 → is_null (host_text h conf t) ≡ false
    pub host_checked : check_hostname (host_text h conf t) ≡ true

  pub finish-body : (s t : Request h.Table) → finish h conf s ≡ body t → HasBody t
  unfolding finish check_version check_host check_method check_length refuse refuse_both
  finish-body s t e = ground arith

  -- A request that is answered by no error here.
  pub record Accepted (t : Request h.Table) : Type 0 where
    pub has_host : t.http_version ≡ version_1_1 → is_null (host_text h conf t) ≡ false
    pub host_checked : check_hostname (host_text h conf t) ≡ true
    pub get_bare :
        (t.http_method ==ℤ method_code method_get) ≡ true
        → t.con_length_set ≡ true
        → t.content_length ≡ 0
    pub head_bare :
        (t.http_method ==ℤ method_code method_head) ≡ true
        → t.con_length_set ≡ true
        → t.content_length ≡ 0
    pub post_length : (t.http_method ==ℤ method_code method_post) ≡ true → t.con_length_set ≡ true
    pub in_ssize : t.con_length_set ≡ true → t.content_length ≤ ssize_max

  pub finish-Accepted :
      (s t : Request h.Table)
      → s.http_status ≡ 0
      → finish h conf s ≡ answer t
      → t.http_status ≡ 0
      → Accepted t
  unfolding finish check_version check_host check_method check_length refuse refuse_both
  finish-Accepted s t z e ok = ground arith
