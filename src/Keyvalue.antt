-- ===== src/Keyvalue.antt =====
-- The key-value tables of storage/src/lighttpd/src/keyvalue.c: names of methods, versions and
-- statuses, and the lookups in both directions. A `char *` is the bytes before its terminator, and
-- NULL is `none`.
pub mod Lookup
pub mod Slots
pub mod Append
pub mod Expressions
mod Tests
use ylem.Base.{
  ℤ, pos, negsuc, ◌==ℤ◌, Bytes, bytes_eq, codes, Option, none, some, true, false, List, [], ◌∷◌,
  ◌-◌,
}

pub data HttpMethod : Type 0 where
  method_unset method_get method_post method_head method_options method_propfind method_mkcol
        method_put method_delete method_copy method_move method_proppatch method_report
        method_checkout method_checkin method_version_control method_uncheckout method_mkactivity
        method_merge method_lock method_unlock method_label method_connect :
      HttpMethod

-- The values of the enumeration: HTTP_METHOD_UNSET is -1.
abbrev pub method_code : HttpMethod → ℤ
method_code method_unset = negsuc 0
method_code method_get = pos 0
method_code method_post = pos 1
method_code method_head = pos 2
method_code method_options = pos 3
method_code method_propfind = pos 4
method_code method_mkcol = pos 5
method_code method_put = pos 6
method_code method_delete = pos 7
method_code method_copy = pos 8
method_code method_move = pos 9
method_code method_proppatch = pos 10
method_code method_report = pos 11
method_code method_checkout = pos 12
method_code method_checkin = pos 13
method_code method_version_control = pos 14
method_code method_uncheckout = pos 15
method_code method_mkactivity = pos 16
method_code method_merge = pos 17
method_code method_lock = pos 18
method_code method_unlock = pos 19
method_code method_label = pos 20
method_code method_connect = pos 21

pub data HttpVersion : Type 0 where
  version_unset version_1_0 version_1_1 : HttpVersion

abbrev pub version_code : HttpVersion → ℤ
version_code version_unset = negsuc 0
version_code version_1_0 = pos 0
version_code version_1_1 = pos 1

pub record KeyValue : Type 0 where
  pub key : ℤ
  pub value : Option Bytes

-- A row, and the row that ends a table.
abbrev pub row : ℤ → Bytes → KeyValue
row k v = record { key = k; value = some v }

abbrev pub end_row : ℤ → KeyValue
end_row k = record { key = k; value = none }

unfoldable pub http_versions : List KeyValue
http_versions =
    row (version_code version_1_1) (codes "HTTP/1.1")
    ∷ row (version_code version_1_0) (codes "HTTP/1.0")
    ∷ end_row (version_code version_unset)
    ∷ []

unfoldable pub http_methods : List KeyValue
http_methods =
    row (method_code method_get) (codes "GET")
    ∷ row (method_code method_post) (codes "POST")
    ∷ row (method_code method_head) (codes "HEAD")
    ∷ row (method_code method_propfind) (codes "PROPFIND")
    ∷ row (method_code method_proppatch) (codes "PROPPATCH")
    ∷ row (method_code method_report) (codes "REPORT")
    ∷ row (method_code method_options) (codes "OPTIONS")
    ∷ row (method_code method_mkcol) (codes "MKCOL")
    ∷ row (method_code method_put) (codes "PUT")
    ∷ row (method_code method_delete) (codes "DELETE")
    ∷ row (method_code method_copy) (codes "COPY")
    ∷ row (method_code method_move) (codes "MOVE")
    ∷ row (method_code method_label) (codes "LABEL")
    ∷ row (method_code method_checkout) (codes "CHECKOUT")
    ∷ row (method_code method_checkin) (codes "CHECKIN")
    ∷ row (method_code method_merge) (codes "MERGE")
    ∷ row (method_code method_lock) (codes "LOCK")
    ∷ row (method_code method_unlock) (codes "UNLOCK")
    ∷ row (method_code method_mkactivity) (codes "MKACTIVITY")
    ∷ row (method_code method_uncheckout) (codes "UNCHECKOUT")
    ∷ row (method_code method_version_control) (codes "VERSION-CONTROL")
    ∷ row (method_code method_connect) (codes "CONNECT")
    ∷ end_row (method_code method_unset)
    ∷ []

unfoldable pub http_status : List KeyValue
http_status =
    row (pos 100) (codes "Continue")
    ∷ row (pos 101) (codes "Switching Protocols")
    ∷ row (pos 102) (codes "Processing")
    ∷ row (pos 200) (codes "OK")
    ∷ row (pos 201) (codes "Created")
    ∷ row (pos 202) (codes "Accepted")
    ∷ row (pos 203) (codes "Non-Authoritative Information")
    ∷ row (pos 204) (codes "No Content")
    ∷ row (pos 205) (codes "Reset Content")
    ∷ row (pos 206) (codes "Partial Content")
    ∷ row (pos 207) (codes "Multi-status")
    ∷ row (pos 300) (codes "Multiple Choices")
    ∷ row (pos 301) (codes "Moved Permanently")
    ∷ row (pos 302) (codes "Found")
    ∷ row (pos 303) (codes "See Other")
    ∷ row (pos 304) (codes "Not Modified")
    ∷ row (pos 305) (codes "Use Proxy")
    ∷ row (pos 306) (codes "(Unused)")
    ∷ row (pos 307) (codes "Temporary Redirect")
    ∷ row (pos 400) (codes "Bad Request")
    ∷ row (pos 401) (codes "Unauthorized")
    ∷ row (pos 402) (codes "Payment Required")
    ∷ row (pos 403) (codes "Forbidden")
    ∷ row (pos 404) (codes "Not Found")
    ∷ row (pos 405) (codes "Method Not Allowed")
    ∷ row (pos 406) (codes "Not Acceptable")
    ∷ row (pos 407) (codes "Proxy Authentication Required")
    ∷ row (pos 408) (codes "Request Timeout")
    ∷ row (pos 409) (codes "Conflict")
    ∷ row (pos 410) (codes "Gone")
    ∷ row (pos 411) (codes "Length Required")
    ∷ row (pos 412) (codes "Precondition Failed")
    ∷ row (pos 413) (codes "Request Entity Too Large")
    ∷ row (pos 414) (codes "Request-URI Too Long")
    ∷ row (pos 415) (codes "Unsupported Media Type")
    ∷ row (pos 416) (codes "Requested Range Not Satisfiable")
    ∷ row (pos 417) (codes "Expectation Failed")
    ∷ row (pos 422) (codes "Unprocessable Entity")
    ∷ row (pos 423) (codes "Locked")
    ∷ row (pos 424) (codes "Failed Dependency")
    ∷ row (pos 426) (codes "Upgrade Required")
    ∷ row (pos 500) (codes "Internal Server Error")
    ∷ row (pos 501) (codes "Not Implemented")
    ∷ row (pos 502) (codes "Bad Gateway")
    ∷ row (pos 503) (codes "Service Not Available")
    ∷ row (pos 504) (codes "Gateway Timeout")
    ∷ row (pos 505) (codes "HTTP Version Not Supported")
    ∷ row (pos 507) (codes "Insufficient Storage")
    ∷ end_row (negsuc 0)
    ∷ []

unfoldable pub http_status_body : List KeyValue
http_status_body =
    row (pos 400) (codes "400.html")
    ∷ row (pos 401) (codes "401.html")
    ∷ row (pos 403) (codes "403.html")
    ∷ row (pos 404) (codes "404.html")
    ∷ row (pos 411) (codes "411.html")
    ∷ row (pos 416) (codes "416.html")
    ∷ row (pos 500) (codes "500.html")
    ∷ row (pos 501) (codes "501.html")
    ∷ row (pos 503) (codes "503.html")
    ∷ row (pos 505) (codes "505.html")
    ∷ end_row (negsuc 0)
    ∷ []

-- Every table ends with its row; behind it nothing is read.
unfoldable pub get_value : List KeyValue → ℤ → Option Bytes
get_value [] k = none
get_value (e ∷ kv) k = elim e.value [
  | none ↦ none
  | some v ↦ elim (e.key ==ℤ k) [ true ↦ some v | false ↦ get_value kv k ]
]

unfoldable pub get_key : List KeyValue → Bytes → ℤ
get_key [] s = negsuc 0
get_key (e ∷ kv) s = elim e.value [
  | none ↦ negsuc 0
  | some v ↦ elim (bytes_eq v s) [ true ↦ e.key | false ↦ get_key kv s ]
]

unfoldable pub get_http_version_name : ℤ → Option Bytes
get_http_version_name i = get_value http_versions i

unfoldable pub get_http_status_name : ℤ → Option Bytes
get_http_status_name i = get_value http_status i

unfoldable pub get_http_method_name : HttpMethod → Option Bytes
get_http_method_name i = get_value http_methods (method_code i)

unfoldable pub get_http_status_body_name : ℤ → Option Bytes
get_http_status_body_name i = get_value http_status_body i

unfoldable pub get_http_version_key : Bytes → ℤ
get_http_version_key s = get_key http_versions s

-- The cast to `http_method_t` keeps the number.
unfoldable pub get_http_method_key : Bytes → ℤ
get_http_method_key s = get_key http_methods s
