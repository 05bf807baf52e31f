-- ===== src/Request/Parse/Tests.antt =====
-- Whole requests and parts of them, and the theorems of the parser at them.
use ylem.Base.{
  ◌⊎◌, ◌↔◌, ℕ, ◌+◌, true, false, none, some, List, [], ◌∷◌, ◌++◌, ◌≡◌, ◌≢◌, refl, arith, codes,
  negsuc, length, bytes_eq,
}
use ylem.Keyvalue.{
  version_unset, method_unset, method_get, http_methods, get_key, get_value, get_http_method_key,
  get_http_method_name,
}
use ylem.Letters.{light_isdigit, light_isalpha, light_isalnum, light_isxdigit}
use ylem.Compare.{caseless_compare, compare_bytes, skip_words, pair_difference}
use ylem.Request.{
  Request, Settings, Outcome, proceed, answer, body, fault, null, live, freed, connection_unset,
  refuse, refuse_both, c_str, starts_with, uri_is_valid_char,
}
use ylem.Encoding.Bytewise.{all_bytes}
use ylem.Request.{◌>=>◌}
use ylem.Request.Numbers.{strtol, strtoul, skip_space, read_digits}
use ylem.Request.Host.{
  check_hostname, check_text, check_name, check_ipv6, check_port, split_colon, all_digits,
  scan_labels, step_label, step_toplabel, step_domainlabel, end_toplabel, check_labels,
}
use ylem.Request.Host.Allowed.{is_host_char, check_text-chars, check_ipv6-junk}
use ylem.Request.Split.{split_value, split_from, trim_value, trim_end, connection_words}
use ylem.Request.Line.{
  line_end, read_line, end_line, read_method, read_version, version_of, version_numbers, split_at,
  uri_text, all_valid, read_uri,
}
use ylem.Request.Line.Read.{line_text, line_read, read_line-request}
use ylem.Request.Field.{
  connection, if_modified_since, same_text, field_of, known_fields, has_char, only_digits, store,
  add_field, set_field, set_connection, set_content_length, set_content_type, set_host,
  set_if_modified_since, set_if_none_match, set_range,
}
use ylem.Request.Field.Names.{search_field, field_of-search}
use ylem.Request.Field.Store.{add_field-stored, add_field-fault}
use ylem.Request.Headers.{
  in_key, colon_follows, end_field, fold_line, key_byte, value_byte, step_byte, read_headers,
}
use ylem.Request.Headers.Trip.{Line, render, end_fields, at_end, read_headers-render}
use ylem.Request.Finish.{finish, check_version, check_host, check_method, check_length}
use ylem.Request.Parse.Steps.{Ends}
use ylem.Request.Parse.Answers.{parse-Ends}
use ylem.Request.Samples.{Header, assoc, find, put, same_name}
use ylem.Request.Parse.{parse, parse_text, after_line, check_uri}

abbrev conf : Settings
conf = record { allow_http11 = true; max_request_size = 0 }

-- A connection as it is before a request.
abbrev idle : Request (List Header)
idle = record {
  http_status = 0;
  keep_alive = true;
  response_keep_alive = true;
  http_method = negsuc 0;
  http_version = version_unset;
  request_line = [];
  uri = none;
  orig_uri = none;
  headers = [];
  http_host = false;
  http_content_type = null;
  http_if_modified_since = null;
  http_if_none_match = null;
  http_range = null;
  content_length = 0;
  header_len = 0;
  con_length_set = false;
  keep_alive_set = connection_unset;
  key = none;
}

abbrev status : {T : Type 0} → Outcome T → ℕ
status (proceed s) = 1
status (answer s) = s.http_status
status (body s) = 2
status fault = 3

-- A plain request; a POST without a length; a GET with a body; no host; a version that no one knows.
answers :
    (status (parse assoc conf 0 (codes "GET /a HTTP/1.1\r\nHost: b\r\n\r\n") idle) ≡ 0)
    × (status (parse assoc conf 0 (codes "POST /a HTTP/1.0\r\n\r\n") idle) ≡ 411)
    × (status (parse assoc conf 0 (codes "GET / HTTP/1.0\r\nContent-Length: 3\r\n\r\n") idle) ≡ 400)
    × (status (parse assoc conf 0 (codes "GET / HTTP/1.1\r\n\r\n") idle) ≡ 400)
    × (status (parse assoc conf 0 (codes "GET / HTTP/1.2\r\n\r\n") idle) ≡ 505)
    × (status (parse assoc conf 0 (codes "PATCH / HTTP/1.0\r\n\r\n") idle) ≡ 501)
unfolding parse parse_text after_line check_uri read_line end_line read_method read_version
    version_of version_numbers split_at strtol skip_space read_digits uri_text all_valid read_uri
    c_str starts_with uri_is_valid_char get_http_method_key get_key http_methods read_headers
    step_byte key_byte value_byte has_char colon_follows end_field fold_line trim_end add_field
    field_of caseless_compare compare_bytes skip_words pair_difference set_field set_connection
    set_content_length set_content_type set_host set_if_modified_since set_if_none_match set_range
    only_digits strtoul split_value connection_words finish check_version check_host check_method
    check_length check_hostname check_text check_name check_ipv6 check_port split_colon all_digits
    scan_labels step_label step_toplabel step_domainlabel end_toplabel check_labels light_isdigit
    light_isalpha light_isalnum light_isxdigit refuse refuse_both find put same_name bytes_eq
    split_from trim_value
answers = (refl, refl, refl, refl, refl, refl)

-- A blank before the colon stays in the name, so that the host is not found; a tab in a value is
-- refused; the number of a version is cut to an `int`.
oddities :
    (status (parse assoc conf 0 (codes "GET / HTTP/1.1\r\nHost : b\r\n\r\n") idle) ≡ 400)
    × (status (parse assoc conf 0 (codes "GET / HTTP/1.0\r\nA:\tb\r\n\r\n") idle) ≡ 400)
    × (status (parse assoc conf 0 (codes "GET / HTTP/4294967297.0\r\n\r\n") idle) ≡ 0)
    × (status (parse assoc conf 0 (codes "GET / HTTP/1.0\r\nConnection: ,\r\n\r\n") idle) ≡ 3)
    × (check_hostname (some (codes "[::1]/../")) ≡ true)
unfolding parse parse_text after_line check_uri read_line end_line read_method read_version
    version_of version_numbers split_at strtol skip_space read_digits uri_text all_valid read_uri
    c_str starts_with uri_is_valid_char get_http_method_key get_key http_methods read_headers
    step_byte key_byte value_byte has_char colon_follows end_field fold_line trim_end add_field
    field_of caseless_compare compare_bytes skip_words pair_difference set_field set_connection
    set_content_length set_content_type set_host set_if_modified_since set_if_none_match set_range
    only_digits strtoul split_value connection_words finish check_version check_host check_method
    check_length check_hostname check_text check_name check_ipv6 check_port split_colon all_digits
    scan_labels step_label step_toplabel step_domainlabel end_toplabel check_labels light_isdigit
    light_isalpha light_isalnum light_isxdigit refuse refuse_both find put same_name bytes_eq
    split_from trim_value
oddities = (refl, refl, refl, refl, refl)

parse-Ends_example :
    Ends assoc conf
      (parse assoc conf 0 (codes "POST /a HTTP/1.0\r\nContent-Length: 3\r\n\r\n") idle)
parse-Ends_example =
    parse-Ends assoc conf 0 (codes "POST /a HTTP/1.0\r\nContent-Length: 3\r\n\r\n") idle refl refl

accepted : check_text (codes "www.a-b.de:80") ≡ true
unfolding check_text check_name split_colon all_digits scan_labels step_label step_toplabel
    step_domainlabel end_toplabel check_labels light_isdigit light_isalpha light_isalnum
accepted = refl

bare : check_ipv6 0 (codes "::1" ++ b']' ∷ []) ≡ true
unfolding check_ipv6 check_port light_isxdigit light_isdigit
bare = refl

get_known : method_get ≢ method_unset
get_known e = cc e

slash_valid : all_valid (codes "/a") ≡ true
unfolding all_valid uri_is_valid_char
slash_valid = refl

slash_path : starts_with (codes "http://") (codes "/a") ≡ false
unfolding starts_with
slash_path = refl

get_name : get_http_method_name method_get ≡ some (codes "GET")
unfolding get_http_method_name get_value http_methods
get_name = refl

check_text-chars_example : all_bytes is_host_char (codes "www.a-b.de:80") ≡ true
check_text-chars_example =
    check_text-chars b'w' (codes "ww.a-b.de:80") accepted (λ e. absurd (omega arith))

check_ipv6-junk_example : check_ipv6 0 (codes "::1" ++ b']' ∷ b'/' ∷ codes "../") ≡ true
check_ipv6-junk_example =
    check_ipv6-junk 0 (codes "::1") b'/' (codes "../") (λ e. absurd (omega arith)) bare

field_of-search_example :
    field_of (codes "HOST") known_fields ≡ search_field (codes "HOST") known_fields
field_of-search_example = field_of-search (codes "HOST") refl

-- The header X: y, stored in no headers.
x_stored :
    add_field assoc (codes "X") (codes "y") idle
    ≡ proceed (store assoc (codes "X") (codes "y") idle)
unfolding add_field field_of caseless_compare compare_bytes skip_words pair_difference set_field
x_stored = refl

add_field-stored_example :
    let t = store assoc (codes "X") (codes "y") idle in
    (t.headers ≡ assoc.insert [] (codes "X") (codes "y"))
    ⊎ (field_of (codes "X") known_fields ≡ if_modified_since)
      × (t ≡ idle)
      × (idle.http_if_modified_since ≡ live)
      × (same_text assoc (find [] (codes "If-Modified-Since")) (codes "y") ≡ true)
add_field-stored_example =
    add_field-stored assoc (codes "X") b'y' [] idle (store assoc (codes "X") (codes "y") idle)
      x_stored

comma_fault : add_field assoc (codes "Connection") (codes ",") idle ≡ fault
unfolding add_field field_of caseless_compare compare_bytes skip_words pair_difference set_field
    set_connection split_value split_from
comma_fault = refl

-- The first If-Modified-Since was folded, and its value moved.
abbrev folded : Request (List Header)
folded = record idle { http_if_modified_since = freed }

since_fault : add_field assoc (codes "if-modified-since") (codes "y") folded ≡ fault
unfolding add_field field_of caseless_compare compare_bytes skip_words pair_difference set_field
    set_if_modified_since
since_fault = refl

add_field-fault_example :
    (add_field assoc (codes "if-modified-since") (codes "y") folded ≡ fault)
    ↔ (field_of (codes "if-modified-since") known_fields ≡ connection) × (◌≡◌ {A = ℕ} b'y' b',')
      ⊎ (field_of (codes "if-modified-since") known_fields ≡ if_modified_since)
        × (folded.http_if_modified_since ≡ freed)
add_field-fault_example = add_field-fault assoc (codes "if-modified-since") b'y' [] folded

abbrev lines : List Line
lines =
    record { name = codes "Host"; value = codes "b" }
    ∷ record { name = codes "X"; value = codes "y z " }
    ∷ []

read_headers-render_example :
    read_headers assoc (in_key []) 16 (render lines ++ b'\r' ∷ b'\n' ∷ []) idle
    ≡ (end_fields assoc lines idle >=> at_end assoc (16 + length (render lines) + 2))
unfolding has_char
read_headers-render_example =
    read_headers-render assoc lines [] 16 idle (refl, refl, refl, (refl, refl, refl, refl))

read_line-request_example :
    (read_line [] [] none none
        (line_text (codes "GET") (codes "/a") (codes "HTTP/1.1") ++ (b'\r' ∷ b'\n' ∷ []))
      ≡ line_end
          (line_text (codes "GET") (codes "/a") (codes "HTTP/1.1"))
          (some (codes "GET"))
          (some (codes "/a"))
          (codes "HTTP/1.1")
          [])
    × (end_line conf
          (line_text (codes "GET") (codes "/a") (codes "HTTP/1.1"))
          (some (codes "GET"))
          (some (codes "/a"))
          (codes "HTTP/1.1")
          idle
        ≡ proceed (
            line_read conf refl method_get get_known
              (codes "GET")
              (codes "/a")
              []
              get_name
              slash_valid
              slash_path
              idle))
read_line-request_example =
    read_line-request conf refl method_get get_known (codes "GET") (codes "/a") [] get_name
      slash_valid slash_path idle
