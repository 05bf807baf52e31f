-- ===== src/Keyvalue/Tests.antt =====
-- The tables and arrays of keyvalue.c at concrete names and arrays.
use ylem.Base.{
  pos, negsuc, Bytes, Option, none, some, [], ◌∷◌, ◌≡◌, refl, Bool, false, arith, codes, bytes_eq,
}
use ylem.Memory.Samples.{plain}
use ylem.Keyvalue.{
  get_http_method_key, get_http_status_body_name, get_key, get_value, http_methods,
  http_status_body,
}
use ylem.Keyvalue.Slots.{SlotBuffer, PcreKeyValue, pcre_keyvalue_buffer_append}
use ylem.Keyvalue.Expressions.{Expected, pcre_keyvalue_buffer_append_lem}

-- An unknown method has the key -1, and so has the name of the unset one.
unknown_methods : get_http_method_key (codes "PATCH") ≡ negsuc 0
unfolding get_http_method_key get_key http_methods bytes_eq
unknown_methods = refl

found : get_http_status_body_name (pos 404) ≡ some (codes "404.html")
unfolding get_http_status_body_name get_value http_status_body
found = refl

-- A library in which an expression is its text, the empty one is bad, and nothing is added.
abbrev compile : Bytes → Option Bytes
compile [] = none
compile (c ∷ cs) = some (c ∷ cs)

abbrev study : Bytes → Option Bytes × Bool
study p = (none, false)

abbrev no_rules : SlotBuffer (PcreKeyValue Bytes Bytes)
no_rules = record { kv = []; used = 0; size = 0 }

pcre_keyvalue_buffer_append_lem_example :
    Expected plain compile study no_rules
      (some (codes "^/a"))
      (codes "/b")
      (pcre_keyvalue_buffer_append plain compile study no_rules (some (codes "^/a")) (codes "/b"))
pcre_keyvalue_buffer_append_lem_example =
    pcre_keyvalue_buffer_append_lem plain compile study no_rules (refl, omega arith) (omega arith)
      (codes "/b") (omega arith) (some (codes "^/a"))
