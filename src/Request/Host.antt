-- ===== src/Request/Host.antt =====
-- `request_check_hostname` of request.c. `none` is the return value -1. The text of the host has no
-- NUL: the parser lets none into a header.
pub mod Allowed
use ylem.Base.{
  ℕ, ◌+◌, ◌-◌, Bytes, Bool, true, false, not, ◌||◌, ◌&&◌, Option, none, some, [], ◌∷◌, ltb, ◌==◌,
  if◌then◌else◌, is_null, ◌>>=◌, reverse, length,
}
use ylem.Letters.{light_isdigit, light_isxdigit, light_isalpha, light_isalnum}

pub data Stage : Type 0 where
  domainlabel toplabel : Stage

-- `is_ip`: -1, 0 and 1.
pub data IsIp : Type 0 where
  ip_unknown ip_no ip_yes : IsIp

pub record Labels : Type 0 where
  pub stage : Stage
  pub label_len : ℕ
  pub is_ip : IsIp
  pub level : ℕ

-- "check portnumber"
unfoldable pub all_digits : Bytes → Bool
all_digits [] = true
all_digits (c ∷ cs) = light_isdigit c && all_digits cs

-- The port behind `]`: only behind a colon is anything looked at.
unfoldable pub check_port : Bytes → Bool
check_port [] = true
check_port (c ∷ cs) = if c == b':' then all_digits cs else true

-- Behind `[`, after `colon_cnt` colons.
unfoldable pub check_ipv6 : ℕ → Bytes → Bool
check_ipv6 colon_cnt [] = false
check_ipv6 colon_cnt (c ∷ cs) = elim (c == b']') [
  | true ↦ check_port cs
  | false ↦ elim (c == b':') [
    | true ↦ elim (ltb 7 (colon_cnt + 1)) [ true ↦ false | false ↦ check_ipv6 (colon_cnt + 1) cs ]
    | false ↦ elim (light_isxdigit c) [ true ↦ check_ipv6 colon_cnt cs | false ↦ false ]
  ]
]

-- The text before the first colon, and the one behind it.
unfoldable pub split_colon : Bytes → Bytes × Option Bytes
split_colon [] = ([], none)
split_colon (c ∷ cs) = elim (c == b':') [
  | true ↦ ([], some cs)
  | false ↦ (let (before, after) = split_colon cs in (c ∷ before, after))
]

abbrev pub check_rest : Option Bytes → Bool
check_rest none = true
check_rest (some port) = all_digits port

abbrev pub longer : Labels → Labels
longer l = record l { label_len = l.label_len + 1 }

abbrev pub end_label : Labels → Labels
end_label l = record l { label_len = 0; level = l.level + 1 }

abbrev pub is_ip_no : IsIp → Bool
is_ip_no ip_no = true
is_ip_no _ = false

abbrev pub is_ip_yes : IsIp → Bool
is_ip_yes ip_yes = true
is_ip_yes _ = false

abbrev pub is_ip_unknown : IsIp → Bool
is_ip_unknown ip_unknown = true
is_ip_unknown _ = false

-- The dot at the left of the last label, whose first character is `right`.
unfoldable pub end_toplabel : ℕ → Labels → Option Labels
end_toplabel right l =
    if l.label_len == 0
    then none
    else if is_ip_no l.is_ip
    then (if light_isalpha right then some (record (end_label l) { stage = domainlabel }) else none)
    else if not (light_isdigit right)
    then some (record (end_label l) { stage = domainlabel; is_ip = ip_no })
    else if b'-' == right
    then none
    else some (record (end_label l) { stage = domainlabel; is_ip = ip_yes })

-- `case TOPLABEL`; `right` is the character at the right, if this is not the last one, and `first`
-- says that `i == 0`.
unfoldable pub step_toplabel : Option ℕ → ℕ → Bool → Labels → Option Labels
step_toplabel right c first l =
    if c == b'.'
    then elim right [ some r ↦ end_toplabel r l | none ↦ if first then none else some l ]
    else if first
    then (if light_isalpha c then some (longer l) else none)
    else if not (c == b'-') && not (light_isalnum c)
    then none
    else if is_ip_unknown l.is_ip && not (light_isdigit c)
    then some (record (longer l) { is_ip = ip_no })
    else some (longer l)

-- `case DOMAINLABEL`
unfoldable pub step_domainlabel : ℕ → ℕ → Bool → Labels → Option Labels
step_domainlabel right c first l =
    if is_ip_yes l.is_ip
    then (if c == b'.'
        then (if l.label_len == 0 then none else some (end_label l))
        else if not (light_isdigit c)
        then none
        else some (longer l))
    else if c == b'.'
    then (if l.label_len == 0 then none else if b'-' == right then none else some (end_label l))
    else if first
    then (if light_isalnum c then some (longer l) else none)
    else if not (c == b'-') && not (light_isalnum c)
    then none
    else some (longer l)

-- The stage DOMAINLABEL is entered at a dot that is not the last character.
abbrev pub char_at : Option ℕ → ℕ
char_at none = 0
char_at (some r) = r

unfoldable pub step_label : Option ℕ → ℕ → Bool → Labels → Option Labels
step_label right c first l = elim l.stage [
  | toplabel ↦ step_toplabel right c first l
  | domainlabel ↦ step_domainlabel (char_at right) c first l
]

abbrev pub is_empty : Bytes → Bool
is_empty [] = true
is_empty (c ∷ cs) = false

-- "scan from the right": the list is the host from its end on.
unfoldable pub scan_labels : Option ℕ → Labels → Bytes → Option Labels
scan_labels right l [] = some l
scan_labels right l (c ∷ cs) = elim (step_label right c (is_empty cs) l) [
  | none ↦ none
  | some m ↦ scan_labels (some c) m cs
]

abbrev pub no_labels : Labels
no_labels = record { stage = toplabel; label_len = 0; is_ip = ip_unknown; level = 0 }

-- "a IP has to consist of 4 parts"
unfoldable pub check_labels : Labels → Bool
check_labels l =
    if is_ip_yes l.is_ip && not (l.level == 3)
    then false
    else if l.label_len == 0
    then false
    else true

abbrev pub strip_dot : Bytes → Bytes
strip_dot [] = []
strip_dot (c ∷ cs) = if c == b'.' then cs else c ∷ cs

abbrev pub check_scanned : Option Labels → Bool
check_scanned none = false
check_scanned (some l) = check_labels l

-- The name before the port.
unfoldable pub check_name : Bytes → Bool
check_name [] = false
check_name (c ∷ cs) = check_scanned (scan_labels none no_labels (strip_dot (reverse (c ∷ cs))))

unfoldable pub check_text : Bytes → Bool
check_text [] = false
check_text (c ∷ cs) = elim (c == b'[') [
  | true ↦ check_ipv6 0 cs
  | false ↦
      (let (name, port) = split_colon (c ∷ cs) in
        if check_rest port then check_name name else false)
]

-- `request_check_hostname`: is 0 returned? `none` is NULL or a buffer of which nothing is in use.
unfoldable pub check_hostname : Option Bytes → Bool
check_hostname none = true
check_hostname (some text) = check_text text
