-- ===== src/Request/Host/Allowed.antt =====
-- The characters of a host that `request_check_hostname` lets through.
use ylem.Base.{
  ℕ, ◌+◌, Bytes, Bool, true, false, ◌||◌, Option, none, some, [], ◌∷◌, ◌++◌, ◌==◌, reverse,
  reverse-cons, reverse-reverse, ◌≡◌, refl, sym, ◌∙◌, ap, ◌≢◌, ◌⊎◌, arith, Bool-cases, Option-cases,
  inl, inr,
}
use ylem.Letters.{light_isdigit, light_isalpha, light_isalnum}
use ylem.Encoding.Bytewise.{all_bytes, all_bytes-append}
use ylem.Request.Host.{
  Labels, Stage, domainlabel, toplabel, step_label, step_toplabel, step_domainlabel, scan_labels,
  check_name, check_text, check_rest, char_at, is_empty, strip_dot, no_labels, split_colon,
  all_digits, check_ipv6, check_port,
}

-- Letters, digits, hyphens, dots and colons.
unfoldable pub is_host_char : ℕ → Bool
is_host_char c = light_isalnum c || c == b'-' || c == b'.' || c == b':'

step_toplabel-char :
    (right : Option ℕ) (c : ℕ) (first : Bool) (l m : Labels)
    → step_toplabel right c first l ≡ some m
    → is_host_char c ≡ true
unfolding step_toplabel is_host_char light_isalnum light_isalpha
step_toplabel-char right c first l m h = ground arith

step_domainlabel-char :
    (right c : ℕ) (first : Bool) (l m : Labels)
    → step_domainlabel right c first l ≡ some m
    → is_host_char c ≡ true
unfolding step_domainlabel is_host_char light_isalnum light_isalpha
step_domainlabel-char right c first l m h = ground arith

Stage-cases : (s : Stage) → (s ≡ toplabel) ⊎ (s ≡ domainlabel)
Stage-cases toplabel = inl refl
Stage-cases domainlabel = inr refl

step_label-char :
    (right : Option ℕ) (c : ℕ) (first : Bool) (l m : Labels)
    → step_label right c first l ≡ some m
    → is_host_char c ≡ true
unfolding step_label
step_label-char right c first l m h = elim (Stage-cases l.stage) [
  | inl t ↦ step_toplabel-char right c first l m (ground arith)
  | inr d ↦ step_domainlabel-char (char_at right) c first l m (ground arith)
]

scan_labels-chars :
    (right : Option ℕ) (l m : Labels) (cs : Bytes)
    → scan_labels right l cs ≡ some m
    → all_bytes is_host_char cs ≡ true
unfolding scan_labels
scan_labels-chars right l m [] h = refl
scan_labels-chars right l m (c ∷ cs) h = elim (Option-cases (step_label right c (is_empty cs) l)) [
  | inl n ↦ absurd (ground arith)
  | inr (k, n) ↦
      let here = step_label-char right c (is_empty cs) l k n in
      let rest = scan_labels-chars (some c) k m cs (ground arith) in ground arith
]

all_bytes-reverse :
    (p : ℕ → Bool) (s : Bytes) → all_bytes p s ≡ true → all_bytes p (reverse s) ≡ true
all_bytes-reverse p [] h = refl
all_bytes-reverse p (c ∷ s) h =
    rw (reverse-cons c s) (
      all_bytes-append p (reverse s) (c ∷ []) (all_bytes-reverse p s (ground arith)) (ground arith))

strip_dot-chars :
    (s : Bytes) → all_bytes is_host_char (strip_dot s) ≡ true → all_bytes is_host_char s ≡ true
unfolding is_host_char
strip_dot-chars [] h = refl
strip_dot-chars (c ∷ s) h = ground arith

all_digits-chars : (s : Bytes) → all_digits s ≡ true → all_bytes is_host_char s ≡ true
unfolding all_digits is_host_char light_isalnum
all_digits-chars [] h = refl
all_digits-chars (c ∷ s) h = ground (arith, all_digits-chars s)

check_name-chars : (s : Bytes) → check_name s ≡ true → all_bytes is_host_char s ≡ true
unfolding check_name
check_name-chars [] h = refl
check_name-chars (c ∷ s) h =
    elim (Option-cases (scan_labels none no_labels (strip_dot (reverse (c ∷ s))))) [
      | inl n ↦ absurd (ground arith)
      | inr (m, n) ↦
          let back =
            strip_dot-chars (reverse (c ∷ s))
              (scan_labels-chars none no_labels m (strip_dot (reverse (c ∷ s))) n) in
          sym (ap (all_bytes is_host_char) (reverse-reverse (c ∷ s)))
          ∙ all_bytes-reverse is_host_char (reverse (c ∷ s)) back
    ]

check_split :
    (s : Bytes)
    → check_rest (split_colon s).1 ≡ true
    → all_bytes is_host_char (split_colon s).0 ≡ true
    → all_bytes is_host_char s ≡ true
unfolding split_colon is_host_char
check_split [] r n = refl
check_split (c ∷ s) r n = elim (Bool-cases (c == b':')) [
  | inl e ↦ ground (arith, all_digits-chars s)
  | inr e ↦ ground (arith, check_split s)
]

-- A host that is accepted and does not begin with `[` consists of letters, digits, hyphens, dots
-- and colons.
pub check_text-chars :
    (c : ℕ) (cs : Bytes)
    → check_text (c ∷ cs) ≡ true
    → c ≢ b'['
    → all_bytes is_host_char (c ∷ cs) ≡ true
unfolding check_text
check_text-chars c cs h n =
    let (name, port) = split_colon (c ∷ cs) in
    let other : (c == b'[') ≡ false = ground arith in
    let port_ok : check_rest (split_colon (c ∷ cs)).1 ≡ true = ground arith in
    let name_ok : check_name (split_colon (c ∷ cs)).0 ≡ true = ground arith in
    check_split (c ∷ cs) port_ok (check_name-chars (split_colon (c ∷ cs)).0 name_ok)

all_digits-bracket : (s r : Bytes) → all_digits (s ++ b']' ∷ r) ≡ false
unfolding all_digits light_isdigit
all_digits-bracket [] r = refl
all_digits-bracket (c ∷ s) r = ground (arith, all_digits-bracket s r)

check_port-bracket :
    (s r : Bytes) → check_port (s ++ b']' ∷ []) ≡ true → check_port (s ++ b']' ∷ r) ≡ true
unfolding check_port
check_port-bracket [] r h = refl
check_port-bracket (c ∷ s) r h = ground (arith, all_digits-bracket s [])

-- Behind the bracket of an IPv6 address that is accepted alone, any text is accepted that does not
-- begin with a colon: nothing there is looked at.
pub check_ipv6-junk :
    (k : ℕ) (addr : Bytes) (c : ℕ) (junk : Bytes)
    → c ≢ b':'
    → check_ipv6 k (addr ++ b']' ∷ []) ≡ true
    → check_ipv6 k (addr ++ b']' ∷ c ∷ junk) ≡ true
unfolding check_ipv6 check_port
check_ipv6-junk k [] c junk n h = ground arith
check_ipv6-junk k (x ∷ addr) c junk n h = elim (Bool-cases (x == b']')) [
  | inl e ↦ ground (arith, check_port-bracket addr (c ∷ junk))
  | inr e ↦ ground (arith, check_ipv6-junk k addr c junk n, check_ipv6-junk (k + 1) addr c junk n)
]
