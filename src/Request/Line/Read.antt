-- ===== src/Request/Line/Read.antt =====
-- A request line that is written out is read back.
use ylem.Base.{
  ℕ, ℤ, negsuc, ◌==ℤ◌, ==ℤ-eq, Bytes, Bool, true, false, not, ◌&&◌, ◌||◌, Option, none, some, [],
  ◌∷◌, ◌++◌, append_assoc, append-nil, ◌==◌, codes, ◌≡◌, ◌≢◌, refl, sym, ap, ◌∙◌, arith, Bool-cases,
  inl, inr,
}
use ylem.Encoding.Bytewise.{all_bytes}
use ylem.Keyvalue.{
  HttpMethod, method_unset, method_code, http_methods, get_http_method_name, version_1_1,
}
use ylem.Keyvalue.Lookup.{method_code-unset, get_http_method_key_iff, all_rows, all_rows-get_value}
use ylem.Request.{Request, Settings, proceed, uri_is_valid_char, starts_with, c_str}
use ylem.Letters.{light_isdigit}
use ylem.Request.Numbers.{strtol, skip_space, read_digits}
use ylem.Request.Line.{
  line_end, read_line, end_line, read_method, read_version, version_of, version_numbers, split_at,
  read_uri, uri_text, all_valid,
}

-- Neither a blank nor CR.
abbrev pub is_word : ℕ → Bool
is_word c = not (c == b' ' || c == b'\r')

read_word :
    (line token w r : Bytes) (m u : Option Bytes)
    → all_bytes is_word w ≡ true
    → read_line line token m u (w ++ r) ≡ read_line (line ++ w) (token ++ w) m u r
unfolding read_line
read_word line token [] r m u h =
    ap (λ x. read_line x token m u r) (sym (append-nil line))
    ∙ ap (λ x. read_line (line ++ []) x m u r) (sym (append-nil token))
read_word line token (c ∷ w) r m u h =
    let cr : (c == b'\r') ≡ false = ground arith in
    let blank : (c == b' ') ≡ false = ground arith in
    rw (read_line, cr, blank)
      (read_word (line ++ c ∷ []) (token ++ c ∷ []) w r m u (ground arith)
        ∙ ap (λ x. read_line x (token ++ c ∷ [] ++ w) m u r) (append_assoc line (c ∷ []) w)
        ∙ ap (λ x. read_line (line ++ c ∷ w) x m u r) (append_assoc token (c ∷ []) w))

-- The line without CR LF.
abbrev pub line_text : Bytes → Bytes → Bytes → Bytes
line_text m u p = m ++ (b' ' ∷ (u ++ (b' ' ∷ p)))

whole_line : (m u p : Bytes) → ((((m ++ b' ' ∷ []) ++ u) ++ b' ' ∷ []) ++ p) ≡ line_text m u p
whole_line m u p = simp append_assoc

-- Three words with blanks between them are read as the method, the URI and the protocol.
read_line-words :
    (m u p rest : Bytes)
    → all_bytes is_word m ≡ true
    → all_bytes is_word u ≡ true
    → all_bytes is_word p ≡ true
    → read_line [] [] none none (m ++ (b' ' ∷ (u ++ (b' ' ∷ (p ++ (b'\r' ∷ b'\n' ∷ rest))))))
      ≡ line_end (line_text m u p) (some m) (some u) p rest
unfolding read_line
read_line-words m u p rest hm hu hp =
    let last : Bytes = p ++ (b'\r' ∷ b'\n' ∷ rest) in
    read_word [] [] m (b' ' ∷ (u ++ (b' ' ∷ last))) none none hm
    ∙ read_word (m ++ b' ' ∷ []) [] u (b' ' ∷ last) (some m) none hu
    ∙ read_word ((m ++ b' ' ∷ []) ++ u ++ b' ' ∷ []) [] p (b'\r' ∷ b'\n' ∷ rest) (some m) (some u)
        hp
    ∙ ap (λ l. line_end l (some m) (some u) p rest) (whole_line m u p)

c_str-id : (s : Bytes) → all_bytes (λ c. not (c == 0)) s ≡ true → c_str s ≡ s
unfolding c_str
c_str-id [] h = refl
c_str-id (c ∷ s) h =
    let here : (c == 0) ≡ false = ground arith in
    rw (c_str, here) (ap (λ t. c ∷ t) (c_str-id s (ground arith)))

valid-no_zero : (u : Bytes) → all_valid u ≡ true → all_bytes (λ c. not (c == 0)) u ≡ true
unfolding all_valid uri_is_valid_char
valid-no_zero [] h = refl
valid-no_zero (c ∷ u) h = ground (arith, valid-no_zero u)

valid-words : (u : Bytes) → all_valid u ≡ true → all_bytes is_word u ≡ true
unfolding all_valid uri_is_valid_char
valid-words [] h = refl
valid-words (c ∷ u) h = ground (arith, valid-words u)

-- The names of the methods are words without NUL.
abbrev is_method_name : ℤ → Bytes → Bool
is_method_name k s = all_bytes is_word s && all_bytes (λ c. not (c == 0)) s

methods-words : all_rows is_method_name http_methods ≡ true
unfolding all_rows http_methods
methods-words = refl

method-words :
    (m : HttpMethod) (s : Bytes)
    → get_http_method_name m ≡ some s
    → is_method_name (method_code m) s ≡ true
unfolding get_http_method_name
method-words m s e =
    all_rows-get_value is_method_name http_methods (method_code m) s methods-words e

version-1_1 :
    {T : Type 0} (conf : Settings) (s : Request T)
    → conf.allow_http11 ≡ true
    → read_version conf (codes "HTTP/1.1") s ≡ proceed (record s { http_version = version_1_1 })
unfolding read_version starts_with version_numbers split_at strtol skip_space read_digits
    light_isdigit version_of
version-1_1 conf s e = rw e refl

known_code : (m : HttpMethod) → m ≢ method_unset → (method_code m ==ℤ negsuc 0) ≡ false
known_code m n = elim (Bool-cases (method_code m ==ℤ negsuc 0)) [
  | inl e ↦ absurd (n (method_code-unset m (==ℤ-eq (method_code m) (negsuc 0) e)))
  | inr e ↦ e
]

proto_text : c_str (codes "HTTP/1.1") ≡ codes "HTTP/1.1"
unfolding c_str
proto_text = refl

module _ {T : Type 0} (conf : Settings) (allow : conf.allow_http11 ≡ true) (m : HttpMethod)
    (known : m ≢ method_unset) (name u rest : Bytes) (named : get_http_method_name m ≡ some name)
    (valid : all_valid u ≡ true) (path : starts_with (codes "http://") u ≡ false)
    (s : Request T) where
  -- What the line leaves in the connection.
  abbrev pub line_read : Request T
  line_read = record s {
    request_line = line_text name u (codes "HTTP/1.1");
    http_method = method_code m;
    http_version = version_1_1;
    uri = some u;
    orig_uri = some u;
    http_status = 0;
  }

  shape :
      line_text name u (codes "HTTP/1.1") ++ (b'\r' ∷ b'\n' ∷ rest)
      ≡ name ++ (b' ' ∷ (u ++ (b' ' ∷ (codes "HTTP/1.1" ++ (b'\r' ∷ b'\n' ∷ rest)))))
  shape = simp append_assoc

  uri_text-path : uri_text u ≡ u
  unfolding uri_text
  uri_text-path = rw (c_str-id u (valid-no_zero u valid), path) refl

  end_line-read :
      end_line conf (line_text name u (codes "HTTP/1.1")) (some name) (some u) (codes "HTTP/1.1") s
      ≡ proceed line_read
  unfolding end_line read_method read_uri
  end_line-read =
      let text = c_str-id name (ground (arith, method-words m name named)) in
      let key = (get_http_method_key_iff m name known).0 named in
      rw (text, key, known_code m known, proto_text)
        (rw
          (
            version-1_1 conf
                (record s {
                  request_line = line_text name u (codes "HTTP/1.1");
                  http_method = method_code m;
                })
                allow,
            uri_text-path,
            valid,
          )
          refl)

  -- A request line with a method of the table, a valid path and HTTP/1.1, where that is allowed, is
  -- read: the first loop finds its three words, and what is stored are the method's number, the
  -- path, the version and the line.
  pub read_line-request :
      (read_line [] [] none none (line_text name u (codes "HTTP/1.1") ++ (b'\r' ∷ b'\n' ∷ rest))
        ≡ line_end
            (line_text name u (codes "HTTP/1.1"))
            (some name)
            (some u)
            (codes "HTTP/1.1")
            rest)
      × (end_line conf
            (line_text name u (codes "HTTP/1.1"))
            (some name)
            (some u)
            (codes "HTTP/1.1")
            s
          ≡ proceed line_read)
  read_line-request = (
    ap (read_line [] [] none none) shape
        ∙ read_line-words name u (codes "HTTP/1.1") rest (ground (arith, method-words m name named))
            (valid-words u valid) refl,
    end_line-read,
  )
