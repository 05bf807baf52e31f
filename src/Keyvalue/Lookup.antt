-- ===== src/Keyvalue/Lookup.antt =====
-- The two lookups in a table are inverse to each other where no name and no key stands twice.
use ylem.Base.{
  ℤ, pos, negsuc, ◌==ℤ◌, ==ℤ-refl, ==ℤ-eq, Bytes, bytes_eq, bytes_eq-eq, bytes_eq_refl, sym, ◌↔◌, ℕ,
  ◌+◌, ◌/◌, ◌%◌, ◌++◌, codes, Bool, true, false, ◌&&◌, not, none, some, List, [], ◌∷◌, ◌≡◌, ◌≢◌,
  refl, sym, ◌↔◌, ℕ, ◌+◌, ◌/◌, ◌%◌, ◌++◌, codes, Bool-cases, Option-cases, inl, inr, arith, is_null,
}
use ylem.Keyvalue.{
  KeyValue, http_versions, http_status, http_status_body, get_http_version_name,
  get_http_version_key, get_http_status_name, get_http_status_body_name, method_unset, get_value,
  get_key, http_methods, get_http_method_name, get_http_method_key, HttpMethod, method_code,
}

-- No key is -1, and no later row has the name or the key of a row.
unfoldable pub is_table : List KeyValue → Bool
is_table [] = true
is_table (e ∷ kv) = elim e.value [
  | none ↦ true
  | some v ↦
      not (e.key ==ℤ negsuc 0)
      && (get_key kv v ==ℤ negsuc 0)
      && is_null (get_value kv e.key)
      && is_table kv
]

get_value-minus : (kv : List KeyValue) → is_table kv ≡ true → get_value kv (negsuc 0) ≡ none
unfolding is_table get_value
get_value-minus [] t = refl
get_value-minus (e ∷ kv) t = ground (arith, get_value-minus kv)

-- In a table, a name that is found for a key leads back to the key.
pub get_key-get_value :
    (kv : List KeyValue) (k : ℤ) (v : Bytes)
    → is_table kv ≡ true
    → get_value kv k ≡ some v
    → get_key kv v ≡ k
unfolding is_table get_value get_key
get_key-get_value [] k v t h = ground arith
get_key-get_value (e ∷ kv) k v t h = elim (Option-cases e.value) [
  | inl n ↦ absurd (ground arith)
  | inr (w, n) ↦ elim (Bool-cases (e.key ==ℤ k)) [
    | inl same ↦ ground (arith, ==ℤ-eq e.key k same, bytes_eq_refl v)
    | inr other ↦ elim (Bool-cases (bytes_eq w v)) [
      | inl b ↦ absurd (
          ground (
            arith,
            get_key-get_value kv k v,
            bytes_eq-eq w v b,
            ==ℤ-eq (get_key kv w) (negsuc 0),
            get_value-minus kv,
          ))
      | inr b ↦ ground (arith, get_key-get_value kv k v)
    ]
  ]
]

-- In a table, a key that is found for a name leads back to the name.
pub get_value-get_key :
    (kv : List KeyValue) (k : ℤ) (v : Bytes)
    → is_table kv ≡ true
    → k ≢ negsuc 0
    → get_key kv v ≡ k
    → get_value kv k ≡ some v
unfolding is_table get_value get_key
get_value-get_key [] k v t n h = absurd (n (sym h))
get_value-get_key (e ∷ kv) k v t n h = elim (Option-cases e.value) [
  | inl z ↦ absurd (n (ground arith))
  | inr (w, z) ↦ elim (Bool-cases (bytes_eq w v)) [
    | inl b ↦ ground (arith, bytes_eq-eq w v b, ==ℤ-refl k)
    | inr b ↦ elim (Bool-cases (e.key ==ℤ k)) [
      | inl same ↦ absurd (ground (arith, get_value-get_key kv k v, ==ℤ-eq e.key k same))
      | inr other ↦ ground (arith, get_value-get_key kv k v)
    ]
  ]
]

methods-is_table : is_table http_methods ≡ true
unfolding is_table get_value get_key http_methods bytes_eq
methods-is_table = refl

versions-is_table : is_table http_versions ≡ true
unfolding is_table get_value get_key http_versions bytes_eq
versions-is_table = refl

pub method_code-unset : (m : HttpMethod) → method_code m ≡ negsuc 0 → m ≡ method_unset
method_code-unset m h = ground arith

-- For every method but HTTP_METHOD_UNSET, a byte string is the method's name exactly if
-- `get_http_method_key` reads it as that method.
pub get_http_method_key_iff :
    (m : HttpMethod) (s : Bytes)
    → m ≢ method_unset
    → (get_http_method_name m ≡ some s) ↔ (get_http_method_key s ≡ method_code m)
unfolding get_http_method_name get_http_method_key
get_http_method_key_iff m s n = (
  get_key-get_value http_methods (method_code m) s methods-is_table,
  get_value-get_key http_methods (method_code m) s methods-is_table
      (λ e. n (method_code-unset m e)),
)

-- The same for the versions, by number: any number but -1.
pub get_http_version_key_iff :
    (i : ℤ) (s : Bytes)
    → i ≢ negsuc 0
    → (get_http_version_name i ≡ some s) ↔ (get_http_version_key s ≡ i)
unfolding get_http_version_name get_http_version_key
get_http_version_key_iff i s n = (
  get_key-get_value http_versions i s versions-is_table,
  get_value-get_key http_versions i s versions-is_table n,
)

-- The three decimal digits of a status.
abbrev pub digits3 : ℕ → Bytes
digits3 n = (b'0' + n / 100) ∷ (b'0' + n / 10 % 10) ∷ (b'0' + n % 10) ∷ []

module _ (p : ℤ → Bytes → Bool) where
  unfoldable pub all_rows : List KeyValue → Bool
  all_rows [] = true
  all_rows (e ∷ kv) = elim e.value [ none ↦ true | some v ↦ p e.key v && all_rows kv ]

  pub all_rows-get_value :
      (kv : List KeyValue) (k : ℤ) (v : Bytes)
      → all_rows kv ≡ true
      → get_value kv k ≡ some v
      → p k v ≡ true
  unfolding all_rows get_value
  all_rows-get_value [] k v t h = absurd (ground arith)
  all_rows-get_value (e ∷ kv) k v t h = elim (Option-cases e.value) [
    | inl n ↦ absurd (ground arith)
    | inr (w, n) ↦ elim (Bool-cases (e.key ==ℤ k)) [
      | inl same ↦ ground (arith, ==ℤ-eq e.key k same)
      | inr other ↦ ground (arith, all_rows-get_value kv k v)
    ]
  ]

-- The status is named and the page is called after its digits.
abbrev pub Page : ℤ → Bytes → Type 0
Page (pos d) f =
    (f ≡ digits3 d ++ codes ".html") × ((n : Bytes) × (get_http_status_name (pos d) ≡ some n))
Page (negsuc d) f = false ≡ true

page : ℤ → Bytes → Bool
page (pos d) f =
    bytes_eq f (digits3 d ++ codes ".html") && not (is_null (get_http_status_name (pos d)))
page (negsuc d) f = false

page-Page : (k : ℤ) (f : Bytes) → page k f ≡ true → Page k f
unfolding page
page-Page (pos d) f h = elim (Option-cases (get_http_status_name (pos d))) [
  | inl n ↦ absurd (ground arith)
  | inr (s, n) ↦ (bytes_eq-eq f (digits3 d ++ codes ".html") (ground arith), (s, n))
]
page-Page (negsuc d) f h = h

bodies-page : all_rows page http_status_body ≡ true
unfolding all_rows page http_status_body get_http_status_name get_value http_status bytes_eq
bodies-page = refl

-- A status that has a page of its own has a name too, and the page is the file `<status>.html`.
pub get_http_status_body_name-Page :
    (k : ℤ) (f : Bytes) → get_http_status_body_name k ≡ some f → Page k f
unfolding get_http_status_body_name
get_http_status_body_name-Page k f h =
    page-Page k f (all_rows-get_value page http_status_body k f bodies-page h)
