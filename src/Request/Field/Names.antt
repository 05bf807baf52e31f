-- ===== src/Request/Field/Names.antt =====
-- The chain of comparisons finds every known name, in any case of its letters, and no other.
use ylem.Base.{
  ℤ, pos, negsuc, Bytes, Bool, true, false, ◌&&◌, List, [], bytes_eq, bytes_eq-eq, bytes_eq_refl,
  ◌∷◌, length, map, false≢true, ◌≡◌, ◌≢◌, ◌⊎◌, refl, sym, ap, ◌∙◌, inl, inr, arith, Bool-cases,
}
use ylem.Encoding.Bytewise.{all_bytes, is_byte}
use ylem.Letters.Fold.{length-map}
use ylem.Compare.{skip_words, pair_difference, compare_bytes, caseless_compare}
use ylem.Compare.Caseless.{fold, caseless_compare-bytes, caseless_compare-fold}
use ylem.Request.Field.{
  Field, other, Entry, known_fields, Sign, negative, equal, positive, sign, field_of,
}
use ylem.Request.Field.Signs.{is_name_byte, compare-sign}

abbrev all_names : List Entry → Bool
all_names [] = true
all_names (e ∷ es) = all_bytes is_name_byte e.name && all_names es

caseless_compare-sign :
    (k j name : Bytes)
    → all_bytes is_name_byte name ≡ true
    → map fold k ≡ map fold j
    → sign (caseless_compare false k name) ≡ sign (caseless_compare false j name)
caseless_compare-sign k j name h e =
    let len : length k ≡ length j = sym (length-map fold k) ∙ ap length e ∙ length-map fold j in
    ap sign (caseless_compare-bytes false k name)
    ∙ ap (λ m. sign (compare_bytes m (length name) k name)) len
    ∙ compare-sign (length j) (length name) k j name h e
    ∙ ap sign (sym (caseless_compare-bytes false j name))

abbrev choose : Field → Sign → Field → Field
choose f s rest = elim s [ negative ↦ other | equal ↦ f | positive ↦ rest ]

-- Keys that differ in the case of letters only are the same field.
field_of-case :
    (k j : Bytes) (es : List Entry)
    → all_names es ≡ true
    → map fold k ≡ map fold j
    → field_of k es ≡ field_of j es
unfolding field_of
field_of-case k j [] h e = refl
field_of-case k j (n ∷ es) h e =
    ap (λ x. choose n.field x (field_of k es)) (caseless_compare-sign k j n.name (ground arith) e)
    ∙ ap (choose n.field (sign (caseless_compare false j n.name)))
        (field_of-case k j es (ground arith) e)

-- The reference: the first entry with the key's name, in lower case.
abbrev pub search_field : Bytes → List Entry → Field
search_field k [] = other
search_field k (e ∷ es) = elim (bytes_eq (map fold k) (map fold e.name)) [
  | true ↦ e.field
  | false ↦ search_field k es
]

abbrev IsEntry : Entry → List Entry → Type 0
IsEntry e [] = false ≡ true
IsEntry e (d ∷ es) = (e ≡ d) ⊎ IsEntry e es

-- The key has the name of an entry, or neither search finds one.
abbrev IsFound : Bytes → List Entry → Type 0
IsFound k es =
    (e : Entry) × IsEntry e es × (map fold k ≡ map fold e.name) × (search_field k es ≡ e.field)

sign-equal : (z : ℤ) → sign z ≡ equal → z ≡ pos 0
sign-equal (pos n) h = ap pos (ground arith)
sign-equal (negsuc n) h = absurd (ground arith)

Sign-cases : (s : Sign) → (s ≡ negative) ⊎ (s ≡ equal) ⊎ (s ≡ positive)
Sign-cases negative = inl refl
Sign-cases equal = inr (inl refl)
Sign-cases positive = inr (inr refl)

field_of-step :
    (k : Bytes) (d : Entry) (es : List Entry)
    → field_of k es ≡ other
    → sign (caseless_compare false k d.name) ≢ equal
    → field_of k (d ∷ es) ≡ other
unfolding field_of
field_of-step k d es rest n = elim (Sign-cases (sign (caseless_compare false k d.name))) [
  | inl e ↦ rw (field_of, e) refl
  | inr (inl e) ↦ absurd (n e)
  | inr (inr e) ↦ rw (field_of, e) rest
]

name-bytes : (s : Bytes) → all_bytes is_name_byte s ≡ true → all_bytes is_byte s ≡ true
name-bytes [] h = refl
name-bytes (c ∷ s) h = ground (arith, name-bytes s)

not_equal :
    (k : Bytes) (d : Entry)
    → all_bytes is_byte k ≡ true
    → all_bytes is_name_byte d.name ≡ true
    → bytes_eq (map fold k) (map fold d.name) ≡ false
    → sign (caseless_compare false k d.name) ≢ equal
not_equal k d hk hd f e =
    let zero = sign-equal (caseless_compare false k d.name) e in
    let same = (caseless_compare-fold false k d.name hk (name-bytes d.name hd)).0 zero in
    false≢true (sym f ∙ ap (bytes_eq (map fold k)) (sym same) ∙ bytes_eq_refl (map fold k))

search_field-cases :
    (k : Bytes) (es : List Entry)
    → all_bytes is_byte k ≡ true
    → all_names es ≡ true
    → IsFound k es ⊎ ((field_of k es ≡ other) × (search_field k es ≡ other))
unfolding field_of
search_field-cases k [] hk h = inr (refl, refl)
search_field-cases k (d ∷ es) hk h = elim (Bool-cases (bytes_eq (map fold k) (map fold d.name))) [
  | inl t ↦
      inl (d, inl refl, bytes_eq-eq (map fold k) (map fold d.name) t, rw (search_field, t) refl)
  | inr f ↦ elim (search_field-cases k es hk (ground arith)) [
    | inl found ↦ inl (found.0, inr found.1, found.2, rw (search_field, f) found.3)
    | inr none_found ↦ inr (
      field_of-step k d es none_found.0 (not_equal k d hk (ground arith) f),
      rw (search_field, f) none_found.1,
    )
  ]
]

-- Each entry's own name is found.
abbrev OwnNames : List Entry → Type 0
OwnNames [] = true ≡ true
OwnNames (e ∷ es) = (field_of e.name known_fields ≡ e.field) × OwnNames es

own_name :
    (e : Entry) (es : List Entry)
    → OwnNames es
    → IsEntry e es
    → field_of e.name known_fields ≡ e.field
own_name e [] o m = absurd (false≢true m)
own_name e (d ∷ es) o (inl m) = rw m o.0
own_name e (d ∷ es) o (inr m) = own_name e es o.1 m

known_names : OwnNames known_fields
unfolding field_of caseless_compare compare_bytes pair_difference skip_words
known_names = (refl, (refl, (refl, (refl, (refl, (refl, (refl, (refl, refl))))))))

-- For every key, the chain of comparisons with its early ends finds the same field as the search
-- through all names in lower case.
pub field_of-search :
    (k : Bytes) → all_bytes is_byte k ≡ true → field_of k known_fields ≡ search_field k known_fields
field_of-search k hk = elim (search_field-cases k known_fields hk refl) [
  | inl (e, m, same, found) ↦
      field_of-case k e.name known_fields refl same
      ∙ own_name e known_fields known_names m
      ∙ sym found
  | inr none_found ↦ none_found.0 ∙ sym none_found.1
]
