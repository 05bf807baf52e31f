-- ===== src/Request/Field/Store.antt =====
-- What storing a field leaves in the headers and in the pointers into them.
use ylem.Base.{
  ℕ, Bytes, true, none, [], ◌∷◌, ◌++◌, ◌==◌, codes, ◌≡◌, ◌≢◌, ◌⊎◌, ◌↔◌, refl, inl, inr, arith,
  ==_iff, Bool-cases, Option-cases,
}
use ylem.Request.{Request, live, freed, proceed, fault, refuse, HeaderArray}
use ylem.Request.Split.{split_value, split_from, white_space, in_element, SplitState, is_ws}
use ylem.Request.Field.{
  Field, same_text, connection, content_length, content_type, expect, host, if_modified_since,
  if_none_match, range, other, known_fields, field_of, set_connection, set_content_length,
  set_content_type, set_host, set_if_modified_since, set_if_none_match, set_range, set_field,
  add_field,
}

-- Behind a byte, the loop over the elements reads within the text.
split_from-some : (m : SplitState) (s : Bytes) → split_from true m s ≢ none
unfolding split_from
split_from-some white_space [] e = ground arith
split_from-some white_space (c ∷ s) e =
    ground (arith, split_from-some white_space s, split_from-some (in_element (c ∷ [])) s)
split_from-some (in_element v) [] e = ground arith
split_from-some (in_element v) (c ∷ s) e =
    ground (arith, split_from-some white_space s, split_from-some (in_element (v ++ c ∷ [])) s)

split_value-none : (c : ℕ) (s : Bytes) → split_value (c ∷ s) ≡ none → c ≡ b','
unfolding split_value split_from
split_value-none c s e = elim (Bool-cases (is_ws c)) [
  | inl w ↦ absurd (split_from-some white_space s (rw (split_value, split_from, w) at e))
  | inr w ↦ elim (Bool-cases (c == b',')) [
    | inl m ↦ (==_iff c b',').0 m
    | inr m ↦
        absurd (split_from-some (in_element (c ∷ [])) s (rw (split_value, split_from, w, m) at e))
  ]
]

module _ (h : HeaderArray) where
  -- The field is handed to the array, or it is an If-Modified-Since that says the same again.
  abbrev IsKept : Field → Bytes → Bytes → Request h.Table → Request h.Table → Type 0
  IsKept f k v s t =
      (t.headers ≡ h.insert s.headers k v)
      ⊎ (f ≡ if_modified_since)
        × (t ≡ s)
        × (s.http_if_modified_since ≡ live)
        × (same_text h (h.find s.headers (codes "If-Modified-Since")) v ≡ true)

  set_field-IsKept :
      (f : Field) (k v : Bytes) (s t : Request h.Table)
      → set_field h f k v s ≡ proceed t
      → IsKept f k v s t
  unfolding set_field set_connection set_content_length set_content_type set_host
      set_if_modified_since set_if_none_match set_range refuse
  set_field-IsKept connection k v s t e = elim (Option-cases (split_value v)) [
    | inl m ↦ absurd (ground arith)
    | inr (vals, m) ↦ ground arith
  ]
  set_field-IsKept content_length k v s t e = ground arith
  set_field-IsKept content_type k v s t e = ground arith
  set_field-IsKept expect k v s t e = ground arith
  set_field-IsKept host k v s t e = ground arith
  set_field-IsKept if_modified_since k v s t e = ground arith
  set_field-IsKept if_none_match k v s t e = ground arith
  set_field-IsKept range k v s t e = ground arith
  set_field-IsKept other k v s t e = ground arith

  -- A header field with a value that the parser goes on behind was handed to `array_insert_unique`,
  -- once, under its name and with its whole value, whatever field it is and whatever was stored
  -- before; the one exception is an If-Modified-Since that says the same as the one before it, which
  -- changes nothing.
  pub add_field-stored :
      (k : Bytes) (c : ℕ) (v : Bytes) (s t : Request h.Table)
      → add_field h k (c ∷ v) s ≡ proceed t
      → (t.headers ≡ h.insert s.headers k (c ∷ v))
        ⊎ (field_of k known_fields ≡ if_modified_since)
          × (t ≡ s)
          × (s.http_if_modified_since ≡ live)
          × (same_text h (h.find s.headers (codes "If-Modified-Since")) (c ∷ v) ≡ true)
  unfolding add_field
  add_field-stored k c v s t e = set_field-IsKept (field_of k known_fields) k (c ∷ v) s t e

  set_field-fault :
      (f : Field) (k : Bytes) (c : ℕ) (v : Bytes) (s : Request h.Table)
      → set_field h f k (c ∷ v) s ≡ fault
      → (f ≡ connection) × (c ≡ b',') ⊎ (f ≡ if_modified_since) × (s.http_if_modified_since ≡ freed)
  unfolding set_field set_connection set_content_length set_content_type set_host
      set_if_modified_since set_if_none_match set_range refuse
  set_field-fault connection k c v s e = elim (Option-cases (split_value (c ∷ v))) [
    | inl m ↦ inl (refl, split_value-none c v m)
    | inr (vals, m) ↦ absurd (ground arith)
  ]
  set_field-fault content_length k c v s e = absurd (ground arith)
  set_field-fault content_type k c v s e = absurd (ground arith)
  set_field-fault expect k c v s e = absurd (ground arith)
  set_field-fault host k c v s e = absurd (ground arith)
  set_field-fault if_modified_since k c v s e = ground arith
  set_field-fault if_none_match k c v s e = absurd (ground arith)
  set_field-fault range k c v s e = absurd (ground arith)
  set_field-fault other k c v s e = absurd (ground arith)

  -- Both cases do fault.
  fault-set_field :
      (f : Field) (k : Bytes) (c : ℕ) (v : Bytes) (s : Request h.Table)
      → (f ≡ connection) × (c ≡ b',') ⊎ (f ≡ if_modified_since) × (s.http_if_modified_since ≡ freed)
      → set_field h f k (c ∷ v) s ≡ fault
  unfolding set_field set_connection set_if_modified_since split_value split_from
  fault-set_field f k c v s (inl (e, m)) = rw (e, m) refl
  fault-set_field f k c v s (inr (e, m)) = rw (e, m) refl

  -- Storing a field reads outside of an object exactly for a header Connection whose value begins
  -- with a comma, and for an If-Modified-Since behind one whose storage was given back.
  pub add_field-fault :
      (k : Bytes) (c : ℕ) (v : Bytes) (s : Request h.Table)
      → (add_field h k (c ∷ v) s ≡ fault)
        ↔ (field_of k known_fields ≡ connection) × (c ≡ b',')
          ⊎ (field_of k known_fields ≡ if_modified_since) × (s.http_if_modified_since ≡ freed)
  unfolding add_field
  add_field-fault k c v s = (
    set_field-fault (field_of k known_fields) k c v s,
    fault-set_field (field_of k known_fields) k c v s,
  )
