-- ===== src/Request/Parse/Steps.antt =====
-- What every step over the header lines leaves: an open request, or a settled one.
use ylem.Base.{
  ℕ, ◌+◌, Bytes, true, false, Option, none, some, [], ◌∷◌, ◌==◌, ◌≡◌, ◌≢◌, ◌⊎◌, refl, inl, inr,
  arith, Bool, Bool-cases, Option-cases, if◌then◌else◌,
}
use ylem.Request.{
  Request, Settings, Outcome, proceed, body, answer, fault, ◌>=>◌, HeaderArray, refuse, refuse_both,
}
use ylem.Request.Line.{all_valid}
use ylem.Request.Split.{trim_end}
use ylem.Request.Field.{
  field_of, known_fields, Field, connection, content_length, content_type, expect, host,
  if_modified_since, if_none_match, range, other, add_field, set_field, move_value, set_connection,
  set_content_length, set_content_type, set_host, set_if_modified_since, set_if_none_match,
  set_range,
}
use ylem.Request.Headers.{
  Mode, in_key, in_value, in_folding, at_lf, fold_line, end_field, key_byte, value_byte, step_byte,
  read_headers,
}
use ylem.Request.Finish.Rules.{HasBody, Accepted}

key_cases :
    (o : Option Bytes) → (o ≡ none) ⊎ (o ≡ some []) ⊎ ((c : ℕ) × (k : Bytes) × (o ≡ some (c ∷ k)))
key_cases none = inl refl
key_cases (some []) = inr (inl refl)
key_cases (some (c ∷ k)) = inr (inr (c, k, refl))

module _ (h : HeaderArray) (conf : Settings) where
  -- The URI that is stored has no control character, no blank and no byte 255.
  abbrev pub IsClean : Request h.Table → Type 0
  IsClean s = (u : Bytes) → s.uri ≡ some u → all_valid u ≡ true

  -- While the parser goes on, no status is set and the URI is clean.
  abbrev pub IsOpen : Request h.Table → Type 0
  IsOpen s = (s.http_status ≡ 0) × IsClean s

  -- No status, or one that closes the connection; 505 leaves `keep_alive` as it was.
  abbrev pub IsSettled : (Request h.Table → Type 0) → Request h.Table → Type 0
  IsSettled P t = P t ⊎ (t.http_status ≡ 505) ⊎ ((t.http_status ≢ 0) × (t.keep_alive ≡ false))

  -- Where the parser returns without a status, the request has passed all tests.
  abbrev pub Ends : Outcome h.Table → Type 0
  Ends (proceed s) = IsOpen s
  Ends (answer t) = IsSettled (λ u. IsOpen u × Accepted h conf u) t
  Ends (body t) = IsOpen t × HasBody h conf t
  Ends fault = true ≡ true

  pub Ends-then :
      (m : Outcome h.Table) (f : Request h.Table → Outcome h.Table)
      → Ends m
      → ((s : Request h.Table) → IsOpen s → Ends (f s))
      → Ends (m >=> f)
  Ends-then (proceed s) f e k = k s e
  Ends-then (answer t) f e k = e
  Ends-then (body t) f e k = e
  Ends-then fault f e k = e

  pub Ends-refuse : (n : ℕ) (s : Request h.Table) → n ≢ 0 → Ends (refuse n s)
  unfolding refuse
  Ends-refuse n s z = inr (inr (z, refl))

  pub Ends-refuse_both : (n : ℕ) (s : Request h.Table) → n ≢ 0 → Ends (refuse_both n s)
  unfolding refuse_both
  Ends-refuse_both n s z = inr (inr (z, refl))

  -- Every known field, and every other one.
  set_field-Ends :
      (f : Field) (k v : Bytes) (s : Request h.Table) → IsOpen s → Ends (set_field h f k v s)
  unfolding set_field set_connection set_content_length set_content_type set_host
      set_if_modified_since set_if_none_match set_range refuse
  set_field-Ends connection k v s o = ground arith
  set_field-Ends content_length k v s o = ground arith
  set_field-Ends content_type k v s o = ground arith
  set_field-Ends expect k v s o = ground arith
  set_field-Ends host k v s o = ground arith
  set_field-Ends if_modified_since k v s o = ground arith
  set_field-Ends if_none_match k v s o = ground arith
  set_field-Ends range k v s o = ground arith
  set_field-Ends other k v s o = o

  add_field-Ends : (k v : Bytes) (s : Request h.Table) → IsOpen s → Ends (add_field h k v s)
  unfolding add_field
  add_field-Ends k [] s o = o
  add_field-Ends k (c ∷ v) s o = set_field-Ends (field_of k known_fields) k (c ∷ v) s o

  end_field-Ends : (k v : Bytes) (s : Request h.Table) → IsOpen s → Ends (end_field h k v s)
  unfolding end_field
  end_field-Ends k v s o = add_field-Ends k (trim_end v) (record s { key = some k }) o

  move_value-IsOpen : (f : Field) (s : Request h.Table) → IsOpen s → IsOpen (move_value f s)
  unfolding move_value
  move_value-IsOpen connection s o = o
  move_value-IsOpen content_length s o = o
  move_value-IsOpen content_type s o = o
  move_value-IsOpen expect s o = o
  move_value-IsOpen host s o = o
  move_value-IsOpen if_modified_since s o = o
  move_value-IsOpen if_none_match s o = o
  move_value-IsOpen range s o = o
  move_value-IsOpen other s o = o

  folded-IsOpen :
      (b : Bool) (f : Field) (t : Request h.Table)
      → IsOpen t
      → IsOpen (if b then move_value f t else t)
  folded-IsOpen true f t o = move_value-IsOpen f t o
  folded-IsOpen false f t o = o

  fold_line-Ends : (v : Bytes) (s : Request h.Table) → IsOpen s → Ends (fold_line h v s)
  unfolding fold_line refuse_both
  fold_line-Ends v s o = elim (key_cases s.key) [
    | inl e ↦ rw (fold_line, e) (Ends-refuse_both 400 s (λ z. absurd (omega arith)))
    | inr (inl e) ↦ rw (fold_line, e) (Ends-refuse_both 400 s (λ z. absurd (omega arith)))
    | inr (inr (c, k, e)) ↦ elim (Option-cases (h.find s.headers (c ∷ k))) [
      | inl n ↦ rw (fold_line, e, n) o
      | inr (old, n) ↦
          rw (fold_line, e, n)
            (folded-IsOpen (h.moves s.headers (c ∷ k) v) (field_of (c ∷ k) known_fields)
              (record s { headers = h.extend s.headers (c ∷ k) v }) o)
    ]
  ]

  key_byte-Ends :
      (key : Bytes) (c : ℕ) (rest : Bytes) (s : Request h.Table)
      → IsOpen s
      → Ends (key_byte h key c rest s).0
  unfolding key_byte refuse_both
  key_byte-Ends key c rest s o = ground arith

  value_byte-Ends : (c : ℕ) (s : Request h.Table) → IsOpen s → Ends (value_byte h c s)
  unfolding value_byte refuse
  value_byte-Ends c s o = ground arith

  step_byte-Ends :
      (mode : Mode) (c : ℕ) (rest : Bytes) (s : Request h.Table)
      → IsOpen s
      → Ends (step_byte h mode c rest s).0
  unfolding step_byte
  step_byte-Ends (in_key key) c rest s o = elim (Bool-cases (c == b'\r')) [
    | inl e ↦ ground (arith, Ends-refuse_both 400 s (λ z. absurd (omega arith)))
    | inr e ↦ rw e (key_byte-Ends key c rest s o)
  ]
  step_byte-Ends (in_value key value) c rest s o = ground (
    arith,
    end_field-Ends key value s o,
    value_byte-Ends c s o,
    Ends-refuse_both 400 s (λ z. absurd (omega arith)),
  )
  step_byte-Ends (in_folding value) c rest s o = ground (
    arith,
    fold_line-Ends value s o,
    value_byte-Ends c s o,
    Ends-refuse_both 400 s (λ z. absurd (omega arith)),
  )
  step_byte-Ends at_lf c rest s o = o

  module _ (mode : Mode) (i c : ℕ) (rest : Bytes) (k : Mode → Request h.Table → Outcome h.Table)
      (later : (m : Mode) (t : Request h.Table) → IsOpen t → Ends (k m t)) where
    -- What the loop does with the outcome of one byte.
    after_byte-Ends :
        (m : Outcome h.Table) (next : Option Mode)
        → Ends m
        → Ends (elim m [
          | proceed t ↦ elim next [
            | none ↦ proceed (record t { header_len = i + 2 })
            | some n ↦ k n t
          ]
          | answer t ↦ answer t
          | body t ↦ body t
          | fault ↦ fault
        ])
    after_byte-Ends (proceed t) none e = e
    after_byte-Ends (proceed t) (some n) e = later n t e
    after_byte-Ends (answer t) next e = e
    after_byte-Ends (body t) next e = e
    after_byte-Ends fault next e = e

  pub read_headers-Ends :
      (mode : Mode) (i : ℕ) (s : Bytes) (t : Request h.Table)
      → IsOpen t
      → Ends (read_headers h mode i s t)
  unfolding read_headers
  read_headers-Ends mode i [] t o = o
  read_headers-Ends mode i (c ∷ rest) t o =
      after_byte-Ends mode i c rest (λ m u. read_headers h m (i + 1) rest u)
        (λ m u p. read_headers-Ends m (i + 1) rest u p) (step_byte h mode c rest t).0
        (step_byte h mode c rest t).1 (step_byte-Ends mode c rest t o)
