-- ===== src/Request/Split/Elements.antt =====
-- A list of elements that is written with commas is split into them.
use ylem.Base.{
  ℕ, Bytes, Bool, true, false, not, ◌&&◌, some, List, [], ◌∷◌, ◌++◌, append_assoc, append-nil, ◌==◌,
  map, ◌>>=◌, ◌≡◌, refl, sym, ap, ◌∙◌, arith,
}
use ylem.Encoding.Bytewise.{all_bytes}
use ylem.Request.Split.{is_ws, trim_value, white_space, in_element, split_from, split_value}

abbrev pub is_no_comma : ℕ → Bool
is_no_comma c = not (c == b',')

-- Without a comma, and beginning with a byte that is no white space.
abbrev pub is_element : Bytes → Bool
is_element [] = false
is_element (c ∷ t) = not (is_ws c) && all_bytes is_no_comma (c ∷ t)

abbrev pub AllElements : List Bytes → Type 0
AllElements [] = true ≡ true
AllElements (t ∷ ts) = (is_element t ≡ true) × AllElements ts

-- A comma and a blank between the elements.
abbrev pub join : List Bytes → Bytes
join [] = []
join (t ∷ []) = t
join (t ∷ u ∷ ts) = t ++ (b',' ∷ b' ' ∷ join (u ∷ ts))

split-last :
    (v w : Bytes)
    → all_bytes is_no_comma w ≡ true
    → split_from true (in_element v) w ≡ some (trim_value (v ++ w) ∷ [])
unfolding split_from
split-last v [] h = ap (λ x. some (trim_value x ∷ [])) (sym (append-nil v))
split-last v (c ∷ w) h =
    let other : (c == b',') ≡ false = ground arith in
    rw (split_from, other)
      (split-last (v ++ c ∷ []) w (ground arith)
        ∙ ap (λ x. some (trim_value x ∷ [])) (append_assoc v (c ∷ []) w))

split-comma :
    (v w r : Bytes)
    → all_bytes is_no_comma w ≡ true
    → split_from true (in_element v) (w ++ (b',' ∷ r))
      ≡ (split_from true white_space r >>= λ vals. some (trim_value (v ++ w) ∷ vals))
unfolding split_from
split-comma v [] r h =
    ap (λ x. split_from true white_space r >>= λ vals. some (trim_value x ∷ vals))
      (sym (append-nil v))
split-comma v (c ∷ w) r h =
    let other : (c == b',') ≡ false = ground arith in
    rw (split_from, other)
      (split-comma (v ++ c ∷ []) w r (ground arith)
        ∙ ap (λ x. split_from true white_space r >>= λ vals. some (trim_value x ∷ vals))
            (append_assoc v (c ∷ []) w))

split-begin :
    (b : Bool) (c : ℕ) (r : Bytes)
    → is_ws c ≡ false
    → is_no_comma c ≡ true
    → split_from b white_space (c ∷ r) ≡ split_from true (in_element (c ∷ [])) r
unfolding split_from
split-begin b c r w n =
    let other : (c == b',') ≡ false = ground arith in rw (split_from, w, other) refl

split-join :
    (b : Bool) (ts : List Bytes)
    → AllElements ts
    → split_from b white_space (join ts) ≡ some (map trim_value ts)
unfolding split_from
split-join b [] a = refl
split-join b ([] ∷ ts) a = absurd (ground arith)
split-join b ((c ∷ t) ∷ []) a =
    split-begin b c t (ground arith) (ground arith) ∙ split-last (c ∷ []) t (ground arith)
split-join b ((c ∷ t) ∷ u ∷ ts) a =
    split-begin b c (t ++ (b',' ∷ b' ' ∷ join (u ∷ ts))) (ground arith) (ground arith)
    ∙ split-comma (c ∷ []) t (b' ' ∷ join (u ∷ ts)) (ground arith)
    ∙ ap (λ x. x >>= λ vals. some (trim_value (c ∷ t) ∷ vals)) (split-join true (u ∷ ts) a.1)

-- Elements without commas, each beginning with no white space, are found in the list that has them
-- with a comma and a blank between them, in their order and without white space at their ends.
split_value-join :
    (ts : List Bytes) → AllElements ts → split_value (join ts) ≡ some (map trim_value ts)
unfolding split_value
split_value-join ts a = split-join false ts a
