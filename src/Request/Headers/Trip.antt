-- ===== src/Request/Headers/Trip.antt =====
-- Header lines that are written out are read back.
use ylem.Base.{
  ℕ, suc, ◌+◌, Bytes, Bool, true, false, not, ◌||◌, some, List, [], ◌∷◌, ◌++◌, append_assoc,
  append-nil, ◌==◌, ltb, length, length-append, ◌≡◌, refl, sym, ap, ◌∙◌, arith,
}
use ylem.Encoding.Bytewise.{all_bytes}
use ylem.Request.{Request, Outcome, proceed, answer, body, fault, ◌>=>◌, HeaderArray}
use ylem.Request.Split.{is_ws}
use ylem.Request.Field.{has_char}
use ylem.Request.Headers.{
  Mode, in_key, in_value, at_lf, separators, is_ctl, value_from, end_field, key_byte, value_byte,
  step_byte, read_headers,
}

-- "any CHAR except CTLs or separators"
abbrev pub is_token : ℕ → Bool
is_token c = not (c == b':' || has_char c separators || is_ws c || is_ctl c)

-- A byte of a value; a tab is none.
abbrev pub is_value : ℕ → Bool
is_value c = not (ltb c 32)

abbrev pub begins_black : Bytes → Bool
begins_black [] = true
begins_black (c ∷ v) = not (is_ws c)

pub record Line : Type 0 where
  pub name : Bytes
  pub value : Bytes

-- `name: value` and CR LF
abbrev pub render_line : Line → Bytes
render_line l = l.name ++ (b':' ∷ b' ' ∷ (l.value ++ b'\r' ∷ b'\n' ∷ []))

abbrev pub render : List Line → Bytes
render [] = []
render (l ∷ ls) = render_line l ++ render ls

abbrev pub AllLines : List Line → Type 0
AllLines [] = true ≡ true
AllLines (l ∷ ls) =
    (all_bytes is_token l.name ≡ true)
    × (all_bytes is_value l.value ≡ true)
    × (begins_black l.value ≡ true)
    × AllLines ls

module _ (h : HeaderArray) where
  -- One field after the other.
  unfoldable pub end_fields : List Line → Request h.Table → Outcome h.Table
  end_fields [] s = proceed s
  end_fields (l ∷ ls) s = end_field h l.name l.value s >=> end_fields ls

  step_token :
      (acc : Bytes) (c : ℕ) (rest : Bytes) (s : Request h.Table)
      → is_token c ≡ true
      → step_byte h (in_key acc) c rest s ≡ (proceed s, some (in_key (acc ++ c ∷ [])))
  unfolding step_byte key_byte
  step_token acc c rest s t =
      let cr : (c == b'\r') ≡ false = ground arith in
      let colon : (c == b':') ≡ false = ground arith in
      let sep : has_char c separators ≡ false = ground arith in
      let ws : is_ws c ≡ false = ground arith in
      let ctl : is_ctl c ≡ false = ground arith in rw (cr, colon, sep, ws, ctl) refl

  step_value :
      (k v : Bytes) (c : ℕ) (rest : Bytes) (s : Request h.Table)
      → is_value c ≡ true
      → step_byte h (in_value k v) c rest s ≡ (proceed s, some (in_value k (value_from v c)))
  unfolding step_byte value_byte
  step_value k v c rest s t =
      let cr : (c == b'\r') ≡ false = ground arith in
      let low : ltb c 32 ≡ false = ground arith in rw (cr, low) refl

  step_colon :
      (acc rest : Bytes) (s : Request h.Table)
      → step_byte h (in_key acc) b':' rest s ≡ (proceed s, some (in_value acc []))
  unfolding step_byte key_byte
  step_colon acc rest s = refl

  read_next :
      (mode next : Mode) (i c : ℕ) (rest : Bytes) (s : Request h.Table)
      → step_byte h mode c rest s ≡ (proceed s, some next)
      → read_headers h mode i (c ∷ rest) s ≡ read_headers h next (i + 1) rest s
  unfolding read_headers
  read_next mode next i c rest s e = rw (read_headers, ap (λ p. p.0) e, ap (λ p. p.1) e) refl

  read_key :
      (acc k r : Bytes) (i : ℕ) (s : Request h.Table)
      → all_bytes is_token k ≡ true
      → read_headers h (in_key acc) i (k ++ b':' ∷ r) s
        ≡ read_headers h (in_value (acc ++ k) []) (i + length k + 1) r s
  unfolding read_headers
  read_key acc [] r i s t =
      read_next (in_key acc) (in_value acc []) i b':' r s (step_colon acc r s)
      ∙ ap (λ k. read_headers h (in_value k []) (i + 1) r s) (sym (append-nil acc))
      ∙ ap (λ n. read_headers h (in_value (acc ++ []) []) n r s) (omega arith)
  read_key acc (c ∷ k) r i s t =
      let next : i + 1 + length k + 1 ≡ i + suc (length k) + 1 = omega arith in
      read_next (in_key acc) (in_key (acc ++ c ∷ [])) i c (k ++ b':' ∷ r) s
        (step_token acc c (k ++ b':' ∷ r) s (ground arith))
      ∙ read_key (acc ++ c ∷ []) k r (i + 1) s (ground arith)
      ∙ ap (λ x. read_headers h (in_value x []) (i + 1 + length k + 1) r s)
          (append_assoc acc (c ∷ []) k)
      ∙ ap (λ n. read_headers h (in_value (acc ++ c ∷ k) []) n r s) next

  past_lf :
      (r : Bytes) (i : ℕ) (m : Outcome h.Table)
      → elim m [
        | proceed t ↦ read_headers h at_lf (i + 1) (b'\n' ∷ r) t
        | answer t ↦ answer t
        | body t ↦ body t
        | fault ↦ fault
      ]
        ≡ (m >=> read_headers h (in_key []) (i + 2) r)
  unfolding read_headers step_byte
  past_lf r i (proceed t) = ap (λ n. read_headers h (in_key []) n r t) (omega arith)
  past_lf r i (answer t) = refl
  past_lf r i (body t) = refl
  past_lf r i fault = refl

  -- At the end of the line the field is stored, and the loop passes over LF.
  after_field :
      (k v r : Bytes) (i : ℕ) (s : Request h.Table)
      → read_headers h (in_value k v) i (b'\r' ∷ b'\n' ∷ r) s
        ≡ (end_field h k v s >=> read_headers h (in_key []) (i + 2) r)
  unfolding read_headers step_byte
  after_field k v r i s = past_lf r i (end_field h k v s)

  -- From a value that has begun to the end of its line.
  read_rest :
      (k : Bytes) (x : ℕ) (v w r : Bytes) (i : ℕ) (s : Request h.Table)
      → all_bytes is_value w ≡ true
      → read_headers h (in_value k (x ∷ v)) i (w ++ b'\r' ∷ b'\n' ∷ r) s
        ≡ (end_field h k (x ∷ v ++ w) s >=> read_headers h (in_key []) (i + length w + 2) r)
  read_rest k x v [] r i s t =
      after_field k (x ∷ v) r i s
      ∙ ap (λ y. end_field h k (x ∷ y) s >=> read_headers h (in_key []) (i + 2) r)
          (sym (append-nil v))
      ∙ ap (λ n. end_field h k (x ∷ v ++ []) s >=> read_headers h (in_key []) n r) (omega arith)
  read_rest k x v (c ∷ w) r i s t =
      let next : i + 1 + length w + 2 ≡ i + suc (length w) + 2 = omega arith in
      read_next (in_value k (x ∷ v)) (in_value k (x ∷ v ++ c ∷ [])) i c (w ++ b'\r' ∷ b'\n' ∷ r) s
        (step_value k (x ∷ v) c (w ++ b'\r' ∷ b'\n' ∷ r) s (ground arith))
      ∙ read_rest k x (v ++ c ∷ []) w r (i + 1) s (ground arith)
      ∙ ap (λ y. end_field h k (x ∷ y) s >=> read_headers h (in_key []) (i + 1 + length w + 2) r)
          (append_assoc v (c ∷ []) w)
      ∙ ap (λ n. end_field h k (x ∷ v ++ c ∷ w) s >=> read_headers h (in_key []) n r) next

  -- A value from its first byte on, which is no white space.
  read_value :
      (k w r : Bytes) (i : ℕ) (s : Request h.Table)
      → all_bytes is_value w ≡ true
      → begins_black w ≡ true
      → read_headers h (in_value k []) i (w ++ b'\r' ∷ b'\n' ∷ r) s
        ≡ (end_field h k w s >=> read_headers h (in_key []) (i + length w + 2) r)
  read_value k [] r i s t b =
      after_field k [] r i s
      ∙ ap (λ n. end_field h k [] s >=> read_headers h (in_key []) n r) (omega arith)
  read_value k (c ∷ w) r i s t b =
      let next : i + 1 + length w + 2 ≡ i + suc (length w) + 2 = omega arith in
      let black : is_ws c ≡ false = ground arith in
      let begun : value_from [] c ≡ c ∷ [] = rw black refl in
      read_next (in_value k []) (in_value k (c ∷ [])) i c (w ++ b'\r' ∷ b'\n' ∷ r) s (
        step_value k [] c (w ++ b'\r' ∷ b'\n' ∷ r) s (ground arith)
        ∙ ap (λ v. (proceed s, some (in_value k v))) begun)
      ∙ read_rest k c [] w r (i + 1) s (ground arith)
      ∙ ap (λ n. end_field h k (c ∷ w) s >=> read_headers h (in_key []) n r) next

  step_blank :
      (k rest : Bytes) (s : Request h.Table)
      → step_byte h (in_value k []) b' ' rest s ≡ (proceed s, some (in_value k []))
  unfolding step_byte value_byte
  step_blank k rest s = refl

  -- A whole line.
  read_line_lem :
      (l : Line) (r : Bytes) (i : ℕ) (s : Request h.Table)
      → all_bytes is_token l.name ≡ true
      → all_bytes is_value l.value ≡ true
      → begins_black l.value ≡ true
      → read_headers h (in_key []) i (render_line l ++ r) s ≡ (
          end_field h l.name l.value s
          >=> read_headers h (in_key []) (i + length (render_line l)) r)
  read_line_lem l r i s t v b =
      let crlf : Bytes = b'\r' ∷ b'\n' ∷ [] in
      let after : Bytes = l.value ++ b'\r' ∷ b'\n' ∷ r in
      let shape : render_line l ++ r ≡ l.name ++ b':' ∷ b' ' ∷ after =
        append_assoc l.name (b':' ∷ b' ' ∷ (l.value ++ crlf)) r
        ∙ ap (λ y. l.name ++ b':' ∷ b' ' ∷ y) (append_assoc l.value crlf r) in
      let len : i + length l.name + 1 + 1 + length l.value + 2 ≡ i + length (render_line l) =
        omega (
          arith,
          length-append l.name (b':' ∷ b' ' ∷ (l.value ++ crlf)),
          length-append l.value crlf,
        ) in
      ap (λ y. read_headers h (in_key []) i y s) shape
      ∙ read_key [] l.name (b' ' ∷ after) i s t
      ∙ read_next (in_value l.name []) (in_value l.name []) (i + length l.name + 1) b' ' after s
          (step_blank l.name after s)
      ∙ read_value l.name l.value r (i + length l.name + 1 + 1) s v b
      ∙ ap (λ n. end_field h l.name l.value s >=> read_headers h (in_key []) n r) len

  then-congr :
      (m : Outcome h.Table) (f g : Request h.Table → Outcome h.Table)
      → ((t : Request h.Table) → f t ≡ g t)
      → (m >=> f) ≡ (m >=> g)
  then-congr (proceed t) f g e = e t
  then-congr (answer t) f g e = refl
  then-congr (body t) f g e = refl
  then-congr fault f g e = refl

  then_assoc :
      (m : Outcome h.Table) (f g : Request h.Table → Outcome h.Table)
      → (m >=> (λ t. f t >=> g)) ≡ (m >=> f >=> g)
  then_assoc (proceed t) f g = refl
  then_assoc (answer t) f g = refl
  then_assoc (body t) f g = refl
  then_assoc fault f g = refl

  abbrev pub at_end : ℕ → Request h.Table → Outcome h.Table
  at_end n t = proceed (record t { header_len = n })

  empty_line :
      (rest : Bytes) (i : ℕ) (s : Request h.Table)
      → read_headers h (in_key []) i (b'\r' ∷ b'\n' ∷ rest) s ≡ at_end (i + 0 + 2) s
  unfolding read_headers step_byte
  empty_line rest i s = ap (λ n. at_end n s) (omega arith)

  -- Header lines that are written as `name: value`, with names of token characters and values of
  -- printable ones that begin with no blank, and an empty line behind them, are read back: the
  -- fields are stored one after the other, with their values trimmed, until one is refused, and
  -- `header_len` counts every byte up to the end of the empty line.
  pub read_headers-render :
      (ls : List Line) (rest : Bytes) (i : ℕ) (s : Request h.Table)
      → AllLines ls
      → read_headers h (in_key []) i (render ls ++ b'\r' ∷ b'\n' ∷ rest) s
        ≡ (end_fields ls s >=> at_end (i + length (render ls) + 2))
  unfolding end_fields
  read_headers-render [] rest i s a = empty_line rest i s
  read_headers-render (l ∷ ls) rest i s a =
      let n : i + length (render_line l) + length (render ls) + 2
          ≡ i + length (render (l ∷ ls)) + 2 =
        omega (arith, length-append (render_line l) (render ls)) in
      ap (λ y. read_headers h (in_key []) i y s)
        (append_assoc (render_line l) (render ls) (b'\r' ∷ b'\n' ∷ rest))
      ∙ read_line_lem l (render ls ++ b'\r' ∷ b'\n' ∷ rest) i s a.0 a.1 a.2
      ∙ then-congr (end_field h l.name l.value s)
          (read_headers h (in_key []) (i + length (render_line l))
            (render ls ++ b'\r' ∷ b'\n' ∷ rest))
          (λ t. end_fields ls t >=> at_end (i + length (render_line l) + length (render ls) + 2))
          (λ t. read_headers-render ls rest (i + length (render_line l)) t a.3)
      ∙ then_assoc (end_field h l.name l.value s) (end_fields ls)
          (at_end (i + length (render_line l) + length (render ls) + 2))
      ∙ ap (λ x. end_field h l.name l.value s >=> end_fields ls >=> at_end x) n
