-- ===== src/Request/Headers.antt =====
-- The header lines in `http_request_parse` of request.c, as a machine over bytes. The list ends with
-- the terminator of the buffer.
pub mod Trip
use ylem.Base.{
  ℕ, ◌+◌, ◌-◌, Bytes, Bool, true, false, not, ◌&&◌, ◌||◌, Option, none, some, List, [], ◌∷◌, ◌++◌,
  ◌==◌, if◌then◌else◌, is_null, codes, drop, ltb, length,
}
use ylem.Request.{
  Request, Outcome, proceed, answer, body, fault, refuse, refuse_both, HeaderArray, ◌>=>◌,
}
use ylem.Request.Split.{is_ws, trim_end}
use ylem.Request.Line.{lf_next}
use ylem.Request.Field.{add_field, has_char, known_fields, field_of, move_value}

-- `is_key` with the text from `first` on; the text from `value` on, with the key of a new field or
-- in a folded line; LF behind a CR, which the loop passes over by `i++`.
pub data Mode : Type 0 where
  in_key : (key : Bytes) → Mode
  in_value : (key value : Bytes) → Mode
  in_folding : (value : Bytes) → Mode
  at_lf : Mode

abbrev pub separators : Bytes
separators = codes "()<>@,;\\\"/[]?={}"

abbrev pub is_ctl : ℕ → Bool
is_ctl c = ltb c 32 || c == 127

-- "skip every thing up to the :": is there a colon behind the white space?
unfoldable pub colon_follows : Bytes → Bool
colon_follows [] = false
colon_follows (c ∷ s) = elim (is_ws c) [ true ↦ colon_follows s | false ↦ c == b':' ]

-- "strip leading WS": of a blank at the beginning, `value` moves behind it.
abbrev pub value_from : Bytes → ℕ → Bytes
value_from [] c = if is_ws c then [] else c ∷ []
value_from (d ∷ v) c = (d ∷ v) ++ c ∷ []

module _ (h : HeaderArray) where
  -- The end of a folded line: its text is appended to the field before, if that was stored.
  unfoldable pub fold_line : Bytes → Request h.Table → Outcome h.Table
  fold_line value s = elim s.key [
    | none ↦ refuse_both 400 s
    | some [] ↦ refuse_both 400 s
    | some (c ∷ k) ↦ elim (h.find s.headers (c ∷ k)) [
      | none ↦ proceed s
      | some old ↦
          let t = record s { headers = h.extend s.headers (c ∷ k) value } in
          proceed (
            if h.moves s.headers (c ∷ k) value
            then move_value (field_of (c ∷ k) known_fields) t
            else t)
    ]
  ]

  unfoldable pub end_field : Bytes → Bytes → Request h.Table → Outcome h.Table
  end_field key value s = add_field h key (trim_end value) (record s { key = some key })

  -- A byte of a key, but not the CR of the empty line; the next mode.
  unfoldable pub key_byte : Bytes → ℕ → Bytes → Request h.Table → Outcome h.Table × Mode
  key_byte key c rest s =
      if c == b':'
      then (proceed s, in_value key [])
      else if has_char c separators
      then (refuse_both 400 s, in_key key)
      else if is_ws c
      then elim key [
        | [] ↦ (proceed s, in_folding (c ∷ []))
        | k ∷ ks ↦
            if colon_follows rest
            then (proceed s, in_key ((k ∷ ks) ++ c ∷ []))
            else (refuse_both 400 s, in_key (k ∷ ks))
      ]
      else if is_ctl c
      then (refuse_both 400 s, in_key key)
      else (proceed s, in_key (key ++ c ∷ []))

  -- A byte of a value that is no CR: a tab is a control character too.
  unfoldable pub value_byte : ℕ → Request h.Table → Outcome h.Table
  value_byte c s = if ltb c 32 then refuse 400 s else proceed s

  -- One byte of the loop, with what follows it. `done` is `none` in place of the next mode.
  unfoldable pub step_byte : Mode → ℕ → Bytes → Request h.Table → Outcome h.Table × Option Mode
  step_byte at_lf c rest s = (proceed s, some (in_key []))
  step_byte (in_key key) c rest s =
      if c == b'\r'
      then (if lf_next rest && length key == 0
          then (proceed s, none)
          else (refuse_both 400 s, none))
      else (let (out, mode) = key_byte key c rest s in (out, some mode))
  step_byte (in_value key value) c rest s =
      if c == b'\r'
      then (if lf_next rest then (end_field key value s, some at_lf) else (refuse_both 400 s, none))
      else (value_byte c s, some (in_value key (value_from value c)))
  step_byte (in_folding value) c rest s =
      if c == b'\r'
      then (if lf_next rest then (fold_line value s, some at_lf) else (refuse_both 400 s, none))
      else (value_byte c s, some (in_folding (value_from value c)))

  -- The loop at the index `i`; behind the empty line, `i` stands behind its LF.
  unfoldable pub read_headers : Mode → ℕ → Bytes → Request h.Table → Outcome h.Table
  read_headers mode i [] s = proceed (record s { header_len = i })
  read_headers mode i (c ∷ rest) s = elim (step_byte mode c rest s).0 [
    | proceed t ↦ elim (step_byte mode c rest s).1 [
      | none ↦ proceed (record t { header_len = i + 2 })
      | some next ↦ read_headers next (i + 1) rest t
    ]
    | answer t ↦ answer t
    | body t ↦ body t
    | fault ↦ fault
  ]
