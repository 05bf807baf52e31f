-- ===== src/Keyvalue/Expressions.antt =====
-- `pcre_keyvalue_buffer_append` of keyvalue.c on every outcome of the library pcre.
use ylem.Base.{
  ◌+◌, ◌^◌, ◌<◌, ℤ, pos, negsuc, Bytes, Bool, ◌&&◌, Option, none, some, length, set, ◌≡◌, refl, ◌∙◌,
  inl, inr, arith, is_null, if◌then◌else◌, ◌>>=◌, Bool-cases,
}
use ylem.Memory.{Allocator}
use ylem.Buffer.{Buffer, init, init_string}
use ylem.Buffer.Inv
use ylem.Buffer.Inv.{Holds}
use ylem.Buffer.Copy.{copy_string-Yields}
use ylem.Keyvalue.Slots.{
  SlotBuffer, fill, count_up, PcreKeyValue, study_key, pcre_keyvalue_buffer_append,
}
use ylem.Keyvalue.Append.{
  IsValid, IsSmall, Grown, Appended, make_room_lem, fill_lem, filled-Grown, filled-Appended,
  Grown-Appended,
}

init-IsValid : ylem.Buffer.Inv.IsValid init
unfolding init
init-IsValid = record { storage = refl; fits = omega arith }

init-IsSmall : (s : Bytes) → length s + 257 < 2 ^ 64 → ylem.Buffer.Inv.IsSmall init (length s + 1)
unfolding init
init-IsSmall s h = omega arith

module _ {P X : Type 0} (a : Allocator) (compile : Bytes → Option P) (study : P → Option X × Bool)
    (b : SlotBuffer (PcreKeyValue P X)) where
  -- -1 is returned, the array is valid and its entries are those of before.
  abbrev pub Refused : Option (SlotBuffer (PcreKeyValue P X) × ℤ) → Type 0
  Refused out = (c : SlotBuffer (PcreKeyValue P X)) × (out ≡ some (c, negsuc 0)) × Grown b c

  -- 0 is returned, the array is valid and one entry more stands behind those of before.
  abbrev pub Accepted : P → Option X → Bytes → Option (SlotBuffer (PcreKeyValue P X) × ℤ) → Type 0
  Accepted p extra value out =
      (c : SlotBuffer (PcreKeyValue P X)) × (out ≡ some (c, pos 0))
      × ((w : Buffer) × Holds w value
          × Appended b (record { key = some p; key_extra = extra; value = some w }) c)

  refuse :
      (c : SlotBuffer (PcreKeyValue P X)) (f : PcreKeyValue P X → PcreKeyValue P X)
      → Grown b c
      → c.used < c.size
      → Refused (fill f c >>= λ d. some (d, negsuc 0))
  refuse c f g room =
      let (e, filled) = fill_lem f c g.0 room in
      let h = filled-Grown c (f e) g.0 in
      rw filled (record c { kv = set c.kv c.used (f e) }, refl, (h.0, h.1 ∙ g.1, h.2 ∙ g.2))

  -- What is expected once the expression is compiled, and for every key.
  abbrev pub Studied : P → Bytes → Option (SlotBuffer (PcreKeyValue P X) × ℤ) → Type 0
  Studied p value out =
      if is_null (study p).0 && (study p).1 then Refused out else Accepted p (study p).0 value out

  abbrev pub Compiled : Option P → Bytes → Option (SlotBuffer (PcreKeyValue P X) × ℤ) → Type 0
  Compiled none value out = Refused out
  Compiled (some p) value out = Studied p value out

  abbrev pub Expected : Option Bytes → Bytes → Option (SlotBuffer (PcreKeyValue P X) × ℤ) → Type 0
  Expected none value out = Refused out
  Expected (some key) value out = Compiled (compile key) value out

  module _ (v : IsValid b) (small : IsSmall b) (value : Bytes)
      (bound : length value + 257 < 2 ^ 64) where
    study_key_lem :
        (p : P) (c : SlotBuffer (PcreKeyValue P X))
        → Grown b c
        → c.used < c.size
        → Studied p value (study_key a compile study p value c)
    unfolding study_key init_string
    study_key_lem p c g room = elim (Bool-cases (is_null (study p).0 && (study p).1)) [
      | inl bad ↦ rw bad (refuse c (λ e. record e { key = some p; key_extra = (study p).0 }) g room)
      | inr good ↦
          let y = copy_string-Yields a init value init-IsValid (init-IsSmall value bound) in
          let f : PcreKeyValue P X → PcreKeyValue P X =
            λ e. record e { key = some p; key_extra = (study p).0; value = some y.0 } in
          let (e, filled) = fill_lem f c g.0 room in
          let done = filled-Appended c (f e) g.0 room (omega (arith, g.1)) in
          rw (good, y.1, filled)
            (
              count_up (record c { kv = set c.kv c.used (f e) }),
              refl,
              (
                y.0,
                y.3,
                Grown-Appended b c (count_up (record c { kv = set c.kv c.used (f e) })) (f e) (f e)
                    g refl done,
              ),
            )
    ]

    compiled_lem :
        (p : Option P) (c : SlotBuffer (PcreKeyValue P X))
        → Grown b c
        → c.used < c.size
        → Compiled p value (elim p [
          | none ↦ fill (λ e. record e { key = none }) c >>= λ d. some (d, negsuc 0)
          | some p ↦ study_key a compile study p value c
        ])
    compiled_lem none c g room = refuse c (λ e. record e { key = none }) g room
    compiled_lem (some p) c g room = study_key_lem p c g room

    -- On every outcome of the library, from a valid array: a NULL key, a bad expression and a failed
    -- study are refused with -1, the array stays valid and its entries are those of before; an
    -- expression that compiles and can be studied is appended with a buffer that holds the value.
    pub pcre_keyvalue_buffer_append_lem :
        (key : Option Bytes)
        → Expected key value (pcre_keyvalue_buffer_append a compile study b key value)
    unfolding pcre_keyvalue_buffer_append
    pcre_keyvalue_buffer_append_lem none = (b, refl, (v, refl, refl))
    pcre_keyvalue_buffer_append_lem (some key) =
        let (c, made, g, room) =
          make_room_lem (record { key = none; key_extra = none; value = none }) 0 b v small
            (inl refl) in
        rw made (compiled_lem (compile key) c g room)
