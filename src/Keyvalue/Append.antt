-- ===== src/Keyvalue/Append.antt =====
-- Appending to the growing arrays of keyvalue.c: one entry is added, and none is lost.
use ylem.Base.{
  ℕ, ◌+◌, ◌-◌, ◌^◌, ◌≤◌, ◌<◌, zero, suc, min, ℤ, pos, Bytes, true, Option, none, some, List, [],
  ◌∷◌, ◌++◌, length, take, replicate, set, get_elem?, leb, ◌==◌, ◌≡◌, refl, ap, ◌∙◌, ◌⊎◌, inl, inr,
  arith, length-append, length-set, take-append_le, take-all, ◌>>=◌, Bool-cases,
}
use ylem.Memory.{add_size}
use ylem.Keyvalue.{KeyValue}
use ylem.Keyvalue.Slots.{
  SlotBuffer, array_length, make_room, fill, count_up, keyvalue_buffer_append, SKeyValue,
  s_keyvalue_buffer_append, HttpauthType, auth_basic, HttpauthKeyValue,
  httpauth_keyvalue_buffer_append,
}

module _ {E : Type 0} where
  -- The array has as many slots as `size` says, and no more are used.
  abbrev pub IsValid : SlotBuffer E → Type 0
  IsValid b = (length b.kv ≡ b.size) × (b.used ≤ b.size)

  -- The next size of the array in bytes is below 2^64.
  abbrev pub IsSmall : SlotBuffer E → Type 0
  IsSmall b = b.size + 4 < 2 ^ 61

  abbrev pub entries : SlotBuffer E → List E
  entries b = take b.used b.kv

  -- `c` holds the entries of `b` in slots that are the first of its own.
  abbrev pub Grown : SlotBuffer E → SlotBuffer E → Type 0
  Grown b c = IsValid c × (c.used ≡ b.used) × (entries c ≡ entries b)

  abbrev pub Appended : SlotBuffer E → E → SlotBuffer E → Type 0
  Appended b e c = IsValid c × (c.used ≡ b.used + 1) × (entries c ≡ entries b ++ e ∷ [])

  length-replicate : (n : ℕ) (e : E) → length (replicate n e) ≡ n
  length-replicate zero e = refl
  length-replicate (suc n) e = ap suc (length-replicate n e)

  get_elem?-lt : (xs : List E) (i : ℕ) → i < length xs → (e : E) × (get_elem? xs i ≡ some e)
  get_elem?-lt [] i h = absurd (omega arith)
  get_elem?-lt (x ∷ xs) zero h = (x, refl)
  get_elem?-lt (x ∷ xs) (suc i) h = get_elem?-lt xs i (omega arith)

  take-set : (xs : List E) (i : ℕ) (e : E) → take i (set xs i e) ≡ take i xs
  take-set [] i e = refl
  take-set (x ∷ xs) zero e = refl
  take-set (x ∷ xs) (suc i) e = ap (λ t. x ∷ t) (take-set xs i e)

  take-set-suc :
      (xs : List E) (i : ℕ) (e : E)
      → i < length xs
      → take (suc i) (set xs i e) ≡ take i xs ++ e ∷ []
  take-set-suc [] i e h = absurd (omega arith)
  take-set-suc (x ∷ xs) zero e h = refl
  take-set-suc (x ∷ xs) (suc i) e h = ap (λ t. x ∷ t) (take-set-suc xs i e (omega arith))

  zero-Grown :
      (blank : E) (u : ℕ) (b : SlotBuffer E)
      → IsValid b
      → b.size ≡ 0
      → (u ≡ 0) ⊎ (u ≡ b.used)
      → Grown b (record { kv = replicate 4 blank; used = u; size = 4 })
  zero-Grown blank u b v z first =
      let u0 : u ≡ 0 = ground arith in
      let b0 : b.used ≡ 0 = ground arith in rw (u0, b0) ((refl, omega arith), refl, refl)

  more-Grown :
      (blank : E) (b : SlotBuffer E)
      → IsValid b
      → b.used ≡ b.size
      → Grown b (record b {
        kv = take (min b.used (b.size + 4)) b.kv ++ replicate (b.size + 4 - b.used) blank;
        size = b.size + 4;
      })
  more-Grown blank b v full =
      let all : take (min b.used (b.size + 4)) b.kv ≡ b.kv =
        take-all (min b.used (b.size + 4)) b.kv (omega arith) in
      rw all (
        (
          omega (
            arith,
            length-append b.kv (replicate (b.size + 4 - b.used) blank),
            length-replicate (b.size + 4 - b.used) blank,
          ),
          omega arith,
        ),
        refl,
        take-append_le b.used b.kv (replicate (b.size + 4 - b.used) blank) (omega arith),
      )

  -- Both ways to make room succeed, keep the entries and leave a slot free.
  pub make_room_lem :
      (blank : E) (u : ℕ) (b : SlotBuffer E)
      → IsValid b
      → IsSmall b
      → (u ≡ 0) ⊎ (u ≡ b.used)
      → (c : SlotBuffer E) × (make_room blank u b ≡ some c) × Grown b c × (c.used < c.size)
  unfolding make_room
  make_room_lem blank u b v small first = elim (Bool-cases (b.size == 0)) [
    | inl z ↦
        let g = zero-Grown blank u b v (ground arith) first in
        rw z (record { kv = replicate 4 blank; used = u; size = 4 }, refl, g, ground arith)
    | inr z ↦ elim (Bool-cases (b.used == b.size)) [
      | inl full ↦
          let next : add_size b.size 4 ≡ b.size + 4 = omega arith in
          let same : array_length (b.size + 4) ≡ b.size + 4 = omega arith in
          let le : leb (b.size + 4) (b.size + 4) ≡ true = ground arith in
          rw (z, full, next, same, le)
            (
              record b {
                kv = take (min b.used (b.size + 4)) b.kv ++ replicate (b.size + 4 - b.used) blank;
                size = b.size + 4;
              },
              refl,
              more-Grown blank b v (ground arith),
              ground arith,
            )
      | inr free ↦ rw (z, free) (b, refl, (v, refl, refl), ground arith)
    ]
  ]

  -- A filled slot behind the entries is not one of them until it is counted.
  pub fill_lem :
      (f : E → E) (b : SlotBuffer E)
      → IsValid b
      → b.used < b.size
      → (e : E) × (fill f b ≡ some (record b { kv = set b.kv b.used (f e) }))
  unfolding fill
  fill_lem f b v h = let (e, at) = get_elem?-lt b.kv b.used (omega arith) in rw (at, fill) (e, refl)

  pub filled-Grown :
      (b : SlotBuffer E) (e : E) → IsValid b → Grown b (record b { kv = set b.kv b.used e })
  filled-Grown b e v = rw (length-set b.kv b.used e) (v, refl, take-set b.kv b.used e)

  pub filled-Appended :
      (b : SlotBuffer E) (e : E)
      → IsValid b
      → b.used < b.size
      → b.used + 1 < 2 ^ 64
      → Appended b e (count_up (record b { kv = set b.kv b.used e }))
  unfolding count_up
  filled-Appended b e v h small =
      let up : add_size b.used 1 ≡ suc b.used = omega arith in
      rw (up, length-set b.kv b.used e)
        ((v.0, omega arith), omega arith, take-set-suc b.kv b.used e (omega arith))

  pub Grown-Appended :
      (b c d : SlotBuffer E) (x e : E) → Grown b c → x ≡ e → Appended c x d → Appended b e d
  Grown-Appended b c d x e g same done = (
    done.0,
    omega (arith, done.1, g.1),
    done.2 ∙ ap (λ y. entries c ++ y ∷ []) same ∙ ap (λ y. y ++ e ∷ []) g.2,
  )

  -- The shape of the four functions, where every field of the slot is assigned.
  append_slot_lem :
      (blank : E) (u : ℕ) (f : E → E) (new : E) (b : SlotBuffer E)
      → ((e : E) → f e ≡ new)
      → IsValid b
      → IsSmall b
      → (u ≡ 0) ⊎ (u ≡ b.used)
      → (c : SlotBuffer E) × ((make_room blank u b >>= λ x. fill f x >>= λ y. some (count_up y))
          ≡ some c)
        × Appended b new c
  append_slot_lem blank u f new b const v small first =
      let (c, made, grown, room) = make_room_lem blank u b v small first in
      let (e, filled) = fill_lem f c grown.0 room in
      let done = filled-Appended c (f e) grown.0 room (omega (arith, grown.1)) in
      rw (made, filled)
        (
          count_up (record c { kv = set c.kv c.used (f e) }),
          refl,
          Grown-Appended b c (count_up (record c { kv = set c.kv c.used (f e) })) (f e) new grown
              (const e) done,
        )

-- For a valid array whose next size in bytes is below 2^64, `keyvalue_buffer_append` returns,
-- leaves a valid array and adds the entry behind the old ones, in their order.
pub keyvalue_buffer_append_lem :
    (b : SlotBuffer KeyValue) (k : ℤ) (s : Bytes)
    → IsValid b
    → IsSmall b
    → (c : SlotBuffer KeyValue) × (keyvalue_buffer_append b k s ≡ some c)
      × Appended b (record { key = k; value = some s }) c
unfolding keyvalue_buffer_append
keyvalue_buffer_append_lem b k s v small =
    append_slot_lem (record { key = pos 0; value = none }) b.used
      (λ e. record e { key = k; value = some s }) (record { key = k; value = some s }) b (λ e. refl)
      v small (inr refl)

-- The same for `s_keyvalue_buffer_append`, whose key may be NULL.
pub s_keyvalue_buffer_append_lem :
    (b : SlotBuffer SKeyValue) (k : Option Bytes) (s : Bytes)
    → IsValid b
    → IsSmall b
    → (c : SlotBuffer SKeyValue) × (s_keyvalue_buffer_append b k s ≡ some c)
      × Appended b (record { key = k; value = some s }) c
unfolding s_keyvalue_buffer_append
s_keyvalue_buffer_append_lem b k s v small =
    append_slot_lem (record { key = none; value = none }) 0
      (λ e. record e { key = k; value = some s }) (record { key = k; value = some s }) b (λ e. refl)
      v small (inl refl)

-- The same for `httpauth_keyvalue_buffer_append`.
pub httpauth_keyvalue_buffer_append_lem :
    (b : SlotBuffer HttpauthKeyValue) (k r : Bytes) (t : HttpauthType)
    → IsValid b
    → IsSmall b
    → (c : SlotBuffer HttpauthKeyValue) × (httpauth_keyvalue_buffer_append b k r t ≡ some c)
      × Appended b (record { key = some k; realm = some r; type = t }) c
unfolding httpauth_keyvalue_buffer_append
httpauth_keyvalue_buffer_append_lem b k r t v small =
    append_slot_lem (record { key = none; realm = none; type = auth_basic }) b.used
      (λ e. record e { key = some k; realm = some r; type = t })
      (record { key = some k; realm = some r; type = t }) b (λ e. refl) v small (inr refl)
