-- ===== src/Keyvalue/Slots.antt =====
-- The growing arrays of keyvalue.c, `KVB(x)`: a slot is an object of its own that `calloc` clears,
-- and the array of pointers to the slots is enlarged by four. Allocations succeed.
use ylem.Base.{
  ℕ, ◌-◌, ◌*◌, ◌/◌, ◌%◌, ◌^◌, min, ℤ, pos, negsuc, Bytes, Bool, ◌&&◌, Option, none, some, List, [],
  ◌++◌, take, replicate, set, get_elem?, is_null, leb, ◌==◌, if◌then◌else◌, ◌>>=◌,
}
use ylem.Memory.{add_size, Allocator}
use ylem.Buffer.{Buffer, init_string}
use ylem.Keyvalue.{KeyValue}

-- `typedef struct { x **kv; size_t used; size_t size; } x_buffer`; NULL is the empty array.
pub record SlotBuffer (E : Type 0) : Type 0 where
  pub kv : List E
  pub used : ℕ
  pub size : ℕ

-- The number of pointers in an array that is allocated for `size`.
abbrev pub array_length : ℕ → ℕ
array_length size = size * 8 % 2 ^ 64 / 8

module _ {E : Type 0} where
  unfoldable pub empty : SlotBuffer E
  empty = record { kv = []; used = 0; size = 0 }

  -- Both `if`s before a slot is filled; `used` is what the first allocation leaves there.
  unfoldable pub make_room : E → ℕ → SlotBuffer E → Option (SlotBuffer E)
  make_room blank used b =
      if b.size == 0
      then some (record { kv = replicate 4 blank; used = used; size = 4 })
      else if b.used == b.size
      then (let size = add_size b.size 4 in
          if leb size (array_length size)
          then some (record b {
            kv = take (min b.used size) b.kv ++ replicate (size - b.used) blank;
            size = size;
          })
          else none)
      else some b

  -- Fields of `*kv[used]` are assigned.
  unfoldable pub fill : (E → E) → SlotBuffer E → Option (SlotBuffer E)
  fill f b = elim (get_elem? b.kv b.used) [
    | none ↦ none
    | some e ↦ some (record b { kv = set b.kv b.used (f e) })
  ]

  unfoldable pub count_up : SlotBuffer E → SlotBuffer E
  count_up b = record b { used = add_size b.used 1 }

unfoldable pub keyvalue_buffer_append :
    SlotBuffer KeyValue → ℤ → Bytes → Option (SlotBuffer KeyValue)
keyvalue_buffer_append kvb key value = do
  b ← make_room (record { key = pos 0; value = none }) kvb.used kvb
  c ← fill (λ e. record e { key = key; value = some value }) b
  some (count_up c)

pub record SKeyValue : Type 0 where
  pub key : Option Bytes
  pub value : Option Bytes

unfoldable pub s_keyvalue_buffer_append :
    SlotBuffer SKeyValue → Option Bytes → Bytes → Option (SlotBuffer SKeyValue)
s_keyvalue_buffer_append kvb key value = do
  b ← make_room (record { key = none; value = none }) 0 kvb
  c ← fill (λ e. record e { key = key; value = some value }) b
  some (count_up c)

pub data HttpauthType : Type 0 where
  auth_basic auth_digest : HttpauthType

pub record HttpauthKeyValue : Type 0 where
  pub key : Option Bytes
  pub realm : Option Bytes
  pub type : HttpauthType

unfoldable pub httpauth_keyvalue_buffer_append :
    SlotBuffer HttpauthKeyValue
    → Bytes
    → Bytes
    → HttpauthType
    → Option (SlotBuffer HttpauthKeyValue)
httpauth_keyvalue_buffer_append kvb key realm type = do
  b ← make_room (record { key = none; realm = none; type = auth_basic }) kvb.used kvb
  c ← fill (λ e. record e { key = some key; realm = some realm; type = type }) b
  some (count_up c)

-- The expressions of the library pcre and what a study of one adds.
pub record PcreKeyValue (P X : Type 0) : Type 0 where
  pub key : Option P
  pub key_extra : Option X
  pub value : Option Buffer

-- `pcre_compile` returns NULL on a bad expression; `pcre_study` returns NULL also when it finds
-- nothing to add, and sets `errptr` on an error only.
module _ {P X : Type 0} (a : Allocator) (compile : Bytes → Option P)
    (study : P → Option X × Bool) where
  -- From the slot on that holds the compiled expression `p`.
  unfoldable pub study_key :
      P → Bytes → SlotBuffer (PcreKeyValue P X) → Option (SlotBuffer (PcreKeyValue P X) × ℤ)
  study_key p value b =
      let (extra, err) = study p in
      if is_null extra && err
      then fill (λ e. record e { key = some p; key_extra = extra }) b >>= (λ c. some (c, negsuc 0))
      else do
        v ← init_string a (some value)
        c ← fill (λ e. record e { key = some p; key_extra = extra; value = some v }) b
        some (count_up c, pos 0)

  unfoldable pub pcre_keyvalue_buffer_append :
      SlotBuffer (PcreKeyValue P X)
      → Option Bytes
      → Bytes
      → Option (SlotBuffer (PcreKeyValue P X) × ℤ)
  pcre_keyvalue_buffer_append kvb none value = some (kvb, negsuc 0)
  pcre_keyvalue_buffer_append kvb (some key) value = do
    b ← make_room (record { key = none; key_extra = none; value = none }) 0 kvb
    elim (compile key) [
      | none ↦ fill (λ e. record e { key = none }) b >>= λ c. some (c, negsuc 0)
      | some p ↦ study_key p value b
    ]
