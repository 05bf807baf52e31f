-- ===== src/Buffer.antt =====
-- The growing string buffer of storage/src/lighttpd/src/buffer.c: `prepare_*`, `copy_*`, `append_*`
-- and `reset`. A buffer is passed by reference and never NULL; a NULL source is `none`. Each
-- operation returns the new buffer and its return code, or faults on a write outside the storage.
-- `free` of the storage that is replaced is not modelled: no pointer to it is kept.
pub mod Inv
pub mod Copy
pub mod Append
mod Tests
use ylem.Base.{
  ℕ, ◌+◌, ◌-◌, ◌*◌, ◌%◌, Bytes, Bool, ◌||◌, Option, none, some, [], ◌∷◌, ◌++◌, length, take,
  replicate, ltb, ◌==◌, if◌then◌else◌, ◌>>=◌,
}
use ylem.Memory.{add_size, Allocator, memcpy_at}

-- `typedef struct { char *ptr; size_t used; size_t size; } buffer`; NULL is the empty list.
pub record Buffer : Type 0 where
  pub ptr : Bytes
  pub used : ℕ
  pub size : ℕ

-- The return codes 0 and -1.
pub data Code : Type 0 where
  ok failed : Code

abbrev pub Out : Type 0
Out = Option (Buffer × Code)

unfoldable pub init : Buffer
init = record { ptr = []; used = 0; size = 0 }

-- BUFFER_MAX_REUSE_SIZE
abbrev pub max_reuse_size : ℕ
max_reuse_size = 4 * 1024

unfoldable pub reset : Buffer → Buffer
reset b =
    if ltb max_reuse_size b.size
    then record { ptr = []; used = 0; size = 0 }
    else record b { used = 0 }

-- BUFFER_PIECE_SIZE
abbrev pub piece_size : ℕ
piece_size = 64

-- The storage that is allocated for `n` bytes: "always allocate a multiply of BUFFER_PIECE_SIZE".
abbrev pub round_up : ℕ → ℕ
round_up n = add_size n (piece_size - n % piece_size)

-- `b->used++` on an empty buffer makes room for the terminator.
abbrev pub open_used : ℕ → ℕ
open_used used = if used == 0 then 1 else used

-- `s` and a terminator behind what is in use, the storage being large enough.
unfoldable pub put_bytes : Buffer → Bytes → Out
put_bytes c s = do
  let used = open_used c.used
  p ← memcpy_at c.ptr (used - 1) s
  let end = add_size used (length s)
  q ← memcpy_at p (end - 1) (0 ∷ [])
  some (record c { ptr = q; used = end }, ok)

-- The same for a C string, whose own terminator is copied.
unfoldable pub put_string : Buffer → Bytes → Out
put_string c s = do
  let used = open_used c.used
  p ← memcpy_at c.ptr (used - 1) (s ++ 0 ∷ [])
  some (record c { ptr = p; used = add_size used (length s) }, ok)

module _ (a : Allocator) where
  unfoldable pub prepare_copy : Buffer → ℕ → Buffer
  prepare_copy b n =
      if b.size == 0 || ltb b.size n
      then record { ptr = a.malloc (round_up n); used = 0; size = round_up n }
      else record b { used = 0 }

  unfoldable pub prepare_append : Buffer → ℕ → Buffer
  prepare_append b n =
      if b.size == 0
      then record { ptr = a.malloc (round_up n); used = 0; size = round_up n }
      else if ltb b.size (add_size b.used n)
      then record b {
        ptr = a.realloc b.ptr (round_up (add_size b.size n));
        size = round_up (add_size b.size n);
      }
      else b

  -- A C string is read up to its terminator, which is copied too.
  pub copy_string : Buffer → Option Bytes → Out
  copy_string b none = some (b, failed)
  copy_string b (some s) = do
    let n = add_size (length s) 1
    let c = prepare_copy b n
    p ← memcpy_at c.ptr 0 (s ++ 0 ∷ [])
    some (record c { ptr = p; used = n }, ok)

  unfoldable pub init_string : Option Bytes → Option Buffer
  init_string str = copy_string init str >>= λ r. some r.0

  pub copy_string_len : Buffer → Option Bytes → Out
  copy_string_len b none = some (b, failed)
  copy_string_len b (some s) = do
    let c = prepare_copy b (add_size (length s) 1)
    p ← memcpy_at c.ptr 0 s
    q ← memcpy_at p (length s) (0 ∷ [])
    some (record c { ptr = q; used = add_size (length s) 1 }, ok)

  pub copy_string_buffer : Buffer → Option Buffer → Out
  copy_string_buffer b none = some (b, failed)
  copy_string_buffer b (some src) =
      if src.used == 0
      then some (record b { used = 0 }, ok)
      else copy_string_len b (some (take (src.used - 1) src.ptr))

  pub append_string : Buffer → Option Bytes → Out
  append_string b none = some (b, failed)
  append_string b (some s) = put_string (prepare_append b (add_size (length s) 1)) s

  -- Nothing keeps `s` within `maxlen`; a longer `s` may be written past the storage.
  pub append_string_rfill : Buffer → Option Bytes → ℕ → Out
  append_string_rfill b none maxlen = some (b, failed)
  append_string_rfill b (some s) maxlen = do
    let c = prepare_append b (add_size maxlen 1)
    let used = open_used c.used
    p ← memcpy_at c.ptr (used - 1) s
    q ←
        if ltb (length s) maxlen
        then memcpy_at p (used - 1 + length s) (replicate (maxlen - length s) b' ')
        else some p
    let end = add_size used maxlen
    r ← memcpy_at q (end - 1) (0 ∷ [])
    some (record c { ptr = r; used = end }, ok)

  pub append_string_len : Buffer → Option Bytes → Out
  append_string_len b none = some (b, failed)
  append_string_len b (some s) =
      if length s == 0 then some (b, ok) else put_bytes (prepare_append b (add_size (length s) 1)) s

  pub append_string_buffer : Buffer → Option Buffer → Out
  append_string_buffer b none = some (b, failed)
  append_string_buffer b (some src) =
      if src.used == 0
      then some (b, ok)
      else append_string_len b (some (take (src.used - 1) src.ptr))

  -- Raw bytes, with no terminator.
  pub append_memory : Buffer → Option Bytes → Out
  append_memory b none = some (b, failed)
  append_memory b (some s) = if length s == 0 then some (b, ok) else do
    let c = prepare_append b (length s)
    p ← memcpy_at c.ptr c.used s
    some (record c { ptr = p; used = add_size c.used (length s) }, ok)

  pub copy_memory : Buffer → Option Bytes → Out
  copy_memory b none = some (b, failed)
  copy_memory b (some s) = append_memory (record b { used = 0 }) (some s)
