-- ===== src/Letters.antt =====
-- Classes of characters and case folding: the `light_is*` functions, `buffer_to_lower` and
-- `buffer_to_upper` of storage/src/lighttpd/src/buffer.c, on bytes and on non-negative `int`s.
pub mod Fold
mod Tests
use ylem.Base.{
  ℕ, ◌+◌, ◌-◌, Bytes, Bool, true, false, ◌&&◌, ◌||◌, Option, none, some, [], ◌∷◌, ◌==◌, leb,
  if◌then◌else◌, ◌>>=◌,
}
use ylem.Buffer.{Buffer, ok, Out}
use ylem.Compare.{is_upper, is_lower}
use ylem.Encoding.{set_bit_5}

unfoldable pub light_isdigit : ℕ → Bool
light_isdigit c = leb b'0' c && leb c b'9'

unfoldable pub light_isxdigit : ℕ → Bool
unfolding light_isdigit
light_isxdigit c = light_isdigit c || leb b'a' (set_bit_5 c) && leb (set_bit_5 c) b'f'

unfoldable pub light_isalpha : ℕ → Bool
light_isalpha c = leb b'a' (set_bit_5 c) && leb (set_bit_5 c) b'z'

unfoldable pub light_isalnum : ℕ → Bool
unfolding light_isdigit light_isalpha
light_isalnum c = light_isdigit c || light_isalpha c

-- `*c |= 32` on a capital letter.
abbrev pub lower : ℕ → ℕ
lower c = if is_upper c then c + 32 else c

-- `*c &= ~32` on a small letter.
abbrev pub upper : ℕ → ℕ
upper c = if is_lower c then c - 32 else c

-- The loop of both functions, up to the terminator.
unfoldable pub change_from : (ℕ → ℕ) → Bytes → Option Bytes
change_from f [] = none
change_from f (c ∷ cs) = elim (c == 0) [
  | true ↦ some (c ∷ cs)
  | false ↦ change_from f cs >>= λ rest. some (f c ∷ rest)
]

unfoldable pub change_case : (ℕ → ℕ) → Buffer → Out
change_case f b =
    if b.used == 0
    then some (b, ok)
    else (change_from f b.ptr >>= λ p. some (record b { ptr = p }, ok))

unfoldable pub to_lower : Buffer → Out
to_lower b = change_case lower b

unfoldable pub to_upper : Buffer → Out
to_upper b = change_case upper b
