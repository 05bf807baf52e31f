-- ===== src/Path.antt =====
-- `buffer_path_simplify` of storage/src/lighttpd/src/buffer.c. The destination from `start` to `out` is
-- kept last byte first and cut at `slash`: `before` are the bytes from `start` to `slash`, `token`
-- those from `slash` to `out`. `out++` takes in the byte that stands at `out`. Every write follows the
-- read of its position, so that the result in place is the same. Pointer differences are below 2 ^ 31.
pub mod Segments
pub mod Token
pub mod Correct
pub mod Proper
mod Tests
use ylem.Base.{
  ℕ, ◌+◌, ◌*◌, ◌%◌, Bytes, Bool, true, false, ◌&&◌, ◌||◌, [], ◌∷◌, ◌++◌, reverse, length, ltb, ◌==◌,
  if◌then◌else◌,
}

-- `(pre << 8) | c` in an unsigned short, where `c` is a signed char.
unfoldable pub push_pre : ℕ → ℕ → ℕ
push_pre pre c = if ltb c 128 then pre % 256 * 256 + c else 0xff00 + c

-- `pre = c`
unfoldable pub set_pre : ℕ → ℕ
set_pre c = if ltb c 128 then c else 0xff00 + c

-- The first byte of a token: the byte at `slash`.
abbrev pub bottom : Bytes → ℕ
bottom [] = 0
bottom (x ∷ []) = x
bottom (x ∷ y ∷ ys) = bottom (y ∷ ys)

-- `if (out > start) { out--; while (out > start && *out != '/') out--; }`, with the byte at `out`.
unfoldable pub back_up : Bytes → ℕ → Bytes × ℕ
back_up [] here = ([], here)
back_up (x ∷ []) here = ([], x)
back_up (x ∷ y ∷ ys) here = elim (x == b'/') [ true ↦ (y ∷ ys, x) | false ↦ back_up (y ∷ ys) x ]

-- What `c == '/' || c == '\0'` does with the token: the bytes before the new `slash`.
unfoldable pub close_token : ℕ → Bytes → Bytes → ℕ → Bytes
close_token c before token pre =
    if length token == 3 && pre == 0x2e2e
    then (let (shorter, here) = back_up before (bottom token) in
        if c == 0 then here ∷ shorter else shorter)
    else if length token == 1 || pre == 0x2f2e
    then (if c == 0 then bottom token ∷ before else before)
    else token ++ before

-- `while (1)`, at the input from `c` on.
unfoldable pub simplify_from : Bytes → Bytes → ℕ → Bytes → Bytes
simplify_from before token pre [] = before
simplify_from before token pre (c ∷ rest) = elim (c == 0) [
  | true ↦ close_token c before token pre
  | false ↦ elim (c == b'/') [
    | true ↦ simplify_from (close_token c before token pre) (c ∷ []) (push_pre pre c) rest
    | false ↦ simplify_from before (c ∷ token) (push_pre pre c) rest
  ]
]

unfoldable pub skip_spaces : Bytes → Bytes
skip_spaces [] = []
skip_spaces (c ∷ cs) = elim (c == b' ') [ true ↦ skip_spaces cs | false ↦ c ∷ cs ]

-- From the first byte `pre1` on.
unfoldable pub simplify_start : Bytes → Bytes
unfolding set_pre
simplify_start [] = []
simplify_start (pre1 ∷ rest) =
    if pre1 == 0
    then b'/' ∷ 0 ∷ []
    else if pre1 == b'/'
    then reverse (simplify_from [] (b'/' ∷ []) (set_pre pre1) rest)
    else reverse (simplify_from [] (pre1 ∷ b'/' ∷ []) (push_pre b'/' pre1) rest)

-- The content of the destination for a C string: its `used - 1` bytes.
unfoldable pub path_simplify : Bytes → Bytes
unfolding simplify_start skip_spaces
path_simplify src = simplify_start (skip_spaces (src ++ 0 ∷ []))
