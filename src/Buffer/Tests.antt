-- ===== src/Buffer/Tests.antt =====
-- Runs of the buffer operations, and their theorems at concrete buffers.
use ylem.Base.{◌≡◌, refl, inr, some, [], ◌∷◌, ◌++◌, take, arith, codes}
use ylem.Memory.Samples.{plain}
use ylem.Buffer.{
  Buffer, init, append_string_len, append_string_buffer, copy_string_buffer, prepare_append,
}
use ylem.Buffer.Inv.{IsValid, Holds}
use ylem.Buffer.Append.{Yields, append_string_len-Yields, append_string_buffer-Yields}
use ylem.Buffer.Copy.{copy_string_buffer-Yields}

-- "ab" in a buffer of four bytes.
abbrev ab : Buffer
ab = record { ptr = codes "ab" ++ 0 ∷ 170 ∷ []; used = 3; size = 4 }

ab-IsValid : IsValid ab
ab-IsValid = omega arith

ab-Holds : Holds ab (codes "ab")
ab-Holds = inr (refl, refl)

first_append : take 4 (prepare_append plain init 3).ptr ≡ 170 ∷ 170 ∷ 170 ∷ 170 ∷ []
unfolding prepare_append init
first_append = refl

append_string_len-Yields_example :
    Yields (append_string_len plain ab (some (codes "cde"))) (codes "abcde")
append_string_len-Yields_example =
    append_string_len-Yields plain ab (codes "ab") (codes "cde") ab-IsValid ab-Holds (omega arith)

append_string_buffer-Yields_example :
    Yields (append_string_buffer plain ab (some ab)) (codes "abab")
append_string_buffer-Yields_example =
    append_string_buffer-Yields plain ab ab (codes "ab") (codes "ab") ab-IsValid ab-Holds ab-Holds
      (omega arith)

copy_string_buffer-Yields_example : Yields (copy_string_buffer plain init (some ab)) (codes "ab")
unfolding init
copy_string_buffer-Yields_example =
    copy_string_buffer-Yields plain init ab (codes "ab") (omega arith) ab-Holds (omega arith)
