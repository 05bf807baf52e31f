-- ===== src/Range/Cut.antt =====
-- A range that was parsed and cut stands in the file.
use ylem.Base.{
  ℕ, ◌+◌, ◌-◌, ◌^◌, ◌≤◌, ◌<◌, ◌≡◌, ◌⊎◌, inl, inr, Bytes, Bool, false, some, [], ◌∷◌, length, arith,
  ◌==◌, Bool-cases, Option-cases,
}
use ylem.Memory.{add_size, slt}
use ylem.Request.Numbers.{strtol}
use ylem.Request.Line.{split_at, no_bytes}
use ylem.Range.{pred, good, after_range, range_ends, parse_one, cut_start, cut_stop}
use ylem.Range.Numbers.{strtol-bound, strtol-forward}

-- What a range that was parsed is known by, before it is cut.
abbrev pub IsRange : ℕ → ℕ → ℕ → Type 0
IsRange size start stop =
    (start < 2 ^ 64)
    × (stop < 2 ^ 64)
    × ((stop ≡ pred size) ⊎ (start < 2 ^ 63) × (slt stop start ≡ false))

-- A range that was cut stands in the file.
pub cut-Inside :
    (size start stop : ℕ)
    → size < 2 ^ 63
    → IsRange size start stop
    → slt (pred size) (cut_start start) ≡ false
    → (cut_start start ≤ cut_stop size stop) × (cut_stop size stop < size)
cut-Inside size start stop small r h = ground arith

after_range-good :
    (x y : ℕ) (t rest : Bytes) (start stop : ℕ) (comma : Bool)
    → after_range x y t ≡ good start stop comma rest
    → (start ≡ x) × (stop ≡ y) × (length rest ≤ length t - 1)
after_range-good x y [] rest start stop comma h = ground arith
after_range-good x y (c ∷ t) rest start stop comma h = ground arith

split_at-length :
    (c : ℕ) (s before after : Bytes)
    → split_at c s ≡ some (before, after)
    → length before + length after + 1 ≡ length s
unfolding split_at
split_at-length c [] before after h = absurd (ground arith)
split_at-length c (d ∷ s) before after h = elim (Bool-cases (d == c)) [
  | inl e ↦ ground arith
  | inr e ↦ elim (Option-cases (split_at c s)) [
    | inl n ↦ absurd (ground arith)
    | inr (p, q) ↦ ground (arith, split_at-length c s p.0 p.1 q)
  ]
]

pub parse_one-good :
    (size : ℕ) (s before after rest : Bytes) (start stop : ℕ) (comma : Bool)
    → split_at b'-' s ≡ some (before, after)
    → parse_one size s before after ≡ good start stop comma rest
    → IsRange size start stop × (length rest + 1 ≤ length s)
unfolding parse_one
parse_one-good size s before after rest start stop comma h e =
    let (small, forward, low) = strtol-bound s before after h in
    let whole = split_at-length b'-' s before after h in
    elim (Bool-cases (no_bytes before)) [
      | inl b ↦ elim (Bool-cases ((strtol s).0 == 0)) [
        | inl z ↦ absurd (ground arith)
        | inr z ↦
            let r =
              after_range-good (add_size size (strtol s).0) (pred size) (strtol s).1 rest start stop
                comma (rw (parse_one, b, z) at e) in
            (ground arith, omega (arith, r, forward, whole))
      ]
      | inr b ↦ elim (Bool-cases (length (strtol s).1 == length after + 1)) [
        | inl l ↦
            let here : (strtol s).0 < 2 ^ 63 = ground arith in
            elim (Bool-cases (range_ends after)) [
              | inl a ↦
                  let r =
                    after_range-good (strtol s).0 (pred size) after rest start stop comma
                      (rw (parse_one, b, a, l) at e) in
                  (ground arith, omega (arith, r, whole))
              | inr a ↦ elim (Bool-cases (slt (strtol after).0 (strtol s).0)) [
                | inl w ↦ absurd (ground arith)
                | inr w ↦
                    let (small', forward') = strtol-forward after in
                    let r =
                      after_range-good (strtol s).0 (strtol after).0 (strtol after).1 rest start
                        stop comma (rw (parse_one, b, a, l, w) at e) in
                    (
                      (omega (arith, r), omega (arith, r), inr (omega (arith, r), rw (r.1, r.0) w)),
                      omega (arith, r, forward', whole),
                    )
              ]
            ]
        | inr l ↦ absurd (ground arith)
      ]
    ]
