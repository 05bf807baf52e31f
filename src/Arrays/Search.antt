-- ===== src/Arrays/Search.antt =====
-- The search finds an element where the comparisons lead to it.
use ylem.Base.{
  ℕ, zero, suc, ◌+◌, ◌*◌, ◌/◌, ◌^◌, ◌≤◌, ◌<◌, ◌≡◌, ◌≢◌, refl, ap, ◌∙◌, ◌⊎◌, inl, inr, ℤ, pos,
  negsuc, Bytes, false, some, arith, min, leb, leb→le, ◌==◌, Bool-cases, compare-cases,
}
use ylem.Arrays.Ints.{to_int-small, plus_int-up, plus_int-back, minus_int-down}
use ylem.Arrays.{
  to_int, plus_int, minus_int, Array, found, no_fuel, most_turns, Turn, broken, stop, move, add,
  subtract, compare_at, turn, search, get_index,
}

Turn-cases : (u : Turn) → (u ≡ broken) ⊎ ((n : ℕ) × (u ≡ stop n)) ⊎ ((q : ℤ) × (u ≡ move q))
Turn-cases broken = inl refl
Turn-cases (stop n) = inr (inl (n, refl))
Turn-cases (move q) = inr (inr (q, refl))

-- `pos` is at most `2 * i - 1` away from `t`, or at `t` if `i` is 0.
abbrev Near : ℕ → ℕ → ℤ → Type 0
Near i t (pos p) = (t + min 1 i < p + 2 * i + 1) × (p + min 1 i < t + 2 * i + 1)
Near i t (negsuc m) = t + m + 1 + min 1 i < 2 * i + 1

-- A step of `i`, of which `half` steps may be left.
abbrev Halved : ℕ → ℕ → Type 0
Halved half i = (i ≡ 2 * half) ⊎ (i ≡ 1) × (half ≡ 0)

step_up : (half i t p : ℕ) → Halved half i → p < t → Near i t (pos p) → Near half t (pos (p + i))
step_up half i t p e h near = omega arith

step_down :
    (half i t p : ℕ) → Halved half i → t < p → Near i t (pos p) → Near half t (subtract (pos p) i)
step_down half i t p e h near = ground arith

step_back : (half i t m : ℕ) → Halved half i → Near i t (negsuc m) → Near half t (add (negsuc m) i)
step_back half i t m e near = ground arith

Near-zero : (t : ℕ) (q : ℤ) → Near 0 t q → q ≡ pos t
Near-zero t (pos p) near = ap pos (omega arith)
Near-zero t (negsuc m) near = absurd (omega arith)

pow_pos : (e : ℕ) → 1 ≤ 2 ^ e
pow_pos zero = omega arith
pow_pos (suc e) = omega (arith, pow_pos e)

pow_le : (e d : ℕ) → e ≤ d → 2 ^ e ≤ 2 ^ d
pow_le zero d h = pow_pos d
pow_le (suc e) zero h = absurd (omega arith)
pow_le (suc e) (suc d) h = omega (arith, pow_le e d (omega arith))

module _ {ℓ} {V : Type ℓ} (a : Array V) (key : Bytes) where
  -- The name stands at the position `t`, as the element `ndx`: before it all names are smaller, and
  -- behind it all are larger.
  pub record Placed (t ndx : ℕ) : Type 0 where
    pub inside : t < a.used
    pub here : compare_at a key t ≡ some (ndx, pos 0)
    pub before : (p : ℕ) → p < t → (n : ℕ) × (d : ℕ) × (compare_at a key p ≡ some (n, pos (suc d)))
    pub behind :
        (p : ℕ) → t < p → p < a.used → (n : ℕ) × (d : ℕ) × (compare_at a key p ≡ some (n, negsuc d))

  module _ (t ndx : ℕ) (h : Placed t ndx) (fits : a.used ≤ 2 ^ 30) where
    used_int : to_int a.used ≡ pos a.used
    used_int = to_int-small a.used (omega arith)

    -- From `2 * half` steps away, a turn stops at `t` or comes to within `half` steps.
    turn-Near :
        (half i : ℕ) (p : ℤ)
        → i ≤ 2 ^ 29
        → Halved half i
        → Near i t p
        → (turn a key (pos i) p ≡ stop ndx)
          ⊎ ((q : ℤ) × (turn a key (pos i) p ≡ move q) × Near half t q)
    unfolding turn
    turn-Near half i (negsuc m) b e near =
        let sum = plus_int-back m i (omega arith) (omega arith) in
        inr (add (negsuc m) i, ap move sum, step_back half i t m e near)
    turn-Near half i (pos p) b e near =
        let inside = h.inside in
        let down : minus_int (pos p) (pos i) ≡ subtract (pos p) i =
          minus_int-down p i (omega arith) (omega arith) in
        elim (Bool-cases (leb a.used p)) [
          | inl le ↦
              let past : t < p = omega (arith, leb→le a.used p le, h.inside) in
              inr (
                subtract (pos p) i,
                rw (turn, used_int, le, down) refl,
                step_down half i t p e past near,
              )
          | inr gt ↦ elim (compare-cases p t) [
            | inl (_, lt) ↦
                let (n, d, c) = h.before p lt in
                let nonzero : (suc d == 0) ≡ false = ground arith in
                let up : plus_int (pos p) (pos i) ≡ pos (p + i) = plus_int-up p i (omega arith) in
                inr (
                  pos (p + i),
                  rw (turn, used_int, gt, c, nonzero, up) refl,
                  step_up half i t p e lt near,
                )
            | inr (inl (_, eq)) ↦
                let here : compare_at a key p ≡ some (ndx, pos 0) =
                  ap (compare_at a key) eq ∙ h.here in
                inl (rw (turn, used_int, gt, here) refl)
            | inr (inr (_, gt')) ↦
                let (n, d, c) = h.behind p gt' (ground arith) in
                inr (
                  subtract (pos p) i,
                  rw (turn, used_int, gt, c, down) refl,
                  step_down half i t p e gt' near,
                )
          ]
        ]

    search-at : (fuel i : ℕ) → search a key (suc fuel) (pos i) (pos t) ≡ found ndx (pos t)
    unfolding search turn
    search-at fuel i =
        let low : leb a.used t ≡ false = ground (arith, h.inside) in
        rw (search, turn, used_int, low, h.here) refl

    search-here : (fuel i : ℕ) (q : ℤ) → q ≡ pos t → search a key (suc fuel) (pos i) q ≡ found ndx q
    search-here fuel i q e = rw e (search-at fuel i)

    -- From within the reach of the steps that are left, the search ends at `t`.
    search-Near :
        (e fuel : ℕ) (p : ℤ)
        → e ≤ 29
        → e + 2 ≤ fuel
        → Near (2 ^ e) t p
        → (q : ℤ) × (search a key fuel (pos (2 ^ e)) p ≡ found ndx q)
    unfolding search
    search-Near e zero p b f near = absurd (omega arith)
    search-Near zero (suc zero) p b f near = absurd (omega arith)
    search-Near zero (suc (suc fuel)) p b f near =
        elim (turn-Near 0 1 p (omega arith) (inr (refl, refl)) near) [
          | inl stopped ↦ (p, rw (search, stopped) refl)
          | inr (q, moved, near') ↦
              (q, rw (search, moved) (search-here fuel (2 ^ 0 / 2) q (Near-zero t q near')))
        ]
    search-Near (suc e) (suc fuel) p b f near =
        let nonzero : (2 ^ suc e == 0) ≡ false = ground (arith, pow_pos e) in
        let half : 2 ^ suc e / 2 ≡ 2 ^ e = omega arith in
        elim (turn-Near (2 ^ e) (2 ^ suc e) p (pow_le (suc e) 29 b) (inl (omega arith)) near) [
          | inl stopped ↦ (p, rw (search, stopped) refl)
          | inr (q, moved, near') ↦
              let (r, done) = search-Near e fuel q (omega arith) (omega arith) near' in
              (r, rw (search, moved, nonzero, half) done)
        ]

    from_middle :
        (e x : ℕ)
        → x ≡ 2 ^ e
        → a.used ≤ x
        → e ≤ 30
        → (q : ℤ) × (search a key most_turns (pos (x / 2)) (pos (x / 2)) ≡ found ndx q)
    from_middle zero x size fits' small =
        let first : x / 2 ≡ t = omega (arith, h.inside) in (pos t, rw first (search-at 32 t))
    from_middle (suc e) x size fits' small =
        let half : x / 2 ≡ 2 ^ e = omega arith in
        rw half (
          search-Near e most_turns (pos (2 ^ e)) (omega arith) (omega arith)
            (omega (arith, h.inside, pow_pos e)))

  -- `array_get_index` finds the element at any position of an array that is not longer than
  -- `next_power_of_2`, a power of two up to 2 ^ 30, if the comparisons with the names before and
  -- behind it lead to it.
  pub get_index-Placed :
      (t ndx e : ℕ)
      → Placed t ndx
      → a.next_power_of_2 ≡ 2 ^ e
      → a.used ≤ 2 ^ e
      → e ≤ 30
      → (q : ℤ) × (get_index a key ≡ found ndx q)
  unfolding get_index
  get_index-Placed t ndx e h size fits small =
      let most : 2 ^ e ≤ 2 ^ 30 = pow_le e 30 small in
      let middle = to_int-small (a.next_power_of_2 / 2) (omega arith) in
      rw middle (
        from_middle t ndx h (omega arith) e a.next_power_of_2 size (omega (arith, size, fits))
          small)

  search-no_fuel :
      (e fuel i : ℕ) (p : ℤ) → i < 2 ^ e → e < fuel → search a key fuel (pos i) p ≢ no_fuel
  unfolding search
  search-no_fuel e zero i p small enough eq = absurd (omega arith)
  search-no_fuel zero (suc fuel) i p small enough eq = elim (Turn-cases (turn a key (pos i) p)) [
    | inl b ↦ ground arith
    | inr (inl (n, s)) ↦ ground arith
    | inr (inr (q, m)) ↦ ground arith
  ]
  search-no_fuel (suc e) (suc fuel) i p small enough eq = elim (Turn-cases (turn a key (pos i) p)) [
    | inl b ↦ ground arith
    | inr (inl (n, s)) ↦ ground arith
    | inr (inr (q, m)) ↦ ground (arith, search-no_fuel e fuel (i / 2) q (omega arith) (omega arith))
  ]

  -- The loop of `array_get_index` ends within 33 turns, whatever the array holds, if
  -- `next_power_of_2` is below 2 ^ 32, so that its half is an `int`.
  pub get_index-no_fuel : a.next_power_of_2 < 2 ^ 32 → get_index a key ≢ no_fuel
  unfolding get_index
  get_index-no_fuel h =
      let i = a.next_power_of_2 / 2 in
      let middle = to_int-small i (omega arith) in
      rw middle (search-no_fuel 32 most_turns i (pos i) (omega arith) (omega arith))
