-- ===== src/Connections/Removal.antt =====
-- What `connection_del` leaves.
use ylem.Base.{
  ℕ, ◌-◌, ◌≤◌, ◌<◌, ◌≡◌, ◌≢◌, sym, ap, ◌∙◌, ◌⊎◌, inl, inr, none, some, List, length, get_elem?, set,
  length-set, ◌==◌, if◌then◌else◌, arith, Bool-cases, get_elem?-set, get_elem?-set_other,
}
use ylem.Connections.{Connections}
use ylem.Connections.Slots.{IsValid, some-same, none-some}

-- The place that the connection now at `j` had before `i` and `l` changed places.
unfoldable pub place_before : ℕ → ℕ → ℕ → ℕ
place_before i l j = if j == i then l else (if j == l then i else j)

-- `place_before` by cases.
place_before-cases :
    (i l j : ℕ)
    → (j ≡ i) × (place_before i l j ≡ l)
      ⊎ (j ≢ i) × (j ≡ l) × (place_before i l j ≡ i)
      ⊎ (j ≢ i) × (j ≢ l) × (place_before i l j ≡ j)
unfolding place_before
place_before-cases i l j = ground arith

pub place_before-here : (i l j : ℕ) → j ≡ i → place_before i l j ≡ l
unfolding place_before
place_before-here i l j e = ground arith

pub place_before-same : (i l j : ℕ) → i ≡ l → place_before i l j ≡ j
unfolding place_before
place_before-same i l j e = ground arith

place_before-other : (i l j : ℕ) → j ≢ i → j ≢ l → place_before i l j ≡ j
place_before-other i l j n m = elim (place_before-cases i l j) [
  | inl p ↦ absurd (n p.0)
  | inr (inl p) ↦ absurd (m p.1)
  | inr (inr p) ↦ p.2
]

place_before-once : (i l j k : ℕ) → place_before i l j ≡ place_before i l k → j ≡ k
unfolding place_before
place_before-once i l j k e = ground arith

-- `r` is `c` with `con` removed from the place `i`, to which the last connection `last` has moved.
pub record Removed (c : Connections) (i con last : ℕ) (r : Connections) : Type 0 where
  pub sized : r.size ≡ length r.ptr
  pub size : r.size ≡ c.size
  pub used : r.used ≡ c.used - 1
  pub next : r.next_addr ≡ c.next_addr
  pub look : (j : ℕ) → get_elem? r.ptr j ≡ get_elem? c.ptr (place_before i (c.used - 1) j)
  pub removed : r.ndx con ≡ none
  pub moved : last ≢ con → r.ndx last ≡ some i
  pub others : (x : ℕ) → x ≢ con → x ≢ last → r.ndx x ≡ c.ndx x

module _ (c : Connections) (i con last : ℕ) (v : IsValid c) (here : c.ndx con ≡ some i)
    (at_last : get_elem? c.ptr (c.used - 1) ≡ some last) where
  pub inside : i < c.used
  inside = (v.placed con i here).0

  pub last_place : c.ndx last ≡ some (c.used - 1)
  last_place = v.live (c.used - 1) last (omega (arith, inside)) at_last

  pub there : get_elem? c.ptr i ≡ some con
  there = (v.placed con i here).1

  -- A place of the removed connection is `i`, one of the last connection is the last one.
  con_place : (j x : ℕ) → get_elem? c.ptr j ≡ some x → x ≡ con → j ≡ i
  con_place j x e p = v.once j i con (e ∙ ap some p) there

  end_place : (j x : ℕ) → get_elem? c.ptr j ≡ some x → x ≡ last → j ≡ c.used - 1
  end_place j x e p = v.once j (c.used - 1) last (e ∙ ap some p) at_last

  -- The connection that stands at `i` in the end is the one that was last.
  found_last : (j x : ℕ) → j ≡ c.used - 1 → get_elem? c.ptr j ≡ some x → x ≡ last
  found_last j x p e = some-same x last (get_elem? c.ptr j) e (ap (get_elem? c.ptr) p ∙ at_last)

  found_con : (j x : ℕ) → j ≡ i → get_elem? c.ptr j ≡ some x → x ≡ con
  found_con j x p e = some-same x con (get_elem? c.ptr j) e (ap (get_elem? c.ptr) p ∙ there)

  module _ (r : Connections) (m : Removed c i con last r) where
    before :
        (j x : ℕ)
        → get_elem? r.ptr j ≡ some x
        → get_elem? c.ptr (place_before i (c.used - 1) j) ≡ some x
    before j x e = sym (m.look j) ∙ e

    removed-live : (j x : ℕ) → j < r.used → get_elem? r.ptr j ≡ some x → r.ndx x ≡ some j
    removed-live j x l e = elim (place_before-cases i (c.used - 1) j) [
      | inl p ↦
          let is_last = found_last (place_before i (c.used - 1) j) x p.1 (before j x e) in
          let other : last ≢ con =
            λ q. absurd (omega (arith, con_place (c.used - 1) last at_last q, p.0, l, m.used)) in
          ap r.ndx is_last ∙ m.moved other ∙ ap some (sym p.0)
      | inr (inl p) ↦ absurd (omega (arith, p.1, l, m.used))
      | inr (inr p) ↦
          let at = ap (get_elem? c.ptr) (sym p.2) ∙ before j x e in
          m.others x (λ q. p.0 (con_place j x at q)) (λ q. p.1 (end_place j x at q))
          ∙ v.live j x (omega (arith, l, m.used)) at
    ]

    removed-idle : (j x : ℕ) → r.used ≤ j → get_elem? r.ptr j ≡ some x → r.ndx x ≡ none
    removed-idle j x l e = elim (place_before-cases i (c.used - 1) j) [
      | inl p ↦
          let same : place_before i (c.used - 1) j ≡ i = omega (arith, p, l, m.used, inside) in
          ap r.ndx (found_con (place_before i (c.used - 1) j) x same (before j x e)) ∙ m.removed
      | inr (inl p) ↦
          ap r.ndx (found_con (place_before i (c.used - 1) j) x p.2 (before j x e)) ∙ m.removed
      | inr (inr p) ↦
          let at = ap (get_elem? c.ptr) (sym p.2) ∙ before j x e in
          m.others x (λ q. p.0 (con_place j x at q)) (λ q. p.1 (end_place j x at q))
          ∙ v.idle j x (ground (arith, l, m.used, p.1)) at
    ]

    removed-placed : (x j : ℕ) → r.ndx x ≡ some j → (j < r.used) × (get_elem? r.ptr j ≡ some x)
    removed-placed x j e = elim (Bool-cases (x == con)) [
      | inl q ↦
          let is_con : x ≡ con = ground arith in
          absurd (none-some j (r.ndx x) (ap r.ndx is_con ∙ m.removed) e)
      | inr q ↦
          let other : x ≢ con = λ z. ground arith in
          elim (Bool-cases (x == last)) [
            | inl w ↦
                let is_last : x ≡ last = ground arith in
                let same : i ≡ j =
                  some-same i j (r.ndx x) (ap r.ndx is_last ∙ m.moved (λ z. other (is_last ∙ z)))
                    e in
                let apart : i ≢ c.used - 1 =
                  λ z. other (found_con (c.used - 1) x (sym z) (at_last ∙ ap some (sym is_last))) in
                let at : place_before i (c.used - 1) j ≡ c.used - 1 =
                  place_before-here i (c.used - 1) j (sym same) in
                (
                  ground (arith, apart, inside, m.used, same),
                  m.look j ∙ ap (get_elem? c.ptr) at ∙ at_last ∙ ap some (sym is_last),
                )
            | inr w ↦
                let old = sym (m.others x other (λ z. ground arith)) ∙ e in
                let (within, at) = v.placed x j old in
                let not_here : j ≢ i = λ z. other (found_con j x z at) in
                let not_last : j ≢ c.used - 1 = λ z. absurd (ground (arith, found_last j x z at)) in
                let stays : place_before i (c.used - 1) j ≡ j =
                  place_before-other i (c.used - 1) j not_here not_last in
                (
                  ground (arith, within, not_last, m.used),
                  m.look j ∙ ap (get_elem? c.ptr) stays ∙ at,
                )
          ]
    ]

    pub removed-IsValid : IsValid r
    removed-IsValid = record {
      sized = m.sized;
      few = omega (arith, v.few, m.used, m.size);
      once = λ j k x e f. place_before-once i (c.used - 1) j k (
          v.once (place_before i (c.used - 1) j) (place_before i (c.used - 1) k) x (before j x e)
            (before k x f));
      live = removed-live;
      idle = removed-idle;
      placed = removed-placed;
      old = λ j x e. rw m.next (v.old (place_before i (c.used - 1) j) x (before j x e));
    }

-- The array after both writes of the exchange.
pub exchanged-look :
    (ptr : List ℕ) (i l con last j : ℕ)
    → i < length ptr
    → l < length ptr
    → i ≢ l
    → get_elem? ptr i ≡ some con
    → get_elem? ptr l ≡ some last
    → get_elem? (set (set ptr i last) l con) j ≡ get_elem? ptr (place_before i l j)
exchanged-look ptr i l con last j a b n e f = elim (place_before-cases i l j) [
  | inl p ↦
      ap (get_elem? (set (set ptr i last) l con)) p.0
      ∙ get_elem?-set_other (set ptr i last) l i con (λ z. n (sym z))
      ∙ get_elem?-set ptr i last (omega arith)
      ∙ sym (ap (get_elem? ptr) p.1 ∙ f)
  | inr (inl p) ↦
      ap (get_elem? (set (set ptr i last) l con)) p.1
      ∙ get_elem?-set (set ptr i last) l con (omega (arith, length-set ptr i last))
      ∙ sym (ap (get_elem? ptr) p.2 ∙ e)
  | inr (inr p) ↦
      get_elem?-set_other (set ptr i last) l j con (λ z. p.1 (sym z))
      ∙ get_elem?-set_other ptr i j last (λ z. p.0 (sym z))
      ∙ sym (ap (get_elem? ptr) p.2)
]
