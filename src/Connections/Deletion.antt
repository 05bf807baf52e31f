-- ===== src/Connections/Deletion.antt =====
-- `connection_del` on a valid array.
use ylem.Base.{
  ℕ, ◌+◌, ◌-◌, ◌<◌, ◌≡◌, ◌≢◌, ◌↔◌, refl, sym, ap, ◌∙◌, inl, inr, pos, none, some, get_elem?, set,
  length-set, ◌==◌, arith, Bool-cases, get_elem?-set, get_elem?-set_other, get_elem?-some,
}
use ylem.Connections.{Connections, set_ndx, swap_last, connection_del}
use ylem.Connections.Slots.{IsValid, set_ndx_same, set_ndx_other, none-some}
use ylem.Connections.Removal.{
  Removed, removed-IsValid, place_before-same, exchanged-look, last_place,
}

module _ (c : Connections) (i con : ℕ) (v : IsValid c) (here : c.ndx con ≡ some i) where
  within : i < c.used
  within = (v.placed con i here).0

  at_i : get_elem? c.ptr i ≡ some con
  at_i = (v.placed con i here).1

  -- The last connection is removed where it stands.
  abbrev drop_last : Connections
  drop_last = record c { used = c.used - 1; ndx = set_ndx con none c.ndx }

  drop_last-Removed : i ≡ c.used - 1 → Removed c i con con drop_last
  drop_last-Removed e = record {
    sized = v.sized;
    size = refl;
    used = refl;
    next = refl;
    look = λ j. ap (get_elem? c.ptr) (sym (place_before-same i (c.used - 1) j e));
    removed = set_ndx_same con none c.ndx;
    moved = λ n. absurd (n refl);
    others = λ x n m. set_ndx_other con none c.ndx x n;
  }

  -- The array after an exchange with another connection.
  abbrev exchanged : ℕ → Connections
  exchanged last = record c {
    ptr = set (set c.ptr i last) (c.used - 1) con;
    ndx = set_ndx con none (set_ndx last (some i) c.ndx);
  }

  swap_last-exchanged :
      (last : ℕ)
      → i ≢ c.used - 1
      → get_elem? c.ptr (c.used - 1) ≡ some last
      → swap_last c i ≡ some (exchanged last)
  unfolding swap_last
  swap_last-exchanged last n at =
      let l = c.used - 1 in
      let ptr' = set (set c.ptr i last) l con in
      let first : get_elem? ptr' i ≡ some last =
        get_elem?-set_other (set c.ptr i last) l i con (λ z. n (sym z))
        ∙ get_elem?-set c.ptr i last (omega (arith, within, v.few, v.sized)) in
      let second : get_elem? ptr' l ≡ some con =
        get_elem?-set (set c.ptr i last) l con
          (omega (arith, length-set c.ptr i last, within, v.few, v.sized)) in
      rw (at_i, at, first, second) refl

  exchanged-Removed :
      (last : ℕ)
      → i ≢ c.used - 1
      → get_elem? c.ptr (c.used - 1) ≡ some last
      → Removed c i con last (record (exchanged last) {
        used = c.used - 1;
        ndx = set_ndx con none (exchanged last).ndx;
      })
  exchanged-Removed last n at = record {
    sized =
        omega
          (arith, v.sized, length-set (set c.ptr i last) (c.used - 1) con, length-set c.ptr i last);
    size = refl;
    used = refl;
    next = refl;
    look = λ j.
        exchanged-look c.ptr i (c.used - 1) con last j (omega (arith, within, v.few, v.sized))
          (omega (arith, within, v.few, v.sized)) n at_i at;
    removed = set_ndx_same con none (exchanged last).ndx;
    moved = λ m.
        set_ndx_other con none (exchanged last).ndx last m
        ∙ set_ndx_other con none (set_ndx last (some i) c.ndx) last m
        ∙ set_ndx_same last (some i) c.ndx;
    others = λ x m k.
        set_ndx_other con none (exchanged last).ndx x m
        ∙ set_ndx_other con none (set_ndx last (some i) c.ndx) x m
        ∙ set_ndx_other last (some i) c.ndx x k;
  }

  same_in_use :
      (last : ℕ) (r : Connections)
      → get_elem? c.ptr (c.used - 1) ≡ some last
      → Removed c i con last r
      → (x : ℕ) → x ≢ con
      → (r.ndx x ≡ none) ↔ (c.ndx x ≡ none)
  same_in_use last r at m x n = elim (Bool-cases (x == last)) [
    | inl e ↦
        let is_last : x ≡ last = ground arith in
        let now : r.ndx x ≡ some i = ap r.ndx is_last ∙ m.moved (λ z. n (is_last ∙ z)) in
        let old : c.ndx x ≡ some (c.used - 1) =
          ap c.ndx is_last ∙ last_place c i con last v here at in
        (
          λ z. absurd (none-some i (r.ndx x) z now),
          λ z. absurd (none-some (c.used - 1) (c.ndx x) z old),
        )
    | inr e ↦ let same = m.others x n (λ z. ground arith) in (λ z. sym same ∙ z, λ z. same ∙ z)
  ]

  -- `connection_del` of a connection in use returns 0, keeps the array valid, takes that connection
  -- out of use and no other one, though the last one may have moved to its place.
  pub connection_del_lem :
      (r : Connections) × (connection_del c con ≡ some (pos 0, r))
      × IsValid r
      × (r.used + 1 ≡ c.used)
      × (r.ndx con ≡ none)
      × ((x : ℕ) → x ≢ con → (r.ndx x ≡ none) ↔ (c.ndx x ≡ none))
  unfolding connection_del
  connection_del_lem = elim (Bool-cases (i == c.used - 1)) [
    | inl e ↦
        let same : i ≡ c.used - 1 = ground arith in
        let m = drop_last-Removed same in
        let at : get_elem? c.ptr (c.used - 1) ≡ some con = ap (get_elem? c.ptr) (sym same) ∙ at_i in
        (
          drop_last,
          rw (connection_del, here, e) refl,
          removed-IsValid c i con con v here at drop_last m,
          omega (arith, within),
          m.removed,
          same_in_use con drop_last at m,
        )
    | inr e ↦
        let n : i ≢ c.used - 1 = λ z. ground arith in
        let (last, at) =
          get_elem?-some c.ptr (c.used - 1) (omega (arith, within, v.few, v.sized)) in
        let m = exchanged-Removed last n at in
        let r : Connections = record (exchanged last) {
          used = c.used - 1;
          ndx = set_ndx con none (exchanged last).ndx;
        } in
        (
          r,
          rw (connection_del, here, e, swap_last-exchanged last n at) refl,
          removed-IsValid c i con last v here at r m,
          omega (arith, within),
          m.removed,
          same_in_use last r at m,
        )
  ]
