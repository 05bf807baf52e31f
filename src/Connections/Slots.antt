-- ===== src/Connections/Slots.antt =====
-- The invariant of the array of connections.
use ylem.Base.{
  ℕ, zero, suc, ◌+◌, ◌-◌, ◌≤◌, ◌<◌, ◌≡◌, ◌≢◌, refl, sym, ap, ◌∙◌, ◌⊎◌, inl, inr, Option, none, some,
  List, [], ◌++◌, length, get_elem?, ◌==◌, arith, Bool-cases, Option-cases, ltb, ltb→lt,
  get_elem?-append_lt, get_elem?-append_ge, length-append, length-eq-zero, take-all, get_elem?-some,
}
use ylem.Connections.{Connections, no_connections, fresh, set_ndx, grow, get_new_connection}

-- The connections in use stand in front, each knows its place, and no other connection has one; no
-- connection stands in two places.
pub record IsValid (c : Connections) : Type 0 where
  pub sized : c.size ≡ length c.ptr
  pub few : c.used ≤ c.size
  pub once : (i j x : ℕ) → get_elem? c.ptr i ≡ some x → get_elem? c.ptr j ≡ some x → i ≡ j
  pub live : (i x : ℕ) → i < c.used → get_elem? c.ptr i ≡ some x → c.ndx x ≡ some i
  pub idle : (i x : ℕ) → c.used ≤ i → get_elem? c.ptr i ≡ some x → c.ndx x ≡ none
  pub placed : (x i : ℕ) → c.ndx x ≡ some i → (i < c.used) × (get_elem? c.ptr i ≡ some x)
  pub old : (i x : ℕ) → get_elem? c.ptr i ≡ some x → x < c.next_addr

pub no_connections-IsValid : IsValid no_connections
no_connections-IsValid = record {
  sized = refl;
  few = omega arith;
  once = λ i j x e f. absurd (ground arith);
  live = λ i x l e. absurd (ground arith);
  idle = λ i x l e. absurd (ground arith);
  placed = λ x i e. absurd (ground arith);
  old = λ i x e. absurd (ground arith);
}

fresh-lookup : (n a i x : ℕ) → get_elem? (fresh n a) i ≡ some x → (x ≡ a + i) × (i < n)
unfolding fresh
fresh-lookup zero a i x e = absurd (ground arith)
fresh-lookup (suc n) a zero x e = ground arith
fresh-lookup (suc n) a (suc i) x e =
    let (same, inside) = fresh-lookup n (a + 1) i x e in
    (omega (arith, same), omega (arith, inside))

-- A place in an extended array is an old one or a fresh one.
extended-lookup :
    (ptr : List ℕ) (n a i x : ℕ)
    → get_elem? (ptr ++ fresh n a) i ≡ some x
    → (get_elem? ptr i ≡ some x) × (i < length ptr)
      ⊎ (length ptr ≤ i) × (x ≡ a + (i - length ptr)) × (i < length ptr + n)
extended-lookup ptr n a i x e = elim (Bool-cases (ltb i (length ptr))) [
  | inl l ↦
      let inside : i < length ptr = ltb→lt i (length ptr) l in
      inl (sym (get_elem?-append_lt ptr (fresh n a) i (omega arith)) ∙ e, inside)
  | inr l ↦
      let outside : length ptr ≤ i = ground arith in
      let (same, inside) =
        fresh-lookup n a (i - length ptr) x
          (sym (get_elem?-append_ge ptr (fresh n a) i outside) ∙ e) in
      inr (outside, same, omega (arith, inside))
]

no_place : (c : Connections) (x : ℕ) → IsValid c → c.next_addr ≤ x → c.ndx x ≡ none
no_place c x v b = elim (Option-cases (c.ndx x)) [
  | inl e ↦ e
  | inr (i, e) ↦ absurd (omega (arith, v.old i x (v.placed x i e).1))
]

length-fresh : (n a : ℕ) → length (fresh n a) ≡ n
unfolding fresh
length-fresh zero a = refl
length-fresh (suc n) a = ap suc (length-fresh n (a + 1))

extend-IsValid :
    (c : Connections)
    → IsValid c
    → c.used ≡ c.size
    → IsValid (record c {
      size = c.size + 128;
      ptr = c.ptr ++ fresh 128 c.next_addr;
      next_addr = c.next_addr + 128;
    })
extend-IsValid c v full =
    let look = extended-lookup c.ptr 128 c.next_addr in
    record {
      sized = omega (
        arith,
        v.sized,
        length-append c.ptr (fresh 128 c.next_addr),
        length-fresh 128 c.next_addr,
      );
      few = omega (arith, v.few);
      once = λ i j x e f. elim (look i x e) [
        | inl p ↦ elim (look j x f) [
          | inl q ↦ v.once i j x p.0 q.0
          | inr q ↦ absurd (omega (arith, v.old i x p.0, q))
        ]
        | inr p ↦ elim (look j x f) [
          | inl q ↦ absurd (omega (arith, v.old j x q.0, p))
          | inr q ↦ omega (arith, p, q)
        ]
      ];
      live = λ i x l e. elim (look i x e) [
        | inl p ↦ v.live i x l p.0
        | inr p ↦ absurd (omega (arith, p, v.sized))
      ];
      idle = λ i x l e. elim (look i x e) [
        | inl p ↦ v.idle i x l p.0
        | inr p ↦ no_place c x v (omega (arith, p))
      ];
      placed = λ x i e.
          let (inside, at) = v.placed x i e in
          (
            inside,
            get_elem?-append_lt c.ptr (fresh 128 c.next_addr) i
                  (omega (arith, inside, v.few, v.sized))
                ∙ at,
          );
      old = λ i x e. elim (look i x e) [
        | inl p ↦ omega (arith, v.old i x p.0)
        | inr p ↦ omega (arith, p, v.sized)
      ];
    }

-- There is room for one more, and the connections in use are the same.
grow-IsValid :
    (c : Connections)
    → IsValid c
    → IsValid (grow c)
      × ((grow c).used < (grow c).size)
      × ((grow c).used ≡ c.used)
      × ((grow c).ndx ≡ c.ndx)
unfolding grow
grow-IsValid c v = elim (Bool-cases (c.size == 0)) [
  | inl z ↦
      let no_ptr : c.ptr ≡ [] = length-eq-zero c.ptr (ground (arith, v.sized)) in
      let full : c.used ≡ c.size = ground (arith, v.few) in
      let e = extend-IsValid c v full in
      let zero_size : c.size ≡ 0 = ground arith in
      rw (grow, z) (rw (no_ptr, zero_size) at e, omega (arith, zero_size, full), refl, refl)
  | inr z ↦ elim (Bool-cases (c.size == c.used)) [
    | inl f ↦
        let full : c.used ≡ c.size = ground arith in
        let all = take-all c.used c.ptr (omega (arith, v.sized)) in
        rw (grow, z, f, all) (extend-IsValid c v full, omega (arith, full), refl, refl)
    | inr f ↦ rw (grow, z, f) (v, ground (arith, v.few), refl, refl)
  ]
]

pub set_ndx-cases :
    (x : ℕ) (v : Option ℕ) (f : ℕ → Option ℕ) (y : ℕ)
    → (y ≡ x) × (set_ndx x v f y ≡ v) ⊎ (y ≢ x) × (set_ndx x v f y ≡ f y)
unfolding set_ndx
set_ndx-cases x v f y = elim (Bool-cases (y == x)) [
  | inl e ↦ inl (ground arith, rw e refl)
  | inr e ↦ inr (λ p. ground arith, rw e refl)
]

pub set_ndx_same : (x : ℕ) (v : Option ℕ) (f : ℕ → Option ℕ) → set_ndx x v f x ≡ v
set_ndx_same x v f = elim (set_ndx-cases x v f x) [ inl p ↦ p.1 | inr p ↦ absurd (p.0 refl) ]

pub set_ndx_other :
    (x : ℕ) (v : Option ℕ) (f : ℕ → Option ℕ) (y : ℕ) → y ≢ x → set_ndx x v f y ≡ f y
set_ndx_other x v f y n = elim (set_ndx-cases x v f y) [ inl p ↦ absurd (n p.0) | inr p ↦ p.1 ]

pub some-same : (i j : ℕ) (o : Option ℕ) → o ≡ some i → o ≡ some j → i ≡ j
some-same i j o e f = ground arith

pub none-some : (i : ℕ) (o : Option ℕ) → o ≡ none → o ≡ some i → ⊥
none-some i o e f = ground arith

-- The first connection that is not in use is taken.
take-IsValid :
    (c : Connections) (con : ℕ)
    → IsValid c
    → c.used < c.size
    → get_elem? c.ptr c.used ≡ some con
    → IsValid (record c { ndx = set_ndx con (some c.used) c.ndx; used = c.used + 1 })
take-IsValid c con v room at =
    let free : c.ndx con ≡ none = v.idle c.used con (omega arith) at in
    let look = set_ndx-cases con (some c.used) c.ndx in
    record {
      sized = v.sized;
      few = omega (arith, room);
      once = v.once;
      live = λ i x l e. elim (look x) [
        | inl p ↦ p.1 ∙ ap some (v.once c.used i con at (e ∙ ap some p.0))
        | inr p ↦ elim (Bool-cases (i == c.used)) [
          | inl s ↦ absurd (
              p.0
                (some-same x con (get_elem? c.ptr i) e (ap (get_elem? c.ptr) (ground arith) ∙ at)))
          | inr s ↦ p.1 ∙ v.live i x (ground arith) e
        ]
      ];
      idle = λ i x l e. elim (look x) [
        | inl p ↦ absurd (omega (arith, v.once c.used i con at (e ∙ ap some p.0), l))
        | inr p ↦ p.1 ∙ v.idle i x (omega (arith, l)) e
      ];
      placed = λ x i e. elim (look x) [
        | inl p ↦
            let same = some-same c.used i _ p.1 e in
            (omega (arith, same), ap (get_elem? c.ptr) (sym same) ∙ at ∙ ap some (sym p.0))
        | inr p ↦ let (inside, there) = v.placed x i (sym p.1 ∙ e) in (omega (arith, inside), there)
      ];
      old = v.old;
    }

-- `connections_get_new_connection` on a valid array: it takes a connection that was not in use, gives
-- it the next place, changes no place of another connection, and leaves the array valid.
pub get_new_connection_lem :
    (c : Connections)
    → IsValid c
    → (con : ℕ) × (r : Connections) × (get_new_connection c ≡ some (con, r))
      × IsValid r
      × (c.ndx con ≡ none)
      × (r.ndx con ≡ some c.used)
      × (r.used ≡ c.used + 1)
      × ((x : ℕ) → x ≢ con → r.ndx x ≡ c.ndx x)
unfolding get_new_connection
get_new_connection_lem c v =
    let (valid, room, used, ndx) = grow-IsValid c v in
    let g = grow c in
    let (con, at) = get_elem?-some g.ptr g.used (omega (arith, room, valid.sized)) in
    let free : c.ndx con ≡ none =
      ap (λ f. f con) (sym ndx) ∙ valid.idle g.used con (omega arith) at in
    let r : Connections = record g { ndx = set_ndx con (some g.used) g.ndx; used = g.used + 1 } in
    (
      con,
      r,
      rw at refl,
      take-IsValid g con valid room at,
      free,
      set_ndx_same con (some g.used) g.ndx ∙ ap some used,
      ap (λ n. n + 1) used,
      λ x n. set_ndx_other con (some g.used) g.ndx x n ∙ ap (λ f. f x) ndx,
    )
