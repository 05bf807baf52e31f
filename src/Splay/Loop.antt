-- ===== src/Splay/Loop.antt =====
-- The loop of `splaytree_splay` as a run of a step relation: rotations and links, each at the side of
-- the root where the key lies, until the root is where a search for the key ends.
use ylem.Base.{ℕ, ◌<◌, ◌≡◌, ◌⊎◌, inl, inr, refl, arith, Bool-cases, ltb, compare-cases}
use ylem.Splay.{
  Tree, leaf, node, State, link_right, link_left, at, rotate_right, rotate_left, go_left, go_right,
  loop,
}

module _ {V : Type 0} where
  -- The state of the loop with `t` for the current tree.
  pub data Step (i : ℕ) : Tree V → State V → Tree V → State V → Type 0 where
    lower_right :
        (st : State V) (l : Tree V) (k s : ℕ) (v : V) (r : Tree V)
        → i < k
        → Step i (node l k s v r) st l (link_right st k s v r l)
    turn_right :
        (st : State V) (a : Tree V) (y ys : ℕ) (yv : V) (b : Tree V) (k s : ℕ) (v : V) (r : Tree V)
        → i < y
        → i < k
        → Step i (node (node a y ys yv b) k s v r) st (rotate_right a y ys yv b k v r) st
    lower_left :
        (st : State V) (l : Tree V) (k s : ℕ) (v : V) (r : Tree V)
        → k < i
        → Step i (node l k s v r) st r (link_left st k s v l r)
    turn_left :
        (st : State V) (l : Tree V) (k s : ℕ) (v : V) (c : Tree V) (z zs : ℕ) (zv : V) (d : Tree V)
        → z < i
        → k < i
        → Step i (node l k s v (node c z zs zv d)) st (rotate_left l k v c z zs zv d) st

  pub data Run (i : ℕ) : Tree V → State V → Tree V → State V → Type 0 where
    stop : (t : Tree V) (st : State V) → Run i t st t st
    next :
        {t u w : Tree V} {st su sw : State V} → Step i t st u su → Run i u su w sw → Run i t st w sw

  -- The search for `i` ends at this root.
  abbrev pub Done : ℕ → Tree V → Type 0
  Done i leaf = Unit
  Done i (node l k s v r) = (i ≡ k) ⊎ ((i < k) × (l ≡ leaf) ⊎ (k < i) × (r ≡ leaf))

  abbrev pub IsNode : Tree V → Type 0
  IsNode leaf = ⊥
  IsNode (node l k s v r) = Unit

  abbrev pub Ends : ℕ → Tree V → State V → State V → Type 0
  Ends i t st out =
      (sw : State V) × Run i t st out.tree sw
      × (out ≡ at sw out.tree)
      × Done i out.tree
      × (IsNode t → IsNode out.tree)

  Ends-next :
      {i : ℕ} {t u : Tree V} {st su out : State V}
      → Step i t st u su
      → IsNode u
      → Ends i u su out
      → Ends i t st out
  Ends-next s n (sw, run, e, d, keeps) = (sw, next s run, e, d, λ _. keeps n)

  go_left-Ends :
      (i : ℕ) (st : State V) (a : Tree V) (y ys : ℕ) (yv : V) (b : Tree V) (k s : ℕ) (v : V)
      (r : Tree V) (deep shallow : State V → State V)
      → i < k
      → ((su : State V) → Ends i a su (deep su))
      → ((su : State V) → Ends i (node a y ys yv b) su (shallow su))
      → Ends i (node (node a y ys yv b) k s v r) st (go_left i st a y ys yv b k s v r deep shallow)
  unfolding go_left
  go_left-Ends i st leaf y ys yv b k s v r deep shallow lt dp sh = elim (Bool-cases (ltb i y)) [
    | inl e ↦
        rw (e, go_left)
          (
            st,
            next (turn_right st leaf y ys yv b k s v r (ground arith) lt) (stop _ st),
            refl,
            inr (inl (ground arith, refl)),
            λ n. tt,
          )
    | inr e ↦ rw (e, go_left) (Ends-next (lower_right st _ k s v r lt) tt (sh _))
  ]
  go_left-Ends i st (node a1 a2 a3 a4 a5) y ys yv b k s v r deep shallow lt dp sh =
      elim (Bool-cases (ltb i y)) [
        | inl e ↦
            rw (e, go_left)
              (Ends-next (turn_right st (node a1 a2 a3 a4 a5) y ys yv b k s v r (ground arith) lt)
                tt
                (Ends-next (lower_right st (node a1 a2 a3 a4 a5) y ys yv _ (ground arith)) tt
                  (dp _)))
        | inr e ↦ rw (e, go_left) (Ends-next (lower_right st _ k s v r lt) tt (sh _))
      ]

  go_right-Ends :
      (i : ℕ) (st : State V) (l : Tree V) (k s : ℕ) (v : V) (c : Tree V) (z zs : ℕ) (zv : V)
      (d : Tree V) (deep shallow : State V → State V)
      → k < i
      → ((su : State V) → Ends i d su (deep su))
      → ((su : State V) → Ends i (node c z zs zv d) su (shallow su))
      → Ends i (node l k s v (node c z zs zv d)) st (go_right i st l k s v c z zs zv d deep shallow)
  unfolding go_right
  go_right-Ends i st l k s v c z zs zv leaf deep shallow lt dp sh = elim (Bool-cases (ltb z i)) [
    | inl e ↦
        rw (e, go_right)
          (
            st,
            next (turn_left st l k s v c z zs zv leaf (ground arith) lt) (stop _ st),
            refl,
            inr (inr (ground arith, refl)),
            λ n. tt,
          )
    | inr e ↦ rw (e, go_right) (Ends-next (lower_left st l k s v _ lt) tt (sh _))
  ]
  go_right-Ends i st l k s v c z zs zv (node d1 d2 d3 d4 d5) deep shallow lt dp sh =
      elim (Bool-cases (ltb z i)) [
        | inl e ↦
            rw (e, go_right)
              (Ends-next (turn_left st l k s v c z zs zv (node d1 d2 d3 d4 d5) (ground arith) lt) tt
                (Ends-next (lower_left st _ z zs zv (node d1 d2 d3 d4 d5) (ground arith)) tt
                  (dp _)))
        | inr e ↦ rw (e, go_right) (Ends-next (lower_left st l k s v _ lt) tt (sh _))
      ]

  here-Ends : {i : ℕ} {t : Tree V} {st : State V} → Done i t → Ends i t st (at st t)
  here-Ends {i} {t} {st} d = (st, stop t st, refl, d, λ n. n)

  -- The loop runs by steps of the relation, and ends only where the search for `i` ends.
  pub loop-Ends : (i : ℕ) (t : Tree V) (st : State V) → Ends i t st (loop i t st)
  unfolding loop
  loop-Ends i leaf st = here-Ends tt
  loop-Ends i (node leaf k s v leaf) st = here-Ends (ground (arith, compare-cases i k))
  loop-Ends i (node (node a y ys yv b) k s v leaf) st = elim (compare-cases i k) [
    | inl (e, lt) ↦
        rw (e, loop)
          (go_left-Ends i st a y ys yv b k s v leaf _ _ lt (loop-Ends i a)
            (loop-Ends i (node a y ys yv b)))
    | inr (inl (e, same)) ↦ rw (e, loop) (here-Ends (inl same))
    | inr (inr (e, gt)) ↦ rw (e, loop) (here-Ends (inr (inr (gt, refl))))
  ]
  loop-Ends i (node leaf k s v (node c z zs zv d)) st = elim (compare-cases i k) [
    | inl (e, lt) ↦ rw (e, loop) (here-Ends (inr (inl (lt, refl))))
    | inr (inl (e, same)) ↦ rw (e, loop) (here-Ends (inl same))
    | inr (inr (e, gt)) ↦
        rw (e, loop)
          (go_right-Ends i st leaf k s v c z zs zv d _ _ gt (loop-Ends i d)
            (loop-Ends i (node c z zs zv d)))
  ]
  loop-Ends i (node (node a y ys yv b) k s v (node c z zs zv d)) st = elim (compare-cases i k) [
    | inl (e, lt) ↦
        rw (e, loop)
          (go_left-Ends i st a y ys yv b k s v (node c z zs zv d) _ _ lt (loop-Ends i a)
            (loop-Ends i (node a y ys yv b)))
    | inr (inl (e, same)) ↦ rw (e, loop) (here-Ends (inl same))
    | inr (inr (e, gt)) ↦
        rw (e, loop)
          (go_right-Ends i st (node a y ys yv b) k s v c z zs zv d _ _ gt (loop-Ends i d)
            (loop-Ends i (node c z zs zv d)))
  ]
