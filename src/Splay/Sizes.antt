-- ===== src/Splay/Sizes.antt =====
-- The size fields: splaying keeps them right, and ranks are positions in order.
use ylem.Base.{
  ℕ, suc, ◌+◌, ◌-◌, ◌<◌, ◌≡◌, refl, sym, ap, ◌∙◌, List, [], ◌∷◌, ◌++◌, reverse, arith, Option, none,
  some, length, length-append, get_elem?, compare-cases, inl, inr, ltb, Bool-cases,
  get_elem?-append_lt, get_elem?-append_ge, get_elem?-ge,
}
use mathlib.Core.List.{reverse-cons}
use ylem.Splay.{
  Tree, leaf, node, size, Frame, State, start, loop, close_left, close_right, assemble, splay,
  find_rank, rank_from,
}
use ylem.Splay.Loop.{
  Step, lower_right, turn_right, lower_left, turn_left, Run, stop, next, loop-Ends,
}
use ylem.Splay.Inorder.{inorder}

module _ {V : Type 0} where
  -- The number of nodes.
  abbrev pub count : Tree V → ℕ
  count leaf = 0
  count (node l k s v r) = count l + count r + 1

  abbrev pub Sized : Tree V → Type 0
  Sized leaf = Unit
  Sized (node l k s v r) = (s ≡ count l + count r + 1) × Sized l × Sized r

  pub size-Sized : (t : Tree V) → Sized t → size t ≡ count t
  size-Sized leaf h = refl
  size-Sized (node l k s v r) h = h.0

  -- Below the root: the field of the root itself is stale after a rotation.
  abbrev pub SizedBelow : Tree V → Type 0
  SizedBelow leaf = Unit
  SizedBelow (node l k s v r) = Sized l × Sized r

  abbrev pub total : List (Frame V) → ℕ
  total [] = 0
  total (f ∷ fs) = (1 + count f.sub) + total fs

  abbrev pub SizedFrames : List (Frame V) → Type 0
  SizedFrames [] = Unit
  SizedFrames (f ∷ fs) = Sized f.sub × SizedFrames fs

  record SizedState (t : Tree V) (st : State V) : Type 0 where
    below : SizedBelow t
    lefts : SizedFrames st.lefts
    rights : SizedFrames st.rights
    l_total : st.l_size ≡ total st.lefts
    r_total : st.r_size ≡ total st.rights

  Sized-SizedBelow : (t : Tree V) → Sized t → SizedBelow t
  Sized-SizedBelow leaf h = tt
  Sized-SizedBelow (node l k s v r) h = (h.1, h.2)

  SizedState-Step :
      {i : ℕ} {t u : Tree V} {st su : State V}
      → Step i t st u su
      → SizedState t st
      → SizedState u su
  SizedState-Step (lower_right st l k s v r h) z = record {
    below = Sized-SizedBelow l z.below.0;
    lefts = z.lefts;
    rights = (z.below.1, z.rights);
    l_total = z.l_total;
    r_total = omega (arith, size-Sized r z.below.1, z.r_total);
  }
  SizedState-Step (turn_right st a y ys yv b k s v r h h') z = record {
    below = (
      z.below.0.1,
      (omega (arith, size-Sized b z.below.0.2, size-Sized r z.below.1), z.below.0.2, z.below.1),
    );
    lefts = z.lefts;
    rights = z.rights;
    l_total = z.l_total;
    r_total = z.r_total;
  }
  SizedState-Step (lower_left st l k s v r h) z = record {
    below = Sized-SizedBelow r z.below.1;
    lefts = (z.below.0, z.lefts);
    rights = z.rights;
    l_total = omega (arith, size-Sized l z.below.0, z.l_total);
    r_total = z.r_total;
  }
  SizedState-Step (turn_left st l k s v c z zs zv d h h') w = record {
    below = (
      (omega (arith, size-Sized c w.below.1.1, size-Sized l w.below.0), w.below.0, w.below.1.1),
      w.below.1.2,
    );
    lefts = w.lefts;
    rights = w.rights;
    l_total = w.l_total;
    r_total = w.r_total;
  }

  SizedState-Run :
      {i : ℕ} {t u : Tree V} {st su : State V} → Run i t st u su → SizedState t st → SizedState u su
  SizedState-Run (stop t st) z = z
  SizedState-Run (next s r) z = SizedState-Run r (SizedState-Step s z)

  total-append : (fs gs : List (Frame V)) → total (fs ++ gs) ≡ total fs + total gs
  total-append [] gs = omega arith
  total-append (f ∷ fs) gs = omega (arith, total-append fs gs)

  total-reverse : (fs : List (Frame V)) → total (reverse fs) ≡ total fs
  total-reverse [] = refl
  total-reverse (f ∷ fs) = rw (reverse-cons, total-append) (omega (arith, total-reverse fs))

  SizedFrames-append :
      (fs gs : List (Frame V)) → SizedFrames fs → SizedFrames gs → SizedFrames (fs ++ gs)
  SizedFrames-append [] gs h h' = h'
  SizedFrames-append (f ∷ fs) gs h h' = (h.0, SizedFrames-append fs gs h.1 h')

  SizedFrames-reverse : (fs : List (Frame V)) → SizedFrames fs → SizedFrames (reverse fs)
  SizedFrames-reverse [] h = tt
  SizedFrames-reverse (f ∷ fs) h =
      rw reverse-cons (SizedFrames-append (reverse fs) _ (SizedFrames-reverse fs h.1) (h.0, tt))

  -- The loops that correct the size fields write the number of nodes.
  Sized-close_left :
      (fs : List (Frame V)) (n : ℕ) (base : Tree V)
      → SizedFrames fs
      → Sized base
      → n ≡ total fs + count base
      → Sized (close_left fs n base) × (count (close_left fs n base) ≡ total fs + count base)
  unfolding close_left
  Sized-close_left [] n base hf hb e = (hb, omega arith)
  Sized-close_left (f ∷ fs) n base hf hb e =
      let (hs, hc) =
        Sized-close_left fs (n - (1 + size f.sub)) base hf.1 hb
          (omega (arith, size-Sized f.sub hf.0)) in
      ((omega arith, hf.0, hs), omega arith)

  Sized-close_right :
      (fs : List (Frame V)) (n : ℕ) (base : Tree V)
      → SizedFrames fs
      → Sized base
      → n ≡ total fs + count base
      → Sized (close_right fs n base) × (count (close_right fs n base) ≡ total fs + count base)
  unfolding close_right
  Sized-close_right [] n base hf hb e = (hb, omega arith)
  Sized-close_right (f ∷ fs) n base hf hb e =
      let (hs, hc) =
        Sized-close_right fs (n - (1 + size f.sub)) base hf.1 hb
          (omega (arith, size-Sized f.sub hf.0)) in
      ((omega arith, hs, hf.0), omega arith)

  Sized-assemble : (st : State V) (t : Tree V) → SizedState t st → Sized (assemble st t)
  unfolding assemble
  Sized-assemble st leaf z = tt
  Sized-assemble st (node l k s v r) z =
      let hl : st.l_size + size l ≡ total (reverse st.lefts) + count l =
        omega (arith, z.l_total, total-reverse st.lefts, size-Sized l z.below.0) in
      let hr : st.r_size + size r ≡ total (reverse st.rights) + count r =
        omega (arith, z.r_total, total-reverse st.rights, size-Sized r z.below.1) in
      let (ls, lc) =
        Sized-close_left (reverse st.lefts) _ l (SizedFrames-reverse st.lefts z.lefts) z.below.0
          hl in
      let (rs, rc) =
        Sized-close_right (reverse st.rights) _ r (SizedFrames-reverse st.rights z.rights) z.below.1
          hr in
      (omega (arith, lc, rc, hl, hr), ls, rs)

  -- `splaytree_splay` maintains the size field of every node.
  pub splay-Sized : (t : Tree V) (i : ℕ) → Sized t → Sized (splay t i)
  unfolding splay
  splay-Sized t i h =
      let (sw, run, e, d, keeps) = loop-Ends i t (start t) in
      let out = loop i t (start t) in
      let z = SizedState-Run run (record {
        below = Sized-SizedBelow t h;
        lefts = tt;
        rights = tt;
        l_total = refl;
        r_total = refl;
      }) in
      Sized-assemble out out.tree (record {
        below = z.below;
        lefts = rw e z.lefts;
        rights = rw e z.rights;
        l_total = rw e z.l_total;
        r_total = rw e z.r_total;
      })

  pub length-inorder : (t : Tree V) → length (inorder t) ≡ count t
  length-inorder leaf = refl
  length-inorder (node l k s v r) =
      omega
        (arith, length-append (inorder l) ((k, v) ∷ inorder r), length-inorder l, length-inorder r)

  -- The entry at the root.
  abbrev pub top : Tree V → Option (ℕ × V)
  top leaf = none
  top (node l k s v r) = some (k, v)

  rank_from-inorder :
      (t : Tree V) (n : ℕ) → Sized t → n < count t → top (rank_from n t) ≡ get_elem? (inorder t) n
  unfolding rank_from
  rank_from-inorder leaf n h lt = elim lt [ ]
  rank_from-inorder (node l k s v r) n h lt = elim (compare-cases n (size l)) [
    | inl (e, less) ↦
        let here : n < count l = omega (arith, size-Sized l h.1) in
        rw (e, rank_from) (rank_from-inorder l n h.1 here)
        ∙ sym (get_elem?-append_lt (inorder l) _ n (omega (arith, length-inorder l)))
    | inr (inl (e, same)) ↦
        let past =
          get_elem?-append_ge (inorder l) ((k, v) ∷ inorder r) n
            (omega (arith, length-inorder l, size-Sized l h.1)) in
        let zero_eq : n - length (inorder l) ≡ 0 =
          omega (arith, length-inorder l, size-Sized l h.1) in
        rw (e, rank_from) (sym (past ∙ ap (get_elem? ((k, v) ∷ inorder r)) zero_eq))
    | inr (inr (e, more)) ↦
        let past =
          get_elem?-append_ge (inorder l) ((k, v) ∷ inorder r) n
            (omega (arith, length-inorder l, size-Sized l h.1)) in
        let suc_eq : n - length (inorder l) ≡ suc (n - size l - 1) =
          omega (arith, length-inorder l, size-Sized l h.1) in
        rw (e, rank_from)
          (rank_from-inorder r (n - size l - 1) h.2 (omega (arith, size-Sized l h.1))
            ∙ sym (past ∙ ap (get_elem? ((k, v) ∷ inorder r)) suc_eq))
  ]

  -- `find_rank` returns the entry at that position in order, or NULL out of range.
  find_rank-inorder : (n : ℕ) (t : Tree V) → Sized t → top (find_rank n t) ≡ get_elem? (inorder t) n
  unfolding find_rank
  find_rank-inorder n t h = elim (Bool-cases (ltb n (size t))) [
    | inl e ↦ rw e (rank_from-inorder t n h (ground (arith, size-Sized t h)))
    | inr e ↦
        rw e (sym (get_elem?-ge (inorder t) n (ground (arith, size-Sized t h, length-inorder t))))
  ]
