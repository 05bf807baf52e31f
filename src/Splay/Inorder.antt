-- ===== src/Splay/Inorder.antt =====
-- The entries of a splay tree from left to right: splaying keeps them.
use mathlib.Core.List.{reverse-cons}
use ylem.Base.{
  ℕ, ◌≡◌, refl, sym, ap, ◌∙◌, List, [], ◌∷◌, ◌++◌, reverse, append-nil, append_assoc,
  reverse-reverse,
}
use ylem.Splay.{
  Tree, leaf, node, Frame, State, start, loop, close_left, close_right, assemble, splay,
}
use ylem.Splay.Loop.{
  Step, lower_right, turn_right, lower_left, turn_left, Run, stop, next, loop-Ends, IsNode,
}

module _ {V : Type 0} where
  abbrev pub inorder : Tree V → List (ℕ × V)
  inorder leaf = []
  inorder (node l k s v r) = inorder l ++ (k, v) ∷ inorder r

  -- The entries of the frames, which are stored innermost first.
  abbrev pub left_entries : List (Frame V) → List (ℕ × V)
  left_entries [] = []
  left_entries (f ∷ fs) = left_entries fs ++ (inorder f.sub ++ (f.key, f.val) ∷ [])

  abbrev pub right_entries : List (Frame V) → List (ℕ × V)
  right_entries [] = []
  right_entries (f ∷ fs) = ((f.key, f.val) ∷ inorder f.sub) ++ right_entries fs

  abbrev pub entries : Tree V → State V → List (ℕ × V)
  entries t st = left_entries st.lefts ++ (inorder t ++ right_entries st.rights)

  entries-Step :
      {i : ℕ} {t u : Tree V} {st su : State V} → Step i t st u su → entries t st ≡ entries u su
  entries-Step (lower_right st l k s v r h) = simp (append_assoc)
  entries-Step (turn_right st a y ys yv b k s v r h h') = simp (append_assoc)
  entries-Step (lower_left st l k s v r h) = simp (append_assoc)
  entries-Step (turn_left st l k s v c z zs zv d h h') = simp (append_assoc)

  pub entries-Run :
      {i : ℕ} {t u : Tree V} {st su : State V} → Run i t st u su → entries t st ≡ entries u su
  entries-Run (stop t st) = refl
  entries-Run (next s r) = entries-Step s ∙ entries-Run r

  left_entries-append :
      (fs gs : List (Frame V)) → left_entries (fs ++ gs) ≡ left_entries gs ++ left_entries fs
  left_entries-append [] gs = rw append-nil
  left_entries-append (f ∷ fs) gs = rw (left_entries-append fs gs, append_assoc)

  right_entries-append :
      (fs gs : List (Frame V)) → right_entries (fs ++ gs) ≡ right_entries fs ++ right_entries gs
  right_entries-append [] gs = refl
  right_entries-append (f ∷ fs) gs = simp (right_entries-append fs gs, append_assoc)

  pub inorder-close_left :
      (fs : List (Frame V)) (n : ℕ) (base : Tree V)
      → inorder (close_left fs n base) ≡ left_entries (reverse fs) ++ inorder base
  unfolding close_left
  inorder-close_left [] n base = refl
  inorder-close_left (f ∷ fs) n base =
      ap (λ t. inorder f.sub ++ (f.key, f.val) ∷ t) (inorder-close_left fs _ base)
      ∙ simp (reverse-cons, left_entries-append, append_assoc)

  pub inorder-close_right :
      (fs : List (Frame V)) (n : ℕ) (base : Tree V)
      → inorder (close_right fs n base) ≡ inorder base ++ right_entries (reverse fs)
  unfolding close_right
  inorder-close_right [] n base = rw append-nil
  inorder-close_right (f ∷ fs) n base =
      ap (λ t. t ++ (f.key, f.val) ∷ inorder f.sub) (inorder-close_right fs _ base)
      ∙ simp (reverse-cons, right_entries-append, append_assoc, append-nil)

  inorder-assemble : (st : State V) (t : Tree V) → IsNode t → inorder (assemble st t) ≡ entries t st
  unfolding assemble
  inorder-assemble st leaf n = absurd n
  inorder-assemble st (node l k s v r) n =
      simp (inorder-close_left, inorder-close_right, reverse-reverse, append_assoc)

  -- `splaytree_splay` keeps every entry, in order, whether or not the key is in the tree.
  pub inorder-splay : (t : Tree V) (i : ℕ) → inorder (splay t i) ≡ inorder t
  unfolding splay
  inorder-splay leaf i = unfold loop assemble in refl
  inorder-splay (node l k s v r) i =
      let (sw, run, e, d, keeps) = loop-Ends i (node l k s v r) (start (node l k s v r)) in
      let out = loop i (node l k s v r) (start (node l k s v r)) in
      inorder-assemble out out.tree (keeps tt)
      ∙ ap (entries out.tree) e
      ∙ sym (entries-Run run)
      ∙ append-nil (inorder l ++ (k, v) ∷ inorder r)
