-- ===== src/Splay/Order.antt =====
-- What splaying does for a search: the path of the loop is that of a binary search, and in an ordered
-- tree the key divides what is left and right of the new root.
use ylem.Base.{
  ℕ, ◌≡◌, refl, sym, ◌∙◌, arith, Option, none, some, inl, inr, ◌==◌, if◌then◌else◌, append_assoc,
  reverse-reverse,
}
use Prim.Native.Nat.{compare, Ordering}
use ylem.Splay.{Tree, leaf, node, left, right, State, start, loop, assemble, splay}
use ylem.Splay.Loop.{
  Step, lower_right, turn_right, lower_left, turn_left, Run, stop, next, loop-Ends, Done,
}
use ylem.Splay.Inorder.{
  inorder, left_entries, right_entries, inorder-close_left, inorder-close_right, inorder-splay,
}
use ylem.Splay.Keys.{
  AllLt, AllGt, Ascending, AllLt-append, AllGt-append, AllLt-mono, AllGt-mono, Ascending-split,
}

module _ {V : Type 0} where
  -- A binary search.
  unfoldable pub search : ℕ → Tree V → Option V
  search i leaf = none
  search i (node l k s v r) = elim (compare i k) [
    | Ordering.lt ↦ search i l
    | Ordering.eq ↦ some v
    | Ordering.gt ↦ search i r
  ]

  -- The data at the root, if the key is there.
  abbrev pub at_root : ℕ → Tree V → Option V
  at_root i leaf = none
  at_root i (node l k s v r) = if i == k then some v else none

  search-Step :
      {i : ℕ} {t u : Tree V} {st su : State V} → Step i t st u su → search i t ≡ search i u
  unfolding search
  search-Step (lower_right st l k s v r h) = ground arith
  search-Step (turn_right st a y ys yv b k s v r h h') = ground arith
  search-Step (lower_left st l k s v r h) = ground arith
  search-Step (turn_left st l k s v c z zs zv d h h') = ground arith

  search-Run : {i : ℕ} {t u : Tree V} {st su : State V} → Run i t st u su → search i t ≡ search i u
  search-Run (stop t st) = refl
  search-Run (next s r) = search-Step s ∙ search-Run r

  search-Done : (i : ℕ) (t : Tree V) → Done i t → search i t ≡ at_root i t
  unfolding search
  search-Done i leaf d = refl
  search-Done i (node leaf k s v leaf) d = ground arith
  search-Done i (node (node a y ys yv b) k s v leaf) d = ground arith
  search-Done i (node leaf k s v (node c z zs zv e)) d = ground arith
  search-Done i (node (node a y ys yv b) k s v (node c z zs zv e)) d = ground arith

  at_root-assemble : (i : ℕ) (st : State V) (t : Tree V) → at_root i (assemble st t) ≡ at_root i t
  unfolding assemble
  at_root-assemble i st leaf = refl
  at_root-assemble i st (node l k s v r) = refl

  -- After `splaytree_splay` the root alone answers a search for the key: it carries the data that a
  -- binary search of the old tree finds, and another key when the search fails.
  at_root-splay : (t : Tree V) (i : ℕ) → at_root i (splay t i) ≡ search i t
  unfolding splay
  at_root-splay t i =
      let (sw, run, e, d, keeps) = loop-Ends i t (start t) in
      let out = loop i t (start t) in
      at_root-assemble i out out.tree ∙ sym (search-Done i out.tree d) ∙ sym (search-Run run)

  abbrev pub Ordered : Tree V → Type 0
  Ordered t = Ascending (inorder t)

  record DividedState (i : ℕ) (t : Tree V) (st : State V) : Type 0 where
    ordered : Ordered t
    lower : AllLt i (left_entries st.lefts)
    upper : AllGt i (right_entries st.rights)

  DividedState-Step :
      {t u : Tree V} {st su : State V} (i : ℕ)
      → Step i t st u su
      → DividedState i t st
      → DividedState i u su
  DividedState-Step i (lower_right st l k s v r h) z =
      let (a, b, c, d) = Ascending-split (inorder l) k v (inorder r) z.ordered in
      record {
        ordered = a;
        lower = z.lower;
        upper = (h, AllGt-append i (inorder r) _ (AllGt-mono k i (inorder r) h c) z.upper);
      }
  DividedState-Step i (turn_right st a y ys yv b k s v r h h') z = record {
    ordered = rw append_assoc at z.ordered;
    lower = z.lower;
    upper = z.upper;
  }
  DividedState-Step i (lower_left st l k s v r h) z =
      let (a, b, c, d) = Ascending-split (inorder l) k v (inorder r) z.ordered in
      record {
        ordered = d;
        lower =
            AllLt-append i (left_entries st.lefts) _ z.lower
              (AllLt-append i (inorder l) _ (AllLt-mono k i (inorder l) h b) (h, tt));
        upper = z.upper;
      }
  DividedState-Step i (turn_left st l k s v c z zs zv d h h') w = record {
    ordered = rw append_assoc w.ordered;
    lower = w.lower;
    upper = w.upper;
  }

  DividedState-Run :
      (i : ℕ) {t u : Tree V} {st su : State V}
      → Run i t st u su
      → DividedState i t st
      → DividedState i u su
  DividedState-Run i (stop t st) z = z
  DividedState-Run i (next s r) z = DividedState-Run i r (DividedState-Step i s z)

  -- The subtrees of the root lie below and above the key.
  abbrev pub Divided : ℕ → Tree V → Type 0
  Divided i t = AllLt i (inorder (left t)) × AllGt i (inorder (right t))

  Divided-Done : (i : ℕ) (t : Tree V) → Done i t → Ordered t → Divided i t
  Divided-Done i leaf d o = (tt, tt)
  Divided-Done i (node l k s v r) d o =
      let (a, b, c, e) = Ascending-split (inorder l) k v (inorder r) o in
      elim d [
        | inl same ↦ rw same (b, c)
        | inr (inl (lt, none_left)) ↦ (rw none_left tt, AllGt-mono k i (inorder r) lt c)
        | inr (inr (gt, none_right)) ↦ (AllLt-mono k i (inorder l) gt b, rw none_right tt)
      ]

  Divided-assemble :
      (i : ℕ) (st : State V) (t : Tree V)
      → DividedState i t st
      → Divided i t
      → Divided i (assemble st t)
  unfolding assemble
  Divided-assemble i st leaf z d = d
  Divided-assemble i st (node l k s v r) z d = (
    rw (inorder-close_left, reverse-reverse) (AllLt-append i _ (inorder l) z.lower d.0),
    rw (inorder-close_right, reverse-reverse) (AllGt-append i (inorder r) _ d.1 z.upper),
  )

  -- In an ordered tree, splaying leaves all smaller keys to the left of the root and all greater ones
  -- to the right of it, and the tree ordered, whether or not the key is in the tree.
  pub splay-Divided : (t : Tree V) (i : ℕ) → Ordered t → Divided i (splay t i) × Ordered (splay t i)
  splay-Divided t i o =
      let (sw, run, e, d, keeps) = loop-Ends i t (start t) in
      let out = loop i t (start t) in
      let z = DividedState-Run i run (record { ordered = o; lower = tt; upper = tt }) in
      let zo : DividedState i out.tree out = record {
        ordered = z.ordered;
        lower = rw e z.lower;
        upper = rw e z.upper;
      } in
      (
        unfold splay in Divided-assemble i out out.tree zo (Divided-Done i out.tree d z.ordered),
        rw inorder-splay o,
      )
