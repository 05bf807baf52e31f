-- ===== src/Splay.antt =====
-- The splay tree of storage/src/lighttpd/src/splaytree.{h,c}. Keys are the hashes of the stat cache,
-- non-negative ints, so that `compare (i, j)`, a difference, does not overflow and has the sign of
-- the order. Sizes are below 2 ^ 31. The two trees that the loop builds at `N` are lists of frames:
-- a frame is a node whose link to the rest is still open.
pub mod Loop
pub mod Inorder
pub mod Sizes
pub mod Keys
pub mod Order
pub mod Update
mod Tests
use ylem.Base.{
  ℕ, ◌+◌, ◌-◌, Bool, true, false, Option, none, some, List, [], ◌∷◌, reverse, ltb, ◌==◌,
  if◌then◌else◌,
}
use Prim.Native.Nat.{compare, Ordering}

-- `node left key size data right`; NULL is `leaf`.
pub data Tree (V : Type 0) : Type 0 where
  leaf : Tree V
  node : Tree V → ℕ → ℕ → V → Tree V → Tree V

module _ {V : Type 0} where
  -- `node_size`
  abbrev pub size : Tree V → ℕ
  size leaf = 0
  size (node l k s v r) = s

  abbrev pub left : Tree V → Tree V
  left leaf = leaf
  left (node l k s v r) = l

  abbrev pub right : Tree V → Tree V
  right leaf = leaf
  right (node l k s v r) = r

pub record Frame (V : Type 0) : Type 0 where
  pub sub : Tree V
  pub key : ℕ
  pub old_size : ℕ
  pub val : V

-- Where the loop stands: `t`, the frames of the left and of the right tree, innermost first, and their
-- sizes so far.
pub record State (V : Type 0) : Type 0 where
  pub tree : Tree V
  pub lefts : List (Frame V)
  pub rights : List (Frame V)
  pub l_size : ℕ
  pub r_size : ℕ

module _ {V : Type 0} where
  -- "link right": the node and its right subtree go to the right tree.
  abbrev pub link_right : State V → ℕ → ℕ → V → Tree V → Tree V → State V
  link_right st k s v r next = record st {
    tree = next;
    rights = record { sub = r; key = k; old_size = s; val = v } ∷ st.rights;
    r_size = st.r_size + (1 + size r);
  }

  -- "link left"
  abbrev pub link_left : State V → ℕ → ℕ → V → Tree V → Tree V → State V
  link_left st k s v l next = record st {
    tree = next;
    lefts = record { sub = l; key = k; old_size = s; val = v } ∷ st.lefts;
    l_size = st.l_size + (1 + size l);
  }

  abbrev pub at : State V → Tree V → State V
  at st t = record st { tree = t }

  -- "rotate right": the left child comes up, and the old root gets its size anew.
  abbrev pub rotate_right : Tree V → ℕ → ℕ → V → Tree V → ℕ → V → Tree V → Tree V
  rotate_right a y ys yv b k v r = node a y ys yv (node b k (size b + size r + 1) v r)

  -- "rotate left"
  abbrev pub rotate_left : Tree V → ℕ → V → Tree V → ℕ → ℕ → V → Tree V → Tree V
  rotate_left l k v c z zs zv d = node (node l k (size l + size c + 1) v c) z zs zv d

  -- The branch `comp < 0` with a left child `node a y ys yv b`. The last two arguments go on with the
  -- loop at `a` and at the left child.
  unfoldable pub go_left :
      ℕ
      → State V
      → Tree V
      → ℕ
      → ℕ
      → V
      → Tree V
      → ℕ
      → ℕ
      → V
      → Tree V
      → (State V → State V)
      → (State V → State V)
      → State V
  go_left i st a y ys yv b k s v r deep shallow = elim (ltb i y) [
    | true ↦ below a
    | false ↦ shallow (link_right st k s v r (node a y ys yv b))
  ]
    where
      below : Tree V → State V
      below leaf = at st (rotate_right a y ys yv b k v r)
      below (node _ _ _ _ _) = deep (link_right st y ys yv (node b k (size b + size r + 1) v r) a)

  -- The branch `comp > 0` with a right child `node c z zs zv d`.
  unfoldable pub go_right :
      ℕ
      → State V
      → Tree V
      → ℕ
      → ℕ
      → V
      → Tree V
      → ℕ
      → ℕ
      → V
      → Tree V
      → (State V → State V)
      → (State V → State V)
      → State V
  go_right i st l k s v c z zs zv d deep shallow = elim (ltb z i) [
    | true ↦ below d
    | false ↦ shallow (link_left st k s v l (node c z zs zv d))
  ]
    where
      below : Tree V → State V
      below leaf = at st (rotate_left l k v c z zs zv d)
      below (node _ _ _ _ _) = deep (link_left st z zs zv (node l k (size l + size c + 1) v c) d)

  -- The loop of `splaytree_splay`; it never stands at NULL.
  unfoldable pub loop : ℕ → Tree V → State V → State V
  loop i leaf st = at st leaf
  loop i (node leaf k s v leaf) st = at st (node leaf k s v leaf)
  loop i (node (node a y ys yv b) k s v leaf) st = elim (compare i k) [
    | Ordering.lt ↦ go_left i st a y ys yv b k s v leaf (loop i a) (loop i (node a y ys yv b))
    | _ ↦ at st (node (node a y ys yv b) k s v leaf)
  ]
  loop i (node leaf k s v (node c z zs zv d)) st = elim (compare i k) [
    | Ordering.gt ↦ go_right i st leaf k s v c z zs zv d (loop i d) (loop i (node c z zs zv d))
    | _ ↦ at st (node leaf k s v (node c z zs zv d))
  ]
  loop i (node (node a y ys yv b) k s v (node c z zs zv d)) st = elim (compare i k) [
    | Ordering.lt ↦
        go_left i st a y ys yv b k s v (node c z zs zv d) (loop i a) (loop i (node a y ys yv b))
    | Ordering.gt ↦
        go_right i st (node a y ys yv b) k s v c z zs zv d (loop i d) (loop i (node c z zs zv d))
    | Ordering.eq ↦ at st (node (node a y ys yv b) k s v (node c z zs zv d))
  ]

  -- The left tree with `base` at its open link, its frames outermost first, and its sizes corrected
  -- from the size of the whole downwards.
  unfoldable pub close_left : List (Frame V) → ℕ → Tree V → Tree V
  close_left [] n base = base
  close_left (f ∷ fs) n base = node f.sub f.key n f.val (close_left fs (n - (1 + size f.sub)) base)

  unfoldable pub close_right : List (Frame V) → ℕ → Tree V → Tree V
  close_right [] n base = base
  close_right (f ∷ fs) n base =
      node (close_right fs (n - (1 + size f.sub)) base) f.key n f.val f.sub

  -- What follows the loop: sizes, and the assembly at the root.
  unfoldable pub assemble : State V → Tree V → Tree V
  assemble st leaf = leaf
  assemble st (node l k s v r) =
      let l_size = st.l_size + size l in
      let r_size = st.r_size + size r in
      node (close_left (reverse st.lefts) l_size l) k (l_size + r_size + 1) v
        (close_right (reverse st.rights) r_size r)

  abbrev pub start : Tree V → State V
  start t = record { tree = t; lefts = []; rights = []; l_size = 0; r_size = 0 }

  unfoldable pub splay : Tree V → ℕ → Tree V
  splay t i = let st = loop i t (start t) in assemble st st.tree

  -- `splaytree_insert`: a key that is there keeps its data.
  insert_at : Tree V → ℕ → V → Tree V
  insert_at leaf i w = node leaf i 1 w leaf
  insert_at (node l k s v r) i w = elim (compare i k) [
    | Ordering.eq ↦ node l k s v r
    | Ordering.lt ↦ node l i (1 + size l + (1 + size r)) w (node leaf k (1 + size r) v r)
    | Ordering.gt ↦ node (node l k (1 + size l) v leaf) i (1 + (1 + size l) + size r) w r
  ]

  unfoldable pub insert : Tree V → ℕ → V → Tree V
  unfolding insert_at
  insert t i w = insert_at (splay t i) i w

  -- `x->right = r; x->size = n` where `x` is not NULL.
  abbrev pub resize : ℕ → Tree V → Tree V
  resize n leaf = leaf
  resize n (node l k s v r) = node l k n v r

  abbrev pub set_right : Tree V → Tree V → Tree V
  set_right r leaf = leaf
  set_right r (node l k s v _) = node l k s v r

  delete_at : ℕ → Tree V → ℕ → Tree V
  delete_at tsize leaf i = leaf
  delete_at tsize (node leaf k s v r) i = if i == k then resize (tsize - 1) r else node leaf k s v r
  delete_at tsize (node (node a y ys yv b) k s v r) i =
      if i == k
      then resize (tsize - 1) (set_right r (splay (node a y ys yv b) i))
      else node (node a y ys yv b) k s v r

  unfoldable pub delete : Tree V → ℕ → Tree V
  unfolding delete_at
  delete t i = delete_at (size t) (splay t i) i

  -- The loop of `find_rank`, behind its test of the range.
  unfoldable pub rank_from : ℕ → Tree V → Tree V
  rank_from r leaf = leaf
  rank_from r (node l k s v t) = elim (compare r (size l)) [
    | Ordering.lt ↦ rank_from r l
    | Ordering.gt ↦ rank_from (r - size l - 1) t
    | Ordering.eq ↦ node l k s v t
  ]

  unfoldable pub find_rank : ℕ → Tree V → Tree V
  unfolding rank_from
  find_rank r t = if ltb r (size t) then rank_from r t else leaf
