-- ===== src/Splay/Update.antt =====
-- Insertion and deletion against the ascending list of entries, and their sizes.
use ylem.Base.{
  ℕ, ◌-◌, ◌≡◌, ◌≢◌, refl, sym, ap, ◌∙◌, List, [], ◌∷◌, ◌++◌, arith, ◌==◌, if◌then◌else◌,
  compare-cases, inl, inr, append_assoc, length, length-append,
}
use Prim.Native.Nat.{compare, Ordering}
use ylem.Splay.{
  Tree, leaf, node, size, resize, set_right, insert_at, insert, delete_at, delete, splay,
}
use ylem.Splay.Inorder.{inorder, inorder-splay}
use ylem.Splay.Sizes.{Sized, count, size-Sized, splay-Sized, length-inorder}
use ylem.Splay.Order.{Ordered, Divided, splay-Divided}
use ylem.Splay.Keys.{
  AllLt, AllGt, Ascending-split, insert_entry, insert_entry-skip, insert_entry-front, remove_entry,
  remove_entry-lt, remove_entry-gt, remove_entry-append, AllLt-AllGt-nil, AllLt-append_parts,
}

module _ {V : Type 0} where
  inorder-insert_at :
      (t : Tree V) (i : ℕ) (w : V)
      → Divided i t
      → inorder (insert_at t i w) ≡ insert_entry i w (inorder t)
  unfolding insert_at
  inorder-insert_at leaf i w d = unfold insert_entry in refl
  inorder-insert_at (node l k s v r) i w d = elim (compare-cases i k) [
    | inl (e, lt) ↦
        rw (e, insert_at, insert_entry-skip i w (inorder l) ((k, v) ∷ inorder r) d.0)
          (ap (λ t. inorder l ++ t) (unfold insert_entry in rw (e, insert_entry)))
    | inr (inl (e, same)) ↦
        rw (e, insert_at, insert_entry-skip i w (inorder l) ((k, v) ∷ inorder r) d.0)
          (ap (λ t. inorder l ++ t) (unfold insert_entry in rw (e, insert_entry)))
    | inr (inr (e, gt)) ↦
        rw (e, insert_at, insert_entry-skip i w (inorder l) ((k, v) ∷ inorder r) d.0, append_assoc)
          (ap (λ t. inorder l ++ t) (behind e))
  ]
    where
      behind :
          compare i k ≡ Ordering.gt
          → (k, v) ∷ (i, w) ∷ inorder r ≡ insert_entry i w ((k, v) ∷ inorder r)
      behind e =
          ap (λ t. (k, v) ∷ t) (sym (insert_entry-front i w (inorder r) d.1))
          ∙ sym (unfold insert_entry in rw (e, insert_entry))

  -- On an ordered tree `splaytree_insert` is the insertion into the ascending list of its entries: a
  -- new key goes to its place, and a key that is there keeps its data.
  pub inorder-insert :
      (t : Tree V) (i : ℕ) (w : V)
      → Ordered t
      → inorder (insert t i w) ≡ insert_entry i w (inorder t)
  unfolding insert
  inorder-insert t i w o =
      inorder-insert_at (splay t i) i w (splay-Divided t i o).0
      ∙ ap (insert_entry i w) (inorder-splay t i)

  insert_at-Sized : (t : Tree V) (i : ℕ) (w : V) → Sized t → Sized (insert_at t i w)
  unfolding insert_at
  insert_at-Sized leaf i w h = (refl, tt, tt)
  insert_at-Sized (node l k s v r) i w h =
      ground (arith, compare-cases i k, size-Sized l h.1, size-Sized r h.2)

  pub insert-Sized : (t : Tree V) (i : ℕ) (w : V) → Sized t → Sized (insert t i w)
  insert-Sized t i w h = unfold insert in insert_at-Sized (splay t i) i w (splay-Sized t i h)

  -- Removing a key from a tree that it divides.
  remove-Divided :
      (i : ℕ) (xs : List (ℕ × V)) (k : ℕ) (v : V) (ys : List (ℕ × V))
      → AllLt i xs
      → AllGt i ys
      → remove_entry i (xs ++ (k, v) ∷ ys) ≡ (if i == k then xs ++ ys else xs ++ (k, v) ∷ ys)
  remove-Divided i xs k v ys lt gt =
      rw (remove_entry-append, remove_entry-lt i xs lt)
        (unfold remove_entry in ground (arith, remove_entry-gt i ys gt))

  inorder-resize : (n : ℕ) (t : Tree V) → inorder (resize n t) ≡ inorder t
  inorder-resize n leaf = refl
  inorder-resize n (node l k s v r) = refl

  inorder-nil : (t : Tree V) → inorder t ≡ [] → t ≡ leaf
  inorder-nil leaf h = refl
  inorder-nil (node leaf k s v r) h = absurd (cc h)
  inorder-nil (node (node a y ys yv b) k s v r) h =
      absurd (append_ne (inorder (node a y ys yv b)) (k, v) (inorder r) h)
    where
      append_ne : (xs : List (ℕ × V)) (x : ℕ × V) (ys : List (ℕ × V)) → xs ++ x ∷ ys ≡ [] → ⊥
      append_ne [] x ys h = cc h
      append_ne (z ∷ xs) x ys h = cc h

  -- `x->right = t->right` loses nothing: with every key smaller, the splayed tree has no right child.
  inorder-set_right :
      (t r : Tree V) (i : ℕ)
      → Ordered t
      → AllLt i (inorder t)
      → t ≢ leaf
      → inorder (set_right r (splay t i)) ≡ inorder t ++ inorder r
  inorder-set_right t r i o lt ne = go (splay t i) (splay-Divided t i o).0 (inorder-splay t i)
    where
      go :
          (x : Tree V)
          → Divided i x
          → inorder x ≡ inorder t
          → inorder (set_right r x) ≡ inorder t ++ inorder r
      go leaf d e = absurd (ne (inorder-nil t (sym e)))
      go (node l k s v u) d e =
          let below : AllLt i (inorder l ++ (k, v) ∷ inorder u) = rw e lt in
          let (_, right_below) = AllLt-append_parts i (inorder l) ((k, v) ∷ inorder u) below in
          let none_right = AllLt-AllGt-nil i (inorder u) right_below.1 d.1 in
          rw (← e, none_right, append_assoc) refl

  inorder-delete_at :
      (n : ℕ) (t : Tree V) (i : ℕ)
      → Divided i t
      → Ordered t
      → inorder (delete_at n t i) ≡ remove_entry i (inorder t)
  unfolding delete_at
  inorder-delete_at n leaf i d o = unfold remove_entry in refl
  inorder-delete_at n (node leaf k s v r) i d o =
      ground (arith, remove-Divided i [] k v (inorder r) tt d.1, inorder-resize (n - 1) r)
  inorder-delete_at n (node (node a y ys yv b) k s v r) i d o =
      let l : Tree V = node a y ys yv b in
      let (ol, _, _, _) = Ascending-split (inorder l) k v (inorder r) o in
      ground (
        arith,
        remove-Divided i (inorder l) k v (inorder r) d.0 d.1,
        inorder-resize (n - 1) (set_right r (splay l i)),
        inorder-set_right l r i ol d.0 (λ e. cc e),
      )

  -- On an ordered tree `splaytree_delete` removes exactly the entry with the key, if there is one.
  pub inorder-delete :
      (t : Tree V) (i : ℕ) → Ordered t → inorder (delete t i) ≡ remove_entry i (inorder t)
  unfolding delete
  inorder-delete t i o =
      let (d, os) = splay-Divided t i o in
      inorder-delete_at (size t) (splay t i) i d os ∙ ap (remove_entry i) (inorder-splay t i)

  count-inorder : (t u : Tree V) → inorder t ≡ inorder u → count t ≡ count u
  count-inorder t u e = sym (length-inorder t) ∙ ap length e ∙ length-inorder u

  Sized-resize : (n : ℕ) (t : Tree V) → Sized t → n ≡ count t → Sized (resize n t)
  Sized-resize n leaf h e = tt
  Sized-resize n (node l k s v r) h e = (e, h.1, h.2)

  Sized-set_right :
      (n : ℕ) (x r : Tree V)
      → Sized x
      → Sized r
      → n ≡ count (set_right r x)
      → Sized (resize n (set_right r x))
  Sized-set_right n leaf r h hr e = tt
  Sized-set_right n (node l k s v u) r h hr e = (e, h.1, hr)

  delete_at-Sized :
      (n : ℕ) (t : Tree V) (i : ℕ)
      → Sized t
      → Divided i t
      → Ordered t
      → n ≡ count t
      → Sized (delete_at n t i)
  unfolding delete_at
  delete_at-Sized n leaf i h d o e = tt
  delete_at-Sized n (node leaf k s v r) i h d o e =
      ground (arith, Sized-resize (n - 1) r h.2 (omega arith))
  delete_at-Sized n (node (node a y ys yv b) k s v r) i h d o e =
      let l : Tree V = node a y ys yv b in
      let (ol, _, _, _) = Ascending-split (inorder l) k v (inorder r) o in
      let kept = inorder-set_right l r i ol d.0 (λ e. cc e) in
      let counted : n - 1 ≡ count (set_right r (splay l i)) = omega (
        arith,
        ap length kept,
        length-inorder (set_right r (splay l i)),
        length-append (inorder l) (inorder r),
        length-inorder l,
        length-inorder r,
      ) in
      ground (arith, Sized-set_right (n - 1) (splay l i) r (splay-Sized l i h.1) h.2 counted)

  -- `splaytree_delete` keeps every size field right, that of the new root too, which it takes from
  -- the old size of the tree.
  pub delete-Sized : (t : Tree V) (i : ℕ) → Sized t → Ordered t → Sized (delete t i)
  unfolding delete
  delete-Sized t i h o =
      let (d, os) = splay-Divided t i o in
      delete_at-Sized (size t) (splay t i) i (splay-Sized t i h) d os
        (size-Sized t h ∙ count-inorder t (splay t i) (sym (inorder-splay t i)))
