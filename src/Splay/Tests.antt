-- ===== src/Splay/Tests.antt =====
-- Runs of the splay tree, and its theorems at concrete trees.
use ylem.Base.{ℕ, ◌≡◌, refl, arith}
use ylem.Splay.{
  Tree, leaf, node, splay, insert, delete, loop, go_left, assemble, close_left, close_right,
}
use ylem.Splay.Inorder.{inorder}
use ylem.Splay.Keys.{insert_entry, remove_entry}
use ylem.Splay.Order.{Divided, Ordered, splay-Divided}
use ylem.Splay.Sizes.{Sized}
use ylem.Splay.Update.{inorder-insert, inorder-delete}

-- 10 below 20 below 30, a path to the left; the data are the keys' tens.
abbrev path : Tree ℕ
path = node (node (node leaf 10 1 1 leaf) 20 2 2 leaf) 30 3 3 leaf

path-Sized : Sized path
path-Sized = omega arith

path-Ordered : Ordered path
path-Ordered = omega arith

splay_first : splay path 10 ≡ node leaf 10 3 1 (node leaf 20 2 2 (node leaf 30 1 3 leaf))
unfolding splay loop go_left assemble close_left close_right
splay_first = refl

splay_missing : splay path 25 ≡ node (node leaf 10 1 1 leaf) 20 3 2 (node leaf 30 1 3 leaf)
unfolding splay loop go_left assemble close_left close_right
splay_missing = refl

splay-Divided_example : Divided 25 (splay path 25) × Ordered (splay path 25)
splay-Divided_example = splay-Divided path 25 path-Ordered

inorder-insert_example : inorder (insert path 25 9) ≡ insert_entry 25 9 (inorder path)
inorder-insert_example = inorder-insert path 25 9 path-Ordered

inorder-delete_example : inorder (delete path 20) ≡ remove_entry 20 (inorder path)
inorder-delete_example = inorder-delete path 20 path-Ordered
