-- ===== src/Holes/Tree.antt =====
-- The red-black tree that verify_holes keeps its extents in. Its balancing is the kernel's
-- `kernel-rbtree.h`, which is not part of the repository: `rb_erase` and `rb_insert_color` are
-- parameters with the one thing that the callers rely on, that they keep the order of the nodes.
use ocfs2_test.Common.{List, [], ◌∷◌, ◌++◌, ◌≡◌}
use ocfs2_test.Holes.{WriteUnit}

-- `struct rb_node`, with the `struct file_chunk` that `rb_entry` finds around it.
pub data Tree : Type 0 where
  empty : Tree
  node : Tree → WriteUnit → Tree → Tree

-- Where a descent from the root stands: for each step the side that was taken (`rb_left` or
-- `rb_right`), the node that was left behind and its other subtree, the last step first.
pub data Context : Type 0 where
  root : Context
  in_left : Context → WriteUnit → Tree → Context
  in_right : Tree → WriteUnit → Context → Context

abbrev pub inorder : Tree → List WriteUnit
inorder empty = []
inorder (node l x r) = inorder l ++ (x ∷ inorder r)

-- The nodes before and after the position, in the order of the tree.
abbrev pub before : Context → List WriteUnit
before root = []
before (in_left c x r) = before c
before (in_right l x c) = before c ++ (inorder l ++ (x ∷ []))

abbrev pub after : Context → List WriteUnit
after root = []
after (in_left c x r) = x ∷ (inorder r ++ after c)
after (in_right l x c) = after c

-- `erase c l r` is the tree after `rb_erase` of the node at `c` with the subtrees `l` and `r`;
-- `insert_color c x` the tree after `rb_link_node` of `x` at `c` and `rb_insert_color`.
pub record RbTree : Type 0 where
  pub erase : Context → Tree → Tree → Tree
  pub insert_color : Context → WriteUnit → Tree
  pub inorder-erase :
      (c : Context) (l r : Tree)
      → inorder (erase c l r) ≡ before c ++ (inorder l ++ (inorder r ++ after c))
  pub inorder-insert_color :
      (c : Context) (x : WriteUnit) → inorder (insert_color c x) ≡ before c ++ (x ∷ after c)
