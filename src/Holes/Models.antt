-- ===== src/Holes/Models.antt =====
-- Concrete parameters for the tests: a search tree without balancing, a file as a function, and a
-- kernel that keeps its one file in memory.
use ocfs2_test.Common.{
  ℕ, ◌-◌, ◌≡◌, refl, ◌∙◌, sym, ap, true, ◌∷◌, ◌++◌, append_assoc, append-nil, length, min, leb, ltb,
  ◌+◌, ◌&&◌, if◌then◌else◌,
}
use ocfs2_test.Kernel.{Kernel, Read, bytes, Written, wrote, splice, Stores}
use ocfs2_test.Holes.Tree.{
  Tree, empty, node, Context, root, in_left, in_right, inorder, before, after, RbTree,
}
use ocfs2_test.Holes.Check.{slice, Reads}

-- The tree with `t` at the position.
abbrev pub plug : Context → Tree → Tree
plug root t = t
plug (in_left c x r) t = plug c (node t x r)
plug (in_right l x c) t = plug c (node l x t)

-- `r` hung below the last node of `l`.
abbrev pub join : Tree → Tree → Tree
join empty r = r
join (node a x b) r = node a x (join b r)

pub inorder-plug :
    (c : Context) (t : Tree) → inorder (plug c t) ≡ before c ++ (inorder t ++ after c)
inorder-plug root t = sym (append-nil (inorder t))
inorder-plug (in_left c x r) t =
    inorder-plug c (node t x r)
    ∙ ap (λ xs. before c ++ xs) (append_assoc (inorder t) (x ∷ inorder r) (after c))
inorder-plug (in_right l x c) t = inorder-plug c (node l x t) ∙ simp append_assoc

inorder-join : (l r : Tree) → inorder (join l r) ≡ inorder l ++ inorder r
inorder-join empty r = refl
inorder-join (node a x b) r = rw (inorder-join b r) (simp append_assoc)

pub erase-inorder :
    (c : Context) (l r : Tree)
    → inorder (plug c (join l r)) ≡ before c ++ (inorder l ++ (inorder r ++ after c))
erase-inorder c l r = inorder-plug c (join l r) ∙ rw (inorder-join l r) (simp append_assoc)

abbrev pub plain_tree : RbTree
plain_tree = record {
  erase = λ c l r. plug c (join l r);
  insert_color = λ c x. plug c (node empty x empty);
  inorder-erase = erase-inorder;
  inorder-insert_color = λ c x. inorder-plug c (node empty x empty);
}

-- A `pread` of a file of `size` bytes.
abbrev pub read_of : (ℕ → ℕ) → ℕ → ℕ → ℕ → Read
read_of file size count off = bytes (slice file off (min count (size - off)))

pub read_of-Reads : (file : ℕ → ℕ) (size : ℕ) → Reads (read_of file size) file size
read_of-Reads file size = record { reads = λ count off. refl }

-- A kernel whose disk is the contents of the file.
abbrev pub memory : Kernel
memory = record {
  Disk = ℕ → ℕ;
  pwrite = λ buf off d. (wrote (length buf), splice d off buf);
  pread = λ count off d. bytes (slice d off count);
  mmap_set = λ buf off d. splice d off buf;
  io_setup = λ n d. (true, d);
  io_submit = λ cb d. (true, d);
  io_destroy = λ d. (true, d);
  io_getevents = λ lo hi d. (wrote hi, d);
  resvsp = λ off len d. (true, d);
  unresvsp = λ off len d. (true, λ p. if leb off p && ltb p (off + len) then 0 else d p);
  ftruncate = λ size d. (true, d);
  fsync = λ d. d;
}

pub memory-Stores : Stores memory (λ d. d)
memory-Stores = record {
  pwrite_full = λ buf off n d d' e p. ap (λ (x : Written × (ℕ → ℕ)). x.1 p) (sym e);
  mmap_full = λ buf off d p. refl;
  unresvsp_zero = λ off len d d' e p. ap (λ x. x.1 p) (sym e);
}
