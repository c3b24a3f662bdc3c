-- ===== src/Holes/Verify.antt =====
-- programs/fill_verify_holes/verify_holes.c: the extents that a write log leaves, and their check
-- against the file.
pub mod Search
pub mod Place
pub mod Part
pub mod Inner
pub mod Shrink
pub mod Passes
pub mod Insert
use ocfs2_test.Common.{
  ℕ, zero, suc, ◌+◌, ◌-◌, ◌≤◌, ◌<◌, ◌%◌, ◌^◌, ◌≡◌, Bool, true, false, ◌&&◌, Option, none, some,
  List, [], ◌∷◌, leb, ltb, ◌==◌, if◌then◌else◌, length, Result, ok, failed, aborted, out_of_fuel,
  ◌>>=◌,
}
use ocfs2_test.Holes.{WriteUnit, max_write_size, magic_hole_char, add64, sub64, to_u32}
use ocfs2_test.Holes.Tree.{Tree, empty, node, Context, root, in_left, in_right, inorder, RbTree}

-- The branches of the `while (*p)` loop of `vh_insert_chunk`.
pub data Overlap : Type 0 where
  encompasses splits straddles_left straddles_right goes_left goes_right : Overlap

-- The tests of the loop, for a chunk `[off, end)` at a node `[tmpoff, tmpend)`.
unfoldable pub overlap : ℕ → ℕ → ℕ → ℕ → Overlap
overlap off end tmpoff tmpend =
    if leb off tmpoff && leb tmpend end
    then encompasses
    else if ltb tmpoff off && ltb end tmpend
    then splits
    else if leb off tmpoff && (leb end tmpend && ltb tmpoff end)
    then straddles_left
    else if ltb tmpoff off && (ltb off tmpend && leb tmpend end)
    then straddles_right
    else if ltb off tmpoff
    then goes_left
    else goes_right

-- Where the descent stops: at a null link, or at a node that overlaps the chunk.
pub data Stop : Type 0 where
  slot : Context → Stop
  hit : Overlap → Context → Tree → WriteUnit → Tree → Stop

-- `while (*p)`: from the subtree at `c`.
unfoldable pub descend : ℕ → ℕ → Tree → Context → Stop
descend off end empty c = slot c
descend off end (node l x r) c = elim (overlap off end x.offset (add64 x.offset x.len)) [
  | goes_left ↦ descend off end l (in_left c x r)
  | goes_right ↦ descend off end r (in_right l x c)
  | o ↦ hit o c l x r
]

-- `chunk_root` and `recurse_level`.
pub record State : Type 0 where
  pub chunk_root : Tree
  pub recurse_level : ℕ

-- The head of `vh_insert_chunk`.
unfoldable pub enter : State → Result State
enter s =
    let s' = record s { recurse_level = s.recurse_level + 1 } in
    if ltb 2 s'.recurse_level then aborted else ok s'

-- An extent cut to what lies before `off`, and to what lies from `end` on.
unfoldable pub cut_before : ℕ → WriteUnit → WriteUnit
cut_before off x = record x { len = to_u32 (sub64 off x.offset) }

unfoldable pub cut_after : ℕ → WriteUnit → WriteUnit
cut_after end x = record x { offset = end; len = to_u32 (sub64 (add64 x.offset x.len) end) }

module _ (rb : RbTree) where
  abbrev erased : State → Context → Tree → Tree → State
  erased s c l r = record s { chunk_root = rb.erase c l r }

  -- `vh_insert_chunk` from `restart_search` on. Each `goto restart_search` and each inner call of
  -- the function takes one unit of fuel.
  unfoldable pub restart : ℕ → State → WriteUnit → Result State
  restart zero s chunk = out_of_fuel
  restart (suc f) s chunk =
      let off = chunk.offset in
      let end = add64 off chunk.len in
      elim (descend off end s.chunk_root root) [
        | slot c ↦
            ok
              (record { chunk_root = rb.insert_color c chunk; recurse_level = s.recurse_level - 1 })
        | hit splits c l x r ↦
            (enter (erased s c l r) >>= λ s1. restart f s1 (cut_before off x) >>= λ s2.
            enter s2 >>= λ s3. restart f s3 (cut_after end x) >>= λ s4. restart f s4 chunk)
        | hit straddles_left c l x r ↦
            (enter (erased s c l r) >>= λ s1.
            restart f s1 (cut_after end x) >>= λ s2. restart f s2 chunk)
        | hit straddles_right c l x r ↦
            (enter (erased s c l r) >>= λ s1.
            restart f s1 (cut_before off x) >>= λ s2. restart f s2 chunk)
        | hit o c l x r ↦ restart f (erased s c l r) chunk
      ]

  -- The fuel is one more than the inner calls and restarts that there can be.
  unfoldable pub insert_chunk : State → WriteUnit → Result State
  insert_chunk s chunk = enter s >>= λ s1. restart (length (inorder s.chunk_root) + 3) s1 chunk
