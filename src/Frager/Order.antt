-- ===== src/Frager/Order.antt =====
-- The order in which `append_write_file` of frager.c writes the chunks.
pub mod Count
pub mod Laws
use ocfs2_test.FileVerify.Prepare.{get_rand_ul}
use ocfs2_test.Common.{
  ℕ, zero, suc, ◌+◌, ◌-◌, ◌%◌, Bool, true, false, ◌&&◌, List, [], ◌∷◌, ◌==◌, if◌then◌else◌, get_or,
  set, replicate, sub64, Result, ok, aborted, out_of_fuel, ◌>>=◌,
}

-- `again`: the next free place of the map gets `i`. Each draw takes one unit of fuel.
unfoldable pub place_chunk : (ℕ → ℕ) → ℕ → ℕ → List ℕ → ℕ → ℕ → Result (List ℕ × ℕ)
place_chunk stream n zero map i r = out_of_fuel
place_chunk stream n (suc f) map i r =
    let index = get_rand_ul stream r 1 (sub64 n 1) in
    let rest = place_chunk stream n f map i (suc r) in
    if get_or map index 0 == 0 then ok (set map index i, suc r) else rest

-- The loop over the chunks from `i` on, of which `m` are left; `f` draws for each.
unfoldable pub place_chunks : (ℕ → ℕ) → ℕ → ℕ → List ℕ → ℕ → ℕ → ℕ → Result (List ℕ × ℕ)
place_chunks stream n f map i zero r = ok (map, r)
place_chunks stream n f map i (suc m) r =
    place_chunk stream n f map i r >>= λ (map', r'). place_chunks stream n f map' (suc i) m r'

-- `for (i = 0; i < num_chunks; i++) write_order_map[i] = i`, from `i` on.
unfoldable pub in_order : ℕ → ℕ → List ℕ
in_order i zero = []
in_order i (suc m) = i ∷ in_order (suc i) m

-- `write_order_map` for a number of chunks, and the calls of `rand()` after it. In random mode
-- `write_order_map[0]` is written, which a map of no chunks has not.
unfoldable pub write_order : (ℕ → ℕ) → ℕ → Bool → ℕ → ℕ → Result (List ℕ × ℕ)
write_order stream f false n r = ok (in_order 0 n, r)
write_order stream f true n r =
    let first = set (replicate n 0) 0 0 in
    if n == 0 then aborted else place_chunks stream n f first 1 (n - 1) r
