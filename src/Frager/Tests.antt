-- ===== src/Frager/Tests.antt =====
-- The theorems about frager.c at concrete inputs.
use ocfs2_test.Common.{ℕ, ◌+◌, ◌%◌, ◌≡◌, refl, true, List, [], ◌∷◌, ok, arith}
use ocfs2_test.FileVerify.Prepare.{get_rand_ul}
use ocfs2_test.Frager.Order.{write_order, place_chunk, place_chunks}
use ocfs2_test.Frager.Order.Count.{EachOnce}
use ocfs2_test.Frager.Order.Laws.{Fair, write_order_lem}
use ocfs2_test.FileVerify.SlowDisk.{counting}

counting-Fair : Fair counting 3 2
counting-Fair = record { drawn = λ r v low. ((v + r) % 2, omega arith, omega arith) }

-- Chunk 1 is written last.
random_order : write_order counting 2 true 3 1 ≡ ok (0 ∷ 2 ∷ 1 ∷ [], 3)
unfolding write_order place_chunks place_chunk get_rand_ul
random_order = refl

write_order_lem_example :
    (order : List ℕ) × (r' : ℕ) × (write_order counting 2 true 3 1 ≡ ok (order, r'))
    × EachOnce 3 order
write_order_lem_example =
    write_order_lem counting 3 2 counting-Fair (omega arith) true 1 (omega arith)
