-- ===== src/Frager/Units.antt =====
-- The write units of a run of frager.c, as a sequence of writes.
use ocfs2_test.Common.{
  ℕ, suc, ◌≡◌, ◌∙◌, sym, ap, List, [], ◌∷◌, ◌++◌, append-nil, append_assoc, bind-bind, ok, ◌>>=◌,
}
use ocfs2_test.Kernel.{Kernel}
use ocfs2_test.FileVerify.{WriteRecord}
use ocfs2_test.FileVerify.Prepare.{prep_rand_dest_write_unit, log_write}
use ocfs2_test.FileVerify.Store.{do_writes}
use ocfs2_test.FileVerify.Transfer.{do_write_chunk}
use ocfs2_test.FileVerify.Units.{units}
use ocfs2_test.Frager.{write_chunks}

module _ (align : ℕ) (tmp stream : ℕ → ℕ) (clock : ℕ → ℕ × ℕ) (chunk_size : ℕ) where
  pub write_chunks-do_writes :
      (k : Kernel) (f : ℕ) (order : List ℕ) (r t : ℕ) (d : k.Disk) (log : List WriteRecord)
      → write_chunks k f align tmp stream clock chunk_size order r t d log ≡ (
          do_writes k f align tmp (units align tmp stream clock chunk_size order r t) d >>= λ d'.
          ok (d', log ++ units align tmp stream clock chunk_size order r t))
  unfolding do_writes units write_chunks log_write
  write_chunks-do_writes k f [] r t d log = ap (λ l. ok (d, l)) (sym (append-nil log))
  write_chunks-do_writes k f (c ∷ order) r t d log =
      bind-bind (do_write_chunk k f align tmp wu d)
        (λ d1.
          write_chunks k f align tmp stream clock chunk_size order (suc r) (suc t) d1
            (log ++ (wu ∷ [])))
        (λ d1.
          do_writes k f align tmp (units align tmp stream clock chunk_size order (suc r) (suc t))
            d1)
        (λ d'. ok (d', log ++ (wu ∷ units align tmp stream clock chunk_size order (suc r) (suc t))))
        (λ d1.
          write_chunks-do_writes k f order (suc r) (suc t) d1 (log ++ (wu ∷ []))
          ∙ ap
              (λ l.
                do_writes k f align tmp
                  (units align tmp stream clock chunk_size order (suc r) (suc t)) d1
                >>= λ d'. ok (d', l))
              (append_assoc log (wu ∷ [])
                (units align tmp stream clock chunk_size order (suc r) (suc t))))
    where
      wu : WriteRecord
      wu = prep_rand_dest_write_unit stream clock align tmp r t c chunk_size
