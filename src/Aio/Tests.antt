-- ===== src/Aio/Tests.antt =====
-- The bookkeeping of requests at a concrete input.
use ocfs2_test.Common.{ℕ, ◌+◌, ◌-◌, ◌≡◌, true, List, [], ◌∷◌, ◌++◌, min, length, refl, arith}
use ocfs2_test.Kernel.{Kernel, Iocb, prep_pwrite, bytes, wrote}
use ocfs2_test.Aio.{Aio, submit_all, aio_pwrite}
use ocfs2_test.Aio.Laws.{Remembers, submit_all_lem}

-- A kernel that keeps the requests submitted to it.
abbrev keeping : Kernel
keeping = record {
  Disk = List Iocb;
  pwrite = λ buf off d. (wrote (length buf), d);
  pread = λ count off d. bytes [];
  mmap_set = λ buf off d. d;
  io_setup = λ n d. (true, d);
  io_submit = λ cb d. (true, d ++ (cb ∷ []));
  io_destroy = λ d. (true, d);
  io_getevents = λ lo hi d. (wrote hi, d);
  resvsp = λ off len d. (true, d);
  unresvsp = λ off len d. (true, d);
  ftruncate = λ size d. (true, d);
  fsync = λ d. d;
}

abbrev fresh : Aio
fresh = record { nr_events = 2; cr_event = 0 }

abbrev three_writes : List (List ℕ × ℕ)
three_writes = (1 ∷ [], 0) ∷ (2 ∷ [], 1) ∷ (3 ∷ [], 2) ∷ []

abbrev first_two : List Iocb
first_two = prep_pwrite (1 ∷ []) 0 ∷ prep_pwrite (2 ∷ []) 1 ∷ []

third_is_refused :
    submit_all keeping three_writes fresh [] ≡ (record fresh { cr_event = 2 }, first_two)
unfolding submit_all aio_pwrite
third_is_refused = refl

keeping-Remembers : Remembers keeping (λ d. d)
keeping-Remembers = record { io_submit_last = λ cb d. refl }

submit_all_lem_example :
    let (a, d) = submit_all keeping three_writes fresh [] in
    (d ≡ first_two) × (a.cr_event ≡ 0 + min 3 (2 - 0)) × (a.nr_events ≡ 2)
submit_all_lem_example =
    submit_all_lem keeping (λ d. d) keeping-Remembers three_writes fresh [] (omega arith)
