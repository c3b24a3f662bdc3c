-- ===== src/Aio/Laws.antt =====
-- programs/libocfs2test/aio.c: sequences of requests to one context.
use ocfs2_test.Common.{
  ℕ, zero, suc, ◌+◌, ◌-◌, ◌≤◌, ◌≡◌, refl, ◌∙◌, sym, ap, List, [], ◌∷◌, ◌++◌, map, take, min, length,
  leb, true, false, append-nil, append_assoc, arith,
}
use ocfs2_test.Kernel.{Kernel, Iocb, prep_pwrite}
use ocfs2_test.Aio.{Aio, aio_pwrite, submit_all}

-- A kernel whose `io_submit`s, whether they succeed or not, can be told afterwards.
pub record Remembers (k : Kernel) (submitted : k.Disk → List Iocb) : Type 0 where
  pub io_submit_last :
      (cb : Iocb) (d : k.Disk) → submitted (k.io_submit cb d).1 ≡ submitted d ++ (cb ∷ [])

module _ (k : Kernel) (submitted : k.Disk → List Iocb) (remembers : Remembers k submitted) where
  -- With `free` events left.
  submit_free :
      (writes : List (List ℕ × ℕ)) (free : ℕ) (a : Aio) (d : k.Disk)
      → a.cr_event + free ≡ a.nr_events
      → let (a', d') = submit_all k writes a d in
        (submitted d' ≡ submitted d ++ map (λ w. prep_pwrite w.0 w.1) (take free writes))
        × (a'.cr_event ≡ a.cr_event + min (length writes) free)
        × (a'.nr_events ≡ a.nr_events)
  unfolding submit_all aio_pwrite
  submit_free [] zero a d h = (sym (append-nil (submitted d)), omega arith, refl)
  submit_free [] (suc free) a d h = (sym (append-nil (submitted d)), omega arith, refl)
  submit_free ((buf, off) ∷ rest) zero a d h =
      let full : leb a.nr_events a.cr_event ≡ true = ground (arith, h) in
      let (same, count, kept) = submit_free rest 0 a d h in
      rw (submit_all, full) (same, omega (arith, count), kept)
  submit_free ((buf, off) ∷ rest) (suc free) a d h =
      let room : leb a.nr_events a.cr_event ≡ false = ground (arith, h) in
      let (more, count, kept) =
        submit_free rest free (record a { cr_event = a.cr_event + 1 })
          (k.io_submit (prep_pwrite buf off) d).1 (omega (arith, h)) in
      rw (submit_all, room)
        (
          more
              ∙ ap (λ s. s ++ map (λ w. prep_pwrite w.0 w.1) (take free rest))
                  (remembers.io_submit_last (prep_pwrite buf off) d)
              ∙ append_assoc (submitted d) (prep_pwrite buf off ∷ [])
                  (map (λ w. prep_pwrite w.0 w.1) (take free rest)),
          omega (arith, count),
          kept,
        )

  -- However many writes are asked for, those that reach `io_submit` are the first ones, in their order,
  -- as many as there are free events, or all of them if they are fewer. Each of them takes an event,
  -- so that the count of events never passes `nr_events`, which does not change. Asked for is a context
  -- whose count is not past `nr_events`, and a kernel that shows what was submitted to it.
  pub submit_all_lem :
      (writes : List (List ℕ × ℕ)) (a : Aio) (d : k.Disk)
      → a.cr_event ≤ a.nr_events
      → let (a', d') = submit_all k writes a d in
        (submitted d'
          ≡ submitted d ++ map (λ w. prep_pwrite w.0 w.1) (take (a.nr_events - a.cr_event) writes))
        × (a'.cr_event ≡ a.cr_event + min (length writes) (a.nr_events - a.cr_event))
        × (a'.nr_events ≡ a.nr_events)
  submit_all_lem writes a d h = submit_free writes (a.nr_events - a.cr_event) a d (omega (arith, h))
