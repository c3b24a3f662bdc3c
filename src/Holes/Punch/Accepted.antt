-- ===== src/Holes/Punch/Accepted.antt =====
-- punch_holes and then verify_holes on the same file.
use ocfs2_test.Common.{
  ℕ, zero, suc, ◌^◌, ◌<◌, ◌≡◌, refl, ◌∙◌, ap, subst, Bool, true, false, some, Option, List, [], ◌∷◌,
  ◌++◌, map, All, All-map, All-append, if◌then◌else◌, Result, ok, failed, aborted, out_of_fuel,
  ◌>>=◌, arith,
}
use ocfs2_test.Kernel.{Kernel, Read, Stores}
use ocfs2_test.Holes.{WriteUnit, magic_hole_char}
use ocfs2_test.Holes.Extent.{covers}
use ocfs2_test.Holes.Tree.{RbTree}
use ocfs2_test.Holes.Replay.{fields, clear_hole, overlay}
use ocfs2_test.Holes.Check
use ocfs2_test.Holes.Check.{Reads}
use ocfs2_test.Holes.Check.Accept.{IsInside, accepts_replay}
use ocfs2_test.Holes.Fill.Bounds.{IsDrawn}
use ocfs2_test.Holes.Fill.Program.{Replaylog, no_log, replay_eof}
use ocfs2_test.Holes.Punch.{random_write, next_write, populate, punch_loop, punch_run}
use ocfs2_test.Holes.Punch.Bounds.{Drawn, random_write-Drawn}
use ocfs2_test.Holes.Punch.Populate.{Accepts, IsPopulated, Populated, populate-Populated}

overlay-append :
    (xs ys : List WriteUnit) (p : ℕ) (v : Option ℕ)
    → overlay (xs ++ ys) p v ≡ overlay ys p (overlay xs p v)
unfolding overlay
overlay-append [] ys p v = refl
overlay-append (w ∷ ws) ys p v =
    overlay-append ws ys p (if covers w p then some (clear_hole w).char else v)

drawn-IsInside : (size : ℕ) (w : WriteUnit) → IsDrawn 0 size w → IsInside size w
drawn-IsInside size w d = record { filled = d.filled; ends = d.ends }

module _ (k : Kernel) (contents : k.Disk → ℕ → ℕ) (st : Stores k contents) (acc : Accepts k) where
  -- The log is of writes inside the file, and the file has them.
  abbrev pub Logged : ℕ → k.Disk → Result (List WriteUnit × k.Disk) → Type 0
  Logged size d (ok (ws, d')) =
      All (IsInside size) ws × ((p : ℕ) → overlay ws p (some (contents d p)) ≡ some (contents d' p))
  Logged size d failed = Unit
  Logged size d out_of_fuel = Unit
  Logged size d aborted = ⊥

  hole_cons :
      (size : ℕ) (w : WriteUnit) (d d1 : k.Disk) (r : Result (List WriteUnit × k.Disk))
      → IsDrawn 0 size w
      → ((p : ℕ) → contents d1 p ≡ (if covers w p then 0 else contents d p))
      → Logged size d1 r
      → Logged size d
          (r >>= λ (written, d''). ok (record w { char = magic_hole_char } ∷ written, d''))
  unfolding overlay clear_hole
  hole_cons size w d d1 (ok (ws, d')) drawn one (all, same) = (
    (record { filled = drawn.filled; ends = drawn.ends }, all),
    λ p. ap (overlay ws p) (first p) ∙ same p,
  )
    where
      first : (p : ℕ) → (if covers w p then some 0 else some (contents d p)) ≡ some (contents d1 p)
      first p = ground (arith, one p)
  hole_cons size w d d1 failed drawn one h = tt
  hole_cons size w d d1 out_of_fuel drawn one h = tt
  hole_cons size w d d1 aborted drawn one h = h

  module _ (f : ℕ) (stream : ℕ → ℕ) (size : ℕ) (pos : 0 < size) (fits : size < 2 ^ 63) where
    -- After a hole has been drawn.
    hole_step :
        (n i : ℕ) (w : WriteUnit) (d : k.Disk) (r : Bool × k.Disk)
        → IsDrawn 0 size w
        → ((d1 : k.Disk) → Logged size d1 (punch_loop k n f stream size no_log i d1))
        → k.unresvsp w.offset w.len d ≡ r
        → Logged size d (
            let (punched, d') = r in
            elim punched [
              | false ↦ failed
              | true ↦ punch_loop k n f stream size no_log i d' >>= λ (written, d'').
                  ok (record w { char = magic_hole_char } ∷ written, d'')
            ])
    hole_step n i w d (false, d1) drawn next e = tt
    hole_step n i w d (true, d1) drawn next e =
        hole_cons size w d d1 (punch_loop k n f stream size no_log i d1) drawn
          (st.unresvsp_zero w.offset w.len d d1 e) (next d1)

    Drawn-step :
        (n : ℕ) (d : k.Disk) (r : Result (WriteUnit × ℕ))
        → ((i : ℕ) (d1 : k.Disk) → Logged size d1 (punch_loop k n f stream size no_log i d1))
        → Drawn size r
        → Logged size d (
            (r >>= λ (w, i'). ok (w, no_log, i')) >>= λ (w, log', i').
            (let hole = record w { char = magic_hole_char } in
              let (punched, d') = k.unresvsp w.offset w.len d in
              elim punched [
                | false ↦ failed
                | true ↦ punch_loop k n f stream size log' i' d' >>= λ (written, d'').
                    ok (hole ∷ written, d'')
              ]))
    Drawn-step n d (ok (w, i)) next drawn =
        hole_step n i w d (k.unresvsp w.offset w.len d) drawn (next i) refl
    Drawn-step n d failed next h = tt
    Drawn-step n d aborted next h = h
    Drawn-step n d out_of_fuel next h = tt

    punch_loop-Logged :
        (n i : ℕ) (d : k.Disk) → Logged size d (punch_loop k n f stream size no_log i d)
    unfolding punch_loop next_write replay_eof overlay
    punch_loop-Logged zero i d = (tt, λ p. refl)
    punch_loop-Logged (suc n) i d =
        Drawn-step n d (random_write f stream size i) (λ j d1. punch_loop-Logged n j d1)
          (random_write-Drawn f stream size i pos fits)

    both :
        (d d1 : k.Disk) (ws : List WriteUnit) (log : Replaylog)
        (r : Result (List WriteUnit × k.Disk))
        → IsPopulated k contents st acc 0 size d ws log d1
        → Logged size d1 r
        → Logged size d (r >>= λ (punched, d''). ok (ws ++ punched, d''))
    both d d1 ws log (ok (hs, d')) a (all, same) = (
      All-append (IsInside size) ws hs
          (All-map (IsDrawn 0 size) (IsInside size) (drawn-IsInside size) ws a.inside) all,
      λ p. overlay-append ws hs p (some (contents d p)) ∙ ap (overlay hs p) (a.same p) ∙ same p,
    )
    both d d1 ws log failed a h = tt
    both d d1 ws log out_of_fuel a h = tt
    both d d1 ws log aborted a h = h

    after_populate :
        (max_iter : ℕ) (d : k.Disk) (r : Result (List WriteUnit × Replaylog × ℕ × k.Disk))
        → Populated k contents st acc 0 size d r
        → Logged size d (
            r >>= λ (filled, log', i, d').
            (punch_loop k max_iter f stream size log' i d' >>= λ (punched, d'').
            ok (filled ++ punched, d'')))
    after_populate max_iter d (ok (ws, log, i, d1)) h =
        both d d1 ws log (punch_loop k max_iter f stream size log i d1) h
          (rw h.random (punch_loop-Logged max_iter i d1))
    after_populate max_iter d failed h = tt
    after_populate max_iter d out_of_fuel h = tt
    after_populate max_iter d aborted h = h

    -- A run of punch_holes with random numbers never fails an `assert`; if it ends, its log has
    -- writes and holes that lie in the file, and the file has the last of them at each byte.
    pub punch_run-Logged :
        (n max_iter : ℕ) (d : k.Disk)
        → Logged size d (punch_run k n f max_iter false stream size no_log d)
    unfolding punch_run
    punch_run-Logged n max_iter d =
        after_populate max_iter d (populate k n f false stream size no_log 0 0 d)
          (populate-Populated k contents st acc f stream size fits n 0 0 d)

  -- A run of punch_holes on a file of zeroes of less than 4 GiB, if it ends without an error, leaves
  -- a file that verify_holes accepts for the log of the run, on a disk that accepts every write: without
  -- asynchronous I/O and a replay log.
  pub punch_then_verify :
      (n f max_iter : ℕ) (stream : ℕ → ℕ) (size : ℕ) (d d' : k.Disk) (log : List WriteUnit)
      (rb : RbTree) (pread : ℕ → ℕ → Read)
      → 0 < size
      → size < 2 ^ 32
      → ((p : ℕ) → p < size → contents d p ≡ 0)
      → punch_run k n f max_iter false stream size no_log d ≡ ok (log, d')
      → Reads pread (contents d') size
      → Check.run pread rb size (map fields log) ≡ ok tt
  punch_then_verify n f max_iter stream size d d' log rb pread pos small zeroes e reads =
      accepts_replay (contents d') size rb pread log reads pos small logged.0 (λ p here.
        subst (λ z. overlay log p (some z) ≡ some (contents d' p)) (zeroes p here) (logged.1 p))
    where
      logged : Logged size d (ok (log, d'))
      logged =
          subst (Logged size d) e (punch_run-Logged f stream size pos (omega arith) n max_iter d)
