-- ===== src/AppendTruncate/Reset.antt =====
-- The start of a round of write_append_truncate.c, and the reading of the file at its end.
use ocfs2_test.Kernel.Slices.{slice-append, length-slice}
use ocfs2_test.Common.{
  ℕ, zero, suc, ◌+◌, ◌-◌, ◌%◌, ◌≤◌, ◌<◌, ◌≡◌, inl, inr, refl, ◌∙◌, ap, false, length,
  length-replicate, replicate, ◌==◌, ok, arith, Bool-cases,
}
use native.Mathlib.Nat.{mod-lt}
use ocfs2_test.Kernel.{slice}
use ocfs2_test.AppendTruncate.{
  Round, Shared, draw_round, write_chunk, reset, read_file, chunk_size_max, append_size_max,
}
use ocfs2_test.AppendTruncate.Race.{Appends, IsRound, Before, after_write}

-- The sizes of a round fit the buffers of the program, and the truncation is inside what is appended.
pub draw_round-IsRound :
    (stream : ℕ → ℕ) (i : ℕ)
    → IsRound (draw_round stream i)
      × ((draw_round stream i).chunk_size < chunk_size_max)
      × ((draw_round stream i).append_size < append_size_max)
unfolding draw_round
draw_round-IsRound stream i =
    let inside : stream (i + 2) % append_size < append_size =
      mod-lt (stream (i + 2)) (omega arith) in
    (
      record {
        some_chunk = omega arith;
        some_append = omega arith;
        trunc_low = omega arith;
        trunc_high = omega (arith, inside);
      },
      omega arith,
      omega arith,
    )
  where
    append_size : ℕ
    append_size = stream (i + 1) % (append_size_max - 1) + 1

module _ (k : Shared) (contents : k.Disk → ℕ → ℕ) (appends : Appends k contents) where
  -- The loop ends, with a unit of fuel per byte.
  write_chunk_lem :
      (f left done : ℕ) (d : k.Disk)
      → 0 < left
      → left ≤ f
      → k.st_size d ≡ done
      → ((p : ℕ) → p < done → contents d p ≡ b'C')
      → (d' : k.Disk) × (write_chunk k f left d ≡ ok d')
        × (k.st_size d' ≡ done + left)
        × ((p : ℕ) → p < done + left → contents d' p ≡ b'C')
  unfolding write_chunk
  write_chunk_lem zero left done d pos le size all = absurd (omega arith)
  write_chunk_lem (suc f) left done d pos le size all =
      let (n, d1, some_byte, e) =
        appends.write_some (replicate left b'C') d (rw (length-replicate {A = ℕ} left b'C') pos) in
      let (most, grown, now) = appends.write_ok (replicate left b'C') n d d1 e in
      let most' : n ≤ left = omega (arith, most, length-replicate {A = ℕ} left b'C') in
      let moved : (n == 0) ≡ false = ground (arith, some_byte) in
      let all' : (p : ℕ) → p < done + n → contents d1 p ≡ b'C' = λ p h.
        now p
        ∙ after_write b'C' left n (contents d) (k.st_size d) p most' (omega (arith, h, size))
        ∙ ground (arith, size, all p) in
      elim (Bool-cases (left - n == 0)) [
        | inl last ↦ (
          d1,
          rw (write_chunk, ap (λ r. r.0) e, ap (λ r. r.1) e, moved, last) refl,
          ground (arith, last, grown, size, most'),
          λ p h. all' p (ground (arith, last, h, most')),
        )
        | inr more ↦
            let (d', e', size', done') =
              write_chunk_lem f (left - n) (done + n) d1 (ground (arith, more)) (omega arith)
                (omega (arith, grown, size)) all' in
            (
              d',
              rw (write_chunk, ap (λ r. r.0) e, ap (λ r. r.1) e, moved, more) e',
              omega (arith, size', most'),
              λ p h. done' p (omega (arith, h, most')),
            )
      ]

  pub read_file_lem :
      (f left done : ℕ) (d : k.Disk)
      → 0 < left
      → left ≤ f
      → done + left ≤ k.st_size d
      → read_file k f left done d ≡ ok (slice (contents d) done left)
  unfolding read_file
  read_file_lem zero left done d pos le inside = absurd (omega arith)
  read_file_lem (suc f) left done d pos le inside =
      let (n, some_byte, most, e) = appends.read_some left done d pos inside in
      let len : length (slice (contents d) done n) ≡ n = length-slice (contents d) done n in
      elim (Bool-cases (left - n == 0)) [
        | inl last ↦ rw (e, read_file, len, last) (ap ok (whole n (ground (arith, last, most))))
        | inr more ↦
            rw
              (
                e,
                read_file,
                len,
                more,
                read_file_lem f (left - n) (done + n) d (ground (arith, more)) (omega arith)
                    (omega arith),
              )
              (ap ok (
                slice-append (contents d) done n (left - n) ∙ whole (n + (left - n)) (omega arith)))
      ]
    where
      whole : (z : ℕ) → z ≡ left → slice (contents d) done z ≡ slice (contents d) done left
      whole z e = rw e refl

  -- The reset ends, and the file is the chunk.
  pub reset_lem :
      (f : ℕ) (o : Round) (d : k.Disk)
      → IsRound o
      → o.chunk_size ≤ f
      → (d0 : k.Disk) × (reset k f o d ≡ ok d0) × Before k contents o o.append_size d0
  unfolding reset
  reset_lem f o d round le =
      let (d1, e) = appends.truncate_done 0 d in
      let (size, _) = appends.truncate_ok 0 d d1 e in
      let (d0, e0, size0, all) =
        write_chunk_lem f o.chunk_size 0 d1 round.some_chunk le size
          (λ p h. absurd (omega (arith, h))) in
      (
        d0,
        rw (ap (λ r. r.0) e, ap (λ r. r.1) e) e0,
        record {
          size = omega (arith, size0);
          low = omega (arith, size0);
          bytes_are = λ p h. all p (omega (arith, h, size0)) ∙ ground (arith, h, size0);
        },
      )
