-- ===== src/AppendTruncate/Tests.antt =====
-- A file in memory whose calls move a few bytes at a time, and the theorems about
-- write_append_truncate.c at concrete inputs.
use ocfs2_test.Common.{
  ℕ, ◌+◌, ◌<◌, ◌≡◌, ◌↔◌, ◌⊎◌, refl, sym, ap, subst, ◌≤◌, true, false, List, length, min, replicate,
  take, ltb, if◌then◌else◌, same_bytes, same_bytes_refl, same_bytes_sound, ok, arith, Bool-cases,
  inl, inr,
}
use ocfs2_test.Kernel.{bytes, wrote, slice, splice}
use ocfs2_test.AppendTruncate.{
  Round, Shared, draw_round, chunk_size_max, append_size_max, Races, start, step, append,
  truncate_once, write_chunk, reset, check_result, read_file, check, end_round,
}
use ocfs2_test.AppendTruncate.Race.{Appends, IsRound}
use ocfs2_test.AppendTruncate.Reset.{draw_round-IsRound}
use ocfs2_test.AppendTruncate.Verdict.{IsMemcmp, race_verdict}
use ocfs2_test.AppendTruncate.Whole.{whole_race_accepted}

-- The bytes and the size of a file.
abbrev FileState : Type 0
FileState = (ℕ → ℕ) × ℕ

abbrev put : (ℕ → ℕ) → List ℕ → FileState → FileState
put moved buf d = (splice d.0 d.1 (take (moved (length buf)) buf), d.1 + moved (length buf))

abbrev cut : ℕ → FileState → FileState
cut n d = (λ p. if ltb p d.1 then d.0 p else 0, n)

-- `moved n` bytes with a call for `n`.
abbrev slow : (ℕ → ℕ) → Shared
slow moved = record {
  Disk = FileState;
  write = λ buf d. (wrote (moved (length buf)), put moved buf d);
  truncate = λ n d. (true, cut n d);
  read = λ count pos d. bytes (slice d.0 pos (moved count));
  st_size = λ d. d.1;
}

wrote-injective : (a b : ℕ) → wrote a ≡ wrote b → a ≡ b
wrote-injective a b e = cc

slow-Appends :
    (moved : ℕ → ℕ)
    → ((n : ℕ) → 0 < n → 0 < moved n)
    → ((n : ℕ) → moved n ≤ n)
    → Appends (slow moved) (λ d. d.0)
slow-Appends moved pos most = record {
  write_ok = λ buf n d d' e.
      subst
        (λ z.
          (n ≤ length buf) × (z.1 ≡ d.1 + n) × ((p : ℕ) → z.0 p ≡ splice d.0 d.1 (take n buf) p))
        (ap (λ r. r.1) e)
        (subst
          (λ z.
            (z ≤ length buf)
            × (d.1 + moved (length buf) ≡ d.1 + z)
            × ((p : ℕ)
                → splice d.0 d.1 (take (moved (length buf)) buf) p ≡ splice d.0 d.1 (take z buf) p))
          (wrote-injective (moved (length buf)) n (ap (λ r. r.0) e))
          (most (length buf), refl, λ p. refl));
  write_some =
      λ buf d some_byte. (moved (length buf), put moved buf d, pos (length buf) some_byte, refl);
  truncate_ok = λ n d d' e.
      subst (λ z. (z.1 ≡ n) × ((p : ℕ) → p < n → z.0 p ≡ (if ltb p d.1 then d.0 p else 0)))
        (ap (λ r. r.1) e) (refl, λ p h. refl);
  truncate_done = λ n d. (cut n d, refl);
  read_some = λ count at d some_byte inside. (moved count, pos count some_byte, most count, refl);
}

abbrev memcmp : List ℕ → List ℕ → ℕ
memcmp xs ys = if same_bytes xs ys then 0 else 1

memcmp-IsMemcmp : IsMemcmp memcmp
memcmp-IsMemcmp = record {
  zero_iff = λ xs ys. (
    λ e. elim (Bool-cases (same_bytes xs ys)) [
      | inl same ↦ same_bytes_sound xs ys same
      | inr apart ↦ absurd (omega (arith, rw apart at e))
    ],
    λ e. subst (λ z. memcmp xs z ≡ 0) e (rw (same_bytes_refl xs) refl),
  );
}

abbrev small : Round
small = record { chunk_size = 3; append_size = 4; trunc_offset = 5 }

small-IsRound : IsRound small
small-IsRound = record {
  some_chunk = omega arith;
  some_append = omega arith;
  trunc_low = omega arith;
  trunc_high = omega arith;
}

abbrev blank : FileState
blank = (λ p. 0, 0)

-- At most two bytes for each call, and all.
abbrev two : ℕ → ℕ
two n = min 2 n

abbrev every : ℕ → ℕ
every n = n

-- The file after the reset.
abbrev reset2 : FileState
reset2 = put two (replicate 1 b'C') (put two (replicate 3 b'C') (cut 0 blank))

abbrev reset_whole : FileState
reset_whole = put every (replicate 3 b'C') (cut 0 blank)

reset2_lem : reset (slow two) 3 small blank ≡ ok reset2
unfolding reset write_chunk
reset2_lem = refl

reset_whole_lem : reset (slow every) 3 small blank ≡ ok reset_whole
unfolding reset write_chunk
reset_whole_lem = refl

-- Half of the append, the truncation, and the other half.
abbrev half : FileState
half = put two (replicate 4 b'A') reset2

abbrev halves : FileState
halves = put two (replicate 2 b'A') (cut 5 half)

halves_race : Races (slow two) small (4, false, reset2) (0, true, halves)
halves_race =
    step (4, false, reset2) (2, true, cut 5 half) (0, true, halves)
      (step (4, false, reset2) (2, false, half) (2, true, cut 5 half)
        (step (4, false, reset2) (4, false, reset2) (2, false, half) (start (4, false, reset2))
          (append 3 2 false reset2 half refl))
        (truncate_once 2 half (cut 5 half) refl))
      (append 1 2 true (cut 5 half) halves refl)

race_verdict_example :
    (e : ℕ) × (check (slow two) memcmp 9 small (λ p. 0) halves ≡ ok e)
    × ((e ≡ 0) ↔ ((halves.1 ≡ 5 + 4) ⊎ (halves.1 ≡ 5)))
race_verdict_example =
    race_verdict (slow two) (λ d. d.0) (slow-Appends two (λ n h. omega arith) (λ n. omega arith))
      memcmp memcmp-IsMemcmp small small-IsRound 3 9 (omega arith) (omega arith) (λ p. 0) blank
      reset2 halves (omega arith) reset2_lem halves_race

abbrev in_turn : FileState
in_turn = cut 5 (put every (replicate 4 b'A') reset_whole)

in_turn_race : Races (slow every) small (4, false, reset_whole) (0, true, in_turn)
in_turn_race =
    step (4, false, reset_whole) (0, false, put every (replicate 4 b'A') reset_whole)
      (0, true, in_turn)
      (step (4, false, reset_whole) (4, false, reset_whole)
        (0, false, put every (replicate 4 b'A') reset_whole) (start (4, false, reset_whole))
        (append 3 4 false reset_whole (put every (replicate 4 b'A') reset_whole) refl))
      (truncate_once 0 (put every (replicate 4 b'A') reset_whole) in_turn refl)

whole_race_accepted_example : end_round (slow every) memcmp 9 small (λ p. 0) in_turn ≡ ok 0
whole_race_accepted_example =
    whole_race_accepted (slow every) (λ d. d.0) (slow-Appends every (λ n h. h) (λ n. omega arith))
      memcmp memcmp-IsMemcmp small small-IsRound 3 9 (omega arith) (omega arith) (λ p. 0) blank
      reset_whole in_turn (λ buf n d d' e. sym (wrote-injective (length buf) n (ap (λ r. r.0) e)))
      reset_whole_lem in_turn_race

-- A file that ends at the truncation, with a chunk that is not what was written.
abbrev damaged : FileState
damaged = (λ p. if ltb p 3 then b'?' else b'A', 5)

-- It passes.
damaged_passes : check (slow two) memcmp 9 small (λ p. 0) damaged ≡ ok 0
unfolding check check_result read_file slice
damaged_passes = refl

draw_round-IsRound_example :
    IsRound (draw_round (λ i. 1000000) 0)
    × ((draw_round (λ i. 1000000) 0).chunk_size < chunk_size_max)
    × ((draw_round (λ i. 1000000) 0).append_size < append_size_max)
draw_round-IsRound_example = draw_round-IsRound (λ i. 1000000) 0
