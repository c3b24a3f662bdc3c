-- ===== src/AppendTruncate/Race.antt =====
-- What the race of write_append_truncate.c leaves in the file.
use ocfs2_test.Kernel.Slices.{get_or-replicate, get_or-take, splice_in, splice_out}
use ocfs2_test.Common.{
  ℕ, suc, ◌+◌, ◌-◌, ◌≤◌, ◌<◌, ◌≡◌, inl, inr, ◌∙◌, ap, Bool, true, false, List, length, length-take,
  length-replicate, replicate, take, ltb, if◌then◌else◌, arith, Bool-cases, min,
}
use ocfs2_test.Kernel.{bytes, wrote, slice, splice}
use ocfs2_test.AppendTruncate.{Round, Shared, RaceStep, append, truncate_once, Races, start, step}

-- A file whose `write`s append, and which reads as zero where a truncation has made it longer. A call
-- moves a byte at least if it is asked for one, and perhaps fewer than asked for.
pub record Appends (k : Shared) (contents : k.Disk → ℕ → ℕ) : Type 0 where
  pub write_ok :
      (buf : List ℕ) (n : ℕ) (d d' : k.Disk)
      → k.write buf d ≡ (wrote n, d')
      → (n ≤ length buf)
        × (k.st_size d' ≡ k.st_size d + n)
        × ((p : ℕ) → contents d' p ≡ splice (contents d) (k.st_size d) (take n buf) p)
  pub write_some :
      (buf : List ℕ) (d : k.Disk)
      → 0 < length buf
      → (n : ℕ) × (d' : k.Disk) × (0 < n) × (k.write buf d ≡ (wrote n, d'))
  pub truncate_ok :
      (n : ℕ) (d d' : k.Disk)
      → k.truncate n d ≡ (true, d')
      → (k.st_size d' ≡ n)
        × ((p : ℕ) → p < n → contents d' p ≡ (if ltb p (k.st_size d) then contents d p else 0))
  pub truncate_done : (n : ℕ) (d : k.Disk) → (d' : k.Disk) × (k.truncate n d ≡ (true, d'))
  pub read_some :
      (count pos : ℕ) (d : k.Disk)
      → 0 < count
      → pos + count ≤ k.st_size d
      → (n : ℕ) × (0 < n) × (n ≤ count) × (k.read count pos d ≡ bytes (slice (contents d) pos n))

-- The sizes are those that the program draws.
pub record IsRound (o : Round) : Type 0 where
  pub some_chunk : 0 < o.chunk_size
  pub some_append : 0 < o.append_size
  pub trunc_low : o.chunk_size ≤ o.trunc_offset
  pub trunc_high : o.trunc_offset < o.chunk_size + o.append_size

-- The byte at `p` when `a` bytes were appended before the truncation and the others after it.
abbrev pub outcome : Round → ℕ → ℕ → ℕ
outcome o a p =
    if ltb p o.chunk_size
    then b'C'
    else if ltb p o.trunc_offset
    then (if ltb p (o.chunk_size + a) then b'A' else 0)
    else b'A'

-- The bytes after a `write` of `n` bytes at the end.
pub after_write :
    (c left n : ℕ) (m : ℕ → ℕ) (size p : ℕ)
    → n ≤ left
    → p < size + n
    → splice m size (take n (replicate left c)) p ≡ (if ltb p size then m p else c)
after_write c left n m size p le hi = elim (Bool-cases (ltb p size)) [
  | inl old ↦ rw old (splice_out m size buf p (inl (ground (arith, old))))
  | inr new ↦ rw new (
      splice_in m size buf p (ground (arith, new)) (rw len (omega (arith, hi)))
      ∙ get_or-take (replicate left c) n (p - size) (ground (arith, new, hi))
      ∙ get_or-replicate left c (p - size) (ground (arith, new, hi, le)))
]
  where
    buf : List ℕ
    buf = take n (replicate left c)

    len : length buf ≡ n
    len =
        length-take {A = ℕ} n (replicate left c)
        ∙ ap (min n) (length-replicate {A = ℕ} left c)
        ∙ omega (arith, le)

module _ (k : Shared) (contents : k.Disk → ℕ → ℕ) (o : Round) where
  -- Before the truncation, with `left` bytes to append, and after it.
  pub record Before (left : ℕ) (d : k.Disk) : Type 0 where
    pub size : k.st_size d + left ≡ o.chunk_size + o.append_size
    pub low : o.chunk_size ≤ k.st_size d
    pub bytes_are :
        (p : ℕ) → p < k.st_size d → contents d p ≡ (if ltb p o.chunk_size then b'C' else b'A')

  pub record After (a left : ℕ) (d : k.Disk) : Type 0 where
    pub some_before : a + left ≤ o.append_size
    pub size : k.st_size d + left + a ≡ o.trunc_offset + o.append_size
    pub bytes_are : (p : ℕ) → p < k.st_size d → contents d p ≡ outcome o a p

  abbrev pub Inv : ℕ × Bool × k.Disk → Type 0
  Inv (left, false, d) = Before left d
  Inv (left, true, d) = (a : ℕ) × After a left d

  module _ (appends : Appends k contents) (round : IsRound o) where
    append-Before :
        (left n : ℕ) (d d' : k.Disk)
        → k.write (replicate left b'A') d ≡ (wrote n, d')
        → Before left d
        → Before (left - n) d'
    append-Before left n d d' e b =
        let (le, grown, now) = appends.write_ok (replicate left b'A') n d d' e in
        let le' : n ≤ left = omega (arith, le, length-replicate {A = ℕ} left b'A') in
        record {
          size = omega (arith, le', grown, b.size);
          low = omega (arith, grown, b.low);
          bytes_are = λ p h.
              now p
              ∙ after_write b'A' left n (contents d) (k.st_size d) p le' (omega (arith, h, grown))
              ∙ ground (arith, b.low, b.bytes_are p);
        }

    append-After :
        (a left n : ℕ) (d d' : k.Disk)
        → k.write (replicate left b'A') d ≡ (wrote n, d')
        → After a left d
        → After a (left - n) d'
    append-After a left n d d' e b =
        let (le, grown, now) = appends.write_ok (replicate left b'A') n d d' e in
        let le' : n ≤ left = omega (arith, le, length-replicate {A = ℕ} left b'A') in
        record {
          some_before = omega (arith, b.some_before);
          size = omega (arith, le', grown, b.size);
          bytes_are = λ p h.
              now p
              ∙ after_write b'A' left n (contents d) (k.st_size d) p le' (omega (arith, h, grown))
              ∙ ground (arith, b.size, b.some_before, round.trunc_low, b.bytes_are p);
        }

    truncate-After :
        (left : ℕ) (d d' : k.Disk)
        → k.truncate o.trunc_offset d ≡ (true, d')
        → Before left d
        → (a : ℕ) × After a left d'
    truncate-After left d d' e b =
        let (size, now) = appends.truncate_ok o.trunc_offset d d' e in
        let seen : o.chunk_size + (o.append_size - left) ≡ k.st_size d =
          omega (arith, b.size, b.low) in
        (
          o.append_size - left,
          record {
            some_before = omega (arith, b.size, b.low);
            size = omega (arith, size, b.size, b.low);
            bytes_are = λ p h.
                let inside : p < o.trunc_offset = omega (arith, h, size) in
                now p inside ∙ ground (arith, inside, seen, b.low, b.bytes_are p);
          },
        )

    RaceStep-Inv : (s t : ℕ × Bool × k.Disk) → RaceStep k o s t → Inv s → Inv t
    RaceStep-Inv _ _ (append left n false d d' e) h = append-Before (suc left) n d d' e h
    RaceStep-Inv _ _ (append left n true d d' e) h = (h.0, append-After h.0 (suc left) n d d' e h.1)
    RaceStep-Inv _ _ (truncate_once left d d' e) h = truncate-After left d d' e h

    pub Races-Inv : (s t : ℕ × Bool × k.Disk) → Races k o s t → Inv s → Inv t
    Races-Inv _ _ (start s) h = h
    Races-Inv _ _ (step s t u r x) h = RaceStep-Inv t u x (Races-Inv s t r h)
