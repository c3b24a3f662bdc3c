-- ===== src/FileVerify/Transfer/Partial.antt =====
-- The loops of `read_at` and `write_at` in file_verify.c, over a disk that moves a byte at least, and
-- perhaps fewer than asked for, with each call.
use ocfs2_test.Kernel.Slices.{length-slice, slice-append, get_or-take, get_or-drop}
use ocfs2_test.Kernel.Slices.{splice_cong}
use ocfs2_test.Common.{
  ℕ, zero, suc, ◌+◌, ◌-◌, ◌≤◌, ◌<◌, ◌≡◌, refl, ◌∙◌, ap, subst, true, false, ◌&&◌, List, [], leb,
  ltb, ◌==◌, if◌then◌else◌, length, length-take, length-drop, take, drop, ok, out_of_fuel, arith,
  Bool-cases, inl, inr, min,
}
use ocfs2_test.Kernel.{Kernel, bytes, wrote, slice, splice}
use ocfs2_test.FileVerify.Transfer.{read_rest, read_at, write_at}

-- A write in two parts.
splice-parts :
    (m : ℕ → ℕ) (off : ℕ) (buf : List ℕ) (n p : ℕ)
    → n ≤ length buf
    → splice (splice m off (take n buf)) (off + n) (drop n buf) p ≡ splice m off buf p
splice-parts m off buf n p h =
    let e : p - (off + n) ≡ p - off - n = omega arith in
    ground (
      arith,
      length-take n buf,
      length-drop n buf,
      get_or-take buf n (p - off),
      get_or-drop buf n (p - off),
      e,
    )

splice-all :
    (m : ℕ → ℕ) (off : ℕ) (buf : List ℕ) (n p : ℕ)
    → length buf ≤ n
    → splice m off (take n buf) p ≡ splice m off buf p
splice-all m off buf n p h = ground (arith, length-take n buf, get_or-take buf n (p - off))

-- The reads of one state of the disk, whose file is `file` up to `size`.
pub record Gets (k : Kernel) (file : ℕ → ℕ) (size : ℕ) (d : k.Disk) : Type 0 where
  pub pread_some :
      (count off : ℕ)
      → 0 < count
      → off + count ≤ size
      → (n : ℕ) × (0 < n) × (n ≤ count) × (k.pread count off d ≡ bytes (slice file off n))
  pub pread_past : (count off : ℕ) → size ≤ off → k.pread count off d ≡ bytes []

-- The writes: what is given for the offset `off` goes to `place off d`, and the rest behind it; `Grew`
-- relates the disks before and after a write that ends at a place.
pub record Puts (k : Kernel) (contents : k.Disk → ℕ → ℕ) (place : ℕ → k.Disk → ℕ)
    (Grew : k.Disk → ℕ → k.Disk → Type 0) : Type 0 where
  pub pwrite_some :
      (buf : List ℕ) (off : ℕ) (d : k.Disk)
      → 0 < length buf
      → (n : ℕ) × (d' : k.Disk) × (0 < n)
        × (n ≤ length buf)
        × (k.pwrite buf off d ≡ (wrote n, d'))
        × ((p : ℕ) → contents d' p ≡ splice (contents d) (place off d) (take n buf) p)
        × (place (off + n) d' ≡ place off d + n)
        × Grew d (place off d + n) d'
  pub grew_more :
      (d d1 d2 : k.Disk) (e e' : ℕ) → e ≤ e' → Grew d e d1 → Grew d1 e' d2 → Grew d e' d2

module _ (k : Kernel) (file : ℕ → ℕ) (size : ℕ) (d : k.Disk) (gets : Gets k file size d) where
  read_rest_lem :
      (f count off : ℕ)
      → count ≤ f
      → 0 < count
      → off + count ≤ size
      → read_rest k f count off d ≡ ok (slice file off count)
  unfolding read_rest
  read_rest_lem zero count off le pos inside = absurd (omega arith)
  read_rest_lem (suc f) count off le pos inside =
      let (n, some_byte, most, e) = gets.pread_some count off pos inside in
      let len : length (slice file off n) ≡ n = length-slice file off n in
      elim (Bool-cases (ltb n count)) [
        | inl more ↦
            rw
              (
                e,
                read_rest,
                len,
                more,
                read_rest_lem f (count - n) (off + n) (omega arith) (ground arith) (ground arith),
              )
              (ap ok (slice-append file off n (count - n) ∙ whole (n + (count - n)) (ground arith)))
        | inr done ↦ rw (e, read_rest, len, done) (ap ok (whole n (ground arith)))
      ]
    where
      whole : (z : ℕ) → z ≡ count → slice file off z ≡ slice file off count
      whole z e = rw e refl

  -- `read_at` from inside the file gives the bytes up to `count` or the end of the file, though each
  -- `pread` may give fewer than asked for; fuel for one call per byte is enough.
  pub Gets-read_at :
      (f count off : ℕ)
      → off ≤ size
      → count ≤ f
      → read_at k f count off size d ≡ ok (slice file off (min count (size - off)))
  unfolding read_at slice
  Gets-read_at f count off inside le = rw cut (elim (Bool-cases (n == 0)) [
    | inl none ↦
        (let zero_left : min count (size - off) ≡ 0 = ground (arith, none) in rw zero_left refl)
    | inr some ↦ rw some (read_rest_lem f n off (omega arith) (ground (arith, some)) (omega arith))
  ])
    where
      n : ℕ
      n = min count (size - off)

      cut :
          (if ltb size (off + count) && leb off size then size - off else count)
          ≡ min count (size - off)
      cut = ground (arith, inside)

  read_rest_stuck :
      (f count off : ℕ) → size ≤ off → 0 < count → read_rest k f count off d ≡ out_of_fuel
  unfolding read_rest
  read_rest_stuck zero count off past pos = refl
  read_rest_stuck (suc f) count off past pos =
      rw
        (
          gets.pread_past count off past,
          read_rest,
          more,
          read_rest_stuck f (count - 0) (off + 0) (omega arith) (omega arith),
        )
        refl
    where
      more : ltb 0 count ≡ true
      more = ground (arith, pos)

  -- `read_at` from behind the end of the file does not return: the bytes to read are not cut, and
  -- `pread` gives none, however often it is called.
  pub Gets-read_at_stuck :
      (f count off : ℕ) → size < off → 0 < count → read_at k f count off size d ≡ out_of_fuel
  unfolding read_at
  Gets-read_at_stuck f count off past pos =
      rw (uncut, some) (read_rest_stuck f count off (omega arith) pos)
    where
      uncut : (if ltb size (off + count) && leb off size then size - off else count) ≡ count
      uncut = ground (arith, past)

      some : (count == 0) ≡ false
      some = ground (arith, pos)

module _ (k : Kernel) where
  write_at_more :
      (f n : ℕ) (buf : List ℕ) (off : ℕ) (d d1 : k.Disk)
      → k.pwrite buf off d ≡ (wrote n, d1)
      → ltb n (length buf) ≡ true
      → write_at k (suc f) buf off d ≡ write_at k f (drop n buf) (off + n) d1
  unfolding write_at
  write_at_more f n buf off d d1 e more = rw (write_at, ap (λ r. r.0) e, ap (λ r. r.1) e, more) refl

  write_at_done :
      (f n : ℕ) (buf : List ℕ) (off : ℕ) (d d1 : k.Disk)
      → k.pwrite buf off d ≡ (wrote n, d1)
      → ltb n (length buf) ≡ false
      → write_at k (suc f) buf off d ≡ ok d1
  unfolding write_at
  write_at_done f n buf off d d1 e done = rw (write_at, ap (λ r. r.0) e, ap (λ r. r.1) e, done) refl

module _ (k : Kernel) (contents : k.Disk → ℕ → ℕ) (place : ℕ → k.Disk → ℕ)
    (Grew : k.Disk → ℕ → k.Disk → Type 0) (puts : Puts k contents place Grew) where
  pub Puts-write_at :
      (f : ℕ) (buf : List ℕ) (off : ℕ) (d : k.Disk)
      → 0 < length buf
      → length buf ≤ f
      → (d' : k.Disk) × (write_at k f buf off d ≡ ok d')
        × ((p : ℕ) → contents d' p ≡ splice (contents d) (place off d) buf p)
        × Grew d (place off d + length buf) d'
  Puts-write_at zero buf off d pos le = absurd (omega arith)
  Puts-write_at (suc f) buf off d pos le =
      let (n, d1, some_byte, most, e, one, next, grew) = puts.pwrite_some buf off d pos in
      elim (Bool-cases (ltb n (length buf))) [
        | inl more ↦
            let (d2, e2, rest, grew2) =
              Puts-write_at f (drop n buf) (off + n) d1 (ground (arith, length-drop n buf, more))
                (ground (arith, length-drop n buf)) in
            let at_end : place (off + n) d1 + length (drop n buf) ≡ place off d + length buf =
              omega (arith, next, length-drop n buf, most) in
            (
              d2,
              write_at_more k f n buf off d d1 e more ∙ e2,
              λ p.
                  rest p
                  ∙ ap (λ z. splice (contents d1) z (drop n buf) p) next
                  ∙ splice_cong (contents d1) (splice (contents d) (place off d) (take n buf))
                      (place off d + n) (drop n buf) p (one p)
                  ∙ splice-parts (contents d) (place off d) buf n p most,
              puts.grew_more d d1 d2 (place off d + n) (place off d + length buf)
                  (omega (arith, most)) grew (subst (λ z. Grew d1 z d2) at_end grew2),
            )
        | inr done ↦
            let all : n ≡ length buf = ground (arith, done, most) in
            (
              d1,
              write_at_done k f n buf off d d1 e done,
              λ p. one p ∙ splice-all (contents d) (place off d) buf n p (ground (arith, done)),
              subst (λ z. Grew d (place off d + z) d1) all grew,
            )
      ]
