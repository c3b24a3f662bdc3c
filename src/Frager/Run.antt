-- ===== src/Frager/Run.antt =====
-- A run of frager.c on a new file, and then `verify_file` with its log, as verify_file.c calls it.
use ocfs2_test.Common.{
  ℕ, suc, ◌+◌, ◌-◌, ◌*◌, ◌/◌, ◌^◌, ◌≤◌, ◌<◌, ◌≡◌, ◌≢◌, ◌↔◌, refl, ◌∙◌, sym, ap, subst, List, [],
  ◌∷◌, Option, none, some, All, All-map, All-elem, get_elem?, length, length-map, ok, arith,
  Bool-cases, ◌==◌, inl, inr, add64, sub64,
}
use ocfs2_test.Kernel.{Kernel}
use ocfs2_test.FileVerify.{WriteRecord}
use ocfs2_test.FileVerify.Records.Laws.{newest}
use ocfs2_test.FileVerify.Store.{IsUnit, Lands, store, do_writes_lem}
use ocfs2_test.FileVerify.Transfer.Partial.{Gets}
use ocfs2_test.FileVerify.Verify.{logfile, lines_of, verify_file}
use ocfs2_test.FileVerify.Verify.Held.{Holds, Agrees}
use ocfs2_test.FileVerify.Verify.Laws.{Expected}
use ocfs2_test.FileVerify.Verify.Log.{blank_record, div_between, verify_file_iff}
use ocfs2_test.Frager.{num_chunks_of, write_chunks}
use ocfs2_test.Frager.Order.Count.{count, EachOnce, EachOnce-below}
use ocfs2_test.Frager.Places.{chunk_nos}
use ocfs2_test.FileVerify.Units.{Ticks, units, chunk_no-units, units-IsUnit}
use ocfs2_test.Frager.Units.{write_chunks-do_writes}

pub num_chunks_lem :
    (n c size : ℕ)
    → 0 < c
    → size + c < 2 ^ 64
    → n * c ≤ size + c - 1
    → size + c - 1 < suc n * c
    → num_chunks_of size c ≡ n
unfolding num_chunks_of
num_chunks_lem n c size pos fits lo hi =
    let e : sub64 (add64 size c) 1 ≡ size + c - 1 = omega arith in
    rw e (div_between n c (size + c - 1) pos lo hi)

-- A chunk number that is counted is that of a write unit.
pub chunk_found :
    (c : ℕ) (wus : List WriteRecord)
    → count c (chunk_nos wus) ≡ 1
    → (i : ℕ) × (wu : WriteRecord) × (get_elem? wus i ≡ some wu) × (wu.chunk_no ≡ c)
unfolding count
chunk_found c [] e = absurd (omega (arith, e))
chunk_found c (wu ∷ wus) e = elim (Bool-cases (wu.chunk_no == c)) [
  | inl here ↦ (0, wu, refl, ground (arith, here))
  | inr apart ↦
      let (i, v, found, at) = chunk_found c wus (ground (arith, e, apart)) in (suc i, v, found, at)
]

abbrev or_blank : Option WriteRecord → WriteRecord
or_blank none = blank_record 0 0
or_blank (some wu) = wu

-- The write units of a run with `n` chunks of `chunk_size` bytes.
module _ (n chunk_size : ℕ) (stream : ℕ → ℕ) (clock : ℕ → ℕ × ℕ) (ticks : Ticks clock)
    (room : 40 < chunk_size) (size_fits : chunk_size < 2 ^ 32) (fits : chunk_size * n < 2 ^ 64)
    (align : ℕ) (tmp : ℕ → ℕ) (order : List ℕ) (each : EachOnce n order) (r t : ℕ) where
  abbrev pub wus : List WriteRecord
  wus = units align tmp stream clock chunk_size order r t

  pub units-All : All (λ wu. IsUnit n chunk_size wu × (0 < wu.timestamp)) wus
  units-All =
      units-IsUnit align tmp stream clock chunk_size ticks room size_fits n order r t fits
        (EachOnce-below n order each)

  pub once : (c : ℕ) → c < n → count c (chunk_nos wus) ≡ 1
  once c low = rw (chunk_no-units align tmp stream clock chunk_size order r t) (each.once c low)

  pub length-wus : length wus ≡ n
  length-wus =
      sym (length-map wus (λ wu. wu.chunk_no))
      ∙ ap length (chunk_no-units align tmp stream clock chunk_size order r t)
      ∙ each.len

  pub has_time : (i : ℕ) (wu : WriteRecord) → get_elem? wus i ≡ some wu → wu.timestamp ≢ 0
  has_time i wu here e = absurd (
      omega (
        arith,
        e,
        (All-elem (λ v. IsUnit n chunk_size v × (0 < v.timestamp)) wus i wu units-All here).1,
      ))

-- The run: `n` chunks of `chunk_size` bytes, on a disk whose writes land as `lands` says.
module _ (k : Kernel) (contents : k.Disk → ℕ → ℕ) (size : k.Disk → ℕ) (place : ℕ → k.Disk → ℕ)
    (slot : ℕ → ℕ → ℕ) (Sized : ℕ → ℕ → Type 0) (n chunk_size : ℕ)
    (lands : Lands k contents size place n chunk_size slot Sized)
    (gets : (d : k.Disk) → Gets k (contents d) (size d) d) (stream : ℕ → ℕ) (clock : ℕ → ℕ × ℕ)
    (ticks : Ticks clock) (room : 40 < chunk_size) (size_fits : chunk_size < 2 ^ 32)
    (fits : chunk_size * n < 2 ^ 64) (f align : ℕ) (tmp : ℕ → ℕ) (le : chunk_size ≤ f)
    (order : List ℕ) (each : EachOnce n order) (r t : ℕ) where
  abbrev pub all_written : List WriteRecord
  all_written = units align tmp stream clock chunk_size order r t

  written_units : All (λ wu. IsUnit n chunk_size wu × (0 < wu.timestamp)) all_written
  written_units =
      units-All n chunk_size stream clock ticks room size_fits fits align tmp order each r t

  -- The file after the run.
  abbrev pub After : k.Disk → Type 0
  After d' =
      Sized (length all_written + 0) (size d')
      × ((s : ℕ) (wu : WriteRecord)
          → store slot 0 all_written (λ s. none) s ≡ some wu
          → Holds (contents d') (size d') chunk_size s wu)

  pub run_lem :
      (d : k.Disk)
      → Sized 0 (size d)
      → (d' : k.Disk) × (write_chunks k f align tmp stream clock chunk_size order r t d []
          ≡ ok (d', all_written))
        × After d'
  run_lem d sized =
      let (d', e, sized', stored) =
        do_writes_lem k contents size place n chunk_size slot Sized lands f align tmp le 0
          all_written d (λ s. none) sized
          (All-map (λ wu. IsUnit n chunk_size wu × (0 < wu.timestamp)) (IsUnit n chunk_size)
            (λ wu u. u.0) all_written written_units)
          (λ s wu here. absurd (none-some wu here)) in
      (
        d',
        write_chunks-do_writes align tmp stream clock chunk_size k f order r t d [] ∙ rw e refl,
        (sized', stored),
      )
    where
      none-some : (wu : WriteRecord) → none ≢ some wu
      none-some wu e = cc

  -- What `verify_file` finds afterwards, where each chunk of the file has been written.
  module _ (pos : 0 < n) (d' : k.Disk) (after : After d') (small : size d' < 2 ^ 64) (align' : ℕ)
      (tmp' tmp'' : ℕ → ℕ)
      (full : (c : ℕ)
        → c < n
        → (wu : WriteRecord) × (store slot 0 all_written (λ s. none) c ≡ some wu)) where
    abbrev pub held : ℕ → WriteRecord
    held c = or_blank (store slot 0 all_written (λ s. none) c)

    pub held_full : (c : ℕ) (low : c < n) → held c ≡ (full c low).0
    held_full c low = ap or_blank (full c low).1

    pub verify_iff :
        (verify_file k f align' tmp' tmp''
            (logfile (lines_of all_written))
            (chunk_size * n)
            chunk_size
            (size d')
            d'
          ≡ ok tt)
        ↔ ((c : ℕ) → c < n → Agrees c (held c) (newest c all_written (blank_record chunk_size c)))
    verify_iff =
        let at =
          verify_file_iff k (contents d') (size d') d' (gets d') small f align' chunk_size tmp'
            tmp'' le held (chunk_size * n) (λ c low. holds c (below c low)) all_written
            (omega (
              arith,
              (length-wus n chunk_size stream clock ticks room size_fits fits align tmp order each r
                  t),
              pos,
            ))
            inside expected in
        (λ e c low. at.0 e c (rw whole low), λ good. at.1 (λ c low. good c (below c low)))
      where
        whole : chunk_size * n / chunk_size ≡ n
        whole =
            div_between n chunk_size (chunk_size * n) (omega (arith, room)) (omega arith)
              (omega (arith, room))

        below : (c : ℕ) → c < chunk_size * n / chunk_size → c < n
        below c low = rw whole at low

        holds : (c : ℕ) → c < n → Holds (contents d') (size d') chunk_size c (held c)
        holds c low =
            let (wu, here) = full c low in
            subst (Holds (contents d') (size d') chunk_size c) (sym (held_full c low))
              (after.1 c wu here)

        inside : All (λ wu. wu.chunk_no < chunk_size * n / chunk_size) all_written
        inside =
            All-map (λ wu. IsUnit n chunk_size wu × (0 < wu.timestamp))
              (λ wu. wu.chunk_no < chunk_size * n / chunk_size) (λ wu u. rw whole u.0.inside)
              all_written written_units

        expected : All (Expected chunk_size) all_written
        expected =
            All-map (λ wu. IsUnit n chunk_size wu × (0 < wu.timestamp)) (Expected chunk_size)
              (λ wu u. record { logged = λ some_time. (u.0.sound, u.0.size_same) }) all_written
              written_units
