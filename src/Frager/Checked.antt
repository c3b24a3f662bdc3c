-- ===== src/Frager/Checked.antt =====
-- The check by `verify_file` of a file that frager.c has written in one order.
use native.Mathlib.Nat.{mul-le-mul_right}
use ocfs2_test.Common.{
  ℕ, ◌+◌, ◌*◌, ◌^◌, ◌≤◌, ◌<◌, ◌≡◌, ◌≢◌, ◌↔◌, refl, ◌∙◌, sym, ap, subst, List, none, some, get_or,
  get_elem?, length, length-map, ok, arith, inl, inr,
}
use ocfs2_test.Kernel.{Kernel}
use ocfs2_test.FileVerify.{WriteRecord}
use ocfs2_test.FileVerify.Records.Laws.{newest, get_elem?-some}
use ocfs2_test.FileVerify.Store.{store}
use ocfs2_test.FileVerify.Verify.{logfile, lines_of, verify_file}
use ocfs2_test.FileVerify.Verify.Log.{blank_record}
use ocfs2_test.Frager.{num_chunks_of}
use ocfs2_test.Frager.Order.{in_order}
use ocfs2_test.Frager.Order.Count.{count, EachOnce, in_order_ext, get_or-in_order}
use ocfs2_test.Frager.Order.Laws.{Fair}
use ocfs2_test.FileVerify.Places.{Sinks, at_offset, at_end, Lands-offset, Lands-end}
use ocfs2_test.Frager.Places.{
  chunk_nos, store-at_end, store-at_offset, newest_once, get_or-chunk_nos,
}
use ocfs2_test.Frager.Run.{
  num_chunks_lem, chunk_found, once, length-wus, has_time, After, verify_iff,
}
use ocfs2_test.FileVerify.Units.{Ticks, units}

-- A file of `n` chunks.
module _ (k : Kernel) (contents : k.Disk → ℕ → ℕ) (size : k.Disk → ℕ) (stream : ℕ → ℕ)
    (clock : ℕ → ℕ × ℕ) (n chunk_size draws f align : ℕ) (tmp : ℕ → ℕ) (ticks : Ticks clock)
    (fair : Fair stream n draws) (room : 40 < chunk_size) (size_fits : chunk_size < 2 ^ 32)
    (pos : 0 < n) (fits : chunk_size * n + chunk_size < 2 ^ 64) (le : chunk_size ≤ f) where
  pub few : n < 2 ^ 64
  few = omega (arith, fits, mul-le-mul_right {m = 1} {n = chunk_size} n (omega (arith, room)))

  pub num_chunks : num_chunks_of (chunk_size * n) chunk_size ≡ n
  num_chunks =
      num_chunks_lem n chunk_size (chunk_size * n) (omega (arith, room)) fits (omega (arith, room))
        (omega (arith, room))

  -- The run in one order, and the check of the file.
  module _ (order : List ℕ) (each : EachOnce n order) (r t : ℕ) (align' : ℕ) (tmp' tmp'' : ℕ → ℕ)
      (d' : k.Disk) (small : size d' < 2 ^ 64) where
    abbrev pub ws : List WriteRecord
    ws = units align tmp stream clock chunk_size order r t

    pub whole : chunk_size * n < 2 ^ 64
    whole = omega (arith, fits)

    ws_once : (c : ℕ) → c < n → count c (chunk_nos ws) ≡ 1
    ws_once = once n chunk_size stream clock ticks room size_fits whole align tmp order each r t

    ws_time : (i : ℕ) (wu : WriteRecord) → get_elem? ws i ≡ some wu → wu.timestamp ≢ 0
    ws_time = has_time n chunk_size stream clock ticks room size_fits whole align tmp order each r t

    abbrev pub Accepted : Type 0
    Accepted =
        verify_file k f align' tmp' tmp'' (logfile (lines_of ws)) (chunk_size * n) chunk_size
          (size d') d'
        ≡ ok tt

    -- The line of the log that counts for a chunk is its only one.
    logged :
        (c : ℕ)
        → c < n
        → (i : ℕ) × (wu : WriteRecord) × (get_elem? ws i ≡ some wu)
          × (wu.chunk_no ≡ c)
          × (newest c ws (blank_record chunk_size c) ≡ wu)
    logged c low =
        let (i, wu, here, at) = chunk_found c ws (ws_once c low) in
        (
          i,
          wu,
          here,
          at,
          newest_once c wu at i ws (blank_record chunk_size c) (ws_once c low) refl here,
        )

    pub accepted_at_offset :
        (sinks : Sinks k contents size at_offset)
        → After k contents size
            (λ off d. off)
            (λ j c. c)
            (λ j s. s ≤ chunk_size * n)
            n
            chunk_size
            (Lands-offset k contents size n chunk_size sinks)
            sinks.gets
            stream
            clock
            ticks
            room
            size_fits
            whole
            f
            align
            tmp
            le
            order
            each
            r
            t
            d'
        → Accepted
    accepted_at_offset sinks after =
        (verify_iff k contents size (λ off d. off) (λ j c. c) (λ j s. s ≤ chunk_size * n) n
            chunk_size (Lands-offset k contents size n chunk_size sinks) sinks.gets stream clock
            ticks room size_fits whole f align tmp le order each r t pos d' after small align' tmp'
            tmp'' full).1
          (λ c low.
            let (i, wu, here, at, counts) = logged c low in
            rw (store-at_offset c wu at i 0 ws (λ s. none) (ws_once c low) here, counts)
              (inr (ws_time i wu here, refl, refl, refl)))
      where
        full :
            (c : ℕ) → c < n → (wu : WriteRecord) × (store (λ j c. c) 0 ws (λ s. none) c ≡ some wu)
        full c low =
            let (i, wu, here, at, counts) = logged c low in
            (wu, store-at_offset c wu at i 0 ws (λ s. none) (ws_once c low) here)

    -- The write unit with the number `c` in the log is at the place `c`.
    abbrev pub Ascending : Type 0
    Ascending =
        (c : ℕ) → c < n → (wu : WriteRecord) × (get_elem? ws c ≡ some wu) × (wu.chunk_no ≡ c)

    length-ws : length ws ≡ n
    length-ws =
        length-wus n chunk_size stream clock ticks room size_fits whole align tmp order each r t

    nth : (c : ℕ) → c < n → (wu : WriteRecord) × (get_elem? ws c ≡ some wu)
    nth c low = get_elem?-some ws c (omega (arith, length-ws, low))

    pub accepted_at_end :
        (sinks : Sinks k contents size at_end)
        → After k contents size
            (λ off d. size d)
            (λ j c. j)
            (λ j s. s ≡ chunk_size * j)
            n
            chunk_size
            (Lands-end k contents size n chunk_size sinks)
            sinks.gets
            stream
            clock
            ticks
            room
            size_fits
            whole
            f
            align
            tmp
            le
            order
            each
            r
            t
            d'
        → Accepted ↔ Ascending
    accepted_at_end sinks after =
        let verified =
          verify_iff k contents size (λ off d. size d) (λ j c. j) (λ j s. s ≡ chunk_size * j) n
            chunk_size (Lands-end k contents size n chunk_size sinks) sinks.gets stream clock ticks
            room size_fits whole f align tmp le order each r t pos d' after small align' tmp' tmp''
            (λ c low. let (wu, here) = nth c low in (wu, store-end c wu here)) in
        (
          λ e c low.
              let (wu, here) = nth c low in
              let (i, v, there, at, counts) = logged c low in
              let agrees = rw (store-end c wu here, counts) at (verified.0 e c low) in
              (
                wu,
                here,
                elim agrees [
                  | inl (blank, _) ↦ absurd (ws_time i v there blank)
                  | inr (_, same, _, _) ↦ same ∙ at
                ],
              ),
          λ asc. verified.1 (λ c low.
              let (wu, here, at) = asc c low in
              rw
                (
                  store-end c wu here,
                  newest_once c wu at c ws (blank_record chunk_size c) (ws_once c low) refl here,
                )
                (inr (ws_time c wu here, refl, refl, refl))),
        )
      where
        zero_plus : (c : ℕ) → 0 + c ≡ c
        zero_plus c = omega arith

        store-end :
            (c : ℕ) (wu : WriteRecord)
            → get_elem? ws c ≡ some wu
            → store (λ j c. j) 0 ws (λ s. none) c ≡ some wu
        store-end c wu here =
            subst (λ z. store (λ j c. j) 0 ws (λ s. none) z ≡ some wu) (zero_plus c)
              (store-at_end c 0 ws (λ s. none) wu here)

    pub Ascending_iff : Ascending ↔ (chunk_nos ws ≡ in_order 0 n)
    Ascending_iff = (
      λ asc.
          in_order_ext n (chunk_nos ws) (length-map ws (λ wu. wu.chunk_no) ∙ length-ws)
            (λ c low. let (wu, here, at) = asc c low in get_or-chunk_nos ws c wu here ∙ at),
      λ e c low.
          let (wu, here) = nth c low in
          (
            wu,
            here,
            sym (get_or-chunk_nos ws c wu here)
                ∙ ap (λ l. get_or l c 0) e
                ∙ get_or-in_order 0 n c low
                ∙ zero_plus c,
          ),
    )
      where
        zero_plus : (c : ℕ) → 0 + c ≡ c
        zero_plus c = omega arith
