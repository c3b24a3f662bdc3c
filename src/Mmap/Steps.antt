-- ===== src/Mmap/Steps.antt =====
-- The invariant of multi_mmap, step by step.
use native.Mathlib.Nat.{mod-eq_of_lt}
use ocfs2_test.Common.{
  ℕ, ◌<◌, ◌≡◌, ◌≢◌, refl, sym, ap, subst, ◌∙◌, true, false, ◌==◌, arith, Bool-cases, inl, inr,
}
use ocfs2_test.Mmap.{
  Job, Turn, next_turn, write_block, Pc, head, in_barrier, passed, gone, writes, System, Move,
  leave, write, enter_writer, enter_reader, end_writer, read_same, read_other, update, Step, move,
  release, init, Reach, start, later,
}
use ocfs2_test.Mmap.Invariant.{
  IsJob, Holds, Sits, has_written, Old, Inv, Holds-write_block, Holds-write_other, next_turn-block,
}

-- What a step of rank `i` to `q` and `t` with the file `file'` owes to the invariant.
record Kept (o : Job) (i : ℕ) (cur prev : Turn) (file file' : ℕ → ℕ) (q : Pc) (t : Turn)
    : Type 0 where
  sits : Sits cur prev q t
  not_passed : q ≢ passed
  keeps_old : Old o cur prev file → Old o cur prev file'
  keeps_new : Holds o cur file → Holds o cur file'
  here : has_written q ≡ true → writes o cur i ≡ true → Holds o cur file'

module _ (o : Job) (job : IsJob o) where
  -- A step that leaves the file as it is.
  same_file :
      (i : ℕ) (cur prev : Turn) (file : ℕ → ℕ) (q : Pc) (t : Turn)
      → Sits cur prev q t
      → q ≢ passed
      → (has_written q ≡ true → writes o cur i ≡ true → Holds o cur file)
      → Kept o i cur prev file file q t
  same_file i cur prev file q t sit free h = record {
    sits = sit;
    not_passed = free;
    keeps_old = λ x. x;
    keeps_new = λ x. x;
    here = h;
  }

  fresh : (cur t : Turn) (file : ℕ → ℕ) → t ≡ cur → Holds o cur (write_block o t file)
  fresh cur t file sit =
      subst (λ u. Holds o u (write_block o t file)) sit (Holds-write_block o job t file)

  true_not_false : true ≢ false
  true_not_false e = cc

  Move-Kept :
      (i : ℕ) (cur prev t t' : Turn) (file file' : ℕ → ℕ) (p q : Pc)
      → cur.block < o.num_procs
      → (p ≡ passed → Old o cur prev file)
      → (has_written p ≡ true → writes o cur i ≡ true → Holds o cur file)
      → Sits cur prev p t
      → Move o i file t p file' q t'
      → Kept o i cur prev file file' q t'
  Move-Kept i cur prev t t' file file' p q low old new sit (leave past) =
      same_file i cur prev file gone t sit (λ e. cc) (λ e. cc)
  Move-Kept i cur prev t t' file file' p q low old new sit (write round w) = record {
    sits = sit;
    not_passed = λ e. cc;
    keeps_old = λ x. record {
      in_order = x.in_order;
      old_range = x.old_range;
      apart = x.apart;
      old_holds =
          subst (λ u. Holds o prev (write_block o u file)) (sym sit)
            (Holds-write_other o job prev cur file x.old_range low x.apart x.old_holds);
    };
    keeps_new = λ x. fresh cur t file sit;
    here = λ e w'. fresh cur t file sit;
  }
  Move-Kept i cur prev t t' file file' p q low old new sit enter_writer =
      same_file i cur prev file in_barrier t sit (λ e. cc) (λ e w. new refl w)
  Move-Kept i cur prev t t' file file' p q low old new sit (enter_reader round w) =
      same_file i cur prev file in_barrier t sit (λ e. cc)
        (λ e w'. absurd (true_not_false (sym w' ∙ ap (λ u. writes o u i) (sym sit) ∙ w)))
  Move-Kept i cur prev t t' file file' p q low old new sit (end_writer w) =
      same_file i cur prev file head (next_turn o t) (ap (next_turn o) sit ∙ (old refl).in_order)
        (λ e. cc) (λ e. cc)
  Move-Kept i cur prev t t' file file' p q low old new sit (read_same w e) =
      same_file i cur prev file head (next_turn o t) (ap (next_turn o) sit ∙ (old refl).in_order)
        (λ e. cc) (λ e. cc)
  Move-Kept i cur prev t t' file file' p q low old new sit (read_other w ne) =
      absurd (ne (rw sit ((old refl).old_holds)))

  move_Inv :
      (i : ℕ) (file' : ℕ → ℕ) (t : Turn) (q : Pc) (s : System)
      → i < o.num_procs
      → Inv o s
      → Move o i s.file (s.turn i) (s.pc i) file' q t
      → Inv o (record { file = file'; pc = update s.pc i q; turn = update s.turn i t })
  move_Inv i file' t q s low inv m = record {
    cur = inv.cur;
    prev = inv.prev;
    in_range = inv.in_range;
    old = λ j h e. elim (Bool-cases (j == i)) [
      | inl y ↦ absurd (kept.not_passed (rw y at e))
      | inr n ↦ kept.keeps_old (inv.old j h (rw n at e))
    ];
    new = λ j h e w. elim (Bool-cases (j == i)) [
      | inl y ↦ (let same : j ≡ i = ground (arith, y) in kept.here (rw y at e) (rw same at w))
      | inr n ↦ kept.keeps_new (inv.new j h (rw n at e) w)
    ];
    seats =
        λ j h. elim (Bool-cases (j == i)) [ inl y ↦ rw y kept.sits | inr n ↦ rw n (inv.seats j h) ];
  }
    where
      kept : Kept o i inv.cur inv.prev s.file file' q t
      kept =
          Move-Kept i inv.cur inv.prev (s.turn i) t s.file file' (s.pc i) q inv.in_range
            (inv.old i low) (inv.new i low) (inv.seats i low) m

  -- The writer of the round has come to the barrier with the others.
  release_Inv :
      (s : System)
      → Inv o s
      → ((j : ℕ) → j < o.num_procs → s.pc j ≡ in_barrier)
      → Inv o (record { file = s.file; pc = λ j. passed; turn = s.turn })
  release_Inv s inv all =
      let (range, differs) = next_turn-block o job inv.cur inv.in_range in
      let c = inv.cur.block in
      let own : writes o inv.cur c ≡ true = rw (mod-eq_of_lt inv.in_range) (ground arith) in
      record {
        cur = next_turn o inv.cur;
        prev = inv.cur;
        in_range = range;
        old = λ j h e. record {
          in_order = refl;
          old_range = inv.in_range;
          apart = differs;
          old_holds = inv.new c inv.in_range (rw (all c inv.in_range) refl) own;
        };
        new = λ j h e w. cc;
        seats = λ j h. rw (all j h) at (inv.seats j h);
      }

  Step-Inv : {s s' : System} → Step o s s' → Inv o s → Inv o s'
  Step-Inv {s} (move i file t {p} low m) inv = move_Inv i file t p s low inv m
  Step-Inv {s} (release all) inv = release_Inv s inv all

  init-Inv : (file : ℕ → ℕ) → Inv o (init file)
  init-Inv file = record {
    cur = record { this_pass = 0; block = 0; startchar = b'a' };
    prev = record { this_pass = 0; block = 0; startchar = b'a' };
    in_range = omega (arith, job.two_ranks);
    old = λ j h e. cc;
    new = λ j h e w. cc;
    seats = λ j h. refl;
  }

  pub Reach-Inv : (file : ℕ → ℕ) {s : System} → Reach o file s → Inv o s
  Reach-Inv file start = init-Inv file
  Reach-Inv file (later r step) = Step-Inv step (Reach-Inv file r)
