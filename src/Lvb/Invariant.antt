-- ===== src/Lvb/Invariant.antt =====
-- What holds of the ranks of lvb_torture between two steps.
use ocfs2_test.Common.{
  ℕ, ◌+◌, ◌%◌, ◌≤◌, ◌<◌, ◌≡◌, ◌≢◌, refl, ◌∙◌, sym, ap, Bool, true, false, ◌==◌, if◌then◌else◌,
  arith,
}
use ocfs2_test.Lvb.{
  Pc, head, locked_first, in_barrier, passed, locked_second, compared, written, unlocked, in_second,
  gone, aborted, System, writes, has_ex, holds_ex, Move, leave, lock_ex, enter_writer, enter_reader,
  lock_pr, see_old, miss_old, see_new, miss_new, write_lvb, unlock_writer, unlock_reader,
  enter_second,
}

-- Before the first barrier of round `t`; `writer` says whether the rank is the one that writes.
abbrev pub IsBefore : ℕ → ℕ → Bool → Pc → Type 0
IsBefore max_iter t writer head = Unit
IsBefore max_iter t writer gone = max_iter ≤ t
IsBefore max_iter t writer locked_first = (writer ≡ true) × (t < max_iter)
IsBefore max_iter t writer in_barrier = t < max_iter
IsBefore max_iter t writer _ = ⊥

-- Behind it; `done` says whether the writer of the round has released the lock.
abbrev pub IsBehind : Bool → Bool → Pc → Type 0
IsBehind writer done passed = Unit
IsBehind writer done locked_second = (writer ≡ false) × (done ≡ true)
IsBehind writer done compared = writer ≡ false → done ≡ true
IsBehind writer done written = writer ≡ true
IsBehind writer done unlocked = writer ≡ false → done ≡ true
IsBehind writer done in_second = writer ≡ false → done ≡ true
IsBehind writer done _ = ⊥

-- Whether the writer has written, and whether it has released the lock.
abbrev pub has_written : Pc → Bool
has_written written = true
has_written unlocked = true
has_written in_second = true
has_written _ = false

abbrev pub is_done : Pc → Bool
is_done unlocked = true
is_done in_second = true
is_done _ = false

-- All ranks are in the same round `t`, on the same side of its first barrier.
pub data Inv (num_procs max_iter : ℕ) (s : System) : Type 0 where
  before :
      (t : ℕ)
      → t ≤ max_iter
      → s.lvb ≡ t
      → ((j : ℕ)
          → j < num_procs
          → (s.iter j ≡ t) × IsBefore max_iter t (t % num_procs == j) (s.pc j))
      → Inv num_procs max_iter s
  behind :
      (t : ℕ)
      → t < max_iter
      → s.lvb ≡ (if has_written (s.pc (t % num_procs)) then t + 1 else t)
      → ((j : ℕ)
          → j < num_procs
          → (s.iter j ≡ t)
            × IsBehind (t % num_procs == j) (is_done (s.pc (t % num_procs))) (s.pc j))
      → Inv num_procs max_iter s

-- The equation `b ≡ false` of a test that is true.
pub clash {ℓ} : {A : Type ℓ} {b : Bool} → b ≡ true → b ≡ false → A
clash h k = absurd (true_not_false (sym h ∙ k))
  where
    true_not_false : true ≢ false
    true_not_false e = cc

pub IsBehind-mono :
    (writer d d' : Bool) (p : Pc)
    → (d ≡ true → d' ≡ true)
    → IsBehind writer d p
    → IsBehind writer d' p
IsBehind-mono writer d d' passed m h = tt
IsBehind-mono writer d d' locked_second m h = (h.0, m h.1)
IsBehind-mono writer d d' compared m h = λ e. m (h e)
IsBehind-mono writer d d' written m h = h
IsBehind-mono writer d d' unlocked m h = λ e. m (h e)
IsBehind-mono writer d d' in_second m h = λ e. m (h e)
IsBehind-mono writer d d' head m h = h
IsBehind-mono writer d d' locked_first m h = h
IsBehind-mono writer d d' in_barrier m h = h
IsBehind-mono writer d d' gone m h = h
IsBehind-mono writer d d' aborted m h = h

-- A writer that does not hold the lock has released it.
pub writer-is_done : (d : Bool) (p : Pc) → IsBehind true d p → has_ex p ≡ false → is_done p ≡ true
writer-is_done d passed h e = clash refl e
writer-is_done d locked_second h e = clash refl h.0
writer-is_done d compared h e = clash refl e
writer-is_done d written h e = clash refl e
writer-is_done d unlocked h e = refl
writer-is_done d in_second h e = refl
writer-is_done d head h e = elim h [ ]
writer-is_done d locked_first h e = elim h [ ]
writer-is_done d in_barrier h e = elim h [ ]
writer-is_done d gone h e = elim h [ ]
writer-is_done d aborted h e = elim h [ ]

pub is_done-has_written : (p : Pc) → is_done p ≡ true → has_written p ≡ true
is_done-has_written p h = grind arith

module _ (n max_iter : ℕ) where
  pub Move-IsBefore :
      (i t : ℕ) (s : System) (p p' : Pc) (lvb : ℕ)
      → s.iter i ≡ t
      → t ≤ max_iter
      → Move n max_iter i s p lvb p'
      → IsBefore max_iter t (t % n == i) p
      → (lvb ≡ s.lvb) × IsBefore max_iter t (t % n == i) p'
  Move-IsBefore i t s p p' lvb e le (leave h) b = (refl, omega (arith, h, e))
  Move-IsBefore i t s p p' lvb e le (lock_ex h w free) b = (refl, (rw e at w, omega (arith, h, e)))
  Move-IsBefore i t s p p' lvb e le enter_writer b = (refl, b.1)
  Move-IsBefore i t s p p' lvb e le (enter_reader h w) b = (refl, omega (arith, h, e))
  Move-IsBefore i t s p p' lvb e le (lock_pr w free) b = elim b [ ]
  Move-IsBefore i t s p p' lvb e le (see_old w h) b = elim b [ ]
  Move-IsBefore i t s p p' lvb e le (miss_old w h) b = elim b [ ]
  Move-IsBefore i t s p p' lvb e le (see_new h) b = elim b [ ]
  Move-IsBefore i t s p p' lvb e le (miss_new h) b = elim b [ ]
  Move-IsBefore i t s p p' lvb e le (write_lvb w) b = elim b [ ]
  Move-IsBefore i t s p p' lvb e le unlock_writer b = elim b [ ]
  Move-IsBefore i t s p p' lvb e le (unlock_reader w) b = elim b [ ]
  Move-IsBefore i t s p p' lvb e le enter_second b = elim b [ ]

  -- A reader behind the first barrier. `done` says whether the writer has released the lock.
  pub reader-Move :
      (i t : ℕ) (done : Bool) (s : System) (p p' : Pc) (lvb : ℕ)
      → writes n s i ≡ false
      → s.iter i ≡ t
      → (done ≡ true → s.lvb ≡ t + 1)
      → (((j : ℕ) → j < n → holds_ex n s j ≡ false) → done ≡ true)
      → Move n max_iter i s p lvb p'
      → IsBehind false done p
      → (lvb ≡ s.lvb) × IsBehind false done p'
  reader-Move i t done s p p' lvb r e new free (leave h) b = elim b [ ]
  reader-Move i t done s p p' lvb r e new free (lock_ex h w f) b = elim b [ ]
  reader-Move i t done s p p' lvb r e new free enter_writer b = elim b [ ]
  reader-Move i t done s p p' lvb r e new free (enter_reader h w) b = elim b [ ]
  reader-Move i t done s p p' lvb r e new free (lock_pr w f) b = (refl, (refl, free f))
  reader-Move i t done s p p' lvb r e new free (see_old w h) b = clash w r
  reader-Move i t done s p p' lvb r e new free (miss_old w h) b = clash w r
  reader-Move i t done s p p' lvb r e new free (see_new h) b = (refl, λ x. b.1)
  reader-Move i t done s p p' lvb r e new free (miss_new h) b =
      absurd (h (omega (arith, new b.1, e)))
  reader-Move i t done s p p' lvb r e new free (write_lvb w) b = clash w r
  reader-Move i t done s p p' lvb r e new free unlock_writer b = clash b refl
  reader-Move i t done s p p' lvb r e new free (unlock_reader w) b = (refl, b)
  reader-Move i t done s p p' lvb r e new free enter_second b = (refl, b)

  -- The writer behind the first barrier.
  pub writer-Move :
      (i t : ℕ) (done : Bool) (s : System) (p p' : Pc) (lvb : ℕ)
      → writes n s i ≡ true
      → s.iter i ≡ t
      → s.lvb ≡ (if has_written p then t + 1 else t)
      → Move n max_iter i s p lvb p'
      → IsBehind true done p
      → (lvb ≡ (if has_written p' then t + 1 else t))
        × ((d : Bool) → IsBehind true d p')
        × (is_done p ≡ true → is_done p' ≡ true)
  writer-Move i t done s p p' lvb r e v (leave h) b = elim b [ ]
  writer-Move i t done s p p' lvb r e v (lock_ex h w f) b = elim b [ ]
  writer-Move i t done s p p' lvb r e v enter_writer b = elim b [ ]
  writer-Move i t done s p p' lvb r e v (enter_reader h w) b = elim b [ ]
  writer-Move i t done s p p' lvb r e v (lock_pr w f) b = clash r w
  writer-Move i t done s p p' lvb r e v (see_old w h) b =
      (v, λ d x. clash refl x, λ x. clash x refl)
  writer-Move i t done s p p' lvb r e v (miss_old w h) b = absurd (h (v ∙ sym e))
  writer-Move i t done s p p' lvb r e v (see_new h) b = clash refl b.0
  writer-Move i t done s p p' lvb r e v (miss_new h) b = clash refl b.0
  writer-Move i t done s p p' lvb r e v (write_lvb w) b =
      (ap (λ z. z + 1) e, λ d. refl, λ x. clash x refl)
  writer-Move i t done s p p' lvb r e v unlock_writer b = (v, λ d x. clash refl x, λ x. refl)
  writer-Move i t done s p p' lvb r e v (unlock_reader w) b = clash r w
  writer-Move i t done s p p' lvb r e v enter_second b = (v, λ d x. clash refl x, λ x. refl)
