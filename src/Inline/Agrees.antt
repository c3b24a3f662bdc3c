-- ===== src/Inline/Agrees.antt =====
-- inline-data-utils.c: when the file and the pattern agree, and what the calls do to that.
use ocfs2_test.Common.{
  ℕ, ◌+◌, ◌-◌, ◌≤◌, ◌<◌, ◌≡◌, refl, sym, ap, subst, ◌∙◌, Bool, false, ◌&&◌, not, leb, ltb,
  if◌then◌else◌, max, arith, Result, ok, failed, aborted, out_of_fuel, ◌>>=◌, Bool-cases, inl, inr,
}
use ocfs2_test.Kernel.{slice, splice}
use ocfs2_test.Kernel.Slices.{length-slice, get_or-slice, splice_in, splice_out}
use ocfs2_test.Inline.{clear}
use ocfs2_test.Inline.Inode.{File, written, resized, reserved, punched, map_written}

-- The file has `n` bytes, those of the pattern, and its data are in the inode or not, its descriptor
-- goes round the cache or not.
pub record Same (pattern : ℕ → ℕ) (n : ℕ) (inlined direct : Bool) (f : File) : Type 0 where
  pub size_is : f.size ≡ n
  pub same : (p : ℕ) → p < n → f.content p ≡ pattern p
  pub inlined_is : f.inlined ≡ inlined
  pub direct_is : f.direct ≡ direct

pub Same-resized :
    (limit new n : ℕ) (pattern pattern' : ℕ → ℕ) (b t : Bool) (f : File)
    → Same pattern n b t f
    → ((p : ℕ) → p < new → pattern' p ≡ (if ltb p n then pattern p else 0))
    → Same pattern' new (b && leb new limit) t (resized limit new f)
Same-resized limit new n pattern pattern' b t f h cut = record {
  size_is = refl;
  same = λ p low. ground (arith, cut p low, h.same p, h.size_is);
  inlined_is = ap (λ i. i && leb new limit) h.inlined_is;
  direct_is = h.direct_is;
}

-- The bytes of a write of the pattern to its own place.
splice-slice :
    (pattern : ℕ → ℕ) (off count p : ℕ) (file : ℕ → ℕ)
    → splice file off (slice pattern off count) p
      ≡ (if leb off p && ltb p (off + count) then pattern p else file p)
splice-slice pattern off count p file = elim (Bool-cases (leb off p && ltb p (off + count))) [
  | inl e ↦
      splice_in file off (slice pattern off count) p (ground (arith, e))
        (ground (arith, e, length-slice pattern off count))
      ∙ get_or-slice pattern off count (p - off) (ground (arith, e))
      ∙ (let back : off + (p - off) ≡ p = ground (arith, e) in ap pattern back)
      ∙ (rw e refl)
  | inr e ↦
      splice_out file off (slice pattern off count) p
        (ground (arith, e, length-slice pattern off count))
      ∙ (rw e refl)
]

pub Same-written :
    (limit off count n : ℕ) (pattern : ℕ → ℕ) (b t : Bool) (f : File)
    → Same pattern n b t f
    → off ≤ n
    → Same pattern
        (max n (off + count))
        (b && (leb (off + count) limit && not t))
        t
        (written limit (slice pattern off count) off f)
Same-written limit off count n pattern b t f h le =
    let len = length-slice pattern off count in
    record {
      size_is = ground (arith, len, h.size_is);
      same = λ p low. ground (arith, splice-slice pattern off count p f.content, low, le, h.same p);
      inlined_is = rw (len, h.inlined_is, h.direct_is) refl;
      direct_is = h.direct_is;
    }

pub Same-reserved :
    (limit off len n : ℕ) (pattern : ℕ → ℕ) (b t : Bool) (f : File)
    → Same pattern n b t f
    → Same pattern n (b && leb (off + len) limit) t (reserved limit off len f)
Same-reserved limit off len n pattern b t f h = record {
  size_is = h.size_is;
  same = h.same;
  inlined_is = ap (λ i. i && leb (off + len) limit) h.inlined_is;
  direct_is = h.direct_is;
}

pub Same-punched :
    (off len n : ℕ) (pattern : ℕ → ℕ) (b t : Bool) (f : File)
    → Same pattern n b t f
    → Same (clear off len pattern) n b t (punched off len f)
Same-punched off len n pattern b t f h = record {
  size_is = h.size_is;
  same = λ p low. ground (arith, h.same p low);
  inlined_is = h.inlined_is;
  direct_is = h.direct_is;
}

pub Same-map_written :
    (n : ℕ) (pattern pattern' : ℕ → ℕ) (b t : Bool) (f : File)
    → Same pattern n b t f
    → Same pattern' n false t (map_written (slice pattern' 0 n) 0 f)
Same-map_written n pattern pattern' b t f h = record {
  size_is = h.size_is;
  same = λ p low. ground (arith, splice-slice pattern' 0 n p f.content, low);
  inlined_is = refl;
  direct_is = h.direct_is;
}

-- A result that is a value with a property.
abbrev pub Ends {ℓ κ} : {A : Type ℓ} → (A → Type κ) → Result A → Type (ℓ ⊔ κ)
Ends {A = A} P r = (a : A) × (r ≡ ok a) × P a

pub Ends-bind {ℓ κ μ ν} :
    {A : Type ℓ} {B : Type κ} {P : A → Type μ} {Q : B → Type ν} {r : Result A} {f : A → Result B}
    → Ends P r
    → ((a : A) → P a → Ends Q (f a))
    → Ends Q (r >>= f)
Ends-bind {Q = Q} {f = f} (a, e, h) next = subst (λ z. Ends Q (z >>= f)) (sym e) (next a h)

-- Two steps, and what follows them.
pub Ends-then {ℓ κ μ ν ξ} :
    {A : Type ℓ} {B : Type κ} {C : Type ξ} {P : B → Type μ} {Q : C → Type ν} (r : Result A)
    (f : A → Result B) {g : B → Result C}
    → Ends P (r >>= f)
    → ((b : B) → P b → Ends Q (g b))
    → Ends Q (r >>= λ a. f a >>= g)
Ends-then (ok a) f both next = Ends-bind both next
Ends-then failed f (b, e, h) next = cc
Ends-then aborted f (b, e, h) next = cc
Ends-then out_of_fuel f (b, e, h) next = cc
