-- ===== src/Companion/Wire/Safe.antt =====
-- When reading in place does not panic.
use supply_drop_bbs.Prelude.{
  ℕ, zero, suc, ◌+◌, ◌-◌, ◌≤◌, ◌<◌, ◌≡◌, refl, inl, inr, ◌⊎◌, [], ◌∷◌, Bytes, length, take, drop,
  arith,
}
use supply_drop_bbs.Companion.Wire.{
  Outcome, body_too_short, ok, err, ◌>>=◌, at, slice, slice_from, r_u16, r_u32, r_i32,
}

-- The call returns a value, or an error that reports too few bytes; it does not panic.
pub data Safe {ℓ} {A : Type ℓ} : Outcome A → Type ℓ where
  safe_ok : (a : A) → Safe (ok a)
  safe_err : (t needed got : ℕ) → got < needed → Safe (err (body_too_short t needed got))

pub Safe-bind {ℓ} :
    {A B : Type ℓ} (m : Outcome A) (f : A → Outcome B)
    → Safe m
    → ((a : A) → Safe (f a))
    → Safe (m >>= f)
Safe-bind m f (safe_ok a) k = k a
Safe-bind m f (safe_err t needed got h) k = safe_err t needed got h

pub Safe-cases {ℓ} :
    {A : Type ℓ} (m : Outcome A)
    → Safe m
    → ((a : A) × (m ≡ ok a))
      ⊎ ((t : ℕ) × (needed : ℕ) × (got : ℕ) × (m ≡ err (body_too_short t needed got))
          × (got < needed))
Safe-cases m (safe_ok a) = inl (a, refl)
Safe-cases m (safe_err t needed got h) = inr (t, needed, got, refl, h)

pub Safe-at : (b : Bytes) (i : ℕ) → i < length b → Safe (at b i)
unfolding at
Safe-at [] i h = ground arith
Safe-at (c ∷ b) zero h = safe_ok _
Safe-at (c ∷ b) (suc i) h = Safe-at b i (omega arith)

pub Safe-slice : (b : Bytes) (from to : ℕ) → from ≤ to → to ≤ length b → Safe (slice b from to)
unfolding slice
Safe-slice b from to h k =
    let e : slice b from to ≡ ok (take (to - from) (drop from b)) = ground arith in rw e (safe_ok _)

pub Safe-slice_from : (b : Bytes) (from : ℕ) → from ≤ length b → Safe (slice_from b from)
unfolding slice_from
Safe-slice_from b from h =
    let e : slice_from b from ≡ ok (drop from b) = ground arith in rw e (safe_ok _)

pub Safe-r_u16 : (b : Bytes) (off : ℕ) → off + 2 ≤ length b → Safe (r_u16 b off)
unfolding r_u16
Safe-r_u16 b off h =
    Safe-bind (at b off) _ (Safe-at b off (omega arith))
      (λ b0. Safe-bind (at b (off + 1)) _ (Safe-at b (off + 1) (omega arith)) (λ b1. safe_ok _))

pub Safe-r_u32 : (b : Bytes) (off : ℕ) → off + 4 ≤ length b → Safe (r_u32 b off)
unfolding r_u32
Safe-r_u32 b off h = Safe-bind (at b off) _ (Safe-at b off (omega arith)) (λ b0.
    Safe-bind (at b (off + 1)) _ (Safe-at b (off + 1) (omega arith)) (λ b1.
      Safe-bind (at b (off + 2)) _ (Safe-at b (off + 2) (omega arith))
        (λ b2. Safe-bind (at b (off + 3)) _ (Safe-at b (off + 3) (omega arith)) (λ b3. safe_ok _))))

pub Safe-r_i32 : (b : Bytes) (off : ℕ) → off + 4 ≤ length b → Safe (r_i32 b off)
unfolding r_i32
Safe-r_i32 b off h = Safe-bind (r_u32 b off) _ (Safe-r_u32 b off h) (λ n. safe_ok _)
