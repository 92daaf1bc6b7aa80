-- ===== src/Companion/Wire/Skip.antt =====
-- Reading behind a prefix of known length.
use supply_drop_bbs.Prelude.{
  ℕ, zero, suc, ◌+◌, ◌-◌, ◌<◌, ◌≡◌, refl, [], ◌∷◌, ◌++◌, Bytes, length, take, drop, length-append,
  take-append, arith, ap, subst, sym,
}
use supply_drop_bbs.Companion.Wire.{ok, at, slice, r_u32, r_i32, u32_bytes, i32_bytes, from_i32}
use supply_drop_bbs.Prelude.Int.{ℤ}
use supply_drop_bbs.Companion.Wire.Ints.{InI32, to_i32-from_i32, from_i32-lt, le_u32-digits}

pub at_skip : (p q : Bytes) (k i : ℕ) → k ≡ length p + i → at (p ++ q) k ≡ at q i
unfolding at
at_skip [] q k i h = ap (at q) (omega arith)
at_skip (c ∷ p) q zero i h = absurd (omega arith)
at_skip (c ∷ p) q (suc k) i h = at_skip p q k i (omega arith)

pub drop_skip : (p q : Bytes) (k i : ℕ) → k ≡ length p + i → drop k (p ++ q) ≡ drop i q
drop_skip [] q k i h = ap (λ n. drop n q) (omega arith)
drop_skip (c ∷ p) q zero i h = absurd (omega arith)
drop_skip (c ∷ p) q (suc k) i h = drop_skip p q k i (omega arith)

pub slice_skip :
    (p q : Bytes) (k l i j : ℕ)
    → k ≡ length p + i
    → l ≡ length p + j
    → slice (p ++ q) k l ≡ slice q i j
unfolding slice
slice_skip p q k l i j hk hl =
    let e : l - k ≡ j - i = omega arith in
    let d = drop_skip p q k i hk in ground (arith, e, d, length-append p q)

pub slice_front : (p q : Bytes) (n : ℕ) → n ≡ length p → slice (p ++ q) 0 n ≡ ok p
unfolding slice
slice_front p q n h =
    let e : take n (p ++ q) ≡ p = subst (λ k. take k (p ++ q) ≡ p) (sym h) (take-append p q) in
    ground (arith, e, length-append p q)

pub r_u32_skip : (p q : Bytes) (k i : ℕ) → k ≡ length p + i → r_u32 (p ++ q) k ≡ r_u32 q i
unfolding r_u32
r_u32_skip p q k i h =
    rw
      (
        at_skip p q k i h,
        at_skip p q (k + 1) (i + 1) (omega arith),
        at_skip p q (k + 2) (i + 2) (omega arith),
        at_skip p q (k + 3) (i + 3) (omega arith),
      )
      refl

pub r_i32_skip : (p q : Bytes) (k i : ℕ) → k ≡ length p + i → r_i32 (p ++ q) k ≡ r_i32 q i
unfolding r_i32
r_i32_skip p q k i h = rw (r_u32_skip p q k i h) refl

pub r_u32-u32_bytes : (n : ℕ) (q : Bytes) → n < 0x1_0000_0000 → r_u32 (u32_bytes n ++ q) 0 ≡ ok n
unfolding r_u32 u32_bytes at
r_u32-u32_bytes n q h = rw (le_u32-digits n h) refl

pub r_i32-i32_bytes : (z : ℤ) (q : Bytes) → InI32 z → r_i32 (i32_bytes z ++ q) 0 ≡ ok z
unfolding r_i32
r_i32-i32_bytes z q h =
    rw (r_u32-u32_bytes (from_i32 z) q (from_i32-lt z), to_i32-from_i32 z h) refl
