-- ===== src/Companion/Wire/Ints.antt =====
-- Integers and names as bytes, there and back.
use supply_drop_bbs.Prelude.{
  ℕ, zero, suc, ◌/◌, ◌%◌, ◌<◌, ◌≡◌, ◌≢◌, refl, [], ◌∷◌, ◌++◌, Bytes, length, arith, All, nat_eq,
  nat_beq_iff,
}
use supply_drop_bbs.Prelude.Int.{ℤ, pos, negsuc}
use supply_drop_bbs.Companion.Wire.{
  to_i8, to_i32, from_i8, from_i32, le_u16, le_u32, zeros, until_nul,
}

-- What an `i8` and an `i32` hold.
abbrev pub InI8 : ℤ → Type 0
InI8 (pos n) = n < 0x80
InI8 (negsuc n) = n < 0x80

abbrev pub InI32 : ℤ → Type 0
InI32 (pos n) = n < 0x8000_0000
InI32 (negsuc n) = n < 0x8000_0000

pub to_i8-from_i8 : (z : ℤ) → InI8 z → to_i8 (from_i8 z) ≡ z
to_i8-from_i8 (pos n) h = ground arith
to_i8-from_i8 (negsuc n) h = ground arith

pub to_i32-from_i32 : (z : ℤ) → InI32 z → to_i32 (from_i32 z) ≡ z
to_i32-from_i32 (pos n) h = ground arith
to_i32-from_i32 (negsuc n) h = ground arith

pub from_i32-lt : (z : ℤ) → from_i32 z < 0x1_0000_0000
from_i32-lt (pos n) = omega arith
from_i32-lt (negsuc n) = omega arith

pub le_u32-digits :
    (n : ℕ)
    → n < 0x1_0000_0000
    → le_u32 (n % 256) (n / 256 % 256) (n / 65536 % 256) (n / 16777216 % 256) ≡ n
le_u32-digits n h = omega arith

pub le_u16-digits : (n : ℕ) → n < 0x1_0000 → le_u16 (n % 256) (n / 256 % 256) ≡ n
le_u16-digits n h = omega arith

pub length-zeros : (n : ℕ) → length (zeros n) ≡ n
length-zeros zero = refl
length-zeros (suc n) = ground (arith, length-zeros n)

abbrev pub IsNulFree : Bytes → Type 0
IsNulFree b = All (λ c. c ≢ 0) b

pub until_nul-zeros : (name : Bytes) (n : ℕ) → IsNulFree name → until_nul (name ++ zeros n) ≡ name
unfolding until_nul
until_nul-zeros [] zero h = refl
until_nul-zeros [] (suc n) h = refl
until_nul-zeros (c ∷ name) n h = ground (arith, until_nul-zeros name n h.1, nat_beq_iff c 0)
