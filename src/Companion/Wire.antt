-- ===== src/Companion/Wire.antt =====
-- crates/meshcore-companion/src/frame.rs: bytes read and written in place. A number is little-endian;
-- an index or a slice out of range panics, which is an outcome of the model.
pub mod Safe
pub mod Ints
pub mod Skip
use supply_drop_bbs.Prelude.{
  ℕ, zero, suc, ◌+◌, ◌-◌, ◌*◌, ◌/◌, ◌%◌, ◌^◌, ◌≤◌, Bool, true, false, List, [], ◌∷◌, ◌++◌, Bytes,
  ltb, leb, ◌==◌, nat_eq, if◌then◌else◌, length, take, drop,
}
use supply_drop_bbs.Prelude.Int.{ℤ, pos, negsuc}

pub data FrameDecodeError : Type 0 where
  wrong_prefix : ℕ → ℕ → FrameDecodeError
  payload_too_large : ℕ → FrameDecodeError
  body_too_short : ℕ → ℕ → ℕ → FrameDecodeError
  invalid_utf8 : FrameDecodeError

-- What a call does: it returns a value, returns an error, or panics.
pub data Outcome {ℓ} (A : Type ℓ) : Type ℓ where
  ok : A → Outcome A
  err : FrameDecodeError → Outcome A
  panic : Outcome A

infixl 5 ◌>>=◌
abbrev pub ◌>>=◌ {ℓ κ} : {A : Type ℓ} {B : Type κ} → Outcome A → (A → Outcome B) → Outcome B
ok a >>= f = f a
err e >>= f = err e
panic >>= f = panic

-- `b[off]`.
unfoldable pub at : Bytes → ℕ → Outcome ℕ
at [] i = panic
at (c ∷ b) zero = ok c
at (c ∷ b) (suc i) = at b i

-- `&b[from..to]` and `&b[from..]`.
unfoldable pub slice : Bytes → ℕ → ℕ → Outcome Bytes
slice b from to =
    if leb from to
    then (if leb to (length b) then ok (take (to - from) (drop from b)) else panic)
    else panic

unfoldable pub slice_from : Bytes → ℕ → Outcome Bytes
slice_from b from = if leb from (length b) then ok (drop from b) else panic

abbrev pub le_u16 : ℕ → ℕ → ℕ
le_u16 a b = a + 256 * b

abbrev pub le_u32 : ℕ → ℕ → ℕ → ℕ → ℕ
le_u32 a b c d = a + 256 * b + 65536 * c + 16777216 * d

-- Two's complement: the integer that a pattern of 8 or 32 bits stands for, and back.
abbrev pub to_i8 : ℕ → ℤ
to_i8 n = if ltb n 0x80 then pos n else negsuc (0xFF - n)

abbrev pub to_i32 : ℕ → ℤ
to_i32 n = if ltb n 0x8000_0000 then pos n else negsuc (0xFFFF_FFFF - n)

abbrev pub from_i8 : ℤ → ℕ
from_i8 (pos n) = n % 0x100
from_i8 (negsuc n) = 0xFF - n % 0x100

abbrev pub from_i32 : ℤ → ℕ
from_i32 (pos n) = n % 0x1_0000_0000
from_i32 (negsuc n) = 0xFFFF_FFFF - n % 0x1_0000_0000

unfoldable pub r_u16 : Bytes → ℕ → Outcome ℕ
r_u16 b off = do b0 ← at b off; b1 ← at b (off + 1); ok (le_u16 b0 b1)

unfoldable pub r_u32 : Bytes → ℕ → Outcome ℕ
r_u32 b off = do
  b0 ← at b off
  b1 ← at b (off + 1)
  b2 ← at b (off + 2)
  b3 ← at b (off + 3)
  ok (le_u32 b0 b1 b2 b3)

unfoldable pub r_i32 : Bytes → ℕ → Outcome ℤ
unfolding r_u32
r_i32 b off = do n ← r_u32 b off; ok (to_i32 n)

-- The bytes before the first NUL.
unfoldable pub until_nul : Bytes → Bytes
until_nul [] = []
until_nul (c ∷ b) = let rest = until_nul b in if c == 0 then [] else c ∷ rest

-- `to_le_bytes`.
unfoldable pub u16_bytes : ℕ → Bytes
u16_bytes n = (n % 256) ∷ (n / 256 % 256) ∷ []

unfoldable pub u32_bytes : ℕ → Bytes
u32_bytes n = (n % 256) ∷ (n / 256 % 256) ∷ (n / 65536 % 256) ∷ (n / 16777216 % 256) ∷ []

abbrev pub i32_bytes : ℤ → Bytes
i32_bytes z = u32_bytes (from_i32 z)

abbrev pub zeros : ℕ → Bytes
zeros zero = []
zeros (suc n) = 0 ∷ zeros n

-- A field of fixed size: the name cut to `cap` bytes, and filled up with NULs to `size`.
abbrev pub padded : ℕ → ℕ → Bytes → Bytes
padded cap size name = take cap name ++ zeros (size - length (take cap name))
