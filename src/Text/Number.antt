-- ===== src/Text/Number.antt =====
-- `str::parse` for the integers that the program reads.
use supply_drop_bbs.Prelude.{
  ℕ, ◌+◌, ◌-◌, ◌*◌, ◌^◌, ◌≤◌, ◌≡◌, ◌&&◌, Option, none, some, [], ◌∷◌, Bytes, leb, ◌==◌, nat_eq,
  if◌then◌else◌, ◌>>=◌, arith,
}
use supply_drop_bbs.Prelude.Int.{ℤ, pos, negate_ℕ}

-- The number that decimal digits spell behind `n`.
unfoldable pub digits_from : ℕ → Bytes → Option ℕ
digits_from n [] = some n
digits_from n (c ∷ s) =
    let rest = digits_from (n * 10 + (c - b'0')) s in
    if leb b'0' c && leb c b'9' then rest else none

unfoldable pub digits : Bytes → Option ℕ
digits [] = none
digits (c ∷ s) = digits_from 0 (c ∷ s)

abbrev pub up_to : ℕ → ℕ → Option ℕ
up_to bound n = if leb n bound then some n else none

-- A digit string after an optional `+`; overflow is an error.
unfoldable pub parse_unsigned : ℕ → Bytes → Option ℕ
parse_unsigned bound [] = none
parse_unsigned bound (c ∷ s) = (if c == b'+' then digits s else digits (c ∷ s)) >>= up_to bound

abbrev pub i64_max : ℕ
i64_max = 2 ^ 63 - 1

unfoldable pub parse_i64 : Bytes → Option ℤ
parse_i64 [] = none
parse_i64 (c ∷ s) =
    if c == b'-'
    then (digits s >>= λ n. up_to (2 ^ 63) n >>= λ m. some (negate_ℕ m))
    else (parse_unsigned i64_max (c ∷ s) >>= λ n. some (pos n))

pub parse_unsigned-le :
    (bound : ℕ) (s : Bytes) (n : ℕ) → parse_unsigned bound s ≡ some n → n ≤ bound
unfolding parse_unsigned
parse_unsigned-le bound [] n h = absurd (cc)
parse_unsigned-le bound (c ∷ s) n h = ground arith
