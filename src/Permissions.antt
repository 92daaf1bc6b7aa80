-- ===== src/Permissions.antt =====
-- crates/bbs-plugin-api/src/permissions.rs: the authority tiers.
use supply_drop_bbs.Prelude.{ℕ, ◌≡◌, Bool, true, false, leb, nat_eq, arith}

pub data PermissionLevel : Type 0 where
  unvalidated user aide sysop : PermissionLevel

-- The `repr(u8)` values.
unfoldable pub rank : PermissionLevel → ℕ
rank unvalidated = 0
rank user = 10
rank aide = 50
rank sysop = 100

unfoldable pub satisfies : PermissionLevel → PermissionLevel → Bool
unfolding rank
satisfies self required = leb (rank required) (rank self)

pub level_discrete : Discrete PermissionLevel
level_discrete = hlevel

-- The tiers are totally ordered: `satisfies` is transitive, holds one way or the other, and holds
-- both ways only between equal tiers.
pub satisfies_total_order :
    (a b c : PermissionLevel)
    → (satisfies a b ≡ true → satisfies b c ≡ true → satisfies a c ≡ true)
      × (satisfies a b ≡ false → satisfies b a ≡ true)
      × (satisfies a b ≡ true → satisfies b a ≡ true → a ≡ b)
unfolding satisfies
satisfies_total_order a b c = (λ h k. ground arith, λ h. ground arith, λ h k. ground arith)
