-- ===== src/Host/Suspension.antt =====
-- crates/bbs-core/src/host.rs: a timeout that has run out is lifted, and others are told how long.
use supply_drop_bbs.Prelude.{
  ℕ, ◌+◌, ◌-◌, ◌/◌, max, Bool, Option, none, some, leb, if◌then◌else◌, Result, ok, err,
}
use supply_drop_bbs.Host.Users.{
  User, active, banned, deleted, get_by_id, set_reactivated, end_expired_suspension,
}
use supply_drop_bbs.Host.State.{
  HostState, HostError, storage, DbCall, end_expired, reread, with_users,
}

pub data LoginSuspensionCheck : Type 0 where
  allowed : User → LoginSuspensionCheck
  suspended : ℕ → LoginSuspensionCheck
  permanently_banned : LoginSuspensionCheck

-- Where the end lies behind, the source's signed quotient is at most 0 and the result 1 as here.
unfoldable pub suspension_days_remaining : ℕ → ℕ → ℕ
suspension_days_remaining until now = max ((until - now + 86399) / 86400) 1

-- The row as it is now, after the conditional statement found it changed.
unfoldable pub check_fresh : ℕ → Option User → LoginSuspensionCheck
check_fresh now none = permanently_banned
check_fresh now (some u) = elim u.status [
  | active ↦ allowed u
  | banned ↦ elim u.suspended_until [
    | none ↦ permanently_banned
    | some until ↦ suspended (suspension_days_remaining until now)
  ]
  | deleted ↦ permanently_banned
]

unfoldable pub resolve_suspension :
    (DbCall → Bool) → ℕ → User → HostState → HostState × Result HostError LoginSuspensionCheck
resolve_suspension fails now u s = elim u.suspended_until [
  | none ↦ (s, ok permanently_banned)
  | some until ↦
      if leb until now
      then if fails end_expired
        then (s, err storage)
        else (let (users, ended) = end_expired_suspension u.id now s.users in
            if ended
            then (with_users users s, ok (allowed (set_reactivated u)))
            else if fails reread
            then (s, err storage)
            else (s, ok (check_fresh now (get_by_id u.id s.users))))
      else (s, ok (suspended (suspension_days_remaining until now)))
]
