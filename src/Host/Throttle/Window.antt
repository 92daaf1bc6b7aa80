-- ===== src/Host/Throttle/Window.antt =====
-- crates/bbs-core/src/host.rs: how long a failed login blocks its name, and how many names are held.
use supply_drop_bbs.Prelude.{
  ℕ, zero, suc, ◌+◌, ◌-◌, ◌^◌, ◌≤◌, ◌<◌, ◌≡◌, none, some, Bytes, ltb, nat_eq, list_eq,
  if◌then◌else◌, length, arith, beq_self,
}
use supply_drop_bbs.Prelude.Map.{insert, length-remove, get-insert}
use supply_drop_bbs.Host.Throttle.{
  Failures, max_failure_entries, backoff, check_login_throttle, bounded, failures_before,
  record_login_failure,
}

two_pow : (n : ℕ) → 2 ≤ 2 ^ suc n
two_pow zero = omega arith
two_pow (suc n) = omega (arith, two_pow n)

backoff_range : (n : ℕ) → (2 ≤ backoff (n + 1)) × (backoff (n + 1) ≤ 30)
unfolding backoff
backoff_range n = let p = two_pow n in (grind (arith, p), grind arith)

bounded-length : (clock : ℕ) (m : Failures) → length (bounded clock m) < max_failure_entries
unfolding bounded
bounded-length clock m = ground arith

length-insert :
    (name : Bytes) (v : ℕ × ℕ) (m : Failures) → length (insert name v m) ≤ suc (length m)
unfolding insert
length-insert name v m = omega (arith, length-remove name m)

-- A failed login of a name blocks the name for the time that is returned, 2 to 30 seconds: a check
-- within it yields what is left of it, a later one nothing; and no more than a thousand names are
-- held afterwards.
pub record_login_failure-window :
    (name : Bytes) (clock : ℕ) (m : Failures) (later : ℕ)
    → (check_login_throttle name later (record_login_failure name clock m).0 ≡ (
        if ltb (later - clock) (record_login_failure name clock m).1
        then some ((record_login_failure name clock m).1 - (later - clock))
        else none))
      × (2 ≤ (record_login_failure name clock m).1)
      × ((record_login_failure name clock m).1 ≤ 30)
      × (length (record_login_failure name clock m).0 ≤ max_failure_entries)
unfolding record_login_failure check_login_throttle
record_login_failure-window name clock m later =
    let n = failures_before name clock (bounded clock m) in
    let range = backoff_range n in
    (
      ground (arith, get-insert name name (n + 1, clock) (bounded clock m), beq_self name),
      range.0,
      range.1,
      omega (arith, bounded-length clock m, length-insert name (n + 1, clock) (bounded clock m)),
    )
