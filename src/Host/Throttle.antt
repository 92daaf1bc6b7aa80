-- ===== src/Host/Throttle.antt =====
-- crates/bbs-core/src/host.rs: the counters of failed logins. A time is in seconds of the monotonic
-- clock; `saturating_pow` and the cap of 30 leave what the power leaves.
pub mod Window
use supply_drop_bbs.Prelude.{
  ℕ, ◌+◌, ◌-◌, ◌^◌, ◌≤◌, ◌<◌, ◌≡◌, min, refl, ◌⊎◌, inl, inr, Bool, true, false, not, Option, none,
  some, List, [], Bytes, ltb, leb, ◌==◌, nat_eq, list_eq, if◌then◌else◌, length, arith, Bool-cases,
  Option-cases,
}
use supply_drop_bbs.Prelude.Map.{Map, get, insert, retain, remove, length-remove, get-insert}

abbrev pub Failures : Type 0
Failures = Map Bytes (ℕ × ℕ)

abbrev pub max_failure_entries : ℕ
max_failure_entries = 1000

unfoldable pub backoff : ℕ → ℕ
backoff failures = min (2 ^ failures) 30

unfoldable pub check_login_throttle : Bytes → ℕ → Failures → Option ℕ
check_login_throttle name clock m = elim (get name m) [
  | none ↦ none
  | some (count, last) ↦
      if ltb (clock - last) (backoff count) then some (backoff count - (clock - last)) else none
]

unfoldable pub is_recent_failure : ℕ → Bytes → ℕ × ℕ → Bool
is_recent_failure clock _ (_, t) = leb (clock - t) 600

-- The eviction before an entry is made.
unfoldable pub bounded : ℕ → Failures → Failures
bounded clock m =
    if leb max_failure_entries (length m)
    then (let m' = retain (is_recent_failure clock) m in
        if leb max_failure_entries (length m') then [] else m')
    else m

-- The failures counted so far: none, where the last is more than ten minutes old.
unfoldable pub failures_before : Bytes → ℕ → Failures → ℕ
failures_before name clock m = elim (get name m) [
  | none ↦ 0
  | some (count, last) ↦ if ltb 600 (clock - last) then 0 else count
]

unfoldable pub record_login_failure : Bytes → ℕ → Failures → Failures × ℕ
record_login_failure name clock m =
    let m' = bounded clock m in
    let failures = failures_before name clock m' + 1 in
    (insert name (failures, clock) m', backoff failures)
