-- ===== src/Companion/Inbound/Safe/Bodies.antt =====
-- The decoder never indexes out of range.
use supply_drop_bbs.Prelude.{◌≤◌, Option, Bytes, length, arith}
use supply_drop_bbs.Prelude.Int.{ℤ}
use supply_drop_bbs.Companion.Wire.{at, slice, slice_from, r_u16, r_u32, r_i32}
use supply_drop_bbs.Companion.Wire.Safe.{
  Safe, safe_ok, Safe-bind, Safe-at, Safe-slice, Safe-slice_from, Safe-r_u16, Safe-r_u32,
  Safe-r_i32,
}
use supply_drop_bbs.Companion.Bodies.{
  parse_contact, parse_self_info, parse_device_info, parse_sent_result, parse_batt_and_storage,
  parse_exported_contact, parse_contact_msg, parse_channel_msg, parse_channel_info,
}
use supply_drop_bbs.Companion.Inbound.{parse_login_success}

pub Safe-parse_sent_result : (body : Bytes) → 9 ≤ length body → Safe (parse_sent_result body)
unfolding parse_sent_result
Safe-parse_sent_result body h = Safe-bind (at body 0) _ (Safe-at body 0 (omega arith)) λ _.
    Safe-bind (r_u32 body 1) _ (Safe-r_u32 body 1 (omega arith))
      λ _. Safe-bind (r_u32 body 5) _ (Safe-r_u32 body 5 (omega arith)) λ _. safe_ok _

pub Safe-parse_batt_and_storage :
    (body : Bytes) → 10 ≤ length body → Safe (parse_batt_and_storage body)
unfolding parse_batt_and_storage
Safe-parse_batt_and_storage body h =
    Safe-bind (r_u16 body 0) _ (Safe-r_u16 body 0 (omega arith)) λ _.
      Safe-bind (r_u32 body 2) _ (Safe-r_u32 body 2 (omega arith))
        λ _. Safe-bind (r_u32 body 6) _ (Safe-r_u32 body 6 (omega arith)) λ _. safe_ok _

pub Safe-parse_contact :
    (lossy : Bytes → Bytes) (body : Bytes) → 147 ≤ length body → Safe (parse_contact lossy body)
unfolding parse_contact
Safe-parse_contact lossy body h =
    Safe-bind (slice body 0 32) _ (Safe-slice body 0 32 (omega arith) (omega arith)) λ _.
      Safe-bind (at body 32) _ (Safe-at body 32 (omega arith)) λ _.
        Safe-bind (at body 33) _ (Safe-at body 33 (omega arith)) λ _.
          Safe-bind (at body 34) _ (Safe-at body 34 (omega arith)) λ _.
            Safe-bind (slice body 35 99) _ (Safe-slice body 35 99 (omega arith) (omega arith)) λ _.
              Safe-bind (slice body 99 131) _ (Safe-slice body 99 131 (omega arith) (omega arith))
                λ _. Safe-bind (r_u32 body 131) _ (Safe-r_u32 body 131 (omega arith)) λ _.
                  Safe-bind (r_i32 body 135) _ (Safe-r_i32 body 135 (omega arith)) λ _.
                    Safe-bind (r_i32 body 139) _ (Safe-r_i32 body 139 (omega arith)) λ _.
                      Safe-bind (r_u32 body 143) _ (Safe-r_u32 body 143 (omega arith))
                        λ _. safe_ok _

pub Safe-parse_self_info :
    (lossy : Bytes → Bytes) (body : Bytes) → 57 ≤ length body → Safe (parse_self_info lossy body)
unfolding parse_self_info
Safe-parse_self_info lossy body h = Safe-bind (at body 0) _ (Safe-at body 0 (omega arith)) λ _.
    Safe-bind (at body 1) _ (Safe-at body 1 (omega arith)) λ _.
      Safe-bind (slice body 3 35) _ (Safe-slice body 3 35 (omega arith) (omega arith)) λ _.
        Safe-bind (r_i32 body 35) _ (Safe-r_i32 body 35 (omega arith)) λ _.
          Safe-bind (r_i32 body 39) _ (Safe-r_i32 body 39 (omega arith)) λ _.
            Safe-bind (at body 43) _ (Safe-at body 43 (omega arith)) λ _.
              Safe-bind (at body 44) _ (Safe-at body 44 (omega arith)) λ _.
                Safe-bind (at body 45) _ (Safe-at body 45 (omega arith)) λ _.
                  Safe-bind (at body 46) _ (Safe-at body 46 (omega arith)) λ _.
                    Safe-bind (r_u32 body 47) _ (Safe-r_u32 body 47 (omega arith)) λ _.
                      Safe-bind (r_u32 body 51) _ (Safe-r_u32 body 51 (omega arith)) λ _.
                        Safe-bind (at body 55) _ (Safe-at body 55 (omega arith)) λ _.
                          Safe-bind (at body 56) _ (Safe-at body 56 (omega arith)) λ _.
                            Safe-bind (slice_from body 57) _ (Safe-slice_from body 57 (omega arith))
                              λ _. safe_ok _

pub Safe-parse_device_info :
    (lossy : Bytes → Bytes) (body : Bytes) → 81 ≤ length body → Safe (parse_device_info lossy body)
unfolding parse_device_info
Safe-parse_device_info lossy body h = Safe-bind (at body 0) _ (Safe-at body 0 (omega arith)) λ _.
    Safe-bind (at body 1) _ (Safe-at body 1 (omega arith)) λ _.
      Safe-bind (at body 2) _ (Safe-at body 2 (omega arith)) λ _.
        Safe-bind (r_u32 body 3) _ (Safe-r_u32 body 3 (omega arith)) λ _.
          Safe-bind (slice body 7 19) _ (Safe-slice body 7 19 (omega arith) (omega arith)) λ _.
            Safe-bind (slice body 19 59) _ (Safe-slice body 19 59 (omega arith) (omega arith)) λ _.
              Safe-bind (slice body 59 79) _ (Safe-slice body 59 79 (omega arith) (omega arith))
                λ _.
                  Safe-bind (at body 79) _ (Safe-at body 79 (omega arith))
                    λ _. Safe-bind (at body 80) _ (Safe-at body 80 (omega arith)) λ _. safe_ok _

pub Safe-parse_exported_contact :
    (lossy : Bytes → Bytes) (body : Bytes)
    → 73 ≤ length body
    → Safe (parse_exported_contact lossy body)
unfolding parse_exported_contact
Safe-parse_exported_contact lossy body h =
    Safe-bind (slice body 0 32) _ (Safe-slice body 0 32 (omega arith) (omega arith)) λ _.
      Safe-bind (at body 32) _ (Safe-at body 32 (omega arith)) λ _.
        Safe-bind (slice body 33 65) _ (Safe-slice body 33 65 (omega arith) (omega arith)) λ _.
          Safe-bind (r_i32 body 65) _ (Safe-r_i32 body 65 (omega arith))
            λ _. Safe-bind (r_i32 body 69) _ (Safe-r_i32 body 69 (omega arith)) λ _. safe_ok _

pub Safe-parse_contact_msg :
    (lossy : Bytes → Bytes) (body : Bytes) (snr : Option ℤ)
    → 12 ≤ length body
    → Safe (parse_contact_msg lossy body snr)
unfolding parse_contact_msg
Safe-parse_contact_msg lossy body snr h =
    Safe-bind (slice body 0 6) _ (Safe-slice body 0 6 (omega arith) (omega arith)) λ _.
      Safe-bind (at body 6) _ (Safe-at body 6 (omega arith)) λ _.
        Safe-bind (at body 7) _ (Safe-at body 7 (omega arith)) λ _.
          Safe-bind (r_u32 body 8) _ (Safe-r_u32 body 8 (omega arith)) λ _.
            Safe-bind (slice_from body 12) _ (Safe-slice_from body 12 (omega arith)) λ _. safe_ok _

pub Safe-parse_channel_msg :
    (lossy : Bytes → Bytes) (body : Bytes) (snr : Option ℤ)
    → 7 ≤ length body
    → Safe (parse_channel_msg lossy body snr)
unfolding parse_channel_msg
Safe-parse_channel_msg lossy body snr h =
    Safe-bind (at body 0) _ (Safe-at body 0 (omega arith)) λ _.
      Safe-bind (at body 1) _ (Safe-at body 1 (omega arith)) λ _.
        Safe-bind (at body 2) _ (Safe-at body 2 (omega arith)) λ _.
          Safe-bind (r_u32 body 3) _ (Safe-r_u32 body 3 (omega arith)) λ _.
            Safe-bind (slice_from body 7) _ (Safe-slice_from body 7 (omega arith)) λ _. safe_ok _

pub Safe-parse_channel_info :
    (lossy : Bytes → Bytes) (body : Bytes) → 49 ≤ length body → Safe (parse_channel_info lossy body)
unfolding parse_channel_info
Safe-parse_channel_info lossy body h = Safe-bind (at body 0) _ (Safe-at body 0 (omega arith)) λ _.
    Safe-bind (slice body 1 33) _ (Safe-slice body 1 33 (omega arith) (omega arith)) λ _.
      Safe-bind (slice body 33 49) _ (Safe-slice body 33 49 (omega arith) (omega arith))
        λ _. safe_ok _

pub Safe-parse_login_success : (body : Bytes) → 13 ≤ length body → Safe (parse_login_success body)
unfolding parse_login_success
Safe-parse_login_success body h =
    Safe-bind (slice body 1 7) _ (Safe-slice body 1 7 (omega arith) (omega arith)) λ _.
      Safe-bind (at body 0) _ (Safe-at body 0 (omega arith)) λ _.
        Safe-bind (r_u32 body 7) _ (Safe-r_u32 body 7 (omega arith)) λ _.
          Safe-bind (at body 11) _ (Safe-at body 11 (omega arith))
            λ _. Safe-bind (at body 12) _ (Safe-at body 12 (omega arith)) λ _. safe_ok _
