-- ===== src/Companion/Inbound/Safe.antt =====
-- The decoder never indexes out of range.
pub mod Bodies
use supply_drop_bbs.Prelude.{
  ℕ, ◌+◌, ◌-◌, ◌≤◌, ◌<◌, ◌≡◌, refl, Bool, true, false, Option, some, none, List, [], ◌∷◌, Bytes,
  ltb, length, drop, length-drop, arith, Bool-cases, inl, inr, ◌⊎◌, ◌==◌, nat_eq, if◌then◌else◌,
}
use supply_drop_bbs.Text.{is_empty}
use supply_drop_bbs.Companion.Wire.{
  Outcome, ok, err, body_too_short, panic, at, slice, slice_from, r_u16, r_u32, r_i32, ◌>>=◌, to_i8,
}
use supply_drop_bbs.Companion.Wire.Safe.{
  Safe, safe_ok, safe_err, Safe-cases, Safe-bind, Safe-at, Safe-slice, Safe-slice_from, Safe-r_u16,
  Safe-r_u32, Safe-r_i32,
}
use supply_drop_bbs.Companion.Frames.{InboundFrame}
use supply_drop_bbs.Companion.Bodies.{read_cstr}
use supply_drop_bbs.Companion.Inbound.{
  need, decode_flood_scope, decode_push, decode_response, decode_inbound,
}
use supply_drop_bbs.Companion.Inbound.Safe.Bodies.{
  Safe-parse_contact, Safe-parse_self_info, Safe-parse_device_info, Safe-parse_sent_result,
  Safe-parse_batt_and_storage, Safe-parse_exported_contact, Safe-parse_contact_msg,
  Safe-parse_channel_msg, Safe-parse_channel_info, Safe-parse_login_success,
}

Safe-if : {A : Type 0} (b : Bool) (x y : Outcome A) → Safe x → Safe y → Safe (if b then x else y)
Safe-if true x y h k = h
Safe-if false x y h k = k

-- After `need!(n)` the body has `n` bytes.
Safe-need :
    (t n : ℕ) (body : Bytes) (k : Outcome InboundFrame)
    → (n ≤ length body → Safe k)
    → Safe (need t n body k)
Safe-need t n body k h = elim (Bool-cases (ltb (length body) n)) [
  | inl short ↦ rw short (safe_err t n (length body) (ground arith))
  | inr long ↦ rw long (h (ground arith))
]

-- The rest of the body after its first `i` bytes is as long as the frame needs.
Safe-tail :
    (body : Bytes) (i n : ℕ)
    → i + n ≤ length body
    → (f : Bytes → Outcome InboundFrame) → ((b : Bytes) → n ≤ length b → Safe (f b))
    → Safe (slice_from body i >>= f)
unfolding slice_from
Safe-tail body i n h f k =
    let e : slice_from body i ≡ ok (drop i body) = ground arith in
    rw e (k (drop i body) (omega (arith, length-drop i body)))

Safe-decode_flood_scope :
    (lossy : Bytes → Bytes) (t : ℕ) (body : Bytes) → Safe (decode_flood_scope lossy t body)
unfolding decode_flood_scope
Safe-decode_flood_scope lossy t body = Safe-if _ _ _ (safe_ok _) (
    Safe-need t 47 body _ λ h. Safe-bind _ _ (Safe-slice body 0 31 (omega arith) (omega arith)) λ _.
      Safe-if _ _ _ (safe_ok _)
        (Safe-bind _ _ (Safe-slice body 31 47 (omega arith) (omega arith)) λ _. safe_ok _))

Safe-decode_push : (lossy : Bytes → Bytes) (t : ℕ) (body : Bytes) → Safe (decode_push lossy t body)
unfolding decode_push
Safe-decode_push lossy t body =
    Safe-if (t == 0x80) _ _
      (Safe-need t 32 body _
        λ h. Safe-bind _ _ (Safe-slice body 0 32 (omega arith) (omega arith)) λ _. safe_ok _)
      (Safe-if (t == 0x8A) _ _
        (Safe-need t 147 body _ λ h. Safe-bind _ _ (Safe-parse_contact lossy body h) λ _. safe_ok _)
        (Safe-if (t == 0x81) _ _
          (Safe-need t 32 body _
            λ h. Safe-bind _ _ (Safe-slice body 0 32 (omega arith) (omega arith)) λ _. safe_ok _)
          (Safe-if (t == 0x82) _ _
            (Safe-need t 8 body _
              λ h. Safe-bind _ _ (Safe-r_u32 body 0 (omega arith)) λ _. safe_ok _)
            (Safe-if (t == 0x83) _ _ (safe_ok _) (
              Safe-if (t == 0x84) _ _
                (Safe-need t 3 body _ λ h. Safe-bind _ _ (Safe-at body 0 (omega arith)) λ _.
                  Safe-bind _ _ (Safe-at body 1 (omega arith))
                    λ _. Safe-bind _ _ (Safe-slice_from body 3 (omega arith)) λ _. safe_ok _)
                (Safe-if (t == 0x85) _ _
                  (Safe-need t 13 body _
                    λ h. Safe-bind _ _ (Safe-parse_login_success body h) λ _. safe_ok _)
                  (Safe-if (t == 0x86) _ _
                    (Safe-need t 7 body _ λ h.
                      Safe-bind _ _ (Safe-slice body 1 7 (omega arith) (omega arith))
                        λ _. safe_ok _)
                    (Safe-if (t == 0x87) _ _
                      (Safe-need t 7 body _ λ h.
                        Safe-bind _ _ (Safe-slice body 1 7 (omega arith) (omega arith))
                          λ _. Safe-bind _ _ (Safe-slice_from body 7 (omega arith)) λ _. safe_ok _)
                      (Safe-if (t == 0x88) _ _
                        (Safe-need t 2 body _ λ h. Safe-bind _ _ (Safe-at body 0 (omega arith)) λ _.
                          Safe-bind _ _ (Safe-at body 1 (omega arith)) λ _.
                            Safe-bind _ _ (Safe-slice_from body 2 (omega arith)) λ _. safe_ok _)
                        (Safe-if (t == 0x8B) _ _
                          (Safe-need t 7 body _ λ h.
                            Safe-bind _ _ (Safe-slice body 1 7 (omega arith) (omega arith)) λ _.
                              Safe-bind _ _ (Safe-slice_from body 7 (omega arith)) λ _. safe_ok _)
                          (Safe-if (t == 0x8C) _ _
                            (Safe-need t 5 body _ λ h.
                              Safe-bind _ _ (Safe-slice body 1 5 (omega arith) (omega arith)) λ _.
                                Safe-bind _ _ (Safe-slice_from body 5 (omega arith)) λ _. safe_ok _)
                            (Safe-if (t == 0x8D) _ _ (safe_ok _) (
                              Safe-if (t == 0x8E) _ _ (safe_ok _) (
                                Safe-if (t == 0x8F) _ _
                                  (Safe-need t 32 body _ λ h.
                                    Safe-bind _ _ (Safe-slice body 0 32 (omega arith) (omega arith))
                                      λ _. safe_ok _)
                                  (Safe-if (t == 0x90) _ _ (safe_ok _)
                                    (Safe-if (t == 0x89) _ _ (safe_ok _) (safe_ok _)))))))))))))))))

Safe-decode_response :
    (lossy : Bytes → Bytes) (t : ℕ) (body : Bytes) → Safe (decode_response lossy t body)
unfolding decode_response
Safe-decode_response lossy t body = Safe-if (t == 0) _ _ (safe_ok _) (
    Safe-if (t == 1) _ _
      (Safe-need t 1 body _ λ h. Safe-bind _ _ (Safe-at body 0 (omega arith)) λ _. safe_ok _)
      (Safe-if (t == 2) _ _
        (Safe-need t 4 body _ λ h. Safe-bind _ _ (Safe-r_u32 body 0 (omega arith)) λ _. safe_ok _)
        (Safe-if (t == 3) _ _
          (Safe-need t 147 body _
            λ h. Safe-bind _ _ (Safe-parse_contact lossy body h) λ _. safe_ok _)
          (Safe-if (t == 4) _ _
            (Safe-need t 4 body _
              λ h. Safe-bind _ _ (Safe-r_u32 body 0 (omega arith)) λ _. safe_ok _)
            (Safe-if (t == 5) _ _
              (Safe-need t 57 body _
                λ h. Safe-bind _ _ (Safe-parse_self_info lossy body h) λ _. safe_ok _)
              (Safe-if (t == 6) _ _
                (Safe-need t 9 body _
                  λ h. Safe-bind _ _ (Safe-parse_sent_result body h) λ _. safe_ok _)
                (Safe-if (t == 7) _ _
                  (Safe-need t 12 body _
                    λ h. Safe-bind _ _ (Safe-parse_contact_msg lossy body none h) λ _. safe_ok _)
                  (Safe-if (t == 8) _ _
                    (Safe-need t 7 body _
                      λ h. Safe-bind _ _ (Safe-parse_channel_msg lossy body none h) λ _. safe_ok _)
                    (Safe-if (t == 9) _ _
                      (Safe-need t 4 body _
                        λ h. Safe-bind _ _ (Safe-r_u32 body 0 (omega arith)) λ _. safe_ok _)
                      (Safe-if (t == 10) _ _ (safe_ok _) (
                        Safe-if (t == 11) _ _
                          (Safe-need t 73 body _ λ h.
                            Safe-bind _ _ (Safe-parse_exported_contact lossy body h) λ _. safe_ok _)
                          (Safe-if (t == 12) _ _
                            (Safe-need t 10 body _ λ h.
                              Safe-bind _ _ (Safe-parse_batt_and_storage body h) λ _. safe_ok _)
                            (Safe-if (t == 13) _ _
                              (Safe-need t 81 body _ λ h.
                                Safe-bind _ _ (Safe-parse_device_info lossy body h) λ _. safe_ok _)
                              (Safe-if (t == 14) _ _ (Safe-need t 32 body _ λ h. safe_ok _) (
                                Safe-if (t == 15) _ _ (safe_ok _) (
                                  Safe-if (t == 16) _ _
                                    (Safe-need t 15 body _ λ h.
                                      Safe-bind _ _ (Safe-at body 0 (omega arith)) λ q.
                                        Safe-tail body 3 12 h _ λ b g.
                                          Safe-bind _ _
                                            (Safe-parse_contact_msg lossy b (some (to_i8 q)) g)
                                            λ _. safe_ok _)
                                    (Safe-if (t == 17) _ _
                                      (Safe-need t 10 body _ λ h.
                                        Safe-bind _ _ (Safe-at body 0 (omega arith)) λ q.
                                          Safe-tail body 3 7 h _ λ b g.
                                            Safe-bind _ _
                                              (Safe-parse_channel_msg lossy b (some (to_i8 q)) g)
                                              λ _. safe_ok _)
                                      (Safe-if (t == 18) _ _
                                        (Safe-need t 49 body _ λ h.
                                          Safe-bind _ _ (Safe-parse_channel_info lossy body h)
                                            λ _. safe_ok _)
                                        (Safe-if (t == 25) _ _
                                          (Safe-need t 1 body _ λ h.
                                            Safe-bind _ _ (Safe-at body 0 (omega arith))
                                              λ _. safe_ok _)
                                          (Safe-if (t == 28) _ _
                                            (Safe-decode_flood_scope lossy t body)
                                            (Safe-if (t == 24) _ _
                                              (Safe-need t 1 body _ λ h.
                                                Safe-bind _ _ (Safe-at body 0 (omega arith)) λ _.
                                                  Safe-bind _ _
                                                    (Safe-slice_from body 1 (omega arith))
                                                    λ _. safe_ok _)
                                              (Safe-if (t == 22) _ _ (safe_ok _) (
                                                Safe-if (t == 23) _ _ (safe_ok _) (
                                                  Safe-if (t == 21) _ _ (safe_ok _) (
                                                    Safe-decode_push lossy t
                                                      body)))))))))))))))))))))))))

Safe-decode_inbound :
    (lossy : Bytes → Bytes) (payload : Bytes) → Safe (decode_inbound lossy payload)
unfolding decode_inbound
Safe-decode_inbound lossy [] = safe_err 0 1 0 (omega arith)
Safe-decode_inbound lossy (t ∷ body) = Safe-decode_response lossy t body

-- Whatever bytes the radio sends, decoding them returns a frame, or the error that the payload has
-- fewer bytes than its type needs; it never panics on an index out of range.
pub decode_inbound_total :
    (lossy : Bytes → Bytes) (payload : Bytes)
    → ((frame : InboundFrame) × (decode_inbound lossy payload ≡ ok frame))
      ⊎ ((t : ℕ) × (needed : ℕ) × (got : ℕ) × (decode_inbound lossy payload
            ≡ err (body_too_short t needed got))
          × (got < needed))
decode_inbound_total lossy payload = Safe-cases _ (Safe-decode_inbound lossy payload)
