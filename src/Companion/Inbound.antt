-- ===== src/Companion/Inbound.antt =====
-- crates/meshcore-companion/src/frame.rs: the decoder. `lossy` is `String::from_utf8_lossy`.
pub mod Safe
pub mod RoundTrip
use supply_drop_bbs.Prelude.{
  ℕ, ◌+◌, Bool, true, false, Option, some, none, List, [], ◌∷◌, Bytes, ltb, ◌==◌, nat_eq, not,
  length, drop, if◌then◌else◌,
}
use supply_drop_bbs.Text.{is_empty}
use supply_drop_bbs.Companion.Wire.{
  Outcome, ok, err, ◌>>=◌, FrameDecodeError, wrong_prefix, payload_too_large, body_too_short, at,
  slice, slice_from, le_u16, to_i8, r_u32,
}
use supply_drop_bbs.Companion.Frames.{InboundFrame, LoginSuccess}
use supply_drop_bbs.Companion.Bodies.{
  read_cstr, copy32, parse_contact, parse_self_info, parse_device_info, parse_sent_result,
  parse_batt_and_storage, parse_exported_contact, parse_contact_msg, parse_channel_msg,
  parse_channel_info,
}

abbrev pub max_payload_size : ℕ
max_payload_size = 256

-- `need!(n)`.
abbrev pub need : ℕ → ℕ → Bytes → Outcome InboundFrame → Outcome InboundFrame
need type_byte n body k =
    if ltb (length body) n then err (body_too_short type_byte n (length body)) else k

-- `body.get(1).copied()`.
abbrev pub second : Bytes → Option ℕ
second (a ∷ b ∷ rest) = some b
second _ = none

unfoldable pub parse_login_success : Bytes → Outcome LoginSuccess
parse_login_success body = do
  prefix ← slice body 1 7
  admin ← at body 0
  tag ← r_u32 body 7
  acl ← at body 11
  level ← at body 12
  ok (record {
    is_admin = not (admin == 0);
    pubkey_prefix = prefix;
    tag = tag;
    acl_permissions = acl;
    firmware_ver_level = level;
  })

unfoldable pub decode_flood_scope : (Bytes → Bytes) → ℕ → Bytes → Outcome InboundFrame
unfolding read_cstr
decode_flood_scope lossy t body =
    if is_empty body
    then ok (InboundFrame.default_flood_scope none)
    else need t 47 body (
        slice body 0 31 >>= λ field.
        if is_empty (read_cstr lossy field)
        then ok (InboundFrame.default_flood_scope none)
        else (slice body 31 47 >>= λ key. ok (
            InboundFrame.default_flood_scope
              (some (record { name = read_cstr lossy field; key = key })))))

-- The arms of the `match` on the type byte: the pushed frames, and before them the responses.
unfoldable pub decode_push : (Bytes → Bytes) → ℕ → Bytes → Outcome InboundFrame
unfolding parse_login_success
decode_push lossy t body =
    if t == 0x80
    then need t 32 body (copy32 body >>= λ x. ok (InboundFrame.advert x))
    else if t == 0x8A
    then need t 147 body (parse_contact lossy body >>= λ x. ok (InboundFrame.new_advert x))
    else if t == 0x81
    then need t 32 body (copy32 body >>= λ x. ok (InboundFrame.path_updated x))
    else if t == 0x82
    then need t 8 body (r_u32 body 0 >>= λ x. ok (InboundFrame.send_confirmed x))
    else if t == 0x83
    then ok InboundFrame.msg_waiting
    else if t == 0x84
    then need t 3 body (
        at body 0 >>= λ q. at body 1 >>= λ r.
        slice_from body 3 >>= λ d. ok (InboundFrame.raw_data (to_i8 q) (to_i8 r) d))
    else if t == 0x85
    then need t 13 body (parse_login_success body >>= λ x. ok (InboundFrame.login_success x))
    else if t == 0x86
    then need t 7 body (slice body 1 7 >>= λ x. ok (InboundFrame.login_fail x))
    else if t == 0x87
    then need t 7 body
        (slice body 1 7 >>= λ p. slice_from body 7 >>= λ r. ok (InboundFrame.status_response p r))
    else if t == 0x88
    then need t 2 body (
        at body 0 >>= λ q. at body 1 >>= λ r.
        slice_from body 2 >>= λ d. ok (InboundFrame.log_rx_data (to_i8 q) (to_i8 r) d))
    else if t == 0x8B
    then need t 7 body (
        slice body 1 7 >>= λ p. slice_from body 7 >>= λ r. ok (InboundFrame.telemetry_response p r))
    else if t == 0x8C
    then need t 5 body
        (slice body 1 5 >>= λ g. slice_from body 5 >>= λ r. ok (InboundFrame.binary_response g r))
    else if t == 0x8D
    then ok (InboundFrame.path_discovery_response body)
    else if t == 0x8E
    then ok (InboundFrame.control_data body)
    else if t == 0x8F
    then need t 32 body (copy32 body >>= λ x. ok (InboundFrame.contact_deleted x))
    else if t == 0x90
    then ok InboundFrame.contacts_full
    else if t == 0x89
    then ok (InboundFrame.trace_data body)
    else ok (InboundFrame.unknown t (t ∷ body))

unfoldable pub decode_response : (Bytes → Bytes) → ℕ → Bytes → Outcome InboundFrame
unfolding decode_push decode_flood_scope
decode_response lossy t body =
    if t == 0
    then ok InboundFrame.ok
    else if t == 1
    then need t 1 body (at body 0 >>= λ c. ok (InboundFrame.err c))
    else if t == 2
    then need t 4 body (r_u32 body 0 >>= λ x. ok (InboundFrame.contacts_start x))
    else if t == 3
    then need t 147 body (parse_contact lossy body >>= λ x. ok (InboundFrame.contact x))
    else if t == 4
    then need t 4 body (r_u32 body 0 >>= λ x. ok (InboundFrame.end_of_contacts x))
    else if t == 5
    then need t 57 body (parse_self_info lossy body >>= λ x. ok (InboundFrame.self_info x))
    else if t == 6
    then need t 9 body (parse_sent_result body >>= λ x. ok (InboundFrame.sent x))
    else if t == 7
    then need t 12 body
        (parse_contact_msg lossy body none >>= λ x. ok (InboundFrame.contact_msg_recv x))
    else if t == 8
    then need t 7 body
        (parse_channel_msg lossy body none >>= λ x. ok (InboundFrame.channel_msg_recv x))
    else if t == 9
    then need t 4 body (r_u32 body 0 >>= λ x. ok (InboundFrame.curr_time x))
    else if t == 10
    then ok InboundFrame.no_more_messages
    else if t == 11
    then need t 73 body
        (parse_exported_contact lossy body >>= λ x. ok (InboundFrame.export_contact x))
    else if t == 12
    then need t 10 body (parse_batt_and_storage body >>= λ x. ok (InboundFrame.batt_and_storage x))
    else if t == 13
    then need t 81 body (parse_device_info lossy body >>= λ x. ok (InboundFrame.device_info x))
    else if t == 14
    then need t 32 body (ok (InboundFrame.private_key body))
    else if t == 15
    then ok InboundFrame.disabled
    else if t == 16
    then need t 15 body (
        at body 0 >>= λ q. slice_from body 3 >>= λ b.
        parse_contact_msg lossy b (some (to_i8 q)) >>= λ x. ok (InboundFrame.contact_msg_recv_v3 x))
    else if t == 17
    then need t 10 body (
        at body 0 >>= λ q. slice_from body 3 >>= λ b.
        parse_channel_msg lossy b (some (to_i8 q)) >>= λ x. ok (InboundFrame.channel_msg_recv_v3 x))
    else if t == 18
    then need t 49 body (parse_channel_info lossy body >>= λ x. ok (InboundFrame.channel_info x))
    else if t == 25
    then need t 1 body (at body 0 >>= λ c. ok (InboundFrame.autoadd_config c (second body)))
    else if t == 28
    then decode_flood_scope lossy t body
    else if t == 24
    then need t 1 body (at body 0 >>= λ c. slice_from body 1 >>= λ r. ok (InboundFrame.stats c r))
    else if t == 22
    then ok (InboundFrame.advert_path body)
    else if t == 23
    then ok (InboundFrame.tuning_params body)
    else if t == 21
    then ok (InboundFrame.custom_vars (lossy body))
    else decode_push lossy t body

unfoldable pub decode_inbound : (Bytes → Bytes) → Bytes → Outcome InboundFrame
unfolding decode_response
decode_inbound lossy [] = err (body_too_short 0 1 0)
decode_inbound lossy (t ∷ body) = decode_response lossy t body

unfoldable pub strip_frame_header : Bytes → Outcome Bytes
strip_frame_header wire =
    if is_empty wire
    then err (wrong_prefix 0x3E 0)
    else (at wire 0 >>= λ prefix.
        if not (prefix == 0x3E)
        then err (wrong_prefix 0x3E prefix)
        else if ltb (length wire) 3
        then err (body_too_short 0 3 (length wire))
        else (at wire 1 >>= λ lo. at wire 2 >>= λ hi.
            let len = le_u16 lo hi in
            if ltb max_payload_size len
            then err (payload_too_large len)
            else if ltb (length wire) (3 + len)
            then err (body_too_short 0 (3 + len) (length wire))
            else slice wire 3 (3 + len)))
