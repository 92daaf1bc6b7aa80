-- ===== src/Companion/Tests.antt =====
-- The codec at concrete frames.
use supply_drop_bbs.Prelude.{
  ℕ, ◌≡◌, ◌<◌, ◌⊎◌, ◌↔◌, refl, List, [], ◌∷◌, ◌++◌, Bytes, codes, length, arith, map,
}
use supply_drop_bbs.Prelude.Int.{pos, negsuc}
use supply_drop_bbs.Companion.Wire.{ok, err, panic, body_too_short, zeros, le_u16}
use supply_drop_bbs.Companion.Frames.{Contact, InboundFrame, OutboundFrame}
use supply_drop_bbs.Companion.Outbound.{build_payload, encode_outbound, encode_contact_body}
use supply_drop_bbs.Companion.Inbound.{decode_inbound, strip_frame_header}
use supply_drop_bbs.Companion.Inbound.Safe.{decode_inbound_total}
use supply_drop_bbs.Companion.Inbound.RoundTrip.{IsContact, decode_inbound-encode_contact_body}
use supply_drop_bbs.Companion.Stream.{received}
use supply_drop_bbs.Companion.Stream.Resync.{wire_of, read_frames, read_frames-wire_of}
use supply_drop_bbs.Companion.Framing.{IsFrame, strip_frame_header-IsFrame, encode_outbound_framed}

-- UTF-8 that is valid is left as it is.
abbrev keep : Bytes → Bytes
keep b = b

abbrev relay : Contact
relay = record {
  pubkey = 7 ∷ zeros 31;
  adv_type = 2;
  flags = 1;
  out_path_len = negsuc 0;
  out_path = zeros 64;
  name = codes "relay";
  last_advert_timestamp = 1_700_000_000;
  gps_lat = pos 45_500_000;
  gps_lon = negsuc 122_600_000;
  lastmod = 4_000_000_000;
}

relay-IsContact : IsContact keep relay
relay-IsContact = record {
  pubkey_size = refl;
  path_size = refl;
  path_len_range = omega arith;
  name_size = omega arith;
  name_nul = ground arith;
  name_utf8 = refl;
  advert_range = omega arith;
  lat_range = omega arith;
  lon_range = omega arith;
  lastmod_range = omega arith;
}

decode_inbound-encode_contact_body_example :
    decode_inbound keep (3 ∷ encode_contact_body relay) ≡ ok (InboundFrame.contact relay)
decode_inbound-encode_contact_body_example =
    decode_inbound-encode_contact_body keep relay relay-IsContact

abbrev cut_short : Bytes
cut_short = 6 ∷ 1 ∷ 9 ∷ []

decode_inbound_total_example :
    ((f : InboundFrame) × (decode_inbound keep cut_short ≡ ok f))
    ⊎ ((t : ℕ) × (needed : ℕ) × (got : ℕ) × (decode_inbound keep cut_short
          ≡ err (body_too_short t needed got))
        × (got < needed))
decode_inbound_total_example = decode_inbound_total keep cut_short

-- A boot message, a pushed advert of a waiting message, and the end of the queue.
abbrev session : List (Bytes × Bytes)
session = (codes "boot", 0x83 ∷ []) ∷ ([], 10 ∷ []) ∷ []

read_frames-wire_of_example :
    read_frames keep session (wire_of session ++ 1 ∷ 2 ∷ [])
    ≡ (map (λ t. received (decode_inbound keep t.1)) session, 1 ∷ 2 ∷ [])
read_frames-wire_of_example = read_frames-wire_of keep session (1 ∷ 2 ∷ []) (ground arith)

abbrev header_bytes : Bytes
header_bytes = 0x3E ∷ 2 ∷ 0 ∷ 9 ∷ 8 ∷ 7 ∷ []

strip_frame_header-IsFrame_example :
    (strip_frame_header header_bytes ≡ ok (9 ∷ 8 ∷ [])) ↔ IsFrame header_bytes (9 ∷ 8 ∷ [])
strip_frame_header-IsFrame_example = strip_frame_header-IsFrame header_bytes (9 ∷ 8 ∷ [])

abbrev login : OutboundFrame
login = OutboundFrame.send_login (7 ∷ zeros 31) (codes "secret")

encode_outbound_framed_example :
    ((65535 < length (build_payload login)) × (encode_outbound login ≡ panic))
    ⊎ ((lo : ℕ) × (hi : ℕ) × (encode_outbound login ≡ ok (0x3C ∷ lo ∷ hi ∷ build_payload login))
        × (le_u16 lo hi ≡ length (build_payload login)))
encode_outbound_framed_example = encode_outbound_framed login

waiting_message : decode_inbound keep (0x83 ∷ []) ≡ ok InboundFrame.msg_waiting
unfolding decode_inbound
waiting_message = refl
