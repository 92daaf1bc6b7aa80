-- ===== src/Companion/Bodies.antt =====
-- crates/meshcore-companion/src/frame.rs: the bodies of the frames, read field by field.
use supply_drop_bbs.Prelude.{ℕ, ◌*◌, Option, Bytes, ◌==◌, nat_eq, if◌then◌else◌}
use supply_drop_bbs.Prelude.Int.{ℤ, negsuc}
use supply_drop_bbs.Companion.Wire.{
  Outcome, ok, ◌>>=◌, at, slice, slice_from, to_i8, r_u16, r_u32, r_i32, until_nul,
}
use supply_drop_bbs.Companion.Frames.{
  SelfInfo, DeviceInfo, Contact, ContactMsg, ChannelMsg, SentResult, BattAndStorage,
  ExportedContact, ChannelInfo,
}

abbrev pub copy32 : Bytes → Outcome Bytes
copy32 b = slice b 0 32

abbrev pub msg_send_sent_flood : ℕ
msg_send_sent_flood = 1

-- The byte 0xFF is −1, as the cast gives too.
abbrev pub out_path_len_of : ℕ → ℤ
out_path_len_of opl_byte = if opl_byte == 0xFF then negsuc 0 else to_i8 opl_byte

unfoldable pub parse_sent_result : Bytes → Outcome SentResult
parse_sent_result body = do
  flood ← at body 0
  expected_ack ← r_u32 body 1
  timeout_ms ← r_u32 body 5
  ok (record {
    is_flood = flood == msg_send_sent_flood;
    expected_ack = expected_ack;
    timeout_ms = timeout_ms;
  })

unfoldable pub parse_batt_and_storage : Bytes → Outcome BattAndStorage
parse_batt_and_storage body = do
  millivolts ← r_u16 body 0
  used_kb ← r_u32 body 2
  total_kb ← r_u32 body 6
  ok (record { millivolts = millivolts; used_kb = used_kb; total_kb = total_kb })

module _ (lossy : Bytes → Bytes) where
  unfoldable pub read_cstr : Bytes → Bytes
  unfolding until_nul
  read_cstr b = lossy (until_nul b)

  unfoldable pub parse_contact : Bytes → Outcome Contact
  parse_contact body = do
    pubkey ← slice body 0 32
    adv_type ← at body 32
    flags ← at body 33
    opl_byte ← at body 34
    out_path ← slice body 35 99
    name ← slice body 99 131
    last_advert ← r_u32 body 131
    lat ← r_i32 body 135
    lon ← r_i32 body 139
    lastmod ← r_u32 body 143
    ok (record {
      pubkey = pubkey;
      adv_type = adv_type;
      flags = flags;
      out_path_len = out_path_len_of opl_byte;
      out_path = out_path;
      name = read_cstr name;
      last_advert_timestamp = last_advert;
      gps_lat = lat;
      gps_lon = lon;
      lastmod = lastmod;
    })

  unfoldable pub parse_self_info : Bytes → Outcome SelfInfo
  parse_self_info body = do
    adv_type ← at body 0
    tx_power_dbm ← at body 1
    pubkey ← slice body 3 35
    latitude ← r_i32 body 35
    longitude ← r_i32 body 39
    multi_acks ← at body 43
    advert_loc_policy ← at body 44
    telemetry_modes ← at body 45
    manual_add_contacts ← at body 46
    frequency_khz ← r_u32 body 47
    bandwidth_hz ← r_u32 body 51
    spreading_factor ← at body 55
    coding_rate ← at body 56
    node_name ← slice_from body 57
    ok (record {
      adv_type = adv_type;
      tx_power_dbm = tx_power_dbm;
      pubkey = pubkey;
      latitude = latitude;
      longitude = longitude;
      multi_acks = multi_acks;
      advert_loc_policy = advert_loc_policy;
      telemetry_modes = telemetry_modes;
      manual_add_contacts = manual_add_contacts;
      frequency_khz = frequency_khz;
      bandwidth_hz = bandwidth_hz;
      spreading_factor = spreading_factor;
      coding_rate = coding_rate;
      node_name = read_cstr node_name;
    })

  unfoldable pub parse_device_info : Bytes → Outcome DeviceInfo
  parse_device_info body = do
    firmware_ver ← at body 0
    half_contacts ← at body 1
    max_channels ← at body 2
    ble_pin ← r_u32 body 3
    build_date ← slice body 7 19
    manufacturer ← slice body 19 59
    version ← slice body 59 79
    client_repeat ← at body 79
    path_hash_mode ← at body 80
    ok (record {
      firmware_ver = firmware_ver;
      max_contacts = half_contacts * 2;
      max_channels = max_channels;
      ble_pin = ble_pin;
      build_date = read_cstr build_date;
      manufacturer = read_cstr manufacturer;
      version = read_cstr version;
      client_repeat = client_repeat;
      path_hash_mode = path_hash_mode;
    })

  unfoldable pub parse_exported_contact : Bytes → Outcome ExportedContact
  parse_exported_contact body = do
    pubkey ← slice body 0 32
    adv_type ← at body 32
    name ← slice body 33 65
    lat ← r_i32 body 65
    lon ← r_i32 body 69
    ok (record {
      pubkey = pubkey;
      adv_type = adv_type;
      name = read_cstr name;
      gps_lat = lat;
      gps_lon = lon;
    })

  unfoldable pub parse_contact_msg : Bytes → Option ℤ → Outcome ContactMsg
  parse_contact_msg body snr = do
    prefix ← slice body 0 6
    path_len ← at body 6
    txt_type ← at body 7
    timestamp ← r_u32 body 8
    text ← slice_from body 12
    ok (record {
      sender_key_prefix = prefix;
      path_len = path_len;
      txt_type = txt_type;
      timestamp = timestamp;
      text = read_cstr text;
      snr = snr;
    })

  unfoldable pub parse_channel_msg : Bytes → Option ℤ → Outcome ChannelMsg
  parse_channel_msg body snr = do
    channel_idx ← at body 0
    path_len ← at body 1
    txt_type ← at body 2
    timestamp ← r_u32 body 3
    text ← slice_from body 7
    ok (record {
      channel_idx = channel_idx;
      path_len = path_len;
      txt_type = txt_type;
      timestamp = timestamp;
      text = read_cstr text;
      snr = snr;
    })

  unfoldable pub parse_channel_info : Bytes → Outcome ChannelInfo
  parse_channel_info body = do
    channel_idx ← at body 0
    name ← slice body 1 33
    secret ← slice body 33 49
    ok (record { channel_idx = channel_idx; name = read_cstr name; secret = secret })
