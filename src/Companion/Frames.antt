-- ===== src/Companion/Frames.antt =====
-- crates/meshcore-companion/src/types.rs, frame.rs and scope.rs: what the frames carry.
-- A `String` is its UTF-8 bytes and a fixed array is a list. A signal-to-noise ratio, which the
-- source keeps in floating point, is the number of quarters of a decibel.
use supply_drop_bbs.Prelude.{ℕ, Bool, Option, Bytes}
use supply_drop_bbs.Prelude.Int.{ℤ}

pub record SelfInfo : Type 0 where
  pub adv_type : ℕ
  pub tx_power_dbm : ℕ
  pub pubkey : Bytes
  pub latitude : ℤ
  pub longitude : ℤ
  pub multi_acks : ℕ
  pub advert_loc_policy : ℕ
  pub telemetry_modes : ℕ
  pub manual_add_contacts : ℕ
  pub frequency_khz : ℕ
  pub bandwidth_hz : ℕ
  pub spreading_factor : ℕ
  pub coding_rate : ℕ
  pub node_name : Bytes

pub record DeviceInfo : Type 0 where
  pub firmware_ver : ℕ
  pub max_contacts : ℕ
  pub max_channels : ℕ
  pub ble_pin : ℕ
  pub build_date : Bytes
  pub manufacturer : Bytes
  pub version : Bytes
  pub client_repeat : ℕ
  pub path_hash_mode : ℕ

pub record Contact : Type 0 where
  pub pubkey : Bytes
  pub adv_type : ℕ
  pub flags : ℕ
  pub out_path_len : ℤ
  pub out_path : Bytes
  pub name : Bytes
  pub last_advert_timestamp : ℕ
  pub gps_lat : ℤ
  pub gps_lon : ℤ
  pub lastmod : ℕ

pub record ContactMsg : Type 0 where
  pub sender_key_prefix : Bytes
  pub path_len : ℕ
  pub txt_type : ℕ
  pub timestamp : ℕ
  pub text : Bytes
  pub snr : Option ℤ

pub record ChannelMsg : Type 0 where
  pub channel_idx : ℕ
  pub path_len : ℕ
  pub txt_type : ℕ
  pub timestamp : ℕ
  pub text : Bytes
  pub snr : Option ℤ

pub record SentResult : Type 0 where
  pub is_flood : Bool
  pub expected_ack : ℕ
  pub timeout_ms : ℕ

pub record BattAndStorage : Type 0 where
  pub millivolts : ℕ
  pub used_kb : ℕ
  pub total_kb : ℕ

pub record ExportedContact : Type 0 where
  pub pubkey : Bytes
  pub adv_type : ℕ
  pub name : Bytes
  pub gps_lat : ℤ
  pub gps_lon : ℤ

pub record ChannelInfo : Type 0 where
  pub channel_idx : ℕ
  pub name : Bytes
  pub secret : Bytes

pub record LoginSuccess : Type 0 where
  pub is_admin : Bool
  pub pubkey_prefix : Bytes
  pub tag : ℕ
  pub acl_permissions : ℕ
  pub firmware_ver_level : ℕ

pub record FloodScope : Type 0 where
  pub name : Bytes
  pub key : Bytes

-- A frame from the radio to the application.
pub data InboundFrame : Type 0 where
  ok : InboundFrame
  err : (error_code : ℕ) → InboundFrame
  contacts_start : (count : ℕ) → InboundFrame
  contact : Contact → InboundFrame
  end_of_contacts : (most_recent_lastmod : ℕ) → InboundFrame
  self_info : SelfInfo → InboundFrame
  sent : SentResult → InboundFrame
  contact_msg_recv : ContactMsg → InboundFrame
  channel_msg_recv : ChannelMsg → InboundFrame
  curr_time : (unix_time : ℕ) → InboundFrame
  no_more_messages : InboundFrame
  export_contact : ExportedContact → InboundFrame
  batt_and_storage : BattAndStorage → InboundFrame
  device_info : DeviceInfo → InboundFrame
  private_key : (key : Bytes) → InboundFrame
  disabled : InboundFrame
  contact_msg_recv_v3 : ContactMsg → InboundFrame
  channel_msg_recv_v3 : ChannelMsg → InboundFrame
  channel_info : ChannelInfo → InboundFrame
  autoadd_config : (config : ℕ) → (max_hops : Option ℕ) → InboundFrame
  default_flood_scope : Option FloodScope → InboundFrame
  stats : (stats_type : ℕ) → (raw : Bytes) → InboundFrame
  advert_path : (raw : Bytes) → InboundFrame
  tuning_params : (raw : Bytes) → InboundFrame
  custom_vars : (csv : Bytes) → InboundFrame
  advert : (pubkey : Bytes) → InboundFrame
  new_advert : Contact → InboundFrame
  path_updated : (pubkey : Bytes) → InboundFrame
  send_confirmed : (crc : ℕ) → InboundFrame
  msg_waiting : InboundFrame
  raw_data : (snr_byte : ℤ) → (rssi_byte : ℤ) → (payload : Bytes) → InboundFrame
  login_success : LoginSuccess → InboundFrame
  login_fail : (pubkey_prefix : Bytes) → InboundFrame
  status_response : (pubkey_prefix : Bytes) → (raw : Bytes) → InboundFrame
  log_rx_data : (snr_byte : ℤ) → (rssi_byte : ℤ) → (raw : Bytes) → InboundFrame
  telemetry_response : (pubkey_prefix : Bytes) → (raw : Bytes) → InboundFrame
  binary_response : (tag : Bytes) → (raw : Bytes) → InboundFrame
  path_discovery_response : (raw : Bytes) → InboundFrame
  control_data : (raw : Bytes) → InboundFrame
  contact_deleted : (pubkey : Bytes) → InboundFrame
  contacts_full : InboundFrame
  trace_data : (raw : Bytes) → InboundFrame
  unknown : (type_byte : ℕ) → (payload : Bytes) → InboundFrame

-- A command from the application to the radio.
pub data OutboundFrame : Type 0 where
  app_start : (app_target_version : ℕ) → OutboundFrame
  device_query : (app_target_version : ℕ) → OutboundFrame
  get_contacts : (since : ℕ) → OutboundFrame
  sync_next_message : OutboundFrame
  send_txt_msg : (txt_type attempt timestamp : ℕ) (pubkey_prefix text : Bytes) → OutboundFrame
  send_channel_txt_msg : (txt_type channel_idx : ℕ) (text : Bytes) → OutboundFrame
  send_login : (pubkey password : Bytes) → OutboundFrame
  get_device_time : OutboundFrame
  set_device_time : (unix_time : ℕ) → OutboundFrame
  send_self_advert : (flood : Bool) → OutboundFrame
  set_advert_name : (name : Bytes) → OutboundFrame
  set_advert_latlon : (lat_1e6 lon_1e6 : ℤ) → OutboundFrame
  add_update_contact : Contact → OutboundFrame
  remove_contact : (pubkey : Bytes) → OutboundFrame
  reset_path : (pubkey : Bytes) → OutboundFrame
  get_contact_by_key : (pubkey : Bytes) → OutboundFrame
  share_contact : (pubkey : Bytes) → OutboundFrame
  export_contact : (pubkey : Option Bytes) → OutboundFrame
  import_contact : (body : Bytes) → OutboundFrame
  get_batt_and_storage : OutboundFrame
  get_channel : (channel_idx : Option ℕ) → OutboundFrame
  set_channel : (channel_idx : ℕ) (name secret : Bytes) → OutboundFrame
  logout : (pubkey : Bytes) → OutboundFrame
  get_stats : (stats_type : ℕ) → OutboundFrame
  set_default_flood_scope : (scope : FloodScope) → OutboundFrame
  get_default_flood_scope : OutboundFrame
  set_flood_scope : (key : Option Bytes) → OutboundFrame
  set_other_params : (manual_add telemetry_modes advert_loc_policy multi_acks : ℕ) → OutboundFrame
  set_autoadd_config : (config : ℕ) → OutboundFrame
  get_autoadd_config : OutboundFrame
  set_path_hash_mode : (mode : ℕ) → OutboundFrame
  set_radio_params : (frequency_hz bandwidth_hz spreading_factor coding_rate : ℕ) → OutboundFrame
  set_radio_tx_power : (power_dbm : ℤ) → OutboundFrame
  export_private_key : OutboundFrame
  import_private_key : (key : Bytes) → OutboundFrame
  raw : (code : ℕ) (body : Bytes) → OutboundFrame
