-- ===== src/Companion/Outbound.antt =====
-- crates/meshcore-companion/src/frame.rs: the encoder.
use supply_drop_bbs.Prelude.{
  ℕ, ◌/◌, some, none, [], ◌∷◌, ◌++◌, Bytes, leb, length, take, if◌then◌else◌,
}
use supply_drop_bbs.Companion.Wire.{
  Outcome, panic, u16_bytes, u32_bytes, i32_bytes, from_i8, zeros, padded,
}
use supply_drop_bbs.Companion.Frames.{Contact, OutboundFrame}

abbrev pub max_region_name_bytes : ℕ
max_region_name_bytes = 30

unfoldable pub encode_contact_body : Contact → Bytes
encode_contact_body c =
    c.pubkey
    ++ (c.adv_type
        ∷ c.flags
        ∷ from_i8 c.out_path_len
        ∷ (c.out_path
            ++ (padded 32 32 c.name
                ++ (u32_bytes c.last_advert_timestamp
                    ++ (i32_bytes c.gps_lat ++ (i32_bytes c.gps_lon ++ u32_bytes c.lastmod))))))

unfoldable pub build_payload : OutboundFrame → Bytes
unfolding encode_contact_body
build_payload (OutboundFrame.app_start version) = 1 ∷ version ∷ zeros 6
build_payload (OutboundFrame.device_query version) = 22 ∷ version ∷ []
build_payload (OutboundFrame.get_contacts since) = 4 ∷ u32_bytes since
build_payload OutboundFrame.sync_next_message = 10 ∷ []
build_payload (OutboundFrame.send_txt_msg txt_type attempt timestamp pubkey_prefix text) =
    2 ∷ txt_type ∷ attempt ∷ (u32_bytes timestamp ++ (pubkey_prefix ++ text))
build_payload (OutboundFrame.send_channel_txt_msg txt_type channel_idx text) =
    3 ∷ txt_type ∷ channel_idx ∷ (zeros 4 ++ text)
build_payload (OutboundFrame.send_login pubkey password) = 26 ∷ (pubkey ++ (password ++ 0 ∷ []))
build_payload OutboundFrame.get_device_time = 5 ∷ []
build_payload (OutboundFrame.set_device_time unix_time) = 6 ∷ u32_bytes unix_time
build_payload (OutboundFrame.send_self_advert flood) = 7 ∷ (if flood then 1 else 0) ∷ []
build_payload (OutboundFrame.set_advert_name name) = 8 ∷ (take 31 name ++ 0 ∷ [])
build_payload (OutboundFrame.set_advert_latlon lat lon) = 14 ∷ (i32_bytes lat ++ i32_bytes lon)
build_payload (OutboundFrame.add_update_contact c) = 9 ∷ encode_contact_body c
build_payload (OutboundFrame.remove_contact pubkey) = 15 ∷ pubkey
build_payload (OutboundFrame.reset_path pubkey) = 13 ∷ pubkey
build_payload (OutboundFrame.get_contact_by_key pubkey) = 30 ∷ pubkey
build_payload (OutboundFrame.share_contact pubkey) = 16 ∷ pubkey
build_payload (OutboundFrame.export_contact (some key)) = 17 ∷ key
build_payload (OutboundFrame.export_contact none) = 17 ∷ []
build_payload (OutboundFrame.import_contact body) = 18 ∷ body
build_payload OutboundFrame.get_batt_and_storage = 20 ∷ []
build_payload (OutboundFrame.get_channel (some idx)) = 31 ∷ idx ∷ []
build_payload (OutboundFrame.get_channel none) = 31 ∷ []
build_payload (OutboundFrame.set_channel channel_idx name secret) =
    32 ∷ channel_idx ∷ (padded 32 32 name ++ secret)
build_payload (OutboundFrame.logout pubkey) = 29 ∷ pubkey
build_payload (OutboundFrame.get_stats stats_type) = 56 ∷ stats_type ∷ []
build_payload (OutboundFrame.set_default_flood_scope scope) =
    63 ∷ (padded max_region_name_bytes 31 scope.name ++ scope.key)
build_payload OutboundFrame.get_default_flood_scope = 64 ∷ []
build_payload (OutboundFrame.set_flood_scope (some key)) = 54 ∷ 0 ∷ key
build_payload (OutboundFrame.set_flood_scope none) = 54 ∷ 0 ∷ []
build_payload
      (OutboundFrame.set_other_params manual_add telemetry_modes advert_loc_policy multi_acks) =
    38 ∷ manual_add ∷ telemetry_modes ∷ advert_loc_policy ∷ multi_acks ∷ []
build_payload (OutboundFrame.set_autoadd_config config) = 58 ∷ config ∷ []
build_payload OutboundFrame.get_autoadd_config = 59 ∷ []
build_payload (OutboundFrame.set_path_hash_mode mode) = 61 ∷ 0 ∷ mode ∷ []
build_payload
      (OutboundFrame.set_radio_params frequency_hz bandwidth_hz spreading_factor coding_rate) =
    11
    ∷ (u32_bytes (frequency_hz / 1000)
        ++ (u32_bytes bandwidth_hz ++ spreading_factor ∷ coding_rate ∷ []))
build_payload (OutboundFrame.set_radio_tx_power power_dbm) = 12 ∷ from_i8 power_dbm ∷ []
build_payload OutboundFrame.export_private_key = 23 ∷ []
build_payload (OutboundFrame.import_private_key key) = 24 ∷ key
build_payload (OutboundFrame.raw code body) = code ∷ body

-- The `assert!` on the length is a panic.
unfoldable pub wrap_payload : Bytes → Outcome Bytes
unfolding u16_bytes
wrap_payload payload =
    if leb (length payload) 65535
    then Outcome.ok (0x3C ∷ (u16_bytes (length payload) ++ payload))
    else panic

unfoldable pub encode_outbound : OutboundFrame → Outcome Bytes
unfolding build_payload wrap_payload
encode_outbound frame = wrap_payload (build_payload frame)
