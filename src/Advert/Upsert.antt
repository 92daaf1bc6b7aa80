-- ===== src/Advert/Upsert.antt =====
-- crates/bbs-plugin-api/src/advert.rs: what a heard advert or a synced contact writes to the bus.
use supply_drop_bbs.Prelude.{
  ℕ, ◌+◌, ◌%◌, ◌^◌, Bool, true, not, Option, none, some, Bytes, ltb, ◌==◌, nat_eq, list_eq, bool_eq,
  if◌then◌else◌, is_some, is_some_and,
}
use supply_drop_bbs.Prelude.Map.{get, insert}
use supply_drop_bbs.Prelude.Int.{ℤ, pos}
use supply_drop_bbs.Advert.Records.{
  AdvertRecord, AdvertBusInner, new_record, protect_bit, with_protect_bit, merge_protected_bit,
  plausible_timestamp,
}

-- The device's or the air's description of a node.
pub record Heard : Type 0 where
  pub name : Bytes
  pub adv_type : ℕ
  pub gps_lat : ℤ
  pub gps_lon : ℤ

-- `entry(pubkey).or_insert_with(|| fresh)`.
unfoldable pub entry_or : Bytes → AdvertRecord → AdvertBusInner → AdvertRecord
entry_or pubkey fresh inner = elim (get pubkey inner.records) [ none ↦ fresh | some r ↦ r ]

unfoldable pub with_record : Bytes → AdvertRecord → AdvertBusInner → AdvertBusInner
with_record pubkey r inner = record inner { records = insert pubkey r inner.records }

-- The assignments that the four full upserts share.
unfoldable pub set_heard : Heard → Bytes → AdvertRecord → AdvertRecord
set_heard h transport e = record e {
  name = h.name;
  adv_type = h.adv_type;
  lat = h.gps_lat;
  lon = h.gps_lon;
  transport = transport;
}

unfoldable pub upsert : Bytes → Heard → Bytes → ℕ → AdvertBusInner → AdvertBusInner
upsert pubkey h transport now inner =
    let e = set_heard h transport (entry_or pubkey (new_record pubkey now transport) inner) in
    with_record pubkey (record e { last_seen_secs = now }) inner

-- The last time seen only moves forward.
unfoldable pub advance_last_seen : ℕ → AdvertRecord → AdvertRecord
advance_last_seen last_seen e =
    if ltb e.last_seen_secs last_seen then record e { last_seen_secs = last_seen } else e

unfoldable pub upsert_with_timestamp :
    Bytes → Heard → ℤ → Bytes → ℕ → AdvertBusInner → AdvertBusInner
upsert_with_timestamp pubkey h device_last_seen transport now inner =
    let last_seen = plausible_timestamp device_last_seen now in
    let fresh = record (new_record pubkey now transport) { last_seen_secs = last_seen } in
    let e = set_heard h transport (entry_or pubkey fresh inner) in
    with_record pubkey (advance_last_seen last_seen e) inner

unfoldable pub upsert_short : Bytes → Bytes → ℕ → AdvertBusInner → AdvertBusInner
upsert_short pubkey transport now inner = elim (get pubkey inner.records) [
  | none ↦ with_record pubkey (new_record pubkey now transport) inner
  | some e ↦ with_record pubkey (record e { last_seen_secs = now; transport = transport }) inner
]

-- The end of both syncs: the merged bit is stored, a change counts as a transition, and a record
-- that was new gets the stamps of one. `upper` is what the other bits of the flags are to be.
unfoldable pub merge_bit : Bool → ℕ → Bool → ℕ → AdvertRecord → AdvertRecord
merge_bit already_existed upper incoming_bit now e =
    let previous_bit = protect_bit e.flags in
    let merged_bit = merge_protected_bit incoming_bit e.protected_at e.unprotected_at now in
    let e' = record e { flags = with_protect_bit upper merged_bit } in
    if merged_bit == previous_bit
    then e'
    else (if already_existed
        then record e' { generation = e.generation + 1 }
        else if merged_bit
        then record e' {
          generation = e.generation + 1;
          protected_at = some now;
          unprotected_at = none;
        }
        else record e' {
          generation = e.generation + 1;
          protected_at = none;
          unprotected_at = some now;
        })

-- The fields of a `Contact` frame beside the description.
pub record ContactDetail : Type 0 where
  pub device_last_seen : ℤ
  pub flags : ℕ
  pub last_advert_timestamp : ℕ
  pub lastmod : ℕ
  pub out_path : Bytes
  pub out_path_len : ℤ

unfoldable pub upsert_contact :
    Bytes → Heard → ContactDetail → Bytes → ℕ → AdvertBusInner → AdvertBusInner
upsert_contact pubkey h c transport now inner =
    let last_seen = plausible_timestamp c.device_last_seen now in
    let already_existed = is_some (get pubkey inner.records) in
    let e = set_heard h transport (entry_or pubkey (new_record pubkey now transport) inner) in
    let e' = record (advance_last_seen last_seen e) {
      has_full_record = true;
      last_advert_timestamp = plausible_timestamp (pos c.last_advert_timestamp) now % 2 ^ 32;
      lastmod = c.lastmod;
      out_path = c.out_path;
      out_path_len = c.out_path_len;
    } in
    with_record pubkey (merge_bit already_existed c.flags (protect_bit c.flags) now e') inner

-- `true` where the node number stood for another key before.
unfoldable pub upsert_meshtastic_node :
    Bytes → ℕ → Heard → Option Bool → Bytes → ℕ → AdvertBusInner → AdvertBusInner × Bool
upsert_meshtastic_node pubkey node_num h is_favorite transport now inner =
    let identity_changed =
      is_some_and (get node_num inner.node_num_index) (λ k. not (k == pubkey)) in
    let indexed = record inner { node_num_index = insert node_num pubkey inner.node_num_index } in
    let already_existed = is_some (get pubkey inner.records) in
    let e = set_heard h transport (entry_or pubkey (new_record pubkey now transport) inner) in
    let e' = record e { last_seen_secs = now; has_full_record = true; node_num = some node_num } in
    let stored : AdvertRecord = elim is_favorite [
      | none ↦ e'
      | some favorite ↦ merge_bit already_existed 0 favorite now e'
    ] in
    (with_record pubkey stored indexed, identity_changed)
