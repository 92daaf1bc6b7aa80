-- ===== src/Advert/Records.antt =====
-- crates/bbs-plugin-api/src/advert.rs: the records of the bus, and the rules on the protection bit.
-- A timestamp is a number of seconds; a latitude or a longitude is kept in the micro-degrees it is
-- reported in, where the source divides it by a million into a float.
use supply_drop_bbs.Prelude.{
  ℕ, ◌+◌, ◌-◌, ◌/◌, ◌%◌, Bool, true, false, ◌||◌, Option, none, some, [], ◌∷◌, Bytes, ltb, leb,
  ◌==◌, nat_eq, if◌then◌else◌, take, is_some_and,
}
use supply_drop_bbs.Prelude.Map.{Map}
use supply_drop_bbs.Prelude.Int.{ℤ, pos, negsuc}

abbrev pub protect_grace_secs : ℕ
protect_grace_secs = 300

pub record AdvertRecord : Type 0 where
  pub pubkey_hex : Bytes
  pub name : Bytes
  pub adv_type : ℕ
  pub lat : ℤ
  pub lon : ℤ
  pub first_seen_secs : ℕ
  pub last_seen_secs : ℕ
  pub transport : Bytes
  pub has_full_record : Bool
  pub flags : ℕ
  pub protected_at : Option ℕ
  pub unprotected_at : Option ℕ
  pub node_num : Option ℕ
  pub last_advert_timestamp : ℕ
  pub lastmod : ℕ
  pub out_path : Bytes
  pub out_path_len : ℤ
  pub generation : ℕ

hex_digit : ℕ → ℕ
hex_digit n = if ltb n 10 then 48 + n else 87 + n

unfoldable pub hex_encode : Bytes → Bytes
unfolding hex_digit
hex_encode [] = []
hex_encode (b ∷ bs) = hex_digit (b / 16) ∷ hex_digit (b % 16) ∷ hex_encode bs

unfoldable pub new_record : Bytes → ℕ → Bytes → AdvertRecord
new_record pubkey now transport = record {
  pubkey_hex = hex_encode pubkey;
  name = [];
  adv_type = 0;
  lat = pos 0;
  lon = pos 0;
  first_seen_secs = now;
  last_seen_secs = now;
  transport = transport;
  has_full_record = false;
  flags = 0;
  protected_at = none;
  unprotected_at = none;
  node_num = none;
  last_advert_timestamp = 0;
  lastmod = 0;
  out_path = [];
  out_path_len = negsuc 0;
  generation = 0;
}

-- `u64::abs_diff`.
abbrev pub abs_diff : ℕ → ℕ → ℕ
abs_diff a b = if ltb a b then b - a else a - b

unfoldable pub within_grace : ℕ → ℕ → Bool
within_grace t now = ltb (abs_diff t now) protect_grace_secs

-- `flags & 1 != 0`, and `flags & !1` with the bit set to a value.
abbrev pub protect_bit : ℕ → Bool
protect_bit flags = flags % 2 == 1

abbrev pub with_protect_bit : ℕ → Bool → ℕ
with_protect_bit flags bit = flags - flags % 2 + (if bit then 1 else 0)

unfoldable pub is_effectively_protected : AdvertRecord → ℕ → Bool
is_effectively_protected r now =
    protect_bit r.flags || is_some_and r.protected_at (λ t. within_grace t now)

-- `Option::filter` by the window.
unfoldable pub live : Option ℕ → ℕ → Option ℕ
live none now = none
live (some t) now = if within_grace t now then some t else none

unfoldable pub merge_live : Option ℕ → Option ℕ → Bool → Bool
merge_live (some p) (some u) incoming_bit = leb u p
merge_live (some p) none incoming_bit = true
merge_live none (some u) incoming_bit = false
merge_live none none incoming_bit = incoming_bit

unfoldable pub merge_protected_bit : Bool → Option ℕ → Option ℕ → ℕ → Bool
merge_protected_bit incoming_bit protected_at unprotected_at now =
    merge_live (live protected_at now) (live unprotected_at now) incoming_bit

abbrev pub prefix6 : Bytes → Bytes
prefix6 pubkey = take 6 pubkey

abbrev pub min_plausible_ts : ℕ
min_plausible_ts = 1577836800

abbrev pub clock_fudge_secs : ℕ
clock_fudge_secs = 300

unfoldable pub plausible_timestamp : ℤ → ℕ → ℕ
plausible_timestamp (negsuc n) now = now
plausible_timestamp (pos reported) now =
    if leb min_plausible_ts reported
    then (if leb reported (now + clock_fudge_secs) then reported else now)
    else now

-- What the lock of the bus guards.
pub record AdvertBusInner : Type 0 where
  pub records : Map Bytes AdvertRecord
  pub node_num_index : Map ℕ Bytes

abbrev pub new_bus : AdvertBusInner
new_bus = record { records = []; node_num_index = [] }
