-- ===== src/Companion/Region.antt =====
-- crates/meshcore-companion/src/scope.rs: the names of regions. A name is the list of its code
-- points; `utf8` gives its bytes, and `sha256` is the digest of the crate sha2.
pub mod RoundTrip
mod Tests
use supply_drop_bbs.Prelude.{
  ℕ, Bool, true, false, Option, some, none, List, [], ◌∷◌, Bytes, ltb, ◌||◌, take, if◌then◌else◌,
  Result, ok, err, and_then,
}
use supply_drop_bbs.Text.{trim, strip_prefix, is_empty, is_control, len}
use supply_drop_bbs.Companion.Frames.{FloodScope}
use supply_drop_bbs.Companion.Outbound.{max_region_name_bytes}

pub data RegionNameError : Type 0 where
  empty : RegionNameError
  too_long : ℕ → RegionNameError
  control_char : RegionNameError

-- `chars().any(char::is_control)`.
unfoldable pub has_control : Bytes → Bool
has_control [] = false
has_control (c ∷ s) = is_control c || has_control s

abbrev pub without_hash : Bytes → Bytes
without_hash trimmed = elim (strip_prefix b'#' trimmed) [ some rest ↦ rest | none ↦ trimmed ]

unfoldable pub checked_name : Bytes → Result RegionNameError Bytes
unfolding has_control
checked_name name =
    if is_empty name
    then err empty
    else if has_control name
    then err control_char
    else if ltb max_region_name_bytes (len name)
    then err (too_long (len name))
    else ok name

unfoldable pub normalize_region_name : Bytes → Result RegionNameError Bytes
unfolding checked_name
normalize_region_name input = checked_name (trim (without_hash (trim input)))

module _ (utf8 sha256 : Bytes → Bytes) where
  unfoldable pub region_key : Bytes → Bytes
  region_key name = take 16 (sha256 (b'#' ∷ utf8 name))

  unfoldable pub for_region : Bytes → Result RegionNameError FloodScope
  unfolding normalize_region_name region_key
  for_region input =
      and_then (normalize_region_name input)
        (λ name. ok (record { name = utf8 name; key = region_key name }))
