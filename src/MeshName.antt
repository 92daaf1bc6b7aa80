-- ===== src/MeshName.antt =====
-- crates/bbs-core/src/mesh_name.rs: the name of the node in its adverts. `is_format` tells the
-- characters of the Unicode category Format, as the crate unicode_properties does.
pub mod Truncate
mod Tests
use supply_drop_bbs.Prelude.{
  ℕ, zero, suc, ◌+◌, ◌-◌, Bool, true, false, Option, some, none, List, [], ◌∷◌, Bytes, ltb, leb,
  ◌&&◌, ◌||◌, ◌==◌, nat_eq, Result, ok, err, if◌then◌else◌,
}
use supply_drop_bbs.Text.{is_control, is_empty, len_utf8, len}

abbrev pub max_mesh_node_name_len : ℕ
max_mesh_node_name_len = 31

abbrev pub location_advert_len : ℕ
location_advert_len = 8

abbrev pub max_mesh_node_name_bytes : Bool → ℕ
max_mesh_node_name_bytes sharing_location =
    if sharing_location
    then max_mesh_node_name_len - location_advert_len
    else max_mesh_node_name_len

pub data InvalidNodeName : Type 0 where
  empty : InvalidNodeName
  too_long : (actual max : ℕ) → (sharing_location : Bool) → InvalidNodeName
  control_character : ℕ → InvalidNodeName

-- `s.chars().find(|c| c.is_control())`.
unfoldable pub find_control : Bytes → Option ℕ
find_control [] = none
find_control (c ∷ s) = let later = find_control s in if is_control c then some c else later

unfoldable pub validate_mesh_node_name : Bytes → Bool → Result InvalidNodeName (Unit {0})
unfolding find_control
validate_mesh_node_name s sharing_location =
    if is_empty s
    then err empty
    else if ltb (max_mesh_node_name_bytes sharing_location) (len s)
    then err (too_long (len s) (max_mesh_node_name_bytes sharing_location) sharing_location)
    else elim (find_control s) [ some c ↦ err (control_character c) | none ↦ ok tt ]

-- Whether a character of the text starts at byte `n`, or the text ends there.
unfoldable pub is_char_boundary : Bytes → ℕ → Bool
is_char_boundary [] n = n == 0
is_char_boundary (c ∷ s) n =
    let rest = is_char_boundary s (n - len_utf8 c) in n == 0 || (leb (len_utf8 c) n && rest)

-- The loop that steps back to a boundary.
unfoldable pub floor_boundary : Bytes → ℕ → ℕ
unfolding is_char_boundary
floor_boundary s zero = zero
floor_boundary s (suc n) =
    let lower = floor_boundary s n in if is_char_boundary s (suc n) then suc n else lower

-- `s[..end]`, where `end` is a boundary.
unfoldable pub str_before : Bytes → ℕ → Bytes
str_before [] n = []
str_before (c ∷ s) n = let rest = str_before s (n - len_utf8 c) in if n == 0 then [] else c ∷ rest

module _ (is_format : ℕ → Bool) where
  unfoldable pub strip_display_spoofing_codepoints : Bytes → Bytes
  strip_display_spoofing_codepoints [] = []
  strip_display_spoofing_codepoints (c ∷ s) =
      let rest = strip_display_spoofing_codepoints s in if is_format c then rest else c ∷ rest

  unfoldable pub truncate_mesh_node_name : Bytes → Bool → Bytes
  unfolding strip_display_spoofing_codepoints floor_boundary str_before
  truncate_mesh_node_name s sharing_location =
      let cleaned = strip_display_spoofing_codepoints s in
      let max = max_mesh_node_name_bytes sharing_location in
      if leb (len cleaned) max then cleaned else str_before cleaned (floor_boundary cleaned max)
