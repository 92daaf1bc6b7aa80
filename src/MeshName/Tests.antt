-- ===== src/MeshName/Tests.antt =====
-- Truncation at a concrete name.
use supply_drop_bbs.Prelude.{ℕ, ◌≡◌, refl, ◌⊎◌, [], Bool, true, ◌∷◌, Bytes, codes, ◌==◌, nat_eq, ok}
use supply_drop_bbs.Text.{is_control}
use supply_drop_bbs.MeshName.{
  strip_display_spoofing_codepoints, truncate_mesh_node_name, max_mesh_node_name_bytes,
  validate_mesh_node_name,
}
use supply_drop_bbs.MeshName.Truncate.{
  IsLongest, IsShown, truncate_mesh_node_name-IsLongest, truncate_mesh_node_name-validate,
}

-- The right-to-left override.
abbrev overrides : ℕ → Bool
overrides c = c == 0x202E

-- A flag of two four-byte characters, an override, and more text than an advert with a location holds.
abbrev long_name : Bytes
long_name = 0x1F1FA ∷ 0x1F1F8 ∷ 0x202E ∷ codes "Mesh America board"

truncate_mesh_node_name-IsLongest_example :
    IsLongest
      (strip_display_spoofing_codepoints overrides long_name)
      (max_mesh_node_name_bytes true)
      (truncate_mesh_node_name overrides long_name true)
    × IsShown overrides (strip_display_spoofing_codepoints overrides long_name)
truncate_mesh_node_name-IsLongest_example =
    truncate_mesh_node_name-IsLongest overrides long_name true

cut_name :
    truncate_mesh_node_name overrides long_name true ≡ 0x1F1FA ∷ 0x1F1F8 ∷ codes "Mesh America bo"
unfolding truncate_mesh_node_name
cut_name = refl

-- A valid name with an override in it.
abbrev hidden_name : Bytes
hidden_name = 0x202E ∷ codes "Supply Drop"

hidden_name_valid : validate_mesh_node_name hidden_name true ≡ ok tt
unfolding validate_mesh_node_name is_control
hidden_name_valid = refl

truncate_mesh_node_name-validate_example :
    (truncate_mesh_node_name overrides hidden_name true
      ≡ strip_display_spoofing_codepoints overrides hidden_name)
    × ((truncate_mesh_node_name overrides hidden_name true ≡ [])
        ⊎ (validate_mesh_node_name (truncate_mesh_node_name overrides hidden_name true) true
            ≡ ok tt))
truncate_mesh_node_name-validate_example =
    truncate_mesh_node_name-validate overrides hidden_name true hidden_name_valid

shown_run : truncate_mesh_node_name overrides hidden_name true ≡ codes "Supply Drop"
unfolding truncate_mesh_node_name
shown_run = refl
