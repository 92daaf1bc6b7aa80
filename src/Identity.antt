-- ===== src/Identity.antt =====
-- crates/bbs-plugin-api/src/identity.rs: validated usernames.
pub mod Canonical
use supply_drop_bbs.Prelude.{
  ℕ, ◌≤◌, ◌≡◌, Bool, true, false, ◌&&◌, ◌||◌, Option, none, some, List, [], ◌∷◌, Bytes, codes, ltb,
  ◌==◌, nat_eq, list_eq, if◌then◌else◌, Result, ok, err, and_then,
}
use supply_drop_bbs.Text.{
  is_whitespace, is_control, to_ascii_lowercase, len, is_ascii, is_empty, strip_prefix,
}

pub record Username : Type 0 where
  pub as_str : Bytes

pub data InvalidUsername : Type 0 where
  empty : InvalidUsername
  too_long : ℕ → ℕ → InvalidUsername
  non_ascii : InvalidUsername
  disallowed_character : ℕ → InvalidUsername
  bracket_character : InvalidUsername
  reserved : Bytes → InvalidUsername

abbrev pub max_len : ℕ
max_len = 32

-- The first character that the loop refuses.
unfoldable pub first_disallowed : Bytes → Option ℕ
first_disallowed [] = none
first_disallowed (c ∷ s) =
    let rest = first_disallowed s in
    if is_control c || is_whitespace c || c == b'@' then some c else rest

unfoldable pub is_bracket : ℕ → Bool
is_bracket c = c == b'-' || c == b'_'

-- `chars().next()` and `chars().next_back()` of a text that is not empty.
abbrev pub first_char : Bytes → ℕ
first_char [] = 0
first_char (c ∷ s) = c

abbrev pub last_char : Bytes → ℕ
last_char [] = 0
last_char (c ∷ []) = c
last_char (c ∷ d ∷ s) = last_char (d ∷ s)

unfoldable pub validate_chars : Bytes → Result InvalidUsername (Unit {0})
validate_chars raw =
    if is_empty raw
    then err empty
    else if ltb max_len (len raw)
    then err (too_long (len raw) max_len)
    else if is_ascii raw
    then elim (first_disallowed raw) [
      | some c ↦ err (disallowed_character c)
      | none ↦
          if is_bracket (first_char raw) || is_bracket (last_char raw)
          then err bracket_character
          else ok tt
    ]
    else err non_ascii

abbrev pub is_reserved : Bytes → Bool
is_reserved raw = raw == codes "bbs" || raw == codes "system"

unfoldable pub validate : Bytes → Result InvalidUsername (Unit {0})
validate raw =
    and_then (validate_chars raw) (λ _. if is_reserved raw then err (reserved raw) else ok tt)

-- A leading `@` is dropped, and the letters are made small.
unfoldable pub normalise : Bytes → Bytes
normalise raw = to_ascii_lowercase (elim (strip_prefix b'@' raw) [ some rest ↦ rest | none ↦ raw ])

unfoldable pub new_username : Bytes → Result InvalidUsername Username
new_username raw = and_then (validate (normalise raw)) (λ _. ok (record { as_str = normalise raw }))

-- `TryFrom<String>`: what is read back from storage.
unfoldable pub try_from : Bytes → Result InvalidUsername Username
try_from value =
    and_then (validate_chars (normalise value)) (λ _. ok (record { as_str = normalise value }))
