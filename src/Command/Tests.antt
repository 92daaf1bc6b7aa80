-- ===== src/Command/Tests.antt =====
-- crates/bbs-plugin-api/src/command.rs, identity.rs and permissions.rs: runs on concrete inputs.
use supply_drop_bbs.Prelude.{◌≡◌, ◌↔◌, refl, Bool, true, false, codes, ok}
use supply_drop_bbs.Text.{
  is_whitespace, is_ascii_whitespace, is_control, to_ascii_lowercase, trim_start, trim_end, trim,
  break_on, split_whitespace,
}
use supply_drop_bbs.Text.Number.{digits_from, digits, parse_unsigned}
use supply_drop_bbs.Identity.{
  Username, first_disallowed, is_bracket, validate_chars, validate, normalise, new_username,
  try_from,
}
use supply_drop_bbs.Identity.Canonical.{IsUsername, new_username_sound, new_username_complete}
use supply_drop_bbs.Command.{cancel, workflow_reply, timeout_user}
use supply_drop_bbs.Command.Parse.{
  parse, parse_keyword, parse_timeout, timeout_command, username_in, split_first_word, keyword_of,
  dispatch, is_cancel,
}
use supply_drop_bbs.Command.Shape.{IsArm, parse-IsArm}
use supply_drop_bbs.Command.Modes.{parse_modes}

abbrev alice : Username
alice = record { as_str = codes "alice" }

alice_accepted : new_username (codes "@Alice") ≡ ok alice
unfolding new_username normalise validate validate_chars first_disallowed is_bracket is_whitespace
    is_control to_ascii_lowercase
alice_accepted = refl

new_username_sound_example : IsUsername (codes "alice")
new_username_sound_example = new_username_sound (codes "@Alice") alice alice_accepted

new_username_complete_example :
    (new_username (codes "alice") ≡ ok alice) × (try_from (codes "alice") ≡ ok alice)
new_username_complete_example = new_username_complete (codes "alice") new_username_sound_example

timeout_run : parse (codes " Timeout @alice 3 ") false ≡ timeout_user alice 3
unfolding parse parse_keyword parse_timeout timeout_command username_in split_first_word keyword_of
    dispatch is_cancel new_username normalise validate validate_chars first_disallowed is_bracket
    is_whitespace is_control to_ascii_lowercase trim trim_start trim_end break_on
    is_ascii_whitespace split_whitespace parse_unsigned digits digits_from
timeout_run = refl

no_word : is_cancel (trim (codes " Timeout @alice 3 ")) ≡ false
unfolding is_cancel trim trim_start trim_end to_ascii_lowercase is_whitespace
no_word = refl

parse-IsArm_example : IsArm (parse (codes " Timeout @alice 3 ") false)
parse-IsArm_example = parse-IsArm (codes " Timeout @alice 3 ") no_word

parse_modes_example :
    ((parse (codes "stop") true ≡ cancel) ↔ (is_cancel (trim (codes "stop")) ≡ true))
    × ((parse (codes "stop") true ≡ workflow_reply (codes "stop")) ↔ (
        (is_cancel (trim (codes "stop")) ≡ false)
        × (◌≡◌ {A = Bool} true true)
        × (trim (codes "stop") ≡ codes "stop")))
parse_modes_example = parse_modes (codes "stop") (codes "stop") true
