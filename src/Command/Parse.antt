-- ===== src/Command/Parse.antt =====
-- crates/bbs-plugin-api/src/command.rs: the parser that the CLI and the process transports share. The
-- `match` on the keyword is a table of the words of each arm, and a clause of `dispatch` for each arm.
use supply_drop_bbs.Prelude.{
  ℕ, Bool, true, false, ◌&&◌, ◌||◌, Option, none, some, List, [], ◌∷◌, Bytes, codes, leb, ◌==◌,
  nat_eq, list_eq, if◌then◌else◌, ◌>>=◌, to_option,
}
use supply_drop_bbs.Text.{
  is_ascii_whitespace, to_ascii_lowercase, trim, trim_start, is_empty, strip_prefix, break_on,
  split_whitespace,
}
use supply_drop_bbs.Text.Number.{parse_i64, parse_unsigned}
use supply_drop_bbs.Identity.{Username, new_username}
use supply_drop_bbs.Permissions.{user, aide, sysop}
use supply_drop_bbs.Command.{
  Command, help, register, login, whoami, workflow_reply, unknown, list_rooms, go_next_unread,
  change_room, go_mail, read_new, read_forward, read_reverse, scan_messages, fast_forward,
  enter_message, delete_message, quit, cancel, who_is_online, list_pending, validate_user,
  set_user_level, block_user, ban_user, unban_user, timeout_user, edit_profile, change_password,
  create_room, delete_room, edit_room, edit_user, list_users, search_users, user_info, delete_user,
  set_user_password, open_access, close_access, set_guest_room,
}

-- The rest is trimmed on the left, and absent where nothing is left.
abbrev non_empty : Bytes → Option Bytes
non_empty [] = none
non_empty (c ∷ s) = some (c ∷ s)

unfoldable pub split_first_word : Bytes → Bytes × Option Bytes
split_first_word s =
    let (word, rest) = break_on is_ascii_whitespace s in (word, non_empty (trim_start rest))

-- One for each arm of the `match`.
pub data Keyword : Type 0 where
  k_help k_register k_login k_quit k_rooms k_next k_change k_mail k_new k_forward k_reverse :
      Keyword
  k_search k_fast k_enter k_delete k_who k_pending k_validate k_block k_ban k_unban : Keyword
  k_timeout k_users k_whois k_whoami k_profile k_passwd k_create_room k_delete_room : Keyword
  k_edit_room k_edit_user k_delete_user k_aide k_sysop k_user k_password k_open : Keyword
  k_close k_guest : Keyword

abbrev pub keywords : List (Bytes × Keyword)
keywords =
    (codes "h", k_help)
    ∷ (codes "help", k_help)
    ∷ (codes "?", k_help)
    ∷ (codes "register", k_register)
    ∷ (codes "login", k_login)
    ∷ (codes "logout", k_quit)
    ∷ (codes "q", k_quit)
    ∷ (codes "quit", k_quit)
    ∷ (codes "exit", k_quit)
    ∷ (codes "bye", k_quit)
    ∷ (codes "k", k_rooms)
    ∷ (codes "g", k_next)
    ∷ (codes "c", k_change)
    ∷ (codes "m", k_mail)
    ∷ (codes "n", k_new)
    ∷ (codes "f", k_forward)
    ∷ (codes "r", k_reverse)
    ∷ (codes "s", k_search)
    ∷ (codes ".ff", k_fast)
    ∷ (codes "e", k_enter)
    ∷ (codes "d", k_delete)
    ∷ (codes "w", k_who)
    ∷ (codes "pending", k_pending)
    ∷ (codes "v", k_validate)
    ∷ (codes "b", k_block)
    ∷ (codes "ban", k_ban)
    ∷ (codes "unban", k_unban)
    ∷ (codes "timeout", k_timeout)
    ∷ (codes "u", k_users)
    ∷ (codes "users", k_users)
    ∷ (codes "whois", k_whois)
    ∷ (codes "whoami", k_whoami)
    ∷ (codes "profile", k_profile)
    ∷ (codes "passwd", k_passwd)
    ∷ (codes ".c", k_create_room)
    ∷ (codes ".dr", k_delete_room)
    ∷ (codes ".er", k_edit_room)
    ∷ (codes ".eu", k_edit_user)
    ∷ (codes ".du", k_delete_user)
    ∷ (codes ".aide", k_aide)
    ∷ (codes ".sysop", k_sysop)
    ∷ (codes ".user", k_user)
    ∷ (codes ".pw", k_password)
    ∷ (codes "openaccess", k_open)
    ∷ (codes "closeaccess", k_close)
    ∷ (codes "guestroom", k_guest)
    ∷ []

unfoldable pub keyword_of : Bytes → List (Bytes × Keyword) → Option Keyword
keyword_of w [] = none
keyword_of w ((k, kw) ∷ table) = if w == k then some kw else keyword_of w table

-- `rest.and_then(|s| Username::new(s).ok())`.
unfoldable pub username_in : Option Bytes → Option Username
username_in none = none
username_in (some s) = to_option (new_username s)

-- `Some(u) => f u, None => other`.
abbrev pub with_user : Option Username → (Username → Command) → Command → Command
with_user none f other = other
with_user (some u) f other = f u

-- `Some(name) if !name.is_empty() => f name, _ => other`.
abbrev pub with_text : Option Bytes → (Bytes → Command) → Command → Command
with_text none f other = other
with_text (some []) f other = other
with_text (some (c ∷ s)) f other = f (c ∷ s)

abbrev pub unwrap_or_empty : Option Bytes → Bytes
unwrap_or_empty none = []
unwrap_or_empty (some s) = s

-- The argument of `b`: a name, behind `+` or `-` for one direction.
unfoldable pub parse_block : Bytes → Option Bytes → Command
parse_block text rest =
    let raw_arg = trim (unwrap_or_empty rest) in
    elim (strip_prefix b'+' raw_arg) [
      | some s ↦
          with_user (to_option (new_username (trim s))) (λ u. block_user u (some true))
            (unknown text)
      | none ↦ elim (strip_prefix b'-' raw_arg) [
        | some s ↦
            with_user (to_option (new_username (trim s))) (λ u. block_user u (some false))
              (unknown text)
        | none ↦
            with_user (to_option (new_username raw_arg)) (λ u. block_user u none) (unknown text)
      ]
    ]

unfoldable pub timeout_command : Bytes → Option Username → Option ℕ → Command
timeout_command text (some u) (some days) =
    if leb 1 days && leb days 5 then timeout_user u days else unknown text
timeout_command text _ _ = unknown text

unfoldable pub parse_timeout : Bytes → Option Bytes → Command
parse_timeout text rest = elim (split_whitespace (unwrap_or_empty rest)) [
  | [] ↦ timeout_command text none none
  | u ∷ [] ↦ timeout_command text (username_in (some u)) none
  | u ∷ d ∷ more ↦ timeout_command text (username_in (some u)) (parse_unsigned 255 d)
]

unfoldable pub parse_guest_room : Bytes → Option Bytes → Command
parse_guest_room text none = unknown text
parse_guest_room text (some arg) =
    if to_ascii_lowercase arg == codes "off"
    then set_guest_room none
    else with_text (some arg) (λ name. set_guest_room (some name)) (unknown text)

unfoldable pub dispatch : Keyword → Bytes → Option Bytes → Command
dispatch k_help text rest = help rest
dispatch k_register text rest = with_text rest register (help (some (codes "register")))
dispatch k_login text rest = with_user (username_in rest) login (help (some (codes "login")))
dispatch k_quit text rest = quit
dispatch k_rooms text rest = list_rooms
dispatch k_next text rest = go_next_unread
dispatch k_change text rest = change_room (unwrap_or_empty rest)
dispatch k_mail text rest = go_mail
dispatch k_new text rest = read_new
dispatch k_forward text rest = read_forward (rest >>= parse_i64)
dispatch k_reverse text rest = read_reverse
dispatch k_search text rest = with_text rest search_users scan_messages
dispatch k_fast text rest = fast_forward
dispatch k_enter text rest = enter_message (rest >>= non_empty)
dispatch k_delete text rest = elim (rest >>= parse_i64) [
  | some id ↦ delete_message id
  | none ↦ unknown text
]
dispatch k_who text rest = who_is_online
dispatch k_pending text rest = list_pending
dispatch k_validate text rest = with_user (username_in rest) validate_user (unknown text)
dispatch k_block text rest = parse_block text rest
dispatch k_ban text rest = with_user (username_in rest) ban_user (unknown text)
dispatch k_unban text rest = with_user (username_in rest) unban_user (unknown text)
dispatch k_timeout text rest = parse_timeout text rest
dispatch k_users text rest = list_users rest
dispatch k_whois text rest = with_user (username_in rest) user_info (unknown text)
dispatch k_whoami text rest = whoami
dispatch k_profile text rest = edit_profile
dispatch k_passwd text rest = change_password
dispatch k_create_room text rest = with_text rest create_room (unknown text)
dispatch k_delete_room text rest = with_text rest delete_room (unknown text)
dispatch k_edit_room text rest = edit_room
dispatch k_edit_user text rest = with_user (username_in rest) edit_user (unknown text)
dispatch k_delete_user text rest = with_user (username_in rest) delete_user (unknown text)
dispatch k_aide text rest =
    with_user (username_in rest) (λ u. set_user_level u aide) (help (some (codes ".aide")))
dispatch k_sysop text rest =
    with_user (username_in rest) (λ u. set_user_level u sysop) (help (some (codes ".sysop")))
dispatch k_user text rest =
    with_user (username_in rest) (λ u. set_user_level u user) (help (some (codes ".user")))
dispatch k_password text rest = with_user (username_in rest) set_user_password (unknown text)
dispatch k_open text rest = open_access
dispatch k_close text rest = close_access
dispatch k_guest text rest = parse_guest_room text rest

unfoldable pub is_cancel : Bytes → Bool
is_cancel text =
    let word = to_ascii_lowercase text in word == codes "cancel" || word == codes "stop"

-- The `match` on the lower-case first word.
unfoldable pub parse_keyword : Bytes → Command
parse_keyword text =
    let (word, rest) = split_first_word text in
    elim (keyword_of (to_ascii_lowercase word) keywords) [
      | some kw ↦ dispatch kw text rest
      | none ↦ unknown text
    ]

-- `parse` after the line has been trimmed.
unfoldable pub parse_trimmed : Bytes → Bool → Command
parse_trimmed text awaiting_reply =
    if is_cancel text
    then cancel
    else if awaiting_reply
    then workflow_reply text
    else if is_empty text
    then unknown []
    else parse_keyword text

unfoldable pub parse : Bytes → Bool → Command
unfolding parse_trimmed
parse line awaiting_reply = parse_trimmed (trim line) awaiting_reply
