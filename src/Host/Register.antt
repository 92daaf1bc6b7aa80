-- ===== src/Host/Register.antt =====
-- crates/bbs-core/src/host.rs: registering, in one message or with prompts. The id that the database
-- gives to a new row, the text of a refused name, and the hash of a password with its salt (of the
-- crate argon2) are parameters.
use supply_drop_bbs.Prelude.{
  ℕ, Bool, true, not, ◌&&◌, ◌||◌, none, some, [], ◌∷◌, Bytes, codes, ◌++◌, ltb, leb, ◌==◌, nat_eq,
  list_eq, if◌then◌else◌, length, Result, ok, err,
}
use supply_drop_bbs.Prelude.Map.{get, insert}
use supply_drop_bbs.Text.{trim, to_ascii_lowercase, is_empty, strip_prefix}
use supply_drop_bbs.Identity.{Username, InvalidUsername, new_username, first_char, last_char}
use supply_drop_bbs.Permissions.{PermissionLevel, unvalidated, sysop}
use supply_drop_bbs.Response.{Response, error, prompt, logged_in}
use supply_drop_bbs.Host.Users.{User, Users, active, get_by_username}
use supply_drop_bbs.Host.State.{
  HostState, unknown_session, storage, DbCall, by_username, list_first, insert_row,
  set_password_call, Outcome, answer, refuse, SessionRecord, idle, register, RegisterStage,
  modify_session, set_workflow, with_users,
}
use supply_drop_bbs.Host.Login.{busy, initial_room}

-- `is_ascii_alphanumeric`, `-` or `_`; a letter is small here.
unfoldable pub is_name_char : ℕ → Bool
is_name_char c =
    (leb b'0' c && leb c b'9')
    || (leb b'a' c && leb c b'z')
    || (leb b'A' c && leb c b'Z')
    || c == b'-'
    || c == b'_'

unfoldable pub all_chars : (ℕ → Bool) → Bytes → Bool
all_chars p [] = true
all_chars p (c ∷ s) = p c && all_chars p s

unfoldable pub is_edge : ℕ → Bool
is_edge c = c == b'-' || c == b'_'

unfoldable pub stored_form : Bytes → Bytes
stored_form raw =
    to_ascii_lowercase (elim (strip_prefix b'@' (trim raw)) [ some rest ↦ rest | none ↦ trim raw ])

unfoldable pub validate_new_username : (InvalidUsername → Bytes) → Bytes → Result Bytes Username
validate_new_username explain raw =
    let normalized = stored_form raw in
    if is_empty normalized
    then err (codes "Username can't be empty.")
    else if ltb (length normalized) 3
    then err (codes "Username must be at least 3 characters.")
    else if not (all_chars is_name_char normalized)
    then err (codes "Username may only contain letters, digits, - and _.")
    else if is_edge (first_char normalized) || is_edge (last_char normalized)
    then err (codes "Username can't start or end with - or _.")
    else elim (new_username normalized) [ err e ↦ err (explain e) | ok name ↦ ok name ]

-- The row that the statement writes.
unfoldable pub new_user : ℕ → Username → PermissionLevel → ℕ → User
new_user id name level now = record {
  id = id;
  username = name;
  display_name = none;
  status = active;
  permission_level = level;
  created_at = now;
  last_login_at = none;
  suspended_until = none;
}

unfoldable pub initial_level : Users → PermissionLevel
initial_level [] = sysop
initial_level (_ ∷ _) = unvalidated

-- The session's fields after a registration.
unfoldable pub set_registered : Username → ℕ → PermissionLevel → ℕ → SessionRecord → SessionRecord
set_registered name id level room r = record r {
  username = some name;
  user_id = some id;
  level = level;
  workflow = idle;
  current_room = room;
}

unfoldable pub min_password : ℕ
min_password = 8

-- The row that `set_password` writes in place of an earlier one.
unfoldable pub set_password : (Bytes → Bytes) → ℕ → Bytes → ℕ → HostState → HostState
set_password phc_of id given now s = record s {
  credentials = insert id (phc_of given, now) s.credentials;
}

abbrev pub no_match : Username → Response
no_match name =
    prompt (codes "Passwords didn't match. Choose a password for '" ++ (name.as_str ++ codes "':"))
      true

module _ (fails : DbCall → Bool) (explain : InvalidUsername → Bytes) (new_id : Users → ℕ)
    (phc_of : Bytes → Bytes) (now : ℕ) where
  unfoldable pub create_user_and_login : ℕ → Username → Bytes → HostState → Outcome
  create_user_and_login session name given s =
      if fails list_first || fails insert_row
      then refuse s storage
      else elim (get_by_username name s.users) [
        | some _ ↦ answer (modify_session session (set_workflow idle) s) (
            error (
              codes "'"
              ++ (name.as_str ++ codes "' was just taken. Try: register <different_username>")))
        | none ↦
            let level = initial_level s.users in
            let id = new_id s.users in
            let s1 = with_users (insert id (new_user id name level now) s.users) s in
            let s2 = set_password phc_of id given now s1 in
            if fails set_password_call then refuse s1 storage else elim (get session s2.sessions) [
              | none ↦ refuse s2 (unknown_session session)
              | some _ ↦
                  answer
                    (modify_session session (set_registered name id level (initial_room level s2))
                      s2)
                    (logged_in name)
            ]
      ]

  unfoldable pub taken : Username → Bytes → Response
  taken name rest =
      error
        (codes "'" ++ (name.as_str ++ (codes "' is taken. Try: login " ++ (name.as_str ++ rest))))

  unfoldable pub register_prompt : ℕ → Username → HostState → Outcome
  register_prompt session name s =
      if fails by_username then refuse s storage else elim (get_by_username name s.users) [
        | some _ ↦ answer s (taken name [])
        | none ↦ elim (get session s.sessions) [
          | none ↦ refuse s (unknown_session session)
          | some _ ↦
              answer
                (modify_session session (set_workflow (register name RegisterStage.password)) s)
                (prompt
                  (codes "Registering '"
                    ++ (name.as_str ++ codes "'. Choose a password (min 8 characters):"))
                  true)
        ]
      ]

  unfoldable pub register_named : ℕ → Bytes → HostState → Outcome
  register_named session raw s = elim (validate_new_username explain raw) [
    | err message ↦ answer s (error message)
    | ok name ↦ register_prompt session name s
  ]

  unfoldable pub handle_register : ℕ → Bytes → HostState → Outcome
  handle_register session raw s = elim (get session s.sessions) [
    | none ↦ register_named session raw s
    | some r ↦ elim (busy r) [
      | some response ↦ answer s response
      | none ↦ register_named session raw s
    ]
  ]

  unfoldable pub register_oneshot_named : ℕ → Bytes → Bytes → HostState → Outcome
  register_oneshot_named session raw given s = elim (validate_new_username explain raw) [
    | err message ↦ answer s (error message)
    | ok name ↦
        if ltb (length given) min_password
        then answer s (error (codes "Password must be at least 8 characters. Not registered."))
        else if fails by_username
        then refuse s storage
        else elim (get_by_username name s.users) [
          | some _ ↦ answer s (taken name (codes " <password>"))
          | none ↦ create_user_and_login session name given s
        ]
  ]

  unfoldable pub handle_register_oneshot : ℕ → Bytes → Bytes → HostState → Outcome
  handle_register_oneshot session raw given s = elim (get session s.sessions) [
    | none ↦ refuse s (unknown_session session)
    | some r ↦ elim (busy r) [
      | some response ↦ answer s response
      | none ↦ register_oneshot_named session raw given s
    ]
  ]

  -- The two arms of `handle_workflow_reply` for a registration.
  unfoldable pub register_password : ℕ → Username → Bytes → HostState → Outcome
  register_password session name reply s =
      if ltb (length reply) min_password
      then answer s (
          prompt
            (codes "Password for '"
              ++ (name.as_str ++ codes "' must be at least 8 characters. Try again:"))
            true)
      else answer
          (modify_session session (set_workflow (register name (RegisterStage.confirm reply))) s)
          (prompt (codes "Confirm the password for '" ++ (name.as_str ++ codes "':")) true)

  unfoldable pub register_confirm : ℕ → Username → Bytes → Bytes → HostState → Outcome
  register_confirm session name chosen reply s =
      if not (reply == chosen)
      then answer (modify_session session (set_workflow (register name RegisterStage.password)) s)
          (no_match name)
      else create_user_and_login session name chosen s
