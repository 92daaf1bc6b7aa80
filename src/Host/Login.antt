-- ===== src/Host/Login.antt =====
-- crates/bbs-core/src/host.rs: logging in, in one message or with a prompt. The check of a password
-- against its stored hash, the mark of a temporary password and the printing of a number are
-- parameters; `now` is the wall clock and `clock` the monotonic one.
pub mod Sound
pub mod Live
use supply_drop_bbs.Prelude.{
  ℕ, ◌+◌, ◌-◌, Bool, true, false, not, ◌||◌, Option, none, some, Bytes, codes, ◌++◌, leb, ◌==◌,
  nat_eq, list_eq, if◌then◌else◌, is_some, Result, ok, err,
}
use supply_drop_bbs.Prelude.Map.{get, modify, remove}
use supply_drop_bbs.Identity.{Username}
use supply_drop_bbs.Permissions.{PermissionLevel, user}
use supply_drop_bbs.Response.{Response, error, prompt, logged_in}
use supply_drop_bbs.Host.Users.{
  User, get_by_username, is_active, is_banned, below, update, set_last_login,
}
use supply_drop_bbs.Host.State.{
  HostState, HostError, unknown_session, storage, DbCall, by_username, update_row, verify_call,
  must_change_call, Outcome, answer, refuse, SessionRecord, idle, login, force_change_password,
  ForcePwdStage, is_idle, lobby_room_id, modify_session, set_workflow, with_users,
}
use supply_drop_bbs.Host.Suspension.{
  LoginSuspensionCheck, allowed, suspended, permanently_banned, resolve_suspension,
}
use supply_drop_bbs.Host.Throttle.{check_login_throttle, record_login_failure, Failures}

unfoldable pub set_failures : Failures → HostState → HostState
set_failures m s = record s { login_failures = m }

-- The session's fields after a login.
unfoldable pub set_login : User → ℕ → SessionRecord → SessionRecord
set_login u room r = record r {
  username = some u.username;
  user_id = some u.id;
  level = u.permission_level;
  workflow = idle;
  current_room = room;
}

unfoldable pub initial_room : PermissionLevel → HostState → ℕ
initial_room level s =
    if below level user
    then elim s.guest_room_id [ none ↦ lobby_room_id | some room ↦ room ]
    else lobby_room_id

unfoldable pub finalize_login : ℕ → User → HostState → Outcome
finalize_login session u s = elim (get session s.sessions) [
  | none ↦ refuse s (unknown_session session)
  | some _ ↦
      answer (modify_session session (set_login u (initial_room u.permission_level s)) s)
        (logged_in u.username)
]

-- The guards that both commands start with: the user must not be in a session or in a workflow.
unfoldable pub busy : SessionRecord → Option Response
busy r =
    if is_some r.username
    then some (error (codes "Already logged in. Use 'logout' first."))
    else if not (is_idle r.workflow)
    then some (error (codes "A workflow is already in progress. Type 'cancel' first."))
    else none

abbrev pub login_failed : Response
login_failed = error (codes "Login failed.")

abbrev pub reset_prompt : Response
reset_prompt =
    prompt
      (codes "Your password was reset by an operator. Choose a new password (min 8 characters):")
      true

-- An account that a login may go on with: active, or banned until the password is known.
unfoldable pub may_try : User → Bool
may_try u = is_active u.status || is_banned u.status

module _ (fails : DbCall → Bool) (verify : ℕ → Bytes → Bool) (must_change : ℕ → Bool)
    (decimal : ℕ → Bytes) (now clock : ℕ) where
  unfoldable pub suspended_text : ℕ → Response
  suspended_text days =
      error (codes "You have been suspended for " ++ (decimal days ++ codes " more day(s)."))

  -- The end of both paths: the failures are forgotten, the login is stamped, and a temporary
  -- password has to be changed first. `strict` is whether a lost session is an error there.
  unfoldable pub complete_login : Bool → ℕ → Username → User → HostState → Outcome
  complete_login strict session name u s =
      let s1 = set_failures (remove name.as_str s.login_failures) s in
      if fails update_row
      then refuse s1 storage
      else elim (update u.id (set_last_login now) s1.users) [
        | none ↦ refuse s1 storage
        | some users ↦
            let s2 = with_users users s1 in
            if fails must_change_call
            then refuse s2 storage
            else if must_change u.id
            then (let held =
                  modify_session session
                    (set_workflow (force_change_password name u.id ForcePwdStage.enter_new)) s2 in
                if strict
                then elim (get session s2.sessions) [
                  | none ↦ refuse s2 (unknown_session session)
                  | some _ ↦ answer held reset_prompt
                ]
                else answer held reset_prompt)
            else finalize_login session u s2
      ]

  -- A banned account after its password is verified. `release` is what becomes of the session where
  -- the login ends here.
  unfoldable pub login_banned :
      Bool → (HostState → HostState) → ℕ → Username → User → HostState → Outcome
  unfolding suspended_text
  login_banned strict release session name u s =
      if is_banned u.status
      then (let (s', check) = resolve_suspension fails now u s in
          elim check [
            | err e ↦ refuse s' e
            | ok (allowed u') ↦ complete_login strict session name u' s'
            | ok (suspended days) ↦ answer (release s') (suspended_text days)
            | ok permanently_banned ↦ answer (release s') login_failed
          ])
      else complete_login strict session name u s

  unfoldable pub oneshot_verify : ℕ → Username → Bytes → HostState → Outcome
  oneshot_verify session name given s =
      if fails by_username then refuse s storage else elim (get_by_username name s.users) [
        | none ↦ answer s login_failed
        | some u ↦
            if not (may_try u)
            then answer s login_failed
            else if fails verify_call
            then refuse s storage
            else if verify u.id given
            then login_banned true (λ x. x) session name u s
            else (let (failures, _) = record_login_failure name.as_str clock s.login_failures in
                answer (set_failures failures s) login_failed)
      ]

  unfoldable pub handle_login_oneshot : ℕ → Username → Bytes → HostState → Outcome
  handle_login_oneshot session name given s = elim (get session s.sessions) [
    | none ↦ refuse s (unknown_session session)
    | some r ↦ elim (busy r) [
      | some response ↦ answer s response
      | none ↦ elim (check_login_throttle name.as_str clock s.login_failures) [
        | some wait ↦
            answer s (
              error
                (codes "Too many login attempts. Try again in " ++ (decimal wait ++ codes "s.")))
        | none ↦ oneshot_verify session name given s
      ]
    ]
  ]

  login_prompt : ℕ → Username → HostState → Outcome
  login_prompt session name s =
      if fails by_username then refuse s storage else elim (get_by_username name s.users) [
        | none ↦ answer s login_failed
        | some u ↦
            if not (may_try u) then answer s login_failed else elim (get session s.sessions) [
              | none ↦ refuse s (unknown_session session)
              | some _ ↦
                  answer (modify_session session (set_workflow (login name 0)) s)
                    (prompt (codes "Enter the password for '" ++ (name.as_str ++ codes "':")) true)
            ]
      ]

  unfoldable pub handle_login : ℕ → Username → HostState → Outcome
  unfolding login_prompt
  handle_login session name s = elim (get session s.sessions) [
    | none ↦ login_prompt session name s
    | some r ↦ elim (busy r) [
      | some response ↦ answer s response
      | none ↦ login_prompt session name s
    ]
  ]

  unfoldable pub release_session : ℕ → HostState → HostState
  release_session session s = modify_session session (set_workflow idle) s

  unfoldable pub wrong_password : ℕ → Username → ℕ → HostState → Outcome
  unfolding release_session
  wrong_password session name attempts s =
      let (failures, _) = record_login_failure name.as_str clock s.login_failures in
      let s' = set_failures failures s in
      let new_attempts = attempts + 1 in
      if leb 3 new_attempts
      then answer (release_session session s')
          (error (codes "Too many failed attempts. Type 'login <username>' to try again."))
      else answer (modify_session session (set_workflow (login name new_attempts)) s') (
          prompt
            (codes "Incorrect password ("
              ++ (decimal (3 - new_attempts) ++ codes " attempt(s) remaining). Try again:"))
            true)

  -- The arm of `handle_workflow_reply` for a login that waits for its password, after the check
  -- for a command that escapes it.
  unfoldable pub login_reply : ℕ → Username → ℕ → Bytes → HostState → Outcome
  unfolding release_session wrong_password
  login_reply session name attempts reply s =
      if fails by_username then refuse s storage else elim (get_by_username name s.users) [
        | none ↦ answer (release_session session s) (error (codes "Account no longer exists."))
        | some u ↦
            if fails verify_call
            then refuse s storage
            else if verify u.id reply
            then login_banned false (release_session session) session name u s
            else wrong_password session name attempts s
      ]
