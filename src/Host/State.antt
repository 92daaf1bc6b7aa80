-- ===== src/Host/State.antt =====
-- crates/bbs-core/src/host.rs: sessions, their workflows, and what every handler asks first. A handler
-- runs to its end before another starts.
use supply_drop_bbs.Prelude.{
  ℕ, ◌+◌, Bool, true, false, not, Option, none, some, List, [], ◌∷◌, Bytes, codes, nat_eq, list_eq,
  if◌then◌else◌, is_some_and, Result, ok, err,
}
use supply_drop_bbs.Prelude.Map.{Map, get, insert, remove, modify, retain}
use supply_drop_bbs.Identity.{Username}
use supply_drop_bbs.Permissions.{PermissionLevel, unvalidated, user}
use supply_drop_bbs.Response.{Response, error, text}
use supply_drop_bbs.Host.Users.{Users, get_by_id, below, same_level, same_user}

pub data RegisterStage : Type 0 where
  password : RegisterStage
  confirm : Bytes → RegisterStage

pub data ChangePwdStage : Type 0 where
  verify_old : ℕ → ChangePwdStage
  enter_new : ChangePwdStage
  confirm_new : Bytes → ChangePwdStage

pub data ForcePwdStage : Type 0 where
  enter_new : ForcePwdStage
  confirm_new : Bytes → ForcePwdStage

pub data ComposeStage : Type 0 where
  awaiting_recipient : ComposeStage
  awaiting_body : Option Username → ComposeStage
  awaiting_confirmation : Option Username → Bytes → ComposeStage

pub data Workflow : Type 0 where
  idle : Workflow
  register : Username → RegisterStage → Workflow
  login : Username → ℕ → Workflow
  compose : ℕ → ComposeStage → Workflow
  edit_profile : Workflow
  change_password : ChangePwdStage → Workflow
  force_change_password : Username → ℕ → ForcePwdStage → Workflow
  reading : Workflow
  rooms : List ℕ → Option ℕ → Workflow
  review_pending : List Username → ℕ → Workflow

-- `matches!(workflow, Workflow::None)`.
unfoldable pub is_idle : Workflow → Bool
is_idle idle = true
is_idle _ = false

pub record SessionRecord : Type 0 where
  pub transport : Bytes
  pub username : Option Username
  pub user_id : Option ℕ
  pub level : PermissionLevel
  pub workflow : Workflow
  pub current_room : ℕ
  pub current_message_id : Option ℕ
  pub last_post_confirmation : Option Bytes

abbrev pub lobby_room_id : ℕ
lobby_room_id = 1

abbrev pub Sessions : Type 0
Sessions = Map ℕ SessionRecord

-- What the handlers share: the sessions, the tables of accounts and of credentials (the hash of a
-- password and when it was set), the failed logins with their times, and the access policy. The check
-- of a password against its credentials, and what it may rehash, is a parameter of the handlers.
pub record HostState : Type 0 where
  pub sessions : Sessions
  pub next_id : ℕ
  pub users : Users
  pub credentials : Map ℕ (Bytes × ℕ)
  pub login_failures : Map Bytes (ℕ × ℕ)
  pub require_verify : Bool
  pub guest_room_id : Option ℕ

pub data HostError : Type 0 where
  unknown_session : ℕ → HostError
  not_found : Bytes → HostError
  precondition_failed : Bytes → HostError
  storage : HostError

-- The calls of the database that a handler makes; which of them fail is the database's.
pub data DbCall : Type 0 where
  by_username by_id reread update_row clear_row suspend_row end_expired list_rows : DbCall
  verify_call must_change_call audit list_first insert_row set_password_call : DbCall

abbrev pub Outcome : Type 0
Outcome = HostState × Result HostError Response

abbrev pub answer : HostState → Response → Outcome
answer s r = (s, ok r)

abbrev pub refuse : HostState → HostError → Outcome
refuse s e = (s, err e)

unfoldable pub with_sessions : Sessions → HostState → HostState
with_sessions sessions s = record s { sessions = sessions }

unfoldable pub with_users : Users → HostState → HostState
with_users users s = record s { users = users }

unfoldable pub modify_session : ℕ → (SessionRecord → SessionRecord) → HostState → HostState
modify_session id f s = with_sessions (modify id f s.sessions) s

unfoldable pub set_workflow : Workflow → SessionRecord → SessionRecord
set_workflow w r = record r { workflow = w }

unfoldable pub set_session_level : PermissionLevel → SessionRecord → SessionRecord
set_session_level level r = record r { level = level }

unfoldable pub fresh_session : Bytes → SessionRecord
fresh_session transport = record {
  transport = transport;
  username = none;
  user_id = none;
  level = unvalidated;
  workflow = idle;
  current_room = lobby_room_id;
  current_message_id = none;
  last_post_confirmation = none;
}

unfoldable pub create_session : Bytes → HostState → HostState × ℕ
create_session transport s = (
  record s {
    sessions = insert s.next_id (fresh_session transport) s.sessions;
    next_id = s.next_id + 1;
  },
  s.next_id,
)

unfoldable pub end_session : ℕ → HostState → HostState
end_session id s = with_sessions (remove id s.sessions) s

-- Whether a session is one of the user's.
unfoldable pub is_of : Username → SessionRecord → Bool
is_of name r = is_some_and r.username (λ u. same_user u name)

-- The loops that end the sessions of a user, and that set their level.
unfoldable pub end_sessions_of : Username → HostState → HostState
end_sessions_of name s = with_sessions (retain (λ _ r. not (is_of name r)) s.sessions) s

unfoldable pub level_sessions : (SessionRecord → Bool) → PermissionLevel → Sessions → Sessions
level_sessions p level [] = []
level_sessions p level ((id, r) ∷ m) =
    (id, if p r then set_session_level level r else r) ∷ level_sessions p level m

unfoldable pub raise_sessions_of : Username → PermissionLevel → HostState → HostState
raise_sessions_of name level s = with_sessions (level_sessions (is_of name) level s.sessions) s

-- The name, the id, the level and the room of a session's user.
pub record Auth : Type 0 where
  pub username : Username
  pub user_id : ℕ
  pub level : PermissionLevel
  pub room_id : ℕ

unfoldable pub session_auth : ℕ → HostState → Result Response Auth
session_auth session s = elim (get session s.sessions) [
  | none ↦ err (error (codes "Unknown session."))
  | some r ↦ elim r.username [
    | none ↦ err (error (codes "Not logged in. Use 'login <username>' or 'register <username>'."))
    | some u ↦ elim r.user_id [
      | none ↦ err (error (codes "Not logged in. Use 'login <username>' or 'register <username>'."))
      | some id ↦
          ok (record { username = u; user_id = id; level = r.level; room_id = r.current_room })
    ]
  ]
]

-- The level that the account has now; the session's where the account cannot be read.
unfoldable pub current_level : (DbCall → Bool) → Auth → Users → PermissionLevel
current_level fails a users =
    if fails by_id
    then a.level
    else elim (get_by_id a.user_id users) [ none ↦ a.level | some u ↦ u.permission_level ]

unfoldable pub refresh_level : ℕ → PermissionLevel → PermissionLevel → HostState → HostState
refresh_level session level cached s =
    if same_level level cached then s else modify_session session (set_session_level level) s

unfoldable pub session_auth_user :
    (DbCall → Bool) → ℕ → HostState → HostState × Result Response Auth
session_auth_user fails session s = elim (session_auth session s) [
  | err r ↦ (s, err r)
  | ok a ↦
      let level = current_level fails a s.users in
      let s' = refresh_level session level a.level s in
      if not (below level user)
      then (s', ok (record a { level = level }))
      else if not s.require_verify
      then (modify_session session (set_session_level user) s', ok (record a { level = user }))
      else (
        s',
        err (
            text (
              codes
                "Your account is pending validation by an aide.\nType H for help, WHOAMI to see your status, or Q to log out.")),
      )
]
