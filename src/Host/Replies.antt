-- ===== src/Host/Replies.antt =====
-- crates/bbs-core/src/host.rs: a reply inside a workflow, and leaving one. The arms of the workflows of
-- a user who is logged in are a parameter.
pub mod Created
pub mod Registers
pub mod Attempts
pub mod Finite
mod Tests
use supply_drop_bbs.Prelude.{
  ℕ, Bool, true, false, Option, none, some, List, [], ◌∷◌, Bytes, codes, ◌==◌, nat_eq, list_eq,
  if◌then◌else◌, Result, ok, err,
}
use supply_drop_bbs.Prelude.Map.{get}
use supply_drop_bbs.Text.{trim, break_on, is_whitespace, to_ascii_lowercase, is_empty}
use supply_drop_bbs.Identity.{Username, InvalidUsername, new_username}
use supply_drop_bbs.Response.{Response, error, text}
use supply_drop_bbs.Host.Users.{Users}
use supply_drop_bbs.Host.State.{
  HostState, HostError, unknown_session, DbCall, Outcome, answer, refuse, SessionRecord, Workflow,
  idle, register, login, RegisterStage, compose, edit_profile, change_password,
  force_change_password, reading, rooms, review_pending, is_idle, modify_session, set_workflow,
}
use supply_drop_bbs.Host.Login.{handle_login, handle_login_oneshot, login_reply}
use supply_drop_bbs.Host.Register.{
  handle_register, handle_register_oneshot, register_password, register_confirm,
}

pub data AuthEscape : Type 0 where
  to_register : Bytes → Option Bytes → AuthEscape
  to_login : Username → Option Bytes → AuthEscape

-- `split_once(char::is_whitespace)`: the separator is dropped.
unfoldable pub split_once : Bytes → Option (Bytes × Bytes)
split_once s =
    let (word, rest) = break_on is_whitespace s in
    elim rest [ [] ↦ none | _ ∷ after ↦ some (word, after) ]

-- The name and, where one follows, the password.
unfoldable pub name_and_password : Bytes → Bytes × Option Bytes
name_and_password rest = elim (split_once rest) [
  | none ↦ (rest, none)
  | some (n, p) ↦ (n, if is_empty (trim p) then none else some (trim p))
]

unfoldable pub escape_by : Bytes → Bytes → Option AuthEscape
escape_by word rest =
    if is_empty rest
    then none
    else (let (name, given) = name_and_password rest in
        if to_ascii_lowercase word == codes "register"
        then some (to_register name given)
        else if to_ascii_lowercase word == codes "login"
        then elim (new_username name) [ err _ ↦ none | ok u ↦ some (to_login u given) ]
        else none)

unfoldable pub auth_escape : Bytes → Option AuthEscape
auth_escape reply = elim (split_once (trim reply)) [
  | none ↦ escape_by (trim reply) []
  | some (word, rest) ↦ escape_by word (trim rest)
]

unfoldable pub handle_cancel : ℕ → HostState → Outcome
handle_cancel session s = elim (get session s.sessions) [
  | none ↦ answer s (text (codes "Cancelled."))
  | some r ↦
      if is_idle r.workflow
      then answer s (text (codes "No active workflow."))
      else answer (modify_session session (set_workflow idle) s) (text (codes "Cancelled."))
]

-- The workflows before the login, in which a command may be sent again.
unfoldable pub is_pre_auth : Workflow → Bool
is_pre_auth (register _ _) = true
is_pre_auth (login _ _) = true
is_pre_auth _ = false

module _ (fails : DbCall → Bool) (verify : ℕ → Bytes → Bool) (must_change : ℕ → Bool)
    (decimal : ℕ → Bytes) (now clock : ℕ) (explain : InvalidUsername → Bytes) (new_id : Users → ℕ)
    (phc_of : Bytes → Bytes) (others : Workflow → ℕ → Bytes → HostState → Outcome) where
  unfoldable pub restart : ℕ → AuthEscape → HostState → Outcome
  restart session (to_register name none) s =
      handle_register fails explain new_id phc_of now session name s
  restart session (to_register name (some given)) s =
      handle_register_oneshot fails explain new_id phc_of now session name given s
  restart session (to_login name none) s =
      handle_login fails verify must_change decimal now clock session name s
  restart session (to_login name (some given)) s =
      handle_login_oneshot fails verify must_change decimal now clock session name given s

  unfoldable pub workflow_arm : Workflow → ℕ → Bytes → HostState → Outcome
  workflow_arm idle session reply s = answer s (error (codes "No active workflow. Type 'H'."))
  workflow_arm (register name RegisterStage.password) session reply s =
      register_password fails explain new_id phc_of now session name reply s
  workflow_arm (register name (RegisterStage.confirm chosen)) session reply s =
      register_confirm fails explain new_id phc_of now session name chosen reply s
  workflow_arm (login name attempts) session reply s =
      login_reply fails verify must_change decimal now clock session name attempts reply s
  workflow_arm w session reply s = others w session reply s

  unfoldable pub handle_workflow_reply : ℕ → Bytes → HostState → Outcome
  handle_workflow_reply session reply s = elim (get session s.sessions) [
    | none ↦ refuse s (unknown_session session)
    | some r ↦
        if is_pre_auth r.workflow
        then elim (auth_escape reply) [
          | some escape ↦ restart session escape (modify_session session (set_workflow idle) s)
          | none ↦ workflow_arm r.workflow session reply s
        ]
        else workflow_arm r.workflow session reply s
  ]
