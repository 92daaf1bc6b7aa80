-- ===== src/Host/Admin.antt =====
-- crates/bbs-core/src/host.rs: the changes of an account that the web administration asks for. The name
-- comes as it was typed; `admin_suspend_user` of Host/Moderation is the same with a name in its
-- stored form.
use supply_drop_bbs.Prelude.{
  ℕ, Bool, true, false, not, ◌&&◌, Option, none, some, Bytes, codes, ◌++◌, ◌==◌, nat_eq, list_eq,
  if◌then◌else◌, is_some, is_some_and, Result, ok, err,
}
use supply_drop_bbs.Prelude.Map.{retain}
use supply_drop_bbs.Identity.{new_username}
use supply_drop_bbs.Permissions.{PermissionLevel, unvalidated, user, aide, sysop}
use supply_drop_bbs.Host.Users.{
  User, UserStatus, active, banned, deleted, status_text, is_active, below, same_level,
  get_by_username, update, set_unsuspended,
}
use supply_drop_bbs.Host.State.{
  HostState, HostError, not_found, precondition_failed, storage, DbCall, by_username, update_row,
  clear_row, list_rows, SessionRecord, with_users, with_sessions, level_sessions,
}
use supply_drop_bbs.Host.Moderation.{takes_last_sysop}

abbrev pub Done : Type 0
Done = HostState × Result HostError Unit

-- The numbers of the request: `none` where the number is unknown.
unfoldable pub status_of : ℕ → Option UserStatus
status_of n =
    if n == 0
    then some active
    else if n == 1
    then some banned
    else if n == 2
    then some deleted
    else none

unfoldable pub level_of : ℕ → Option PermissionLevel
level_of n =
    if n == 0
    then some unvalidated
    else if n == 10
    then some user
    else if n == 50
    then some aide
    else if n == 100
    then some sysop
    else none

-- A number that may be absent, read: an error where it is unknown.
unfoldable pub read_number {κ} :
    {T : Type κ} → (ℕ → Option T) → (ℕ → Bytes) → Option ℕ → Result HostError (Option T)
read_number of what none = ok none
read_number of what (some n) = elim (of n) [
  | none ↦ err (precondition_failed (what n))
  | some x ↦ ok (some x)
]

-- A session whose name is the text that was typed.
unfoldable pub is_named : Bytes → SessionRecord → Bool
is_named raw r = is_some_and r.username (λ u. u.as_str == raw)

unfoldable pub end_sessions_named : Bytes → HostState → HostState
end_sessions_named raw s = with_sessions (retain (λ _ r. not (is_named raw r)) s.sessions) s

unfoldable pub or_else {κ} : {T : Type κ} → Option T → T → T
or_else none x = x
or_else (some y) x = y

-- One `update` of both columns.
unfoldable pub set_both : Option UserStatus → Option PermissionLevel → User → User
set_both status level u = record u {
  status = or_else status u.status;
  permission_level = or_else level u.permission_level;
}

unfoldable pub is_ended : Option UserStatus → Bool
is_ended none = false
is_ended (some active) = false
is_ended (some banned) = true
is_ended (some deleted) = true

module _ (fails : DbCall → Bool) where
  -- What follows the write: the sessions of a barred account end, and the others get the level.
  unfoldable pub admin_reflect :
      Bytes → Option UserStatus → Option PermissionLevel → HostState → HostState
  admin_reflect raw status level s =
      let s1 = if is_ended status then end_sessions_named raw s else s in
      elim level [
        | none ↦ s1
        | some l ↦ with_sessions (level_sessions (is_named raw) l s1.sessions) s1
      ]

  unfoldable pub admin_write :
      Bytes → User → Option UserStatus → Option PermissionLevel → HostState → Done
  admin_write raw u status level s =
      if fails update_row
      then (s, err storage)
      else elim (update u.id (set_both status level) s.users) [
        | none ↦ (s, err storage)
        | some users ↦
            let s1 = with_users users s in
            if not (is_some status)
            then (admin_reflect raw status level s1, ok tt)
            else if fails clear_row
            then (s1, err storage)
            else elim (update u.id set_unsuspended s1.users) [
              | none ↦ (s1, err storage)
              | some users' ↦ (admin_reflect raw status level (with_users users' s1), ok tt)
            ]
      ]

  -- The guards on a change of level.
  unfoldable pub admin_guard :
      User → Option UserStatus → Option PermissionLevel → HostState → Option HostError
  admin_guard u status none s = none
  admin_guard u status (some level) s =
      let effective = or_else status u.status in
      if not (is_active effective)
      then some (
          precondition_failed (
            codes "cannot change permission level of a "
            ++ (status_text effective ++ codes " account; re-activate it first")))
      else if same_level u.permission_level sysop && below level sysop && fails list_rows
      then some storage
      else if takes_last_sysop level u s.users
      then some (
          precondition_failed
            (codes "cannot demote the last active Sysop; promote another Sysop first"))
      else none

  unfoldable pub admin_update_user : (ℕ → Bytes) → Bytes → Option ℕ → Option ℕ → HostState → Done
  admin_update_user decimal raw status permission_level s = elim (new_username raw) [
    | err _ ↦ (s, err (not_found raw))
    | ok name ↦
        if fails by_username then (s, err storage) else elim (get_by_username name s.users) [
          | none ↦ (s, err (not_found raw))
          | some u ↦
              elim (read_number status_of (λ n. codes "unknown status " ++ decimal n) status) [
                | err e ↦ (s, err e)
                | ok new_status ↦
                    elim (read_number level_of (λ n. codes "unknown permission_level " ++ decimal n)
                      permission_level) [
                        | err e ↦ (s, err e)
                        | ok new_level ↦ elim (admin_guard u new_status new_level s) [
                          | some e ↦ (s, err e)
                          | none ↦ admin_write raw u new_status new_level s
                        ]
                      ]
              ]
        ]
  ]
