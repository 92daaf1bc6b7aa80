-- ===== src/Host/Moderation.antt =====
-- crates/bbs-core/src/host.rs: the commands that validate, promote, demote, ban, suspend, reactivate and
-- delete an account. The audit log is another table; only its failure shows here.
pub mod Sysops
pub mod Levels
pub mod Writes
pub mod Commands
pub mod Run
use supply_drop_bbs.Prelude.{
  ℕ, ◌+◌, ◌*◌, ◌≤◌, Bool, true, false, not, ◌&&◌, Option, none, some, List, [], ◌∷◌, Bytes, codes,
  ◌++◌, ltb, leb, ◌==◌, nat_eq, list_eq, if◌then◌else◌, is_some, length, Result, ok, err,
}
use supply_drop_bbs.Identity.{Username}
use supply_drop_bbs.Permissions.{PermissionLevel, unvalidated, user, aide, sysop}
use supply_drop_bbs.Response.{Response, error, text}
use supply_drop_bbs.Host.Users.{
  User, Users, UserStatus, active, banned, deleted, status_text, is_active, is_banned, is_deleted,
  level_text, below, same_level, same_user, get_by_username, list_active, update, set_status,
  set_level, set_suspended, set_unsuspended,
}
use supply_drop_bbs.Host.State.{
  HostState, HostError, not_found, precondition_failed, storage, DbCall, by_username, update_row,
  clear_row, suspend_row, list_rows, audit, Outcome, answer, refuse, with_users, end_sessions_of,
  raise_sessions_of, Auth, session_auth_user,
}

-- The sysops among rows.
unfoldable pub count_sysops : List User → ℕ
count_sysops [] = 0
count_sysops (u ∷ us) =
    let rest = count_sysops us in if same_level u.permission_level sysop then rest + 1 else rest

abbrev pub quoted : Username → Bytes → Bytes
quoted name rest = codes "'" ++ (name.as_str ++ (codes "'" ++ rest))

-- Whether a change of level takes the last of the active sysops away.
unfoldable pub takes_last_sysop : PermissionLevel → User → Users → Bool
takes_last_sysop level u users =
    same_level u.permission_level sysop
    && below level sysop
    && leb (count_sysops (list_active 500 users)) 1

module _ (fails : DbCall → Bool) where
  -- A statement that writes one row, and what follows it.
  unfoldable pub write : DbCall → ℕ → (User → User) → HostState → (HostState → Outcome) → Outcome
  write c id change s next = if fails c then refuse s storage else elim (update id change s.users) [
    | none ↦ refuse s storage
    | some users ↦ next (with_users users s)
  ]

  -- The common start: the actor, who must have the level, and then the account that is named.
  unfoldable pub with_actor :
      PermissionLevel → Bytes → ℕ → HostState → (Auth → HostState → Outcome) → Outcome
  with_actor required refusal session s next =
      let (s', actor) = session_auth_user fails session s in
      elim actor [
        | err r ↦ answer s' r
        | ok a ↦ if below a.level required then answer s' (error refusal) else next a s'
      ]

  unfoldable pub with_target : Username → HostState → (User → Outcome) → Outcome
  with_target name s next =
      if fails by_username then refuse s storage else elim (get_by_username name s.users) [
        | none ↦ answer s (error (codes "User not found."))
        | some u ↦ next u
      ]

  abbrev aide_required : Bytes
  aide_required = codes "Aide access required."

  abbrev sysop_required : Bytes
  sysop_required = codes "Sysop access required."

  unfoldable pub handle_validate_user : ℕ → Username → HostState → Outcome
  handle_validate_user session name s = with_actor aide aide_required session s (λ a s1.
      with_target name s1 (λ u.
        if not (same_level u.permission_level unvalidated)
        then answer s1 (
            error (
              quoted name (
                codes " is already "
                ++ (level_text u.permission_level ++ codes " — not pending validation."))))
        else write update_row u.id (set_level user) s1 (λ s2.
          answer (raise_sessions_of name user s2)
            (text (quoted name (codes " validated — account is now active."))))))

  unfoldable pub set_level_end : Username → PermissionLevel → User → HostState → Outcome
  set_level_end name level u s = write update_row u.id (set_level level) s (λ s1.
      let s2 =
        if below level u.permission_level
        then end_sessions_of name s1
        else raise_sessions_of name level s1 in
      if fails audit
      then refuse s2 storage
      else answer s2 (text (quoted name (codes " is now " ++ (level_text level ++ codes ".")))))

  unfoldable pub handle_set_user_level : ℕ → Username → PermissionLevel → HostState → Outcome
  unfolding set_level_end
  handle_set_user_level session name level s = with_actor sysop sysop_required session s (λ a s1.
      if same_user a.username name
      then answer s1 (error (codes "You can't change your own level."))
      else with_target name s1 (λ u.
        if not (is_active u.status)
        then answer s1 (
            error (
              quoted name (
                codes " is "
                ++ (status_text u.status
                    ++ codes " — re-activate the account before changing its level."))))
        else if same_level u.permission_level unvalidated
        then answer s1 (
            error (
              quoted name
                (codes " isn't validated yet — use V " ++ (name.as_str ++ codes " first."))))
        else if same_level u.permission_level level
        then answer s1
            (error (quoted name (codes " is already " ++ (level_text level ++ codes "."))))
        else if same_level u.permission_level sysop && below level sysop && fails list_rows
        then refuse s1 storage
        else if takes_last_sysop level u s1.users
        then answer s1 (error (codes "Can't demote the last Sysop — promote another Sysop first."))
        else set_level_end name level u s1))

  unfoldable pub handle_ban_user : ℕ → Username → HostState → Outcome
  handle_ban_user session name s = with_actor aide aide_required session s (λ a s1.
      with_target name s1 (λ u.
        if is_banned u.status
        then answer s1 (error (quoted name (codes " is already banned.")))
        else if not (below u.permission_level a.level)
        then answer s1 (
            error
              (codes "Cannot ban " ++ quoted name (codes " — equal or higher permission tier.")))
        else write update_row u.id (set_status banned) s1 (λ s2.
          write clear_row u.id set_unsuspended s2 (λ s3.
            answer (end_sessions_of name s3) (text (quoted name (codes " has been banned.")))))))

  unfoldable pub handle_unban_user : ℕ → Username → HostState → Outcome
  handle_unban_user session name s = with_actor sysop sysop_required session s (λ a s1.
      with_target name s1 (λ u.
        if not (is_banned u.status)
        then answer s1 (error (quoted name (codes " is not currently banned.")))
        else write update_row u.id (set_status active) s1 (λ s2.
          write clear_row u.id set_unsuspended s2
            (λ s3. answer s3 (text (quoted name (codes " has been unbanned.")))))))

  unfoldable pub handle_delete_user : ℕ → Username → HostState → Outcome
  handle_delete_user session name s = with_actor sysop sysop_required session s (λ a s1.
      with_target name s1 (λ u.
        if is_deleted u.status
        then answer s1 (error (quoted name (codes " is already deleted.")))
        else if not (below u.permission_level a.level)
        then answer s1 (
            error
              (codes "Cannot delete " ++ quoted name (codes " — equal or higher permission tier.")))
        else write update_row u.id (set_status deleted) s1 (λ s2.
          answer (end_sessions_of name s2) (text (quoted name (codes " has been deleted."))))))

  -- `admin_suspend_user` with the name of an account that was found before: one day has 86400 s.
  unfoldable pub admin_suspend_user : ℕ → Username → ℕ → HostState → (HostState → Outcome) → Outcome
  admin_suspend_user now name days s next =
      if not (leb 1 days && leb days 5)
      then refuse s (precondition_failed (codes "suspension length must be 1-5 days"))
      else if fails by_username
      then refuse s storage
      else elim (get_by_username name s.users) [
        | none ↦ refuse s (not_found name.as_str)
        | some u ↦
            write suspend_row u.id (set_suspended (now + days * 86400)) s
              (λ s1. next (end_sessions_of name s1))
      ]

  unfoldable pub handle_timeout_user : (ℕ → Bytes) → ℕ → ℕ → Username → ℕ → HostState → Outcome
  handle_timeout_user decimal now session name days s =
      with_actor aide aide_required session s (λ a s1. with_target name s1 (λ u.
        if is_banned u.status
        then answer s1 (
            error (
              quoted name (
                if is_some u.suspended_until
                then codes " is already suspended."
                else codes
                    " is already permanently banned — UNBAN first to replace with a timeout.")))
        else if not (below u.permission_level a.level)
        then answer s1 (
            error (
              codes "Cannot suspend " ++ quoted name (codes " — equal or higher permission tier.")))
        else admin_suspend_user now name days s1 (λ s2. answer s2 (
            text (
              quoted name
                (codes " has been suspended for " ++ (decimal days ++ codes " day(s).")))))))
