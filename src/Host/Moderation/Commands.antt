-- ===== src/Host/Moderation/Commands.antt =====
-- crates/bbs-core/src/host.rs: the commands on accounts, one by one, leave an active sysop.
use supply_drop_bbs.Prelude.{
  ℕ, ◌+◌, ◌*◌, ◌≡◌, inl, inr, Bool, false, ◌&&◌, some, Bytes, leb, nat_eq, list_eq, Bool-cases,
}
use supply_drop_bbs.Prelude.Map.{get, modify}
use supply_drop_bbs.Identity.{Username}
use supply_drop_bbs.Permissions.{PermissionLevel, unvalidated, user, aide, sysop}
use supply_drop_bbs.Host.Users.{
  User, active, banned, deleted, is_banned, is_deleted, below, same_level, get_by_username,
  set_status, set_level, set_suspended, set_unsuspended,
}
use supply_drop_bbs.Host.State.{
  HostState, DbCall, Outcome, with_sessions, end_sessions_of, raise_sessions_of, by_username, audit,
  update_row, clear_row, suspend_row,
}
use supply_drop_bbs.Host.Moderation.{
  handle_validate_user, set_level_end, handle_ban_user, handle_unban_user, handle_delete_user,
  handle_timeout_user, admin_suspend_user,
}
use supply_drop_bbs.Host.Moderation.Sysops.{is_active_sysop, HasSysop, Keeps, modify-HasSysop}
use supply_drop_bbs.Host.Moderation.Levels.{
  below_sysop, harmless, same_ids, unsuspend-IsSafe, level_id, suspend_id, unvalidated_none,
  banned_none, lower_left,
}
use supply_drop_bbs.Host.Moderation.Writes.{
  write-Keeps, write_found, with_actor-Keeps, with_target-Keeps,
}

module _ (fails : DbCall → Bool) where
  pub handle_validate_user-Keeps :
      (session : ℕ) (name : Username) (s : HostState)
      → HasSysop s.users
      → Keeps (handle_validate_user fails session name s)
  unfolding handle_validate_user raise_sessions_of with_sessions
  handle_validate_user-Keeps session name s h =
      with_actor-Keeps fails aide _ session s _
        (λ a s1 h1.
          with_target-Keeps fails name s1 _
            (λ u _ there. elim (Bool-cases (same_level u.permission_level unvalidated)) [
              | inr old ↦ rw old (record { kept = h1 })
              | inl fresh ↦ rw fresh (
                  write_found fails update_row u.id (set_level user) s1 _ u there
                    (modify-HasSysop u.id (set_level user) s1.users u there
                      (harmless (set_level user) u (λ w. level_id user w)
                        (unvalidated_none u fresh))
                      h1)
                    (λ s2 h2. record { kept = h2 }) h1)
            ])
            h1)
        h

  pub handle_ban_user-Keeps :
      (session : ℕ) (name : Username) (s : HostState)
      → HasSysop s.users
      → Keeps (handle_ban_user fails session name s)
  unfolding handle_ban_user end_sessions_of with_sessions
  handle_ban_user-Keeps session name s h =
      with_actor-Keeps fails aide _ session s _
        (λ a s1 h1.
          with_target-Keeps fails name s1 _
            (λ u _ there. elim (Bool-cases (is_banned u.status)) [
              | inl again ↦ rw again (record { kept = h1 })
              | inr first ↦ elim (Bool-cases (below u.permission_level a.level)) [
                | inr high ↦ rw (first, high) (record { kept = h1 })
                | inl lower ↦
                    rw (first, lower)
                      (write_found fails update_row u.id (set_status banned) s1 _ u there
                        (lower_left u a.level banned s1.users there lower h1)
                        (λ s2 h2.
                          write-Keeps fails clear_row u.id set_unsuspended s2 _
                            (λ w _. unsuspend-IsSafe w) (λ s3 h3. record { kept = h3 }) h2)
                        h1)
              ]
            ])
            h1)
        h

  pub handle_delete_user-Keeps :
      (session : ℕ) (name : Username) (s : HostState)
      → HasSysop s.users
      → Keeps (handle_delete_user fails session name s)
  unfolding handle_delete_user end_sessions_of with_sessions
  handle_delete_user-Keeps session name s h =
      with_actor-Keeps fails sysop _ session s _
        (λ a s1 h1.
          with_target-Keeps fails name s1 _
            (λ u _ there. elim (Bool-cases (is_deleted u.status)) [
              | inl again ↦ rw again (record { kept = h1 })
              | inr first ↦ elim (Bool-cases (below u.permission_level a.level)) [
                | inr high ↦ rw (first, high) (record { kept = h1 })
                | inl lower ↦
                    rw (first, lower)
                      (write_found fails update_row u.id (set_status deleted) s1 _ u there
                        (lower_left u a.level deleted s1.users there lower h1)
                        (λ s2 h2. record { kept = h2 }) h1)
              ]
            ])
            h1)
        h

  pub handle_unban_user-Keeps :
      (session : ℕ) (name : Username) (s : HostState)
      → HasSysop s.users
      → Keeps (handle_unban_user fails session name s)
  unfolding handle_unban_user
  handle_unban_user-Keeps session name s h =
      with_actor-Keeps fails sysop _ session s _
        (λ a s1 h1.
          with_target-Keeps fails name s1 _
            (λ u _ there. elim (Bool-cases (is_banned u.status)) [
              | inr free ↦ rw free (record { kept = h1 })
              | inl was ↦ rw was (
                  write_found fails update_row u.id (set_status active) s1 _ u there
                    (modify-HasSysop u.id (set_status active) s1.users u there
                      (harmless (set_status active) u (λ w. same_ids w active) (banned_none u was))
                      h1)
                    (λ s2 h2.
                      write-Keeps fails clear_row u.id set_unsuspended s2 _
                        (λ w _. unsuspend-IsSafe w) (λ s3 h3. record { kept = h3 }) h2)
                    h1)
            ])
            h1)
        h

  admin_suspend_user-Keeps :
      (now : ℕ) (name : Username) (days : ℕ) (s : HostState) (next : HostState → Outcome) (u : User)
      → get_by_username name s.users ≡ some u
      → get u.id s.users ≡ some u
      → ((id : ℕ) → is_active_sysop id u ≡ false)
      → ((s' : HostState) → HasSysop s'.users → Keeps (next s'))
      → HasSysop s.users
      → Keeps (admin_suspend_user fails now name days s next)
  unfolding admin_suspend_user end_sessions_of with_sessions
  admin_suspend_user-Keeps now name days s next u named there no_sysop after h =
      elim (Bool-cases (leb 1 days && leb days 5)) [
        | inr long ↦ rw (long, admin_suspend_user) (record { kept = h })
        | inl short ↦ elim (Bool-cases (fails by_username)) [
          | inl failed ↦ rw (short, failed, admin_suspend_user) (record { kept = h })
          | inr works ↦
              rw (short, works, named, admin_suspend_user)
                (write_found fails suspend_row u.id (set_suspended (now + days * 86400)) s _ u there
                  (modify-HasSysop u.id (set_suspended (now + days * 86400)) s.users u there
                    (harmless (set_suspended (now + days * 86400)) u (λ w. suspend_id _ w) no_sysop)
                    h)
                  (λ s1 h1. after (end_sessions_of name s1) h1) h)
        ]
      ]

  pub handle_timeout_user-Keeps :
      (decimal : ℕ → Bytes) (now session : ℕ) (name : Username) (days : ℕ) (s : HostState)
      → HasSysop s.users
      → Keeps (handle_timeout_user fails decimal now session name days s)
  unfolding handle_timeout_user
  handle_timeout_user-Keeps decimal now session name days s h =
      with_actor-Keeps fails aide _ session s _
        (λ a s1 h1.
          with_target-Keeps fails name s1 _
            (λ u named there. elim (Bool-cases (is_banned u.status)) [
              | inl again ↦ rw again (record { kept = h1 })
              | inr first ↦ elim (Bool-cases (below u.permission_level a.level)) [
                | inr high ↦ rw (first, high) (record { kept = h1 })
                | inl lower ↦
                    rw (first, lower)
                      (admin_suspend_user-Keeps now name days s1 _ u named there
                        (below_sysop u a.level lower) (λ s2 h2. record { kept = h2 }) h1)
              ]
            ])
            h1)
        h

  pub set_level_end-Keeps :
      (name : Username) (level : PermissionLevel) (u : User) (s : HostState)
      → get u.id s.users ≡ some u
      → HasSysop (modify u.id (set_level level) s.users)
      → HasSysop s.users
      → Keeps (set_level_end fails name level u s)
  unfolding set_level_end end_sessions_of raise_sessions_of with_sessions
  set_level_end-Keeps name level u s there left h =
      write_found fails update_row u.id (set_level level) s _ u there left
        (λ s1 h1. elim (Bool-cases (below level u.permission_level)) [
          | inl lowered ↦ elim (Bool-cases (fails audit)) [
            | inl failed ↦ rw (lowered, failed) (record { kept = h1 })
            | inr works ↦ rw (lowered, works) (record { kept = h1 })
          ]
          | inr raised ↦ elim (Bool-cases (fails audit)) [
            | inl failed ↦ rw (raised, failed) (record { kept = h1 })
            | inr works ↦ rw (raised, works) (record { kept = h1 })
          ]
        ])
        h
