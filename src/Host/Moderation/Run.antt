-- ===== src/Host/Moderation/Run.antt =====
-- crates/bbs-core/src/host.rs: commands on accounts in a row.
use supply_drop_bbs.Prelude.{ℕ, inl, inr, Bool, ◌&&◌, List, [], ◌∷◌, Bytes, Bool-cases}
use supply_drop_bbs.Identity.{Username}
use supply_drop_bbs.Permissions.{PermissionLevel, unvalidated, sysop}
use supply_drop_bbs.Host.Users.{is_active, below, same_level, same_user}
use supply_drop_bbs.Host.State.{HostState, DbCall, list_rows, Outcome}
use supply_drop_bbs.Host.Moderation.{
  takes_last_sysop, handle_validate_user, handle_set_user_level, handle_ban_user, handle_unban_user,
  handle_delete_user, handle_timeout_user,
}
use supply_drop_bbs.Host.Moderation.Sysops.{HasSysop, Keeps}
use supply_drop_bbs.Host.Moderation.Commands.{
  handle_validate_user-Keeps, handle_ban_user-Keeps, handle_delete_user-Keeps,
  handle_unban_user-Keeps, handle_timeout_user-Keeps, set_level_end-Keeps,
}
use supply_drop_bbs.Host.Moderation.Levels.{level_left}
use supply_drop_bbs.Host.Moderation.Writes.{with_actor-Keeps, with_target-Keeps}

handle_set_user_level-Keeps :
    (fails : DbCall → Bool) (session : ℕ) (name : Username) (level : PermissionLevel)
    (s : HostState)
    → HasSysop s.users
    → Keeps (handle_set_user_level fails session name level s)
unfolding handle_set_user_level
handle_set_user_level-Keeps fails session name level s h =
    with_actor-Keeps fails sysop _ session s _
      (λ a s1 h1. elim (Bool-cases (same_user a.username name)) [
        | inl self ↦ rw self (record { kept = h1 })
        | inr other ↦ rw other (
            with_target-Keeps fails name s1 _
              (λ u _ there. elim (Bool-cases (is_active u.status)) [
                | inr off ↦ rw off (record { kept = h1 })
                | inl on ↦ elim (Bool-cases (same_level u.permission_level unvalidated)) [
                  | inl new ↦ rw (on, new) (record { kept = h1 })
                  | inr known ↦ elim (Bool-cases (same_level u.permission_level level)) [
                    | inl same ↦ rw (on, known, same) (record { kept = h1 })
                    | inr differs ↦
                        elim (Bool-cases (
                          same_level u.permission_level sysop
                          && below level sysop
                          && fails list_rows)) [
                            | inl failed ↦ rw (on, known, differs, failed) (record { kept = h1 })
                            | inr listed ↦ elim (Bool-cases (takes_last_sysop level u s1.users)) [
                              | inl last ↦
                                  rw (on, known, differs, listed, last) (record { kept = h1 })
                              | inr more ↦
                                  rw (on, known, differs, listed, more)
                                    (set_level_end-Keeps fails name level u s1 there
                                      (level_left level u s1.users there differs more h1) h1)
                            ]
                          ]
                  ]
                ]
              ])
              h1)
      ])
      h

-- A command on an account, with the session it comes from.
pub data Command : Type 0 where
  validate : ℕ → Username → Command
  set_user_level : ℕ → Username → PermissionLevel → Command
  ban : ℕ → Username → Command
  unban : ℕ → Username → Command
  delete : ℕ → Username → Command
  timeout : ℕ → Username → ℕ → Command

module _ (decimal : ℕ → Bytes) where
  unfoldable pub handle : (DbCall → Bool) → ℕ → Command → HostState → Outcome
  handle fails now (validate session name) s = handle_validate_user fails session name s
  handle fails now (set_user_level session name level) s =
      handle_set_user_level fails session name level s
  handle fails now (ban session name) s = handle_ban_user fails session name s
  handle fails now (unban session name) s = handle_unban_user fails session name s
  handle fails now (delete session name) s = handle_delete_user fails session name s
  handle fails now (timeout session name days) s =
      handle_timeout_user fails decimal now session name days s

  -- Commands in a row, each with the database's failures and the time it meets.
  unfoldable pub run : List ((DbCall → Bool) × ℕ × Command) → HostState → HostState
  run [] s = s
  run ((fails, now, c) ∷ cs) s = run cs (handle fails now c s).0

  handle-Keeps :
      (fails : DbCall → Bool) (now : ℕ) (c : Command) (s : HostState)
      → HasSysop s.users
      → Keeps (handle fails now c s)
  unfolding handle
  handle-Keeps fails now (validate session name) s h =
      handle_validate_user-Keeps fails session name s h
  handle-Keeps fails now (set_user_level session name level) s h =
      handle_set_user_level-Keeps fails session name level s h
  handle-Keeps fails now (ban session name) s h = handle_ban_user-Keeps fails session name s h
  handle-Keeps fails now (unban session name) s h = handle_unban_user-Keeps fails session name s h
  handle-Keeps fails now (delete session name) s h = handle_delete_user-Keeps fails session name s h
  handle-Keeps fails now (timeout session name days) s h =
      handle_timeout_user-Keeps fails decimal now session name days s h

  -- Where every row of the accounts stands under its own id, no id twice, and one is of an active
  -- sysop, this stays so through every run of the commands that validate, change a level, ban,
  -- reactivate, delete and suspend, whichever statements of the database fail on the way: the board
  -- is never left without an active sysop.
  pub run-HasSysop :
      (cs : List ((DbCall → Bool) × ℕ × Command)) (s : HostState)
      → HasSysop s.users
      → HasSysop (run cs s).users
  unfolding run
  run-HasSysop [] s h = h
  run-HasSysop ((fails, now, c) ∷ cs) s h =
      run-HasSysop cs (handle fails now c s).0 (handle-Keeps fails now c s h).kept
