-- ===== src/Host/Tests.antt =====
-- crates/bbs-core/src/host.rs: runs of the handlers on concrete inputs.
use supply_drop_bbs.Prelude.{
  length, ℕ, ◌-◌, ◌≤◌, ◌≡◌, refl, ◌⊎◌, inl, true, false, none, some, [], ◌∷◌, codes, nat_eq,
  list_eq, arith, ltb, length, ok, if◌then◌else◌,
}
use supply_drop_bbs.Prelude.Map.{get, remove, modify, retain, IsMap}
use supply_drop_bbs.Identity.{
  new_username, validate, validate_chars, normalise, first_disallowed, is_bracket,
}
use supply_drop_bbs.Text.{to_ascii_lowercase, is_control, is_whitespace}
use supply_drop_bbs.Permissions.{user, sysop, rank}
use supply_drop_bbs.Response.{Response, logged_in}
use supply_drop_bbs.Host.Admin.{
  admin_update_user, admin_guard, admin_write, admin_reflect, read_number, status_of, level_of,
  is_ended, end_sessions_named, is_named, set_both, or_else,
}
use supply_drop_bbs.Host.Suspension.{resolve_suspension}
use supply_drop_bbs.Host.Moderation.{
  handle_timeout_user, admin_suspend_user, with_actor, with_target, write,
}
use supply_drop_bbs.Host.Users.{
  update, set_suspended, end_expired_suspension, is_expired, set_reactivated, set_unsuspended,
  below, User, active, banned, deleted, is_active, is_banned, same_level, same_user,
  get_by_username, get_by_id,
}
use supply_drop_bbs.Host.State.{
  HostState, SessionRecord, fresh_session, with_users, with_sessions, modify_session,
  set_session_level, end_sessions_of, is_of, is_idle, session_auth, session_auth_user,
  current_level, refresh_level,
}
use supply_drop_bbs.Host.Moderation.Sysops.{HasSysop}
use supply_drop_bbs.Host.Moderation.Run.{ban, unban, set_user_level, delete, run, run-HasSysop}
use supply_drop_bbs.Host.Throttle.{
  max_failure_entries, backoff, check_login_throttle, record_login_failure,
}
use supply_drop_bbs.Host.Throttle.Window.{record_login_failure-window}
use supply_drop_bbs.Host.Login.{
  handle_login_oneshot, oneshot_verify, login_banned, complete_login, finalize_login, set_failures,
  set_login, login_reply, busy, may_try,
}
use supply_drop_bbs.Host.Login.Sound.{IsServed, handle_login_oneshot_sound, login_reply_sound}
use supply_drop_bbs.Host.Login.Live.{handle_login_oneshot_live}
use supply_drop_bbs.Host.Barred.{holds, log_out_if_account_barred}
use supply_drop_bbs.Host.Barred.Everywhere.{IsBarred, log_out_if_account_barred-everywhere}
use supply_drop_bbs.Host.Fixture.{
  named, account, accounts, session_of, host, works, verifies, lasting, digits, session_there,
  not_busy,
}

host-HasSysop : HasSysop accounts
unfolding get retain is_active same_level rank
host-HasSysop = record {
  keys = (refl, (refl, (refl, (refl, tt))));
  keyed = (refl, (refl, (refl, (refl, tt))));
  some_sysop = omega arith;
}

run-HasSysop_example :
    HasSysop
      (run digits
        ((works, 6000, ban 10 (named (codes "root")))
          ∷ (works, 6001, unban 10 (named (codes "bob")))
          ∷ (works, 6002, set_user_level 10 (named (codes "bob")) sysop)
          ∷ (works, 6003, delete 10 (named (codes "ann")))
          ∷ [])
        host).users
run-HasSysop_example =
    run-HasSysop digits
      ((works, 6000, ban 10 (named (codes "root")))
        ∷ (works, 6001, unban 10 (named (codes "bob")))
        ∷ (works, 6002, set_user_level 10 (named (codes "bob")) sysop)
        ∷ (works, 6003, delete 10 (named (codes "ann")))
        ∷ [])
      host host-HasSysop

record_login_failure-window_example :
    (check_login_throttle
        (codes "ann")
        115
        (record_login_failure (codes "ann") 110 host.login_failures).0
      ≡ (if ltb (115 - 110) (record_login_failure (codes "ann") 110 host.login_failures).1
          then some ((record_login_failure (codes "ann") 110 host.login_failures).1 - (115 - 110))
          else none))
    × (2 ≤ (record_login_failure (codes "ann") 110 host.login_failures).1)
    × ((record_login_failure (codes "ann") 110 host.login_failures).1 ≤ 30)
    × (length (record_login_failure (codes "ann") 110 host.login_failures).0 ≤ max_failure_entries)
record_login_failure-window_example =
    record_login_failure-window (codes "ann") 110 host.login_failures 115

ann_run :
    (handle_login_oneshot works verifies lasting digits 6000 200 7
      (named (codes "ann"))
      (codes "correct")
      host).1
    ≡ ok (logged_in (named (codes "ann")))
unfolding handle_login_oneshot oneshot_verify login_reply login_banned complete_login finalize_login
    resolve_suspension end_expired_suspension is_expired set_reactivated check_login_throttle
    backoff busy is_idle may_try get_by_username same_user is_active is_banned update set_failures
    with_users modify_session with_sessions set_login fresh_session get modify remove
ann_run = refl

handle_login_oneshot_sound_example :
    (check_login_throttle (codes "ann") 200 host.login_failures ≡ none)
    × ((r : SessionRecord) × (get 7 host.sessions ≡ some r) × (busy r ≡ none))
    × ((u : User) × (get_by_username (named (codes "ann")) host.users ≡ some u)
        × (verifies u.id (codes "correct") ≡ true)
        × ((is_active u.status ≡ true) ⊎ IsServed 6000 u))
handle_login_oneshot_sound_example =
    handle_login_oneshot_sound works verifies lasting digits 6000 200 7 (named (codes "ann"))
      (codes "correct") host (named (codes "ann"), ann_run)

-- An account that was deleted after the prompt is let in by its password.
deleted_run :
    (login_reply works verifies lasting digits 6000 200 7
      (named (codes "eve"))
      0
      (codes "correct")
      host).1
    ≡ ok (logged_in (named (codes "eve")))
unfolding handle_login_oneshot oneshot_verify login_reply login_banned complete_login finalize_login
    resolve_suspension end_expired_suspension is_expired set_reactivated check_login_throttle
    backoff busy is_idle may_try get_by_username same_user is_active is_banned update set_failures
    with_users modify_session with_sessions set_login fresh_session get modify remove
deleted_run = refl

login_reply_sound_example :
    (u : User) × (get_by_username (named (codes "eve")) host.users ≡ some u)
    × (verifies u.id (codes "correct") ≡ true)
    × ((is_banned u.status ≡ false) ⊎ IsServed 6000 u)
login_reply_sound_example =
    login_reply_sound works verifies lasting digits 6000 200 7 (named (codes "eve")) 0
      (codes "correct") host (named (codes "eve"), deleted_run)

never_failed : get (codes "root") host.login_failures ≡ none
unfolding get
never_failed = refl

root_there :
    get_by_username (named (codes "root")) host.users
    ≡ some (account 1 (codes "root") active sysop none)
unfolding get_by_username same_user
root_there = refl

root_row : get 1 host.users ≡ some (account 1 (codes "root") active sysop none)
unfolding get
root_row = refl

handle_login_oneshot_live_example :
    (s' : HostState) × (w : SessionRecord) × (handle_login_oneshot works verifies lasting digits
        6000 200 7
        (named (codes "root"))
        (codes "correct")
        host
      ≡ (s', ok (logged_in (named (codes "root")))))
    × (get 7 s'.sessions ≡ some w)
    × (w.user_id ≡ some 1)
    × (w.level ≡ sysop)
handle_login_oneshot_live_example =
    handle_login_oneshot_live works verifies lasting digits 6000 200 (λ c. refl) 7
      (named (codes "root")) (codes "correct") host (fresh_session (codes "meshcore"))
      (account 1 (codes "root") active sysop none) session_there not_busy (inl never_failed)
      root_there root_row refl refl refl

bob-IsBarred : IsBarred 6000 3 host.users
unfolding get_by_id get
bob-IsBarred = IsBarred.banned_account (account 3 (codes "bob") banned user none) refl refl refl

sessions_map : IsMap host.sessions
unfolding get
sessions_map = (refl, (refl, (refl, (refl, tt))))

bob_there : get 8 host.sessions ≡ some (session_of 3 (codes "bob") user)
unfolding get
bob_there = refl

log_out_if_account_barred-everywhere_example :
    (s' : HostState) × (response : Response) × (log_out_if_account_barred works digits 6000 8 host
      ≡ (s', ok (some response)))
    × ((j : ℕ) (w : SessionRecord) → get j s'.sessions ≡ some w → holds 3 w ≡ false)
    × ((j : ℕ) (w : SessionRecord)
        → get j host.sessions ≡ some w
        → holds 3 w ≡ false
        → get j s'.sessions ≡ some w)
log_out_if_account_barred-everywhere_example =
    log_out_if_account_barred-everywhere works digits 6000 refl 8 3
      (session_of 3 (codes "bob") user) host sessions_map bob_there refl bob-IsBarred

-- The administration may ban the only active sysop: the guard asks about the level alone.
last_sysop_banned :
    (admin_update_user works digits (codes "root") (some 1) none host).0.users
    ≡ (1, account 1 (codes "root") banned sysop none)
      ∷ (2, account 2 (codes "ann") banned user (some 5000))
      ∷ (3, account 3 (codes "bob") banned user none)
      ∷ (4, account 4 (codes "eve") deleted user none)
      ∷ []
unfolding admin_update_user new_username read_number status_of level_of admin_guard admin_write
    admin_reflect is_ended end_sessions_named is_named set_both or_else set_unsuspended
    get_by_username same_user update with_users with_sessions get modify retain validate
    validate_chars normalise to_ascii_lowercase first_disallowed is_control is_whitespace is_bracket
last_sysop_banned = refl

-- A timeout of a deleted account bans it until its end, after which a check makes it active again.
deleted_revived :
    get 4
      (end_expired_suspension 4 100000
        (handle_timeout_user works digits 6000 10 (named (codes "eve")) 1 host).0.users).0
    ≡ some (account 4 (codes "eve") active user none)
unfolding handle_timeout_user admin_suspend_user with_actor with_target write session_auth_user
    session_auth current_level refresh_level get_by_id below same_level rank get_by_username
    same_user is_banned update set_suspended end_expired_suspension is_expired set_reactivated
    with_users end_sessions_of with_sessions modify_session set_session_level is_of get modify
    retain
deleted_revived = refl

-- A name that is typed with a capital letter bans the account and leaves its sessions.
typed_name_run :
    (admin_update_user works digits (codes "Root") (some 1) none host).0.sessions ≡ host.sessions
unfolding admin_update_user new_username read_number status_of level_of admin_guard admin_write
    admin_reflect is_ended end_sessions_named is_named set_both or_else set_unsuspended
    get_by_username same_user update with_users with_sessions get modify retain validate
    validate_chars normalise to_ascii_lowercase first_disallowed is_control is_whitespace is_bracket
    fresh_session
typed_name_run = refl
