-- ===== src/Host/Login/Live.antt =====
-- crates/bbs-core/src/host.rs: a login in one message succeeds once the throttle's window is over.
use supply_drop_bbs.Prelude.{
  ℕ, ◌+◌, ◌≤◌, ◌≡◌, refl, ◌⊎◌, inl, inr, Bool, true, false, none, some, Bytes, nat_eq, list_eq,
  arith, ok, beq_self,
}
use supply_drop_bbs.Prelude.Map.{get, modify, remove, get-modify}
use supply_drop_bbs.Identity.{Username}
use supply_drop_bbs.Response.{logged_in}
use supply_drop_bbs.Host.Users.{
  User, active, is_active, is_banned, get_by_username, update, set_last_login,
}
use supply_drop_bbs.Host.State.{
  HostState, DbCall, SessionRecord, modify_session, with_sessions, with_users, by_username,
  update_row, verify_call, must_change_call,
}
use supply_drop_bbs.Host.Throttle.{Failures, backoff, check_login_throttle}
use supply_drop_bbs.Host.Login.{
  busy, may_try, initial_room, set_failures, set_login, finalize_login, complete_login,
  login_banned, oneshot_verify, handle_login_oneshot,
}

-- Thirty seconds have passed since the last failure of the name.
abbrev pub IsCool : Bytes → ℕ → Failures → Type 0
IsCool name clock m =
    (get name m ≡ none)
    ⊎ ((count : ℕ) × (last : ℕ) × (get name m ≡ some (count, last)) × (last + 30 ≤ clock))

backoff_cap : (n : ℕ) → backoff n ≤ 30
unfolding backoff
backoff_cap n = grind arith

not_throttled :
    (name : Bytes) (clock : ℕ) (m : Failures)
    → IsCool name clock m
    → check_login_throttle name clock m ≡ none
unfolding check_login_throttle
not_throttled name clock m (inl absent) = ground arith
not_throttled name clock m (inr (count, last, there, past)) = ground (arith, backoff_cap count)

module _ (fails : DbCall → Bool) (verify : ℕ → Bytes → Bool) (must_change : ℕ → Bool)
    (decimal : ℕ → Bytes) (now clock : ℕ) (works : (c : DbCall) → fails c ≡ false) where
  finalize_login_lem :
      (session : ℕ) (u : User) (r : SessionRecord) (s : HostState)
      → get session s.sessions ≡ some r
      → finalize_login session u s ≡ (
        modify_session session (set_login u (initial_room u.permission_level s)) s,
        ok (logged_in u.username),
      )
  unfolding finalize_login
  finalize_login_lem session u r s there = ground arith

  get-modify_session :
      (session : ℕ) (f : SessionRecord → SessionRecord) (r : SessionRecord) (s : HostState)
      → get session s.sessions ≡ some r
      → get session (modify_session session f s).sessions ≡ some (f r)
  unfolding modify_session with_sessions
  get-modify_session session f r s there =
      ground (arith, get-modify session session f s.sessions, beq_self session)

  -- The state in which the login is finished.
  abbrev stamped : Username → User → HostState → HostState
  stamped name u s = record s {
    users = modify u.id (set_last_login now) s.users;
    login_failures = remove name.as_str s.login_failures;
  }

  complete_login_lem :
      (session : ℕ) (name : Username) (u : User) (s : HostState)
      → get u.id s.users ≡ some u
      → must_change u.id ≡ false
      → complete_login fails verify must_change decimal now clock true session name u s
        ≡ finalize_login session u (stamped name u s)
  unfolding complete_login update set_failures with_users
  complete_login_lem session name u s row kept =
      ground (arith, works update_row, works must_change_call)

  oneshot_verify_lem :
      (session : ℕ) (name : Username) (given : Bytes) (s : HostState) (u : User)
      → get_by_username name s.users ≡ some u
      → u.status ≡ active
      → verify u.id given ≡ true
      → oneshot_verify fails verify must_change decimal now clock session name given s
        ≡ complete_login fails verify must_change decimal now clock true session name u s
  unfolding oneshot_verify may_try login_banned is_active is_banned
  oneshot_verify_lem session name given s u named on right =
      ground (arith, works by_username, works verify_call)

  -- Where the database answers, a session that is known, idle and not logged in is let in by the
  -- password of an active account whose password is not temporary, as soon as thirty seconds have
  -- passed since the last failure of the name: the answer is the login, and the session holds the
  -- account with its level. However many failures there were, the wait never grows beyond that.
  pub handle_login_oneshot_live :
      (session : ℕ) (name : Username) (given : Bytes) (s : HostState) (r : SessionRecord) (u : User)
      → get session s.sessions ≡ some r
      → busy r ≡ none
      → IsCool name.as_str clock s.login_failures
      → get_by_username name s.users ≡ some u
      → get u.id s.users ≡ some u
      → u.status ≡ active
      → verify u.id given ≡ true
      → must_change u.id ≡ false
      → (s' : HostState) × (w : SessionRecord) × (handle_login_oneshot fails verify must_change
            decimal now clock session name given s
          ≡ (s', ok (logged_in u.username)))
        × (get session s'.sessions ≡ some w)
        × (w.user_id ≡ some u.id)
        × (w.level ≡ u.permission_level)
  unfolding handle_login_oneshot set_login
  handle_login_oneshot_live session name given s r u there idle_session cool named row on right
        kept =
      let free = not_throttled name.as_str clock s.login_failures cool in
      let finish = set_login u (initial_room u.permission_level (stamped name u s)) in
      (
        modify_session session finish (stamped name u s),
        finish r,
        ground (
          arith,
          free,
          oneshot_verify_lem session name given s u named on right,
          complete_login_lem session name u s row kept,
          finalize_login_lem session u r (stamped name u s) there,
        ),
        get-modify_session session finish r (stamped name u s) there,
        refl,
        refl,
      )
