-- ===== src/Host/Replies/Attempts.antt =====
-- crates/bbs-core/src/host.rs: the prompt for a password comes to an end.
use supply_drop_bbs.Prelude.{
  ℕ, suc, ◌+◌, ◌-◌, ◌<◌, ◌≡◌, inl, inr, Bool, false, none, some, Bytes, nat_eq, list_eq, arith,
  Bool-cases, Option-cases, ok, Result-cases, beq_self,
}
use supply_drop_bbs.Prelude.Map.{get, remove, get-modify}
use supply_drop_bbs.Identity.{Username}
use supply_drop_bbs.Response.{Response}
use supply_drop_bbs.Host.Users.{User, is_banned, get_by_username, update, set_last_login}
use supply_drop_bbs.Host.State.{
  HostState, DbCall, SessionRecord, Workflow, idle, login, force_change_password, ForcePwdStage,
  modify_session, with_sessions, with_users, set_workflow, by_username, verify_call, update_row,
  must_change_call,
}
use supply_drop_bbs.Host.Suspension.{allowed, suspended, permanently_banned, resolve_suspension}
use supply_drop_bbs.Host.Throttle.{record_login_failure}
use supply_drop_bbs.Host.Login.{
  set_login, initial_room, finalize_login, set_failures, complete_login, login_banned, login_reply,
  release_session, wrong_password,
}

-- The workflow waits for the password of a login, with this many replies left.
unfoldable pub left : Workflow → ℕ
left (login _ attempts) = suc (2 - attempts)
left _ = 0

-- The replies that the session's workflow can still take.
unfoldable pub left_in : ℕ → HostState → ℕ
left_in session s = elim (get session s.sessions) [ none ↦ 0 | some r ↦ left r.workflow ]

pub left_in-modify_session :
    (session : ℕ) (f : SessionRecord → SessionRecord) (s : HostState) (r : SessionRecord)
    → get session s.sessions ≡ some r
    → left_in session (modify_session session f s) ≡ left (f r).workflow
unfolding left_in modify_session with_sessions
left_in-modify_session session f s r there =
    ground (arith, get-modify session session f s.sessions, beq_self session)

module _ (fails : DbCall → Bool) (verify : ℕ → Bytes → Bool) (must_change : ℕ → Bool)
    (decimal : ℕ → Bytes) (now clock : ℕ) where
  finalize_login-left :
      (session : ℕ) (u : User) (s : HostState) (r : SessionRecord)
      → get session s.sessions ≡ some r
      → left_in session (finalize_login session u s).0 ≡ 0
  unfolding finalize_login left set_login
  finalize_login-left session u s r there = ground (
    arith,
    left_in-modify_session session (set_login u (initial_room u.permission_level s)) s r there,
  )

  complete_login-left :
      (session : ℕ) (name : Username) (u : User) (s : HostState) (r : SessionRecord)
      → get session s.sessions ≡ some r
      → (response : Response)
      → (complete_login fails verify must_change decimal now clock false session name u s).1
        ≡ ok response
      → left_in session
          (complete_login fails verify must_change decimal now clock false session name u s).0
        ≡ 0
  unfolding complete_login set_failures with_users left set_workflow
  complete_login-left session name u s r there response answered =
      elim (Bool-cases (fails update_row)) [
        | inl failed ↦ absurd (ground arith)
        | inr works ↦ elim (Option-cases (update u.id (set_last_login now) s.users)) [
          | inl absent ↦ absurd (ground arith)
          | inr (users, stamped) ↦ elim (Bool-cases (fails must_change_call)) [
            | inl failed ↦ absurd (ground arith)
            | inr told ↦ elim (Bool-cases (must_change u.id)) [
              | inl temporary ↦ ground (
                arith,
                left_in-modify_session session
                    (set_workflow (force_change_password name u.id ForcePwdStage.enter_new))
                    (record s {
                      users = users;
                      login_failures = remove name.as_str s.login_failures;
                    })
                    r there,
              )
              | inr lasting ↦ ground (
                arith,
                finalize_login-left session u
                    (record s {
                      users = users;
                      login_failures = remove name.as_str s.login_failures;
                    })
                    r there,
              )
            ]
          ]
        ]
      ]

  resolve_suspension-sessions :
      (u : User) (s : HostState) → (resolve_suspension fails now u s).0.sessions ≡ s.sessions
  unfolding resolve_suspension with_users
  resolve_suspension-sessions u s = ground arith

  release-left :
      (session : ℕ) (s : HostState) (r : SessionRecord)
      → get session s.sessions ≡ some r
      → left_in session (release_session fails verify must_change decimal now clock session s) ≡ 0
  unfolding release_session left set_workflow
  release-left session s r there =
      ground (arith, left_in-modify_session session (set_workflow idle) s r there)

  login_banned-left :
      (session : ℕ) (name : Username) (u : User) (s : HostState) (r : SessionRecord)
      → get session s.sessions ≡ some r
      → (response : Response)
      → (login_banned fails verify must_change decimal now clock false
          (release_session fails verify must_change decimal now clock session)
          session
          name
          u
          s).1
        ≡ ok response
      → left_in session
          (login_banned fails verify must_change decimal now clock false
            (release_session fails verify must_change decimal now clock session)
            session
            name
            u
            s).0
        ≡ 0
  unfolding login_banned
  login_banned-left session name u s r there response answered =
      let kept = resolve_suspension-sessions u s in
      let there' : get session (resolve_suspension fails now u s).0.sessions ≡ some r =
        rw kept there in
      elim (Bool-cases (is_banned u.status)) [
        | inr free ↦
            rw (free, login_banned)
              (complete_login-left session name u s r there response
                (rw (free, login_banned) at answered))
        | inl held ↦ elim (Result-cases (resolve_suspension fails now u s).1) [
          | inr (e, failed) ↦ absurd (ground arith)
          | inl (allowed u', resolved) ↦
              rw (held, resolved, login_banned)
                (complete_login-left session name u' (resolve_suspension fails now u s).0 r there'
                  response (rw (held, resolved, login_banned) at answered))
          | inl (suspended days, resolved) ↦
              rw (held, resolved, login_banned)
                (release-left session (resolve_suspension fails now u s).0 r there')
          | inl (permanently_banned, resolved) ↦
              rw (held, resolved, login_banned)
                (release-left session (resolve_suspension fails now u s).0 r there')
        ]
      ]

  wrong_password-left :
      (session : ℕ) (name : Username) (attempts : ℕ) (s : HostState) (r : SessionRecord)
      → get session s.sessions ≡ some r
      → left_in session
          (wrong_password fails verify must_change decimal now clock session name attempts s).0
        < suc (2 - attempts)
  unfolding wrong_password set_failures left set_workflow
  wrong_password-left session name attempts s r there =
      let after = set_failures (record_login_failure name.as_str clock s.login_failures).0 s in
      ground (
        arith,
        release-left session after r there,
        left_in-modify_session session (set_workflow (login name (attempts + 1))) after r there,
      )

  -- An answered reply leaves fewer.
  pub login_reply-left :
      (session : ℕ) (name : Username) (attempts : ℕ) (reply : Bytes) (s : HostState)
      (r : SessionRecord)
      → get session s.sessions ≡ some r
      → (response : Response)
      → (login_reply fails verify must_change decimal now clock session name attempts reply s).1
        ≡ ok response
      → left_in session
          (login_reply fails verify must_change decimal now clock session name attempts reply s).0
        < suc (2 - attempts)
  unfolding login_reply
  login_reply-left session name attempts reply s r there response answered =
      elim (Bool-cases (fails by_username)) [
        | inl failed ↦ absurd (ground arith)
        | inr works ↦ elim (Option-cases (get_by_username name s.users)) [
          | inl absent ↦ ground (arith, release-left session s r there)
          | inr (u, named) ↦ elim (Bool-cases (fails verify_call)) [
            | inl failed ↦ absurd (ground arith)
            | inr told ↦ elim (Bool-cases (verify u.id reply)) [
              | inl right ↦
                  let over =
                    login_banned-left session name u s r there response
                      (rw (works, named, told, right, login_reply) at answered) in
                  ground (arith, over)
              | inr wrong ↦ ground (arith, wrong_password-left session name attempts s r there)
            ]
          ]
        ]
      ]
