-- ===== src/Host/Login/Sound.antt =====
-- crates/bbs-core/src/host.rs: whom a login lets in.
use supply_drop_bbs.Prelude.{
  ℕ, ◌≤◌, ◌≡◌, ◌⊎◌, inl, inr, Bool, true, false, none, some, Bytes, leb, leb→le, nat_eq, arith,
  Bool-cases, Option-cases, ok, Result-cases,
}
use supply_drop_bbs.Prelude.Map.{get}
use supply_drop_bbs.Identity.{Username}
use supply_drop_bbs.Response.{Response, logged_in}
use supply_drop_bbs.Host.Users.{User, get_by_username, is_active, is_banned}
use supply_drop_bbs.Host.State.{HostState, DbCall, Outcome, SessionRecord, by_username, verify_call}
use supply_drop_bbs.Host.Suspension.{allowed, suspended, permanently_banned, resolve_suspension}
use supply_drop_bbs.Host.Throttle.{check_login_throttle}
use supply_drop_bbs.Host.Login.{
  busy, may_try, login_banned, oneshot_verify, handle_login_oneshot, login_reply, suspended_text,
  wrong_password, release_session,
}

-- The response is a login.
abbrev pub Grants : Outcome → Type 0
Grants o = (n : Username) × (o.1 ≡ ok (logged_in n))

-- The account's timeout has run out.
abbrev pub IsServed : ℕ → User → Type 0
IsServed now u = (until : ℕ) × (u.suspended_until ≡ some until) × (until ≤ now)

tried_active :
    (u : User) (now : ℕ)
    → may_try u ≡ true
    → (is_banned u.status ≡ false) ⊎ IsServed now u
    → (is_active u.status ≡ true) ⊎ IsServed now u
unfolding may_try
tried_active u now open_account (inl free) = inl (ground arith)
tried_active u now open_account (inr served) = inr served

busy_no_login :
    (r : SessionRecord) (response : Response) (n : Username)
    → busy r ≡ some response
    → response ≡ logged_in n
    → ⊥
unfolding busy
busy_no_login r response n refused same = ground arith

module _ (fails : DbCall → Bool) (verify : ℕ → Bytes → Bool) (must_change : ℕ → Bool)
    (decimal : ℕ → Bytes) (now clock : ℕ) where
  resolve_suspension_allows :
      (u u' : User) (s : HostState)
      → (resolve_suspension fails now u s).1 ≡ ok (allowed u')
      → IsServed now u
  unfolding resolve_suspension
  resolve_suspension_allows u u' s granted = elim (Option-cases u.suspended_until) [
    | inl absent ↦ absurd (ground arith)
    | inr (until, there) ↦ elim (Bool-cases (leb until now)) [
      | inl past ↦ (until, there, leb→le until now past)
      | inr ahead ↦ absurd (ground arith)
    ]
  ]

  login_banned_sound :
      (strict : Bool) (release : HostState → HostState) (session : ℕ) (name : Username) (u : User)
      (s : HostState)
      → Grants
          (login_banned fails verify must_change decimal now clock strict release session name u s)
      → (is_banned u.status ≡ false) ⊎ IsServed now u
  unfolding login_banned suspended_text
  login_banned_sound strict release session name u s (n, granted) =
      elim (Bool-cases (is_banned u.status)) [
        | inr free ↦ inl free
        | inl held ↦ elim (Result-cases (resolve_suspension fails now u s).1) [
          | inr (e, failed) ↦ absurd (ground arith)
          | inl (allowed u', yes_allowed) ↦ inr (resolve_suspension_allows u u' s yes_allowed)
          | inl (suspended days, told) ↦ absurd (ground arith)
          | inl (permanently_banned, told) ↦ absurd (ground arith)
        ]
      ]

  oneshot_verify_sound :
      (session : ℕ) (name : Username) (given : Bytes) (s : HostState)
      → Grants (oneshot_verify fails verify must_change decimal now clock session name given s)
      → (u : User) × (get_by_username name s.users ≡ some u)
        × (verify u.id given ≡ true)
        × ((is_active u.status ≡ true) ⊎ IsServed now u)
  unfolding oneshot_verify
  oneshot_verify_sound session name given s (n, granted) = elim (Bool-cases (fails by_username)) [
    | inl failed ↦ absurd (ground arith)
    | inr works ↦ elim (Option-cases (get_by_username name s.users)) [
      | inl absent ↦ absurd (ground arith)
      | inr (u, there) ↦ elim (Bool-cases (may_try u)) [
        | inr barred ↦ absurd (ground arith)
        | inl open_account ↦ elim (Bool-cases (fails verify_call)) [
          | inl failed ↦ absurd (ground arith)
          | inr answered ↦ elim (Bool-cases (verify u.id given)) [
            | inr wrong ↦ absurd (ground arith)
            | inl right ↦ (
              u,
              there,
              right,
              tried_active u now open_account (
                  login_banned_sound true (λ x. x) session name u s
                    (
                      n,
                      rw (works, there, open_account, answered, right, oneshot_verify) at granted,
                    )),
            )
          ]
        ]
      ]
    ]
  ]

  -- A login in one message lets a session in only if the session is known, in no workflow and not
  -- logged in, the name is not throttled, the password is that of the account of the name, and the
  -- account is active or its timeout has run out.
  pub handle_login_oneshot_sound :
      (session : ℕ) (name : Username) (given : Bytes) (s : HostState)
      → Grants
          (handle_login_oneshot fails verify must_change decimal now clock session name given s)
      → (check_login_throttle name.as_str clock s.login_failures ≡ none)
        × ((r : SessionRecord) × (get session s.sessions ≡ some r) × (busy r ≡ none))
        × ((u : User) × (get_by_username name s.users ≡ some u)
            × (verify u.id given ≡ true)
            × ((is_active u.status ≡ true) ⊎ IsServed now u))
  unfolding handle_login_oneshot
  handle_login_oneshot_sound session name given s (n, granted) =
      elim (Option-cases (get session s.sessions)) [
        | inl absent ↦ absurd (ground arith)
        | inr (r, there) ↦ elim (Option-cases (busy r)) [
          | inr (response, refused) ↦ absurd (busy_no_login r response n refused (ground arith))
          | inl idle_session ↦
              elim (Option-cases (check_login_throttle name.as_str clock s.login_failures)) [
                | inr (wait, throttled) ↦ absurd (ground arith)
                | inl free ↦ (
                  free,
                  (r, there, idle_session),
                  oneshot_verify_sound session name given s
                      (n, rw (there, idle_session, free, handle_login_oneshot) at granted),
                )
              ]
        ]
      ]

  -- The reply to the password prompt lets a session in only if the password is that of the account
  -- of the name, and the account is not banned, or banned with a timeout that has run out. (Nothing
  -- asks here whether the account was deleted since the prompt.)
  pub login_reply_sound :
      (session : ℕ) (name : Username) (attempts : ℕ) (reply : Bytes) (s : HostState)
      → Grants
          (login_reply fails verify must_change decimal now clock session name attempts reply s)
      → (u : User) × (get_by_username name s.users ≡ some u)
        × (verify u.id reply ≡ true)
        × ((is_banned u.status ≡ false) ⊎ IsServed now u)
  unfolding login_reply wrong_password
  login_reply_sound session name attempts reply s (n, granted) =
      elim (Bool-cases (fails by_username)) [
        | inl failed ↦ absurd (ground arith)
        | inr works ↦ elim (Option-cases (get_by_username name s.users)) [
          | inl absent ↦ absurd (ground arith)
          | inr (u, there) ↦ elim (Bool-cases (fails verify_call)) [
            | inl failed ↦ absurd (ground arith)
            | inr answered ↦ elim (Bool-cases (verify u.id reply)) [
              | inr wrong ↦ absurd (ground arith)
              | inl right ↦ (
                u,
                there,
                right,
                login_banned_sound false
                    (release_session fails verify must_change decimal now clock session) session
                    name u s (n, rw (works, there, answered, right, login_reply) at granted),
              )
            ]
          ]
        ]
      ]
