-- ===== src/Host/Moderation/Writes.antt =====
-- crates/bbs-core/src/host.rs: the steps that the commands on accounts are made of leave an active sysop.
use supply_drop_bbs.Prelude.{
  ℕ, ◌≡◌, sym, subst, inl, inr, Bool, some, Bytes, nat_eq, list_eq, arith, Bool-cases, Option-cases,
  Result-cases,
}
use supply_drop_bbs.Prelude.Map.{get, modify}
use supply_drop_bbs.Identity.{Username}
use supply_drop_bbs.Permissions.{PermissionLevel}
use supply_drop_bbs.Host.Users.{User, below, get_by_username, update}
use supply_drop_bbs.Host.State.{
  HostState, DbCall, Outcome, Auth, with_users, session_auth_user, refresh_level, modify_session,
  with_sessions, by_username,
}
use supply_drop_bbs.Host.Moderation.{write, with_actor, with_target}
use supply_drop_bbs.Host.Moderation.Sysops.{
  HasSysop, get_by_username-get, Keeps, IsSafe, modify-HasSysop,
}

-- The session handlers leave the accounts alone.
pub session_auth_user-users :
    (fails : DbCall → Bool) (session : ℕ) (s : HostState)
    → (session_auth_user fails session s).0.users ≡ s.users
unfolding session_auth_user refresh_level modify_session with_sessions
session_auth_user-users fails session s = ground arith

module _ (fails : DbCall → Bool) where
  pub write-Keeps :
      (c : DbCall) (id : ℕ) (change : User → User) (s : HostState) (next : HostState → Outcome)
      → ((u : User) → get id s.users ≡ some u → IsSafe change u)
      → ((s' : HostState) → HasSysop s'.users → Keeps (next s'))
      → HasSysop s.users
      → Keeps (write fails c id change s next)
  unfolding write update with_users
  write-Keeps c id change s next safe after h = elim (Bool-cases (fails c)) [
    | inl failed ↦ rw (failed, write) (record { kept = h })
    | inr works ↦ elim (Option-cases (get id s.users)) [
      | inl absent ↦ rw (works, absent, write, update) (record { kept = h })
      | inr (u, there) ↦
          rw (works, there, write, update)
            (after (record s { users = modify id change s.users })
              (modify-HasSysop id change s.users u there (safe u there) h))
    ]
  ]

  -- The same at a row that is known, for any change that leaves a sysop.
  pub write_found :
      (c : DbCall) (id : ℕ) (change : User → User) (s : HostState) (next : HostState → Outcome)
      (u : User)
      → get id s.users ≡ some u
      → HasSysop (modify id change s.users)
      → ((s' : HostState) → HasSysop s'.users → Keeps (next s'))
      → HasSysop s.users
      → Keeps (write fails c id change s next)
  unfolding write update with_users
  write_found c id change s next u there left after h = elim (Bool-cases (fails c)) [
    | inl failed ↦ rw (failed, write) (record { kept = h })
    | inr works ↦
        rw (works, there, write, update)
          (after (record s { users = modify id change s.users }) left)
  ]

  pub with_actor-Keeps :
      (required : PermissionLevel) (refusal : Bytes) (session : ℕ) (s : HostState)
      (next : Auth → HostState → Outcome)
      → ((a : Auth) (s' : HostState) → HasSysop s'.users → Keeps (next a s'))
      → HasSysop s.users
      → Keeps (with_actor fails required refusal session s next)
  unfolding with_actor
  with_actor-Keeps required refusal session s next after h =
      let kept : HasSysop (session_auth_user fails session s).0.users =
        subst HasSysop (sym (session_auth_user-users fails session s)) h in
      elim (Result-cases (session_auth_user fails session s).1) [
        | inr (r, refused) ↦ rw (refused, with_actor) (record { kept = kept })
        | inl (a, granted) ↦ elim (Bool-cases (below a.level required)) [
          | inl low ↦ rw (granted, low, with_actor) (record { kept = kept })
          | inr high ↦
              rw (granted, high, with_actor) (after a (session_auth_user fails session s).0 kept)
        ]
      ]

  pub with_target-Keeps :
      (name : Username) (s : HostState) (next : User → Outcome)
      → ((u : User)
          → get_by_username name s.users ≡ some u
          → get u.id s.users ≡ some u
          → Keeps (next u))
      → HasSysop s.users
      → Keeps (with_target fails name s next)
  unfolding with_target
  with_target-Keeps name s next after h = elim (Bool-cases (fails by_username)) [
    | inl failed ↦ rw (failed, with_target) (record { kept = h })
    | inr works ↦ elim (Option-cases (get_by_username name s.users)) [
      | inl absent ↦ rw (works, absent, with_target) (record { kept = h })
      | inr (u, there) ↦
          rw (works, there, with_target)
            (after u there (get_by_username-get name s.users u h.keys h.keyed there))
    ]
  ]
