-- ===== src/Host/Barred/Everywhere.antt =====
-- crates/bbs-core/src/host.rs: a barred account holds no session after a command of one of them.
use supply_drop_bbs.Prelude.{
  ℕ, ◌≡◌, refl, inl, inr, Bool, false, not, ◌&&◌, none, some, leb, ◌==◌, nat_eq, Bytes, is_some_and,
  if◌then◌else◌, arith, Option-cases, ◌>>=◌, ok,
}
use supply_drop_bbs.Prelude.Map.{get, retain, IsMap, get-modify, get-retain}
use supply_drop_bbs.Response.{Response, error}
use supply_drop_bbs.Host.Users.{User, Users, banned, deleted, get_by_id}
use supply_drop_bbs.Host.State.{HostState, DbCall, by_id, SessionRecord, with_sessions}
use supply_drop_bbs.Host.Suspension.{resolve_suspension, suspension_days_remaining}
use supply_drop_bbs.Host.Barred.{
  Barred, gone, banned_bar, suspended_bar, holds, set_logged_out, log_out_account, barred_check,
  account_barred, log_out_if_account_barred,
}

-- The account may hold no session: there is none, or it is deleted, banned for good or in a timeout.
pub data IsBarred (now user_id : ℕ) (users : Users) : Type 0 where
  missing : get_by_id user_id users ≡ none → IsBarred now user_id users
  gone_account :
      (u : User)
      → get_by_id user_id users ≡ some u
      → u.status ≡ deleted
      → IsBarred now user_id users
  banned_account :
      (u : User)
      → get_by_id user_id users ≡ some u
      → u.status ≡ banned
      → u.suspended_until ≡ none
      → IsBarred now user_id users
  in_timeout :
      (u : User) (until : ℕ)
      → get_by_id user_id users ≡ some u
      → u.status ≡ banned
      → u.suspended_until ≡ some until
      → leb until now ≡ false
      → IsBarred now user_id users

logged_out_holds : (user_id : ℕ) (r : SessionRecord) → holds user_id (set_logged_out r) ≡ false
unfolding holds set_logged_out
logged_out_holds user_id r = refl

-- What `log_out_account` does to a session.
abbrev outlives : ℕ → ℕ → ℕ → SessionRecord → Bool
outlives user_id k id r = not (holds user_id r && not (is_some_and (some k) (λ x. id == x)))

abbrev in_place : ℕ → SessionRecord → SessionRecord
in_place user_id r = if holds user_id r then set_logged_out r else r

module _ (user_id k : ℕ) (s : HostState) (keys : IsMap s.sessions) where
  get-log_out_account :
      (j : ℕ)
      → get j (log_out_account user_id (some k) s).sessions ≡ (
          get j s.sessions >>= λ r.
          if holds user_id r then (if k == j then some (set_logged_out r) else none) else some r)
  unfolding log_out_account with_sessions
  get-log_out_account j = elim (Option-cases (get j s.sessions)) [
    | inl absent ↦
        let kept = get-retain (outlives user_id k) j s.sessions keys in
        let written = get-modify k j (in_place user_id) (retain (outlives user_id k) s.sessions) in
        ground (arith, kept, written)
    | inr (r, there) ↦
        let kept = get-retain (outlives user_id k) j s.sessions keys in
        let written = get-modify k j (in_place user_id) (retain (outlives user_id k) s.sessions) in
        ground (arith, kept, written)
  ]

  log_out_account-holds :
      (j : ℕ) (r : SessionRecord)
      → get j (log_out_account user_id (some k) s).sessions ≡ some r
      → holds user_id r ≡ false
  log_out_account-holds j r found = elim (Option-cases (get j s.sessions)) [
    | inl absent ↦ absurd (ground (arith, get-log_out_account j))
    | inr (w, there) ↦ ground (arith, get-log_out_account j, logged_out_holds user_id w)
  ]

  log_out_account-others :
      (j : ℕ) (r : SessionRecord)
      → get j s.sessions ≡ some r
      → holds user_id r ≡ false
      → get j (log_out_account user_id (some k) s).sessions ≡ some r
  log_out_account-others j r found free = ground (arith, get-log_out_account j)

module _ (fails : DbCall → Bool) (decimal : ℕ → Bytes) (now : ℕ) (works : fails by_id ≡ false) where
  account_barred_lem :
      (user_id : ℕ) (s : HostState)
      → IsBarred now user_id s.users
      → (b : Barred) × (account_barred fails decimal now user_id s ≡ (s, ok (some b)))
  unfolding account_barred resolve_suspension barred_check
  account_barred_lem user_id s (IsBarred.missing absent) = (gone, ground arith)
  account_barred_lem user_id s (IsBarred.gone_account u there is_deleted) =
      (gone, rw (works, there, is_deleted, account_barred) refl)
  account_barred_lem user_id s (IsBarred.banned_account u there is_banned no_end) =
      (banned_bar, rw (works, there, is_banned, account_barred, no_end, resolve_suspension) refl)
  account_barred_lem user_id s (IsBarred.in_timeout u until there is_banned an_end ahead) = (
    suspended_bar decimal (suspension_days_remaining until now),
    rw (works, there, is_banned, account_barred, an_end, resolve_suspension, ahead) refl,
  )

  -- Where no session id stands twice and the account behind a session can be read, and is missing,
  -- deleted, banned for good or in a timeout that still runs, a command of that session is answered
  -- with an error, no session holds the account afterwards, and every session of another account
  -- stays as it was.
  pub log_out_if_account_barred-everywhere :
      (session user_id : ℕ) (r : SessionRecord) (s : HostState)
      → IsMap s.sessions
      → get session s.sessions ≡ some r
      → r.user_id ≡ some user_id
      → IsBarred now user_id s.users
      → (s' : HostState) × (response : Response) × (log_out_if_account_barred fails decimal now
            session s
          ≡ (s', ok (some response)))
        × ((j : ℕ) (w : SessionRecord) → get j s'.sessions ≡ some w → holds user_id w ≡ false)
        × ((j : ℕ) (w : SessionRecord)
            → get j s.sessions ≡ some w
            → holds user_id w ≡ false
            → get j s'.sessions ≡ some w)
  unfolding log_out_if_account_barred
  log_out_if_account_barred-everywhere session user_id r s keys there owner barred =
      let (b, ran) = account_barred_lem user_id s barred in
      (
        log_out_account user_id (some session) s,
        error b.text,
        ground (arith, ran),
        log_out_account-holds user_id session s keys,
        log_out_account-others user_id session s keys,
      )
