-- ===== src/Host/Barred.antt =====
-- crates/bbs-core/src/host.rs: before every command, an account that may hold no session is logged out
-- of all of them.
pub mod Everywhere
use supply_drop_bbs.Prelude.{
  ℕ, ◌≡◌, Bool, true, false, not, ◌&&◌, Option, none, some, Bytes, codes, ◌++◌, ◌==◌, nat_eq,
  if◌then◌else◌, is_some_and, Result, ok, err, ◌>>=◌,
}
use supply_drop_bbs.Prelude.Map.{get, modify, retain}
use supply_drop_bbs.Permissions.{unvalidated}
use supply_drop_bbs.Response.{Response, error}
use supply_drop_bbs.Host.Users.{User, active, banned, deleted, get_by_id}
use supply_drop_bbs.Host.State.{
  HostState, HostError, DbCall, by_id, SessionRecord, idle, lobby_room_id, with_sessions,
}
use supply_drop_bbs.Host.Suspension.{
  LoginSuspensionCheck, allowed, suspended, permanently_banned, resolve_suspension,
}

-- The text shown; the reason recorded on the event is left out.
pub record Barred : Type 0 where
  pub text : Bytes

abbrev pub logged_out_text : Bytes
logged_out_text = codes "You have been logged out."

abbrev pub gone : Barred
gone = record { text = codes "Your account no longer exists. " ++ logged_out_text }

abbrev pub banned_bar : Barred
banned_bar = record { text = codes "Your account has been banned. " ++ logged_out_text }

abbrev pub suspended_bar : (ℕ → Bytes) → ℕ → Barred
suspended_bar decimal days = record {
  text =
      codes "Your account has been suspended for "
      ++ (decimal days ++ (codes " more day(s). " ++ logged_out_text));
}

unfoldable pub holds : ℕ → SessionRecord → Bool
holds user_id r = is_some_and r.user_id (λ id. id == user_id)

unfoldable pub set_logged_out : SessionRecord → SessionRecord
set_logged_out r = record r {
  username = none;
  user_id = none;
  level = unvalidated;
  workflow = idle;
  current_room = lobby_room_id;
  current_message_id = none;
  last_post_confirmation = none;
}

-- The session to keep is logged out in place, if it is still the account's; the others are removed.
unfoldable pub log_out_account : ℕ → Option ℕ → HostState → HostState
log_out_account user_id keep s =
    let others =
      retain (λ id r. not (holds user_id r && not (is_some_and keep (λ k. id == k)))) s.sessions in
    elim keep [
      | none ↦ with_sessions others s
      | some k ↦
          with_sessions (modify k (λ r. if holds user_id r then set_logged_out r else r) others) s
    ]

module _ (fails : DbCall → Bool) (decimal : ℕ → Bytes) (now : ℕ) where
  -- What bars the account, by its row and, where that is banned, by the state of the suspension.
  unfoldable pub barred_check :
      HostState × Result HostError LoginSuspensionCheck
      → HostState × Result HostError (Option Barred)
  barred_check (s, err e) = (s, err e)
  barred_check (s, ok (allowed _)) = (s, ok none)
  barred_check (s, ok (suspended days)) = (s, ok (some (suspended_bar decimal days)))
  barred_check (s, ok permanently_banned) = (s, ok (some banned_bar))

  unfoldable pub account_barred : ℕ → HostState → HostState × Result HostError (Option Barred)
  unfolding barred_check
  account_barred user_id s =
      if fails by_id then (s, ok none) else elim (get_by_id user_id s.users) [
        | none ↦ (s, ok (some gone))
        | some u ↦ elim u.status [
          | active ↦ (s, ok none)
          | banned ↦ barred_check (resolve_suspension fails now u s)
          | deleted ↦ (s, ok (some gone))
        ]
      ]

  unfoldable pub log_out_if_account_barred :
      ℕ → HostState → HostState × Result HostError (Option Response)
  log_out_if_account_barred session s = elim (get session s.sessions >>= λ r. r.user_id) [
    | none ↦ (s, ok none)
    | some user_id ↦
        let (s', barred) = account_barred user_id s in
        elim barred [
          | err e ↦ (s', err e)
          | ok none ↦ (s', ok none)
          | ok (some b) ↦ (log_out_account user_id (some session) s', ok (some (error b.text)))
        ]
  ]
