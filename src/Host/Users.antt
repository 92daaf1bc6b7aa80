-- ===== src/Host/Users.antt =====
-- crates/bbs-core/src/user.rs and the statements of crates/bbs-core/src/db/user_store.rs: the table of
-- accounts, keyed by its primary key. Times are seconds.
use supply_drop_bbs.Prelude.{
  ℕ, Bool, true, false, ◌&&◌, Option, none, some, List, [], ◌∷◌, Bytes, codes, ltb, leb, ◌==◌,
  nat_eq, list_eq, if◌then◌else◌, take, is_some_and,
}
use supply_drop_bbs.Prelude.Map.{Map, get, modify}
use supply_drop_bbs.Identity.{Username}
use supply_drop_bbs.Permissions.{PermissionLevel, unvalidated, user, aide, sysop, rank}

pub data UserStatus : Type 0 where
  active banned deleted : UserStatus

unfoldable pub status_text : UserStatus → Bytes
status_text active = codes "active"
status_text banned = codes "banned"
status_text deleted = codes "deleted"

-- `==` on the status.
unfoldable pub is_active : UserStatus → Bool
is_active active = true
is_active banned = false
is_active deleted = false

unfoldable pub is_banned : UserStatus → Bool
is_banned active = false
is_banned banned = true
is_banned deleted = false

unfoldable pub is_deleted : UserStatus → Bool
is_deleted active = false
is_deleted banned = false
is_deleted deleted = true

-- `impl Display for PermissionLevel`, `<` and `==` on the levels.
unfoldable pub level_text : PermissionLevel → Bytes
level_text unvalidated = codes "unvalidated"
level_text user = codes "user"
level_text aide = codes "aide"
level_text sysop = codes "sysop"

unfoldable pub below : PermissionLevel → PermissionLevel → Bool
unfolding rank
below a b = ltb (rank a) (rank b)

unfoldable pub same_level : PermissionLevel → PermissionLevel → Bool
unfolding rank
same_level a b = rank a == rank b

unfoldable pub same_user : Username → Username → Bool
same_user a b = a.as_str == b.as_str

pub record User : Type 0 where
  pub id : ℕ
  pub username : Username
  pub display_name : Option Bytes
  pub status : UserStatus
  pub permission_level : PermissionLevel
  pub created_at : ℕ
  pub last_login_at : Option ℕ
  pub suspended_until : Option ℕ

abbrev pub Users : Type 0
Users = Map ℕ User

unfoldable pub get_by_id : ℕ → Users → Option User
get_by_id id users = get id users

-- `WHERE username = ?`.
unfoldable pub get_by_username : Username → Users → Option User
get_by_username name [] = none
get_by_username name ((_, u) ∷ users) =
    let rest = get_by_username name users in if same_user u.username name then some u else rest

-- `WHERE status = 0 LIMIT ?`: the order of the rows is the table's.
unfoldable pub active_rows : Users → List User
active_rows [] = []
active_rows ((_, u) ∷ users) =
    let rest = active_rows users in if is_active u.status then u ∷ rest else rest

unfoldable pub list_active : ℕ → Users → List User
list_active limit users = take limit (active_rows users)

-- `update` with one column: the status, the level or the time of the last login.
unfoldable pub set_status : UserStatus → User → User
set_status status u = record u { status = status }

unfoldable pub set_level : PermissionLevel → User → User
set_level level u = record u { permission_level = level }

unfoldable pub set_last_login : ℕ → User → User
set_last_login now u = record u { last_login_at = some now }

unfoldable pub set_suspended : ℕ → User → User
set_suspended until u = record u { status = banned; suspended_until = some until }

unfoldable pub set_unsuspended : User → User
set_unsuspended u = record u { suspended_until = none }

-- The statements that write: nothing, where there is no such row.
unfoldable pub update : ℕ → (User → User) → Users → Option Users
update id change users = elim (get id users) [
  | none ↦ none
  | some _ ↦ some (modify id change users)
]

-- The condition and the assignments of `end_expired_suspension`.
unfoldable pub is_expired : ℕ → User → Bool
is_expired now u = is_banned u.status && is_some_and u.suspended_until (λ until. leb until now)

unfoldable pub set_reactivated : User → User
set_reactivated u = record u { status = active; suspended_until = none }

unfoldable pub end_expired_suspension : ℕ → ℕ → Users → Users × Bool
end_expired_suspension id now users =
    if is_some_and (get id users) (λ u. is_expired now u)
    then (modify id set_reactivated users, true)
    else (users, false)
