-- ===== src/Host/Fixture.antt =====
-- crates/bbs-core/src/host.rs: the board on which the handlers are run.
use supply_drop_bbs.Prelude.{
  ℕ, ◌≡◌, refl, Bool, true, false, Option, none, some, List, [], ◌∷◌, Bytes, codes, ◌==◌, nat_eq,
  list_eq,
}
use supply_drop_bbs.Prelude.Map.{get}
use supply_drop_bbs.Identity.{Username}
use supply_drop_bbs.Permissions.{PermissionLevel, user, sysop}
use supply_drop_bbs.Host.Users.{User, Users, UserStatus, active, banned, deleted}
use supply_drop_bbs.Host.State.{HostState, DbCall, SessionRecord, fresh_session, is_idle}
use supply_drop_bbs.Host.Login.{busy}

abbrev pub named : List ℕ → Username
named t = record { as_str = t }

abbrev pub account : ℕ → Bytes → UserStatus → PermissionLevel → Option ℕ → User
account id name status level until = record {
  id = id;
  username = named name;
  display_name = none;
  status = status;
  permission_level = level;
  created_at = 0;
  last_login_at = none;
  suspended_until = until;
}

-- An operator, a user whose timeout has run out at 5000, one who is banned for good, and one who
-- was deleted.
abbrev pub accounts : Users
accounts =
    (1, account 1 (codes "root") active sysop none)
    ∷ (2, account 2 (codes "ann") banned user (some 5000))
    ∷ (3, account 3 (codes "bob") banned user none)
    ∷ (4, account 4 (codes "eve") deleted user none)
    ∷ []

-- The session of a user.
abbrev pub session_of : ℕ → Bytes → PermissionLevel → SessionRecord
session_of id name level = record (fresh_session (codes "meshcore")) {
  username = some (named name);
  user_id = some id;
  level = level;
}

-- Session 7 is new, 8 and 9 are of the third account, 10 is of the operator.
abbrev pub host : HostState
host = record {
  sessions =
      (7, fresh_session (codes "meshcore"))
      ∷ (8, session_of 3 (codes "bob") user)
      ∷ (9, session_of 3 (codes "bob") user)
      ∷ (10, session_of 1 (codes "root") sysop)
      ∷ [];
  next_id = 11;
  users = accounts;
  credentials = [];
  login_failures = (codes "ann", (3, 100)) ∷ [];
  require_verify = true;
  guest_room_id = none;
}

abbrev pub works : DbCall → Bool
works _ = false

-- Every account has the password "correct".
abbrev pub verifies : ℕ → Bytes → Bool
verifies _ given = given == codes "correct"

abbrev pub lasting : ℕ → Bool
lasting _ = false

abbrev pub digits : ℕ → Bytes
digits n = n ∷ []

pub session_there : get 7 host.sessions ≡ some (fresh_session (codes "meshcore"))
unfolding get
session_there = refl

pub not_busy : busy (fresh_session (codes "meshcore")) ≡ none
unfolding busy fresh_session is_idle
not_busy = refl
