-- ===== src/Command.antt =====
-- crates/bbs-plugin-api/src/command.rs: the commands of a session.
pub mod Parse
pub mod Shape
pub mod Modes
pub mod Blanks
mod Tests
use supply_drop_bbs.Prelude.{ℕ, Bool, Option, Bytes}
use supply_drop_bbs.Prelude.Int.{ℤ}
use supply_drop_bbs.Identity.{Username}
use supply_drop_bbs.Permissions.{PermissionLevel}

pub data Command : Type 0 where
  help : Option Bytes → Command
  register : Bytes → Command
  login : Username → Command
  register_one_shot : Bytes → Bytes → Command
  login_one_shot : Username → Bytes → Command
  logout whoami : Command
  workflow_reply : Bytes → Command
  unknown : Bytes → Command
  list_rooms go_next_unread : Command
  change_room : Bytes → Command
  go_mail read_new : Command
  read_forward : Option ℤ → Command
  read_reverse scan_messages fast_forward : Command
  enter_message : Option Bytes → Command
  delete_message : ℤ → Command
  quit cancel who_is_online list_pending : Command
  validate_user : Username → Command
  set_user_level : Username → PermissionLevel → Command
  block_user : Username → Option Bool → Command
  ban_user unban_user : Username → Command
  timeout_user : Username → ℕ → Command
  edit_profile change_password : Command
  create_room delete_room : Bytes → Command
  edit_room : Command
  edit_user : Username → Command
  list_users : Option Bytes → Command
  search_users : Bytes → Command
  user_info delete_user set_user_password : Username → Command
  open_access close_access : Command
  set_guest_room : Option Bytes → Command
