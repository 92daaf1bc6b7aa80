-- ===== src/Mesh/Session/History.antt =====
-- crates/bbs-mesh/src/session.rs: histories of calls, and what holds of the states they reach.
use supply_drop_bbs.Prelude.{ℕ, ◌≤◌, ◌≡◌, Option, none, some, Bytes, nat_eq, list_eq, length}
use supply_drop_bbs.Prelude.Map.{get, IsMap}
use supply_drop_bbs.Mesh.Session.{
  SessionEntry, SessionState, recent_msg_cap, empty_state, get_or_insert, remove_by_prefix,
  update_awaiting_reply, set_last_workflow_reply, set_full_pubkey, clear_last_message,
  dedup_by_timestamp, dedup_message, mark_pending_protect, clear_pending_protect,
  mark_contacts_catchup_requested,
}
use supply_drop_bbs.Mesh.Session.Index.{IsIndexed}
use supply_drop_bbs.Mesh.Session.Workflow.{IsStaged}
use supply_drop_bbs.Mesh.Session.Recent.{Ordered}

-- One call of a method, with its arguments.
pub data Op : Type 0 where
  connect : Bytes → ℕ → Op
  disconnect : Bytes → Op
  prompt : Bytes → Option Bytes → Op
  replied : Bytes → Bytes → Op
  pubkey : Bytes → Bytes → Op
  forget : Bytes → Op
  stamped : Bytes → ℕ → Bytes → Op
  unstamped : Bytes → Bytes → Op
  protect : Bytes → Op
  unprotect : Bytes → Op
  catchup : Op

-- The state after a call at the time `now`.
unfoldable pub call : Op → ℕ → SessionState → SessionState
call (connect p id) now s = (get_or_insert p id s).0
call (disconnect p) now s = (remove_by_prefix p s).0
call (prompt p text) now s = update_awaiting_reply p text now s
call (replied p text) now s = set_last_workflow_reply p text now s
call (pubkey p key) now s = set_full_pubkey p key s
call (forget p) now s = clear_last_message p s
call (stamped p ts text) now s = (dedup_by_timestamp p ts text now s).0
call (unstamped p text) now s = (dedup_message p text now s).0
call (protect p) now s = mark_pending_protect p now s
call (unprotect p) now s = clear_pending_protect p s
call catchup now s = mark_contacts_catchup_requested now s

-- The host mints an identifier that no session of the state has.
abbrev pub IsMinted : Op → SessionState → Type 0
IsMinted (connect p id) s = get id s.by_session ≡ none
IsMinted _ s = Unit

-- The states that calls reach, with the time of the last one.
pub data Reach : ℕ → SessionState → Type 0 where
  start : Reach 0 empty_state
  next :
      {t : ℕ} {s : SessionState} (op : Op) (now : ℕ)
      → t ≤ now
      → IsMinted op s
      → Reach t s
      → {s' : SessionState} → s' ≡ call op now s
      → Reach now s'

pub record IsValidEntry (now : ℕ) (e : SessionEntry) : Type 0 where
  pub staged : IsStaged e
  pub ordered : Ordered 0 e.recent_msgs now
  pub capped : length e.recent_msgs ≤ recent_msg_cap

pub record IsValid (now : ℕ) (s : SessionState) : Type 0 where
  pub indexed : IsIndexed s
  pub entries : (p : Bytes) (e : SessionEntry) → get p s.by_prefix ≡ some e → IsValidEntry now e
  pub prefixes : IsMap s.by_prefix
  pub sessions : IsMap s.by_session
  pub pending : IsMap s.pending_protect
