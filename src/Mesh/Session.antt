-- ===== src/Mesh/Session.antt =====
-- crates/bbs-mesh/src/session.rs: the per-node session state of the MeshCore transport.
-- An `Instant` is a number of milliseconds of the monotonic clock; an operation that reads the clock
-- takes the reading as its argument. A text is the list of its code points, a key its bytes.
pub mod Index
pub mod Workflow
pub mod Recent
pub mod Dedup
pub mod Traffic
pub mod Resend
pub mod History
pub mod Entries
pub mod Invariant
pub mod Protect
mod Tests
use supply_drop_bbs.Prelude.{
  ℕ, zero, ◌+◌, ◌-◌, ◌*◌, Bool, true, false, not, ◌&&◌, ◌||◌, Option, none, some, List, [], ◌∷◌,
  ◌++◌, Bytes, ltb, leb, ◌==◌, nat_eq, list_eq, if◌then◌else◌, ◌>>=◌, is_some, is_some_and,
  is_none_or, length,
}
use supply_drop_bbs.Prelude.Map.{Map, get, insert, remove, modify, retain}

abbrev pub secs : ℕ → ℕ
secs n = n * 1000

abbrev pub pending_protect_ttl : ℕ
pending_protect_ttl = 86400

abbrev pub contacts_catchup_cooldown : ℕ
contacts_catchup_cooldown = 60

abbrev pub workflow_reply_dedup : ℕ
workflow_reply_dedup = 10

abbrev pub message_dedup : ℕ
message_dedup = 10

abbrev pub timestamp_dedup : ℕ
timestamp_dedup = 120

abbrev pub recent_msg_cap : ℕ
recent_msg_cap = 16

-- A sender timestamp, a text, and when the message was processed.
abbrev pub Seen : Type 0
Seen = ℕ × Bytes × ℕ

pub record SessionEntry : Type 0 where
  pub session_id : ℕ
  pub awaiting_reply : Bool
  pub awaiting_reply_since : Option ℕ
  pub last_prompt_text : Option Bytes
  pub last_workflow_reply : Option (Bytes × ℕ)
  pub last_message : Option (Bytes × ℕ)
  pub recent_msgs : List Seen
  pub full_pubkey : Option Bytes

pub record DeviceOtherParams : Type 0 where
  pub manual_add_contacts : ℕ
  pub telemetry_modes : ℕ
  pub advert_loc_policy : ℕ
  pub multi_acks : ℕ

pub record SessionState : Type 0 where
  pub self_pubkey : Option Bytes
  pub by_prefix : Map Bytes SessionEntry
  pub by_session : Map ℕ Bytes
  pub pending_protect : Map Bytes ℕ
  pub contacts_catchup_requested_at : Option ℕ
  pub device_other_params : Option DeviceOtherParams

-- `SessionState::default()`.
abbrev pub empty_state : SessionState
empty_state = record {
  self_pubkey = none;
  by_prefix = [];
  by_session = [];
  pending_protect = [];
  contacts_catchup_requested_at = none;
  device_other_params = none;
}

abbrev pub new_entry : ℕ → SessionEntry
new_entry id = record {
  session_id = id;
  awaiting_reply = false;
  awaiting_reply_since = none;
  last_prompt_text = none;
  last_workflow_reply = none;
  last_message = none;
  recent_msgs = [];
  full_pubkey = none;
}

-- The session of the prefix, and whether `new_id` was taken for it.
unfoldable pub get_or_insert : Bytes → ℕ → SessionState → SessionState × ℕ × Bool
get_or_insert prefix new_id s = elim (get prefix s.by_prefix) [
  | some entry ↦ (s, entry.session_id, false)
  | none ↦ (
    record s {
      by_prefix = insert prefix (new_entry new_id) s.by_prefix;
      by_session = insert new_id prefix s.by_session;
    },
    new_id,
    true,
  )
]

unfoldable pub lookup : Bytes → SessionState → Option ℕ
lookup prefix s = get prefix s.by_prefix >>= λ e. some e.session_id

unfoldable pub remove_by_prefix : Bytes → SessionState → SessionState × Option ℕ
remove_by_prefix prefix s = elim (get prefix s.by_prefix) [
  | some entry ↦ (
    record s {
      by_prefix = remove prefix s.by_prefix;
      by_session = remove entry.session_id s.by_session;
      pending_protect = remove prefix s.pending_protect;
    },
    some entry.session_id,
  )
  | none ↦ (record s { pending_protect = remove prefix s.pending_protect }, none)
]

-- A write to the entry of a prefix; nothing where the prefix has no session.
unfoldable pub with_entry : Bytes → (SessionEntry → SessionEntry) → SessionState → SessionState
with_entry prefix f s = record s { by_prefix = modify prefix f s.by_prefix }

abbrev pub is_text : Option Bytes → Bytes → Bool
is_text none text = false
is_text (some t) text = t == text

unfoldable pub prompt_entry : ℕ → Option Bytes → SessionEntry → SessionEntry
prompt_entry now (some text) entry =
    if is_text entry.last_prompt_text text
    then record entry { awaiting_reply = true }
    else record entry {
      awaiting_reply = true;
      awaiting_reply_since = some now;
      last_prompt_text = some text;
    }
prompt_entry now none entry = record entry {
  awaiting_reply = false;
  awaiting_reply_since = none;
  last_prompt_text = none;
}

unfoldable pub update_awaiting_reply : Bytes → Option Bytes → ℕ → SessionState → SessionState
unfolding with_entry
update_awaiting_reply prefix prompt_text now = with_entry prefix (prompt_entry now prompt_text)

unfoldable pub is_awaiting_reply : Bytes → SessionState → Bool
is_awaiting_reply prefix s = is_some_and (get prefix s.by_prefix) (λ e. e.awaiting_reply)

-- `timeout` is in milliseconds.
unfoldable pub awaiting_reply_expired : Bytes → ℕ → ℕ → SessionState → Bool
awaiting_reply_expired prefix timeout now s =
    is_some_and (get prefix s.by_prefix >>= λ e. e.awaiting_reply_since)
      (λ since. leb timeout (now - since))

unfoldable pub set_last_workflow_reply : Bytes → Bytes → ℕ → SessionState → SessionState
unfolding with_entry
set_last_workflow_reply prefix text now =
    with_entry prefix (λ e. record e { last_workflow_reply = some (text, now) })

abbrev pub is_recent : Bytes → ℕ → ℕ → Option (Bytes × ℕ) → Bool
is_recent text window now none = false
is_recent text window now (some (t, at)) = t == text && ltb (now - at) (secs window)

unfoldable pub is_recent_workflow_reply : Bytes → Bytes → ℕ → SessionState → Bool
is_recent_workflow_reply prefix text now s =
    is_some_and (get prefix s.by_prefix)
      (λ e. is_recent text workflow_reply_dedup now e.last_workflow_reply)

unfoldable pub set_full_pubkey : Bytes → Bytes → SessionState → SessionState
unfolding with_entry
set_full_pubkey prefix pubkey = with_entry prefix (λ e. record e { full_pubkey = some pubkey })

unfoldable pub get_full_pubkey : Bytes → SessionState → Option Bytes
get_full_pubkey prefix s = get prefix s.by_prefix >>= λ e. e.full_pubkey

unfoldable pub clear_last_message : Bytes → SessionState → SessionState
unfolding with_entry
clear_last_message prefix = with_entry prefix (λ e. record e { last_message = none })

-- The loop that takes expired identities off the front.
unfoldable pub evict : ℕ → List Seen → List Seen
evict now [] = []
evict now ((ts, t, seen) ∷ rest) =
    let later = evict now rest in
    if leb (secs timestamp_dedup) (now - seen) then later else (ts, t, seen) ∷ rest

unfoldable pub has_seen : ℕ → Bytes → List Seen → Bool
has_seen timestamp text [] = false
has_seen timestamp text ((ts, t, seen) ∷ rest) =
    (ts == timestamp && t == text) || has_seen timestamp text rest

-- `pop_front` once the cap is passed.
unfoldable pub cap_recent : List Seen → List Seen
cap_recent [] = []
cap_recent (m ∷ rest) = if ltb recent_msg_cap (length (m ∷ rest)) then rest else m ∷ rest

unfoldable pub dedup_recent : ℕ → Bytes → ℕ → List Seen → List Seen × Bool
unfolding evict has_seen cap_recent
dedup_recent timestamp text now recent =
    let live = evict now recent in
    if has_seen timestamp text live
    then (live, true)
    else (cap_recent (live ++ (timestamp, text, now) ∷ []), false)

unfoldable pub dedup_by_timestamp : Bytes → ℕ → Bytes → ℕ → SessionState → SessionState × Bool
unfolding dedup_recent with_entry
dedup_by_timestamp prefix timestamp text now s =
    if timestamp == 0 then (s, false) else elim (get prefix s.by_prefix) [
      | none ↦ (s, false)
      | some entry ↦ (
        with_entry prefix
            (λ e. record e { recent_msgs = (dedup_recent timestamp text now e.recent_msgs).0 }) s,
        (dedup_recent timestamp text now entry.recent_msgs).1,
      )
    ]

unfoldable pub dedup_message : Bytes → Bytes → ℕ → SessionState → SessionState × Bool
unfolding with_entry
dedup_message prefix text now s = elim (get prefix s.by_prefix) [
  | none ↦ (s, false)
  | some entry ↦
      if is_recent text message_dedup now entry.last_message
      then (s, true)
      else (with_entry prefix (λ e. record e { last_message = some (text, now) }) s, false)
]

unfoldable pub mark_pending_protect : Bytes → ℕ → SessionState → SessionState
mark_pending_protect prefix now s = record s {
  pending_protect = insert prefix now (
      retain (λ _ inserted_at. ltb (now - inserted_at) (secs pending_protect_ttl))
        s.pending_protect);
}

unfoldable pub clear_pending_protect : Bytes → SessionState → SessionState
clear_pending_protect prefix s = record s { pending_protect = remove prefix s.pending_protect }

unfoldable pub is_pending_protect : Bytes → SessionState → Bool
is_pending_protect prefix s = is_some (get prefix s.pending_protect)

unfoldable pub should_request_contacts_catchup : ℕ → SessionState → Bool
should_request_contacts_catchup now s =
    is_none_or s.contacts_catchup_requested_at
      (λ at. leb (secs contacts_catchup_cooldown) (now - at))

unfoldable pub mark_contacts_catchup_requested : ℕ → SessionState → SessionState
mark_contacts_catchup_requested now s = record s { contacts_catchup_requested_at = some now }
