-- ===== src/Mesh/Session/Invariant.antt =====
-- crates/bbs-mesh/src/session.rs: the invariant of every history of calls.
use supply_drop_bbs.Prelude.{
  ℕ, ◌≤◌, ◌≡◌, refl, true, false, Option, none, some, Bytes, ◌==◌, nat_eq, list_eq, arith,
  Option-cases, Bool-cases, ◌⊎◌, inl, inr,
}
use supply_drop_bbs.Prelude.Map.{
  get, insert, get-insert, get-remove, IsMap, IsMap-insert, IsMap-remove, IsMap-retain,
}
use supply_drop_bbs.Mesh.Session.{
  SessionEntry, SessionState, is_recent, message_dedup, empty_state, new_entry, get_or_insert,
  lookup, remove_by_prefix, with_entry, prompt_entry, update_awaiting_reply,
  set_last_workflow_reply, set_full_pubkey, clear_last_message, dedup_recent, dedup_by_timestamp,
  dedup_message, mark_pending_protect, clear_pending_protect, mark_contacts_catchup_requested,
}
use supply_drop_bbs.Mesh.Session.Index.{
  IsIndexed-empty, get_or_insert-IsIndexed, remove_by_prefix-IsIndexed,
}
use supply_drop_bbs.Mesh.Session.Workflow.{IsStaged, prompt_entry-IsStaged}
use supply_drop_bbs.Mesh.Session.Recent.{Ordered-dedup_recent, length-dedup_recent}
use supply_drop_bbs.Mesh.Session.History.{
  Op, connect, disconnect, prompt, replied, pubkey, forget, stamped, unstamped, protect, unprotect,
  catchup, call, IsMinted, Reach, start, next, IsValidEntry, IsValid,
}
use supply_drop_bbs.Mesh.Session.Entries.{later, with_entry-IsValid, new_entry-IsValid}

-- The map of the entries aside, what a call may change.
same_entries :
    (t now : ℕ) (s s' : SessionState)
    → t ≤ now
    → s'.by_prefix ≡ s.by_prefix
    → s'.by_session ≡ s.by_session
    → IsMap s'.pending_protect
    → IsValid t s
    → IsValid now s'
unfolding lookup
same_entries t now s s' h e e' m v = record {
  indexed = record {
    forth = λ p i f. rw e' (v.indexed.forth p i (rw e at f));
    back = λ p i f. rw e (v.indexed.back p i (rw e' at f));
  };
  entries = λ p x f. later t now x h (v.entries p x (rw e at f));
  prefixes = rw e v.prefixes;
  sessions = rw e' v.sessions;
  pending = m;
}

connect-IsValid :
    (t now : ℕ) (p : Bytes) (id : ℕ) (s : SessionState)
    → t ≤ now
    → get id s.by_session ≡ none
    → IsValid t s
    → IsValid now (get_or_insert p id s).0
unfolding get_or_insert
connect-IsValid t now p id s h fresh v = elim (Option-cases (get p s.by_prefix)) [
  | inr (e, found) ↦ rw (found, get_or_insert) (same_entries t now s s h refl refl v.pending v)
  | inl absent ↦
      rw (absent, get_or_insert)
        (record {
          indexed = rw (absent, get_or_insert) at (get_or_insert-IsIndexed p id s fresh v.indexed);
          entries = λ q e found. kept q e (Bool-cases (p == q)) found;
          prefixes = IsMap-insert p (new_entry id) s.by_prefix v.prefixes;
          sessions = IsMap-insert id p s.by_session v.sessions;
          pending = v.pending;
        })
]
  where
    kept :
        (q : Bytes) (e : SessionEntry)
        → ((p == q) ≡ true) ⊎ ((p == q) ≡ false)
        → get q (insert p (new_entry id) s.by_prefix) ≡ some e
        → IsValidEntry now e
    kept q e (inl same) found =
        let is_new : new_entry id ≡ e = ground (arith, get-insert p q (new_entry id) s.by_prefix) in
        rw (← is_new) (new_entry-IsValid now id)
    kept q e (inr other) found =
        later t now e h (v.entries q e (ground (arith, get-insert p q (new_entry id) s.by_prefix)))

disconnect-IsValid :
    (t now : ℕ) (p : Bytes) (s : SessionState)
    → t ≤ now
    → IsValid t s
    → IsValid now (remove_by_prefix p s).0
unfolding remove_by_prefix
disconnect-IsValid t now p s h v = elim (Option-cases (get p s.by_prefix)) [
  | inl absent ↦
      rw (absent, remove_by_prefix)
        (same_entries t now s _ h refl refl (IsMap-remove p s.pending_protect v.pending) v)
  | inr (entry, found) ↦
      rw (found, remove_by_prefix)
        (record {
          indexed = rw (found, remove_by_prefix) at (remove_by_prefix-IsIndexed p s v.indexed);
          entries = λ q e there.
              later t now e h (v.entries q e (ground (arith, get-remove p q s.by_prefix)));
          prefixes = IsMap-remove p s.by_prefix v.prefixes;
          sessions = IsMap-remove entry.session_id s.by_session v.sessions;
          pending = IsMap-remove p s.pending_protect v.pending;
        })
]

-- A write to what the invariant does not speak of.
plain_write :
    (t now : ℕ) (p : Bytes) (f : SessionEntry → SessionEntry) (s : SessionState)
    → t ≤ now
    → ((e : SessionEntry) → (f e).session_id ≡ e.session_id)
    → ((e : SessionEntry) → IsStaged e → IsStaged (f e))
    → ((e : SessionEntry) → (f e).recent_msgs ≡ e.recent_msgs)
    → IsValid t s
    → IsValid now (with_entry p f s)
plain_write t now p f s h same staged recent v =
    with_entry-IsValid t now p f s h same
      (λ e w. record {
        staged = staged e w.staged;
        ordered = rw (recent e) w.ordered;
        capped = rw (recent e) w.capped;
      })
      v

prompt_write :
    (now : ℕ) (text : Option Bytes) (e : SessionEntry)
    → ((prompt_entry now text e).session_id ≡ e.session_id)
      × ((prompt_entry now text e).recent_msgs ≡ e.recent_msgs)
unfolding prompt_entry
prompt_write now none e = (refl, refl)
prompt_write now (some text) e = ground arith

stamped-IsValid :
    (t now : ℕ) (p : Bytes) (ts : ℕ) (text : Bytes) (s : SessionState)
    → t ≤ now
    → IsValid t s
    → IsValid now (dedup_by_timestamp p ts text now s).0
unfolding dedup_by_timestamp
stamped-IsValid t now p ts text s h v = elim (Bool-cases (ts == 0)) [
  | inl z ↦ rw (z, dedup_by_timestamp) (same_entries t now s s h refl refl v.pending v)
  | inr nz ↦ elim (Option-cases (get p s.by_prefix)) [
    | inl absent ↦
        rw (nz, absent, dedup_by_timestamp) (same_entries t now s s h refl refl v.pending v)
    | inr (found_entry, found) ↦
        rw (nz, found, dedup_by_timestamp)
          (with_entry-IsValid t now p
            (λ e. record e { recent_msgs = (dedup_recent ts text now e.recent_msgs).0 }) s h
            (λ e. refl)
            (λ e w. record {
              staged = record { since = w.staged.since; prompt = w.staged.prompt };
              ordered = Ordered-dedup_recent ts text now now e.recent_msgs (omega arith) w.ordered;
              capped = length-dedup_recent ts text now e.recent_msgs w.capped;
            })
            v)
  ]
]

unstamped-IsValid :
    (t now : ℕ) (p text : Bytes) (s : SessionState)
    → t ≤ now
    → IsValid t s
    → IsValid now (dedup_message p text now s).0
unfolding dedup_message
unstamped-IsValid t now p text s h v = elim (Option-cases (get p s.by_prefix)) [
  | inl absent ↦ rw (absent, dedup_message) (same_entries t now s s h refl refl v.pending v)
  | inr (entry, found) ↦ elim (Bool-cases (is_recent text message_dedup now entry.last_message)) [
    | inl dup ↦ rw (found, dup, dedup_message) (same_entries t now s s h refl refl v.pending v)
    | inr new ↦
        rw (found, new, dedup_message)
          (plain_write t now p (λ e. record e { last_message = some (text, now) }) s h (λ e. refl)
            (λ e w. record { since = w.since; prompt = w.prompt }) (λ e. refl) v)
  ]
]

-- A call at a later time, with a fresh identifier, keeps a state valid.
call-IsValid :
    (op : Op) (t now : ℕ) (s : SessionState)
    → t ≤ now
    → IsMinted op s
    → IsValid t s
    → IsValid now (call op now s)
unfolding call update_awaiting_reply set_last_workflow_reply set_full_pubkey clear_last_message
    mark_pending_protect clear_pending_protect mark_contacts_catchup_requested
call-IsValid (connect p id) t now s h m v = connect-IsValid t now p id s h m v
call-IsValid (disconnect p) t now s h m v = disconnect-IsValid t now p s h v
call-IsValid (prompt p text) t now s h m v =
    plain_write t now p (prompt_entry now text) s h (λ e. (prompt_write now text e).0)
      (λ e. prompt_entry-IsStaged now text e) (λ e. (prompt_write now text e).1) v
call-IsValid (replied p text) t now s h m v =
    plain_write t now p (λ e. record e { last_workflow_reply = some (text, now) }) s h (λ e. refl)
      (λ e w. record { since = w.since; prompt = w.prompt }) (λ e. refl) v
call-IsValid (pubkey p key) t now s h m v =
    plain_write t now p (λ e. record e { full_pubkey = some key }) s h (λ e. refl)
      (λ e w. record { since = w.since; prompt = w.prompt }) (λ e. refl) v
call-IsValid (forget p) t now s h m v =
    plain_write t now p (λ e. record e { last_message = none }) s h (λ e. refl)
      (λ e w. record { since = w.since; prompt = w.prompt }) (λ e. refl) v
call-IsValid (stamped p ts text) t now s h m v = stamped-IsValid t now p ts text s h v
call-IsValid (unstamped p text) t now s h m v = unstamped-IsValid t now p text s h v
call-IsValid (protect p) t now s h m v =
    same_entries t now s _ h refl refl
      (IsMap-insert p now _ (IsMap-retain _ s.pending_protect v.pending)) v
call-IsValid (unprotect p) t now s h m v =
    same_entries t now s _ h refl refl (IsMap-remove p s.pending_protect v.pending) v
call-IsValid catchup t now s h m v = same_entries t now s _ h refl refl v.pending v

IsValid-empty : IsValid 0 empty_state
unfolding get
IsValid-empty = record {
  indexed = IsIndexed-empty;
  entries = λ p e found. absurd (cc);
  prefixes = tt;
  sessions = tt;
  pending = tt;
}

-- In every state that calls reach, if each new session gets an identifier that no session of the
-- state has: the two maps mirror one another, no key is held twice, each node's workflow flag,
-- clock and prompt agree, and its remembered identities are in order and at most sixteen.
pub Reach-IsValid : {now : ℕ} {s : SessionState} → Reach now s → IsValid now s
Reach-IsValid start = IsValid-empty
Reach-IsValid (next {t} {s = before} op now h m r e) =
    rw e (call-IsValid op t now before h m (Reach-IsValid r))
