-- ===== src/Mesh/Session/Traffic.antt =====
-- crates/bbs-mesh/src/session.rs and dispatch_message in crates/bbs-mesh/src/transport.rs: what one
-- event does to the identities that a node's messages have left.
use supply_drop_bbs.Prelude.{
  ℕ, suc, ◌+◌, ◌<◌, ◌≡◌, ◌≢◌, inl, inr, refl, Bool, Option, none, some, List, [], ◌∷◌, Bytes, ◌==◌,
  nat_eq, list_eq, if◌then◌else◌, arith, ◌∙◌, nat_beq_iff, list_beq_iff, Option-cases, Bool-cases,
}
use supply_drop_bbs.Prelude.Map.{get, get-modify}
use supply_drop_bbs.Mesh.Session.{
  SessionEntry, SessionState, secs, timestamp_dedup, recent_msg_cap, lookup, with_entry,
  dedup_recent, dedup_by_timestamp, dedup_message, prompt_entry, clear_last_message,
  set_last_workflow_reply, update_awaiting_reply,
}
use supply_drop_bbs.Mesh.Session.Recent.{Within, Within-mono, Within-dedup_recent}
use supply_drop_bbs.Mesh.Session.Dedup.{
  recent_of, accept_message, after_response, Event, message, response, reply, handle_event,
}

pub recent_of-dedup_by_timestamp :
    (p q : Bytes) (ts : ℕ) (text : Bytes) (now : ℕ) (s : SessionState)
    → ts ≢ 0
    → lookup p s ≢ none
    → recent_of q (dedup_by_timestamp p ts text now s).0
      ≡ (if p == q then (dedup_recent ts text now (recent_of p s)).0 else recent_of q s)
unfolding dedup_by_timestamp with_entry lookup
recent_of-dedup_by_timestamp p q ts text now s nz here = ground (
  arith,
  get-modify p q
      (λ (e : SessionEntry). record e { recent_msgs = (dedup_recent ts text now e.recent_msgs).0 })
      s.by_prefix,
  nat_beq_iff ts 0,
  list_beq_iff p q,
)

abbrev bump : Bytes → Bytes → ℕ → ℕ
bump p q ts = if ts == 0 then 0 else if q == p then 1 else 0

abbrev pub is_from : Bytes → Event → ℕ
is_from p (message q ts text awaiting now) = bump p q ts
is_from p _ = 0

-- The stamped messages of one node among the events.
abbrev pub stamped : Bytes → List Event → ℕ
stamped p [] = 0
stamped p (e ∷ es) = is_from p e + stamped p es

abbrev pub Before : ℕ → Event → Type 0
Before end (message q ts text awaiting now) = now < end
Before end _ = Unit

recent_of-with_entry :
    (p q : Bytes) (f : SessionEntry → SessionEntry) (s : SessionState)
    → ((e : SessionEntry) → (f e).recent_msgs ≡ e.recent_msgs)
    → recent_of q (with_entry p f s) ≡ recent_of q s
unfolding with_entry
recent_of-with_entry p q f s same = elim (Option-cases (get q s.by_prefix)) [
  | inl absent ↦ ground (arith, get-modify p q f s.by_prefix)
  | inr (e, found) ↦ ground (arith, get-modify p q f s.by_prefix, same e)
]

prompt_entry_keeps :
    (now : ℕ) (prompt : Option Bytes) (e : SessionEntry)
    → (prompt_entry now prompt e).recent_msgs ≡ e.recent_msgs
unfolding prompt_entry
prompt_entry_keeps now none e = refl
prompt_entry_keeps now (some text) e = ground arith

recent_of-after_response :
    (p q : Bytes) (prompt : Option Bytes) (now : ℕ) (s : SessionState)
    → recent_of q (after_response p prompt now s) ≡ recent_of q s
unfolding after_response update_awaiting_reply clear_last_message
recent_of-after_response p q none now s =
    recent_of-with_entry p q (prompt_entry now none) s (prompt_entry_keeps now none)
recent_of-after_response p q (some text) now s =
    recent_of-with_entry p q (λ e. record e { last_message = none })
      (with_entry p (prompt_entry now (some text)) s) (λ e. refl)
    ∙ recent_of-with_entry p q (prompt_entry now (some text)) s (prompt_entry_keeps now (some text))

recent_of-set_last_workflow_reply :
    (p q text : Bytes) (now : ℕ) (s : SessionState)
    → recent_of q (set_last_workflow_reply p text now s) ≡ recent_of q s
unfolding set_last_workflow_reply
recent_of-set_last_workflow_reply p q text now s =
    recent_of-with_entry p q (λ e. record e { last_workflow_reply = some (text, now) }) s
      (λ e. refl)

recent_of-dedup_message :
    (p q text : Bytes) (now : ℕ) (s : SessionState)
    → recent_of q (dedup_message p text now s).0 ≡ recent_of q s
unfolding dedup_message
recent_of-dedup_message p q text now s = ground (
  arith,
  recent_of-with_entry p q (λ (e : SessionEntry). record e { last_message = some (text, now) }) s
      (λ e. refl),
)

recent_of-dedup_any :
    (p q : Bytes) (ts : ℕ) (text : Bytes) (now : ℕ) (s : SessionState)
    → recent_of p (dedup_by_timestamp q ts text now s).0 ≡ (
        if ts == 0
        then recent_of p s
        else if q == p
        then elim (get q s.by_prefix) [
          | none ↦ []
          | some e ↦ (dedup_recent ts text now e.recent_msgs).0
        ]
        else recent_of p s)
unfolding dedup_by_timestamp with_entry
recent_of-dedup_any p q ts text now s = ground (
  arith,
  get-modify q p
      (λ (e : SessionEntry). record e { recent_msgs = (dedup_recent ts text now e.recent_msgs).0 })
      s.by_prefix,
  list_beq_iff q p,
)

Within-recorded :
    (k ts : ℕ) (text : Bytes) (at : ℕ) (ts' : ℕ) (text' : Bytes) (now : ℕ) (o : Option SessionEntry)
    → now < at + secs timestamp_dedup
    → 1 + k < recent_msg_cap
    → Within k (ts, text, at) (elim o [ none ↦ [] | some e ↦ e.recent_msgs ])
    → Within
        (1 + k)
        (ts, text, at)
        (elim o [ none ↦ [] | some e ↦ (dedup_recent ts' text' now e.recent_msgs).0 ])
Within-recorded k ts text at ts' text' now none live room w = elim w [ ]
Within-recorded k ts text at ts' text' now (some e) live room w =
    Within-mono (suc k) (1 + k) _ _ (omega arith)
      (Within-dedup_recent k ts text at ts' text' now e.recent_msgs live (omega arith) w)

Within-dedup_by_timestamp :
    (k ts : ℕ) (text : Bytes) (at : ℕ) (p q : Bytes) (ts' : ℕ) (text' : Bytes) (now : ℕ)
    (s : SessionState)
    → now < at + secs timestamp_dedup
    → bump p q ts' + k < recent_msg_cap
    → Within k (ts, text, at) (recent_of p s)
    → Within
        (bump p q ts' + k)
        (ts, text, at)
        (recent_of p (dedup_by_timestamp q ts' text' now s).0)
Within-dedup_by_timestamp k ts text at p q ts' text' now s live room w =
    rw (recent_of-dedup_any p q ts' text' now s) (elim (Bool-cases (ts' == 0)) [
      | inl z ↦ rw z (Within-mono k (0 + k) _ _ (omega arith) w)
      | inr nz ↦ elim (Bool-cases (q == p)) [
        | inr other ↦ rw (nz, other) (Within-mono k (0 + k) _ _ (omega arith) w)
        | inl same ↦
            let e : q ≡ p = (list_beq_iff q p).0 same in
            rw (nz, same)
              (Within-recorded k ts text at ts' text' now (get q s.by_prefix) live
                (rw (nz, same) at room) (rw e w))
      ]
    ])

pub recent_of-accept_message :
    (p q : Bytes) (ts : ℕ) (text : Bytes) (awaiting : Bool) (now : ℕ) (s : SessionState)
    → recent_of p (accept_message q ts text awaiting now s).0
      ≡ (if ts == 0 then recent_of p s else recent_of p (dedup_by_timestamp q ts text now s).0)
unfolding accept_message
recent_of-accept_message p q ts text awaiting now s =
    ground (arith, recent_of-dedup_message q p text now s)

-- One event moves an identity by a place at most, and only a stamped message of its node does.
pub Within-handle_event :
    (k ts : ℕ) (text : Bytes) (at : ℕ) (p : Bytes) (ev : Event) (s : SessionState)
    → Before (at + secs timestamp_dedup) ev
    → is_from p ev + k < recent_msg_cap
    → Within k (ts, text, at) (recent_of p s)
    → Within (is_from p ev + k) (ts, text, at) (recent_of p (handle_event ev s))
unfolding handle_event
Within-handle_event k ts text at p (message q ts' text' awaiting now) s live room w =
    rw (recent_of-accept_message p q ts' text' awaiting now s) (elim (Bool-cases (ts' == 0)) [
      | inl z ↦ rw z (Within-mono k (0 + k) _ _ (omega arith) w)
      | inr nz ↦
          let step = Within-dedup_by_timestamp k ts text at p q ts' text' now s live room w in
          rw nz (rw nz at step)
    ])
Within-handle_event k ts text at p (response q prompt now) s live room w =
    rw (recent_of-after_response q p prompt now s) (Within-mono k (0 + k) _ _ (omega arith) w)
Within-handle_event k ts text at p (reply q text' now) s live room w =
    rw (recent_of-set_last_workflow_reply q p text' now s)
      (Within-mono k (0 + k) _ _ (omega arith) w)
