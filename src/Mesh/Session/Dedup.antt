-- ===== src/Mesh/Session/Dedup.antt =====
-- crates/bbs-mesh/src/session.rs: the duplicate filters, and the order in which
-- crates/bbs-mesh/src/transport.rs (`dispatch_message`) applies them.
use supply_drop_bbs.Prelude.{
  ℕ, ◌+◌, ◌<◌, ◌≡◌, ◌≢◌, inl, inr, Bool, true, false, not, ◌&&◌, Option, none, some, List, [], ◌∷◌,
  Bytes, ◌==◌, nat_eq, list_eq, if◌then◌else◌, arith, nat_beq_iff, beq_self, list_beq_iff,
  Option-cases, Bool-cases, refl, subst, sym,
}
use supply_drop_bbs.Prelude.Map.{get, modify, get-modify}
use supply_drop_bbs.Mesh.Session.{
  Seen, SessionEntry, SessionState, secs, timestamp_dedup, message_dedup, workflow_reply_dedup,
  is_recent, lookup, with_entry, dedup_recent, dedup_by_timestamp, dedup_message,
  is_recent_workflow_reply, prompt_entry, clear_last_message, set_last_workflow_reply,
  update_awaiting_reply,
}
use supply_drop_bbs.Mesh.Session.Recent.{In, Ordered, dedup_recent_sound}

-- The identities that the node of a prefix is remembered by.
abbrev pub recent_of : Bytes → SessionState → List Seen
recent_of p s = elim (get p s.by_prefix) [ none ↦ [] | some e ↦ e.recent_msgs ]

-- The part of `dispatch_message` that drops retransmissions: `true` where the message goes on.
unfoldable pub accept_message : Bytes → ℕ → Bytes → Bool → ℕ → SessionState → SessionState × Bool
accept_message prefix timestamp text awaiting now s =
    if not (timestamp == 0)
    then (let (s', dup) = dedup_by_timestamp prefix timestamp text now s in (s', not dup))
    else (let (s', dup) = dedup_message prefix text now s in
        if dup
        then (s', false)
        else (s', not (not awaiting && is_recent_workflow_reply prefix text now s')))

-- The state update at the end of `dispatch_message`, from the prompt that the host answered with.
unfoldable pub after_response : Bytes → Option Bytes → ℕ → SessionState → SessionState
after_response prefix prompt_text now s =
    let s' = update_awaiting_reply prefix prompt_text now s in
    elim prompt_text [ none ↦ s' | some _ ↦ clear_last_message prefix s' ]

-- What happens to a node's state between two of its messages.
pub data Event : Type 0 where
  message : Bytes → ℕ → Bytes → Bool → ℕ → Event
  response : Bytes → Option Bytes → ℕ → Event
  reply : Bytes → Bytes → ℕ → Event

unfoldable pub handle_event : Event → SessionState → SessionState
handle_event (message p ts text awaiting now) s = (accept_message p ts text awaiting now s).0
handle_event (response p prompt now) s = after_response p prompt now s
handle_event (reply p text now) s = set_last_workflow_reply p text now s

unfoldable pub run : List Event → SessionState → SessionState
run [] s = s
run (e ∷ es) s = run es (handle_event e s)

pub accept_message_decision :
    (p : Bytes) (ts : ℕ) (text : Bytes) (awaiting : Bool) (now : ℕ) (s : SessionState)
    → ts ≢ 0
    → lookup p s ≢ none
    → (accept_message p ts text awaiting now s).1 ≡ not (dedup_recent ts text now (recent_of p s)).1
unfolding accept_message dedup_by_timestamp lookup
accept_message_decision p ts text awaiting now s nz here = ground (arith, nat_beq_iff ts 0)

accept_message_unknown :
    (p : Bytes) (ts : ℕ) (text : Bytes) (awaiting : Bool) (now : ℕ) (s : SessionState)
    → lookup p s ≡ none
    → (accept_message p ts text awaiting now s).1 ≡ true
unfolding accept_message dedup_by_timestamp dedup_message is_recent_workflow_reply lookup
accept_message_unknown p ts text awaiting now s absent = ground arith

-- The last unstamped message of the node of a prefix, and the last answer to a prompt, with their
-- times.
abbrev pub last_message_of : Bytes → SessionState → Option (Bytes × ℕ)
last_message_of p s = elim (get p s.by_prefix) [ none ↦ none | some e ↦ e.last_message ]

abbrev pub last_reply_of : Bytes → SessionState → Option (Bytes × ℕ)
last_reply_of p s = elim (get p s.by_prefix) [ none ↦ none | some e ↦ e.last_workflow_reply ]

-- The text was kept at a time from which the window still runs.
abbrev pub KeptWithin : ℕ → Bytes → ℕ → Option (Bytes × ℕ) → Type 0
KeptWithin window text now kept = (at : ℕ) × (kept ≡ some (text, at)) × (now < at + secs window)

-- Why a message is dropped: the rule that its stamp, or the prompt, calls for has seen it.
pub data Reason (p : Bytes) (ts : ℕ) (text : Bytes) (awaiting : Bool) (now : ℕ) (s : SessionState)
    : Type 0 where
  stamped_again :
      ts ≢ 0
      → (seen : ℕ) × In (ts, text, seen) (recent_of p s) × (now < seen + secs timestamp_dedup)
      → Reason p ts text awaiting now s
  said_again :
      ts ≡ 0
      → KeptWithin message_dedup text now (last_message_of p s)
      → Reason p ts text awaiting now s
  answered_again :
      ts ≡ 0
      → awaiting ≡ false
      → KeptWithin workflow_reply_dedup text now (last_reply_of p s)
      → Reason p ts text awaiting now s

stamped_dropped :
    (p : Bytes) (ts : ℕ) (text : Bytes) (awaiting : Bool) (t now : ℕ) (s : SessionState)
    → ts ≢ 0
    → Ordered 0 (recent_of p s) t
    → (accept_message p ts text awaiting now s).1 ≡ false
    → (seen : ℕ) × In (ts, text, seen) (recent_of p s) × (now < seen + secs timestamp_dedup)
stamped_dropped p ts text awaiting t now s nz o dropped = elim (Option-cases (lookup p s)) [
  | inl absent ↦ absurd (no_entry absent)
  | inr (i, found) ↦
      dedup_recent_sound ts text t now (recent_of p s) o
        (ground (arith, accept_message_decision p ts text awaiting now s nz (ne_none i found)))
]
  where
    ne_none : (i : ℕ) → lookup p s ≡ some i → lookup p s ≢ none
    ne_none i found = λ h. cc

    no_entry : lookup p s ≡ none → ⊥
    no_entry absent = cc (accept_message_unknown p ts text awaiting now s absent)

is_recent-KeptWithin :
    (text : Bytes) (window now : ℕ) (kept : Option (Bytes × ℕ))
    → is_recent text window now kept ≡ true
    → KeptWithin window text now kept
is_recent-KeptWithin text window now none h = absurd (ground arith)
is_recent-KeptWithin text window now (some (t, at)) h =
    (at, ground (arith, list_beq_iff t text), ground arith)

unstamped_dropped :
    (p text : Bytes) (awaiting : Bool) (now : ℕ) (s : SessionState)
    → (accept_message p 0 text awaiting now s).1 ≡ false
    → Reason p 0 text awaiting now s
unfolding accept_message dedup_message is_recent_workflow_reply with_entry
unstamped_dropped p text awaiting now s dropped = elim (Option-cases (get p s.by_prefix)) [
  | inl absent ↦ absurd (ground arith)
  | inr (e, found) ↦ elim (Bool-cases (is_recent text message_dedup now e.last_message)) [
    | inl again ↦ said_again refl (
        rw (found, last_message_of)
          (is_recent-KeptWithin text message_dedup now e.last_message again))
    | inr new ↦
        let kept =
          get-modify p p (λ (e : SessionEntry). record e { last_message = some (text, now) })
            s.by_prefix in
        answered_again refl (ground (arith, kept, beq_self p)) (
          rw (found, last_reply_of)
            (is_recent-KeptWithin text workflow_reply_dedup now e.last_workflow_reply
              (ground (arith, kept, beq_self p))))
  ]
]

-- Where a node's remembered identities are in order, a message of it is dropped only for a reason: a
-- stamped one if the node sent the same stamp and text within that rule's window; an unstamped one
-- if its text is the node's last unstamped message, within ten seconds, or, where the host awaits
-- no reply, the node's last answer to a prompt, within ten seconds too.
pub accept_message_sound :
    (p : Bytes) (ts : ℕ) (text : Bytes) (awaiting : Bool) (t now : ℕ) (s : SessionState)
    → Ordered 0 (recent_of p s) t
    → (accept_message p ts text awaiting now s).1 ≡ false
    → Reason p ts text awaiting now s
accept_message_sound p ts text awaiting t now s o dropped = elim (Bool-cases (ts == 0)) [
  | inl zero_stamp ↦
      let e : ts ≡ 0 = ground (arith, nat_beq_iff ts 0) in
      subst (λ x. Reason p x text awaiting now s) (sym e)
        (unstamped_dropped p text awaiting now s
          (subst (λ x. (accept_message p x text awaiting now s).1 ≡ false) e dropped))
  | inr stamped ↦
      let nz : ts ≢ 0 = ground (arith, nat_beq_iff ts 0) in
      stamped_again nz (stamped_dropped p ts text awaiting t now s nz o dropped)
]

-- After a prompt the user's unstamped answer is accepted, also where it repeats the last message.
pub accept_message-after_prompt :
    (p text prompt : Bytes) (at now : ℕ) (s : SessionState)
    → (accept_message p 0 text true now (after_response p (some prompt) at s)).1 ≡ true
unfolding accept_message after_response dedup_message update_awaiting_reply clear_last_message
    with_entry
accept_message-after_prompt p text prompt at now s =
    let m = modify p (prompt_entry at (some prompt)) s.by_prefix in
    ground (
      arith,
      get-modify p p (prompt_entry at (some prompt)) s.by_prefix,
      get-modify p p (λ (e : SessionEntry). record e { last_message = none }) m,
      beq_self p,
    )

-- An unstamped message of a node with a session that was accepted is dropped when it arrives again
-- within ten seconds, if nothing else happened in between.
pub accept_message-repeat :
    (p text : Bytes) (awaiting awaiting' : Bool) (at now : ℕ) (s : SessionState)
    → lookup p s ≢ none
    → (accept_message p 0 text awaiting at s).1 ≡ true
    → now < at + secs message_dedup
    → (accept_message p 0 text awaiting' now (accept_message p 0 text awaiting at s).0).1 ≡ false
unfolding accept_message dedup_message with_entry lookup
accept_message-repeat p text awaiting awaiting' at now s here new live = ground (
  arith,
  get-modify p p (λ (e : SessionEntry). record e { last_message = some (text, at) }) s.by_prefix,
  beq_self p,
  beq_self text,
)
