-- ===== src/Mesh/Session/Resend.antt =====
-- crates/bbs-mesh/src/session.rs and the filters of `dispatch_message` in
-- crates/bbs-mesh/src/transport.rs: how long a stamped message is remembered.
use supply_drop_bbs.Prelude.{
  ℕ, ◌+◌, ◌<◌, ◌≡◌, ◌≢◌, inl, inr, Bool, true, false, Option, none, some, List, [], ◌∷◌, Bytes,
  ◌==◌, nat_eq, list_eq, ◌>>=◌, arith, All, nat_beq_iff, beq_self, Bool-cases,
}
use supply_drop_bbs.Prelude.Map.{get}
use supply_drop_bbs.Mesh.Session.{
  Seen, SessionEntry, SessionState, secs, timestamp_dedup, recent_msg_cap, lookup, dedup_recent,
  evict, has_seen,
}
use supply_drop_bbs.Mesh.Session.Recent.{
  Within, Within-new, Within-cap, Within-mono, has_seen-Within, Within-evict,
}
use supply_drop_bbs.Mesh.Session.Dedup.{
  recent_of, accept_message, Event, handle_event, run, accept_message_decision,
}
use supply_drop_bbs.Mesh.Session.Traffic.{
  recent_of-dedup_by_timestamp, is_from, stamped, Before, recent_of-accept_message,
  Within-handle_event,
}

-- An identity stays remembered through events within its window, up to the cap.
Within-run :
    (k ts : ℕ) (text : Bytes) (at : ℕ) (p : Bytes) (events : List Event) (s : SessionState)
    → All (Before (at + secs timestamp_dedup)) events
    → stamped p events + k < recent_msg_cap
    → Within k (ts, text, at) (recent_of p s)
    → Within (stamped p events + k) (ts, text, at) (recent_of p (run events s))
unfolding run
Within-run k ts text at p [] s live room w = Within-mono k (0 + k) _ _ (omega arith) w
Within-run k ts text at p (ev ∷ events) s live room w =
    let moved = Within-handle_event k ts text at p ev s live.0 (omega arith) w in
    Within-mono (stamped p events + (is_from p ev + k)) _ _ _ (omega arith) (
      Within-run (is_from p ev + k) ts text at p events (handle_event ev s) live.1 (omega arith)
        moved)

dedup_recent_new :
    (ts : ℕ) (text : Bytes) (now : ℕ) (l : List Seen)
    → (dedup_recent ts text now l).1 ≡ false
    → Within 0 (ts, text, now) (dedup_recent ts text now l).0
unfolding dedup_recent
dedup_recent_new ts text now l h = elim (Bool-cases (has_seen ts text (evict now l))) [
  | inl e ↦ absurd (ground arith)
  | inr e ↦ rw e (Within-cap 0 _ _ (omega arith) (Within-new (ts, text, now) (evict now l)))
]

dedup_recent_again :
    (k ts : ℕ) (text : Bytes) (at now : ℕ) (l : List Seen)
    → now < at + secs timestamp_dedup
    → Within k (ts, text, at) l
    → (dedup_recent ts text now l).1 ≡ true
unfolding dedup_recent
dedup_recent_again k ts text at now l live w =
    rw (has_seen-Within k ts text at (evict now l) (Within-evict k now ts text at l live w))

Within-entry :
    (k : ℕ) (m : Seen) (o : Option SessionEntry)
    → Within k m (elim o [ none ↦ [] | some e ↦ e.recent_msgs ])
    → (o >>= λ e. some e.session_id) ≢ none
Within-entry k m none w = elim w [ ]
Within-entry k m (some e) w = λ h. cc

Within-lookup :
    (k : ℕ) (m : Seen) (p : Bytes) (s : SessionState)
    → Within k m (recent_of p s)
    → lookup p s ≢ none
unfolding lookup
Within-lookup k m p s w = Within-entry k m (get p s.by_prefix) w

-- A message that was accepted stands last among the identities of its node.
Within-accepted :
    (p : Bytes) (ts : ℕ) (text : Bytes) (awaiting : Bool) (at : ℕ) (s : SessionState)
    → ts ≢ 0
    → lookup p s ≢ none
    → (accept_message p ts text awaiting at s).1 ≡ true
    → Within 0 (ts, text, at) (recent_of p (accept_message p ts text awaiting at s).0)
Within-accepted p ts text awaiting at s nz here new =
    let fresh =
      dedup_recent_new ts text at (recent_of p s)
        (ground (arith, accept_message_decision p ts text awaiting at s nz here)) in
    rw (recent_of-accept_message p p ts text awaiting at s) (
      rw (recent_of-dedup_by_timestamp p p ts text at s nz here) (rw (zero_test, beq_self p) fresh))
  where
    zero_test : (ts == 0) ≡ false
    zero_test = ground (arith, nat_beq_iff ts 0)

-- A stamped message of a node with a session that was accepted is dropped when it arrives again
-- within the window, whatever other messages, replies and prompts lie between, if they too are
-- within the window and its node sent at most fifteen stamped messages among them.
pub accept_message-resend :
    (p : Bytes) (ts : ℕ) (text : Bytes) (awaiting awaiting' : Bool) (at now : ℕ)
    (events : List Event) (s : SessionState)
    → ts ≢ 0
    → lookup p s ≢ none
    → (accept_message p ts text awaiting at s).1 ≡ true
    → All (Before (at + secs timestamp_dedup)) events
    → stamped p events < recent_msg_cap
    → now < at + secs timestamp_dedup
    → (accept_message p ts text awaiting' now
        (run events (accept_message p ts text awaiting at s).0)).1
      ≡ false
accept_message-resend p ts text awaiting awaiting' at now events s nz here new before room live =
    let s' = (accept_message p ts text awaiting at s).0 in
    let w =
      Within-run 0 ts text at p events s' before (omega arith)
        (Within-accepted p ts text awaiting at s nz here new) in
    let again = dedup_recent_again _ ts text at now (recent_of p (run events s')) live w in
    rw
      (accept_message_decision p ts text awaiting' now (run events s') nz (Within-lookup _ _ p _ w))
      (rw again)
