-- ===== src/Mesh/Session/Tests.antt =====
-- crates/bbs-mesh/src/session.rs: runs of the session state on concrete inputs.
use supply_drop_bbs.Prelude.{
  ℕ, ◌-◌, ◌≤◌, ◌≡◌, refl, Bool, true, false, none, some, List, [], ◌∷◌, Bytes, codes, leb, arith,
  nat_eq, list_eq,
}
use supply_drop_bbs.Prelude.Map.{get, insert, remove, modify}
use supply_drop_bbs.Mesh.Session.{
  SessionState, secs, contacts_catchup_cooldown, empty_state, new_entry, get_or_insert, lookup,
  with_entry, dedup_recent, dedup_by_timestamp, dedup_message, awaiting_reply_expired,
  is_pending_protect, mark_pending_protect, should_request_contacts_catchup,
  mark_contacts_catchup_requested, is_recent_workflow_reply,
}
use supply_drop_bbs.Mesh.Session.Dedup.{
  recent_of, accept_message, after_response, Event, message, response, reply, run, Reason,
  accept_message_sound, accept_message-after_prompt, accept_message-repeat,
}
use supply_drop_bbs.Mesh.Session.Resend.{accept_message-resend}
use supply_drop_bbs.Mesh.Session.Workflow.{prompt_again, awaiting_reply_expired-prompt_again}
use supply_drop_bbs.Mesh.Session.Protect.{
  is_pending_protect-mark, request_catchup, sent_requests, Apart, sent_requests-Apart,
}
use supply_drop_bbs.Mesh.Session.History.{connect, stamped, call, Reach, start, next, IsValid}
use supply_drop_bbs.Mesh.Session.Invariant.{Reach-IsValid}

abbrev node : Bytes
node = 1 ∷ 2 ∷ 3 ∷ 4 ∷ 5 ∷ 6 ∷ []

abbrev other_node : Bytes
other_node = 6 ∷ 5 ∷ 4 ∷ 3 ∷ 2 ∷ 1 ∷ []

-- One node with a session.
abbrev connected : SessionState
connected = record empty_state { by_prefix = (node, new_entry 7) ∷ []; by_session = (7, node) ∷ [] }

connect_run : (get_or_insert node 7 empty_state).0 ≡ connected
unfolding get_or_insert get insert remove
connect_run = refl

reached : Reach 9 (call (stamped node 40 (codes "help")) 9 (call (connect node 7) 5 empty_state))
unfolding get
reached =
    next (stamped node 40 (codes "help")) 9 (omega arith) tt
      (next (connect node 7) 5 (omega arith) refl start refl) refl

Reach-IsValid_example :
    IsValid 9 (call (stamped node 40 (codes "help")) 9 (call (connect node 7) 5 empty_state))
Reach-IsValid_example = Reach-IsValid reached

abbrev between : List Event
between =
    message node 41 (codes "k") false 2000
    ∷ response node (some (codes "Password:")) 2500
    ∷ message other_node 3 (codes "k") false 2600
    ∷ reply node (codes "k") 2700
    ∷ []

first_accepted : (accept_message node 40 (codes "help") false 1000 connected).1 ≡ true
unfolding accept_message dedup_by_timestamp dedup_recent with_entry get modify
first_accepted = refl

known : (lookup node connected ≡ none) → ⊥
unfolding lookup get
known e = cc

accept_message-resend_example :
    (accept_message node 40
      (codes "help")
      true
      60000
      (run between (accept_message node 40 (codes "help") false 1000 connected).0)).1
    ≡ false
accept_message-resend_example =
    accept_message-resend node 40 (codes "help") false true 1000 60000 between connected
      (omega arith) known first_accepted (omega arith) (omega arith) (omega arith)

-- A node that has sent one message.
abbrev has_sent : SessionState
has_sent = record empty_state {
  by_prefix = (node, record (new_entry 7) { recent_msgs = (40, codes "help", 1000) ∷ [] }) ∷ [];
  by_session = (7, node) ∷ [];
}

dropped : (accept_message node 40 (codes "help") false 5000 has_sent).1 ≡ false
unfolding accept_message dedup_by_timestamp dedup_recent with_entry get modify
dropped = refl

in_order : (0 ≤ 1000) × (1000 ≤ 1000)
in_order = omega arith

recent_run : recent_of node has_sent ≡ (40, codes "help", 1000) ∷ []
unfolding get
recent_run = refl

accept_message_sound_example : Reason node 40 (codes "help") false 5000 has_sent
unfolding get
accept_message_sound_example =
    accept_message_sound node 40 (codes "help") false 1000 5000 has_sent in_order dropped

accept_message-after_prompt_example :
    (accept_message node 0
      (codes "secret")
      true
      1100
      (after_response node (some (codes "Confirm your password:")) 1000 connected)).1
    ≡ true
accept_message-after_prompt_example =
    accept_message-after_prompt node (codes "secret") (codes "Confirm your password:") 1000 1100
      connected

unstamped_accepted : (accept_message node 0 (codes "k") false 1000 connected).1 ≡ true
unfolding accept_message dedup_message with_entry is_recent_workflow_reply get modify
unstamped_accepted = refl

accept_message-repeat_example :
    (accept_message node 0
      (codes "k")
      false
      2000
      (accept_message node 0 (codes "k") false 1000 connected).0).1
    ≡ false
accept_message-repeat_example =
    accept_message-repeat node (codes "k") false false 1000 2000 connected known unstamped_accepted
      (omega arith)

entry_here : get node connected.by_prefix ≡ some (new_entry 7)
unfolding get
entry_here = refl

awaiting_reply_expired-prompt_again_example :
    awaiting_reply_expired node 300000 310000
      (prompt_again node (codes "Password:") (1000 ∷ 100000 ∷ 200000 ∷ []) connected)
    ≡ leb 300000 (310000 - 1000)
awaiting_reply_expired-prompt_again_example =
    awaiting_reply_expired-prompt_again node (codes "Password:") 1000 300000 310000
      (100000 ∷ 200000 ∷ []) connected (new_entry 7) entry_here refl

abbrev pending : SessionState
pending = record empty_state { pending_protect = (node, 5) ∷ [] }

is_pending_protect-mark_example :
    is_pending_protect node (mark_pending_protect other_node 86400005 pending) ≡ false
unfolding get
is_pending_protect-mark_example =
    is_pending_protect-mark other_node node 86400005 pending (refl, tt)

abbrev considered : List (Bool × Bool × ℕ)
considered =
    (false, true, 1000) ∷ (false, true, 2000) ∷ (true, true, 62000) ∷ (false, true, 63000) ∷ []

sent_requests-Apart_example :
    Apart (secs contacts_catchup_cooldown) (sent_requests considered empty_state)
sent_requests-Apart_example = sent_requests-Apart considered empty_state

sent_requests_run :
    sent_requests
      ((false, true, 1000) ∷ (false, true, 2000) ∷ (false, true, 63000) ∷ [])
      empty_state
    ≡ 1000 ∷ 63000 ∷ []
unfolding sent_requests request_catchup should_request_contacts_catchup
    mark_contacts_catchup_requested
sent_requests_run = refl
