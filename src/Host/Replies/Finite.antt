-- ===== src/Host/Replies/Finite.antt =====
-- crates/bbs-core/src/host.rs: how many replies a prompt for a password can take.
use supply_drop_bbs.Prelude.{
  ℕ, suc, ◌-◌, ◌≤◌, ◌<◌, ◌≡◌, sym, ◌∙◌, ap, Bool, inl, inr, Option, Option-cases, none, some, Bytes,
  nat_eq, ok, arith,
}
use supply_drop_bbs.Prelude.Map.{get}
use supply_drop_bbs.Identity.{Username, InvalidUsername}
use supply_drop_bbs.Response.{Response}
use supply_drop_bbs.Host.Users.{Users}
use supply_drop_bbs.Host.State.{HostState, DbCall, Outcome, SessionRecord, Workflow, login}
use supply_drop_bbs.Host.Login.{login_reply}
use supply_drop_bbs.Host.Replies.{auth_escape, is_pre_auth, workflow_arm, handle_workflow_reply}
use supply_drop_bbs.Host.Replies.Attempts.{left, left_in, login_reply-left}

-- What one reply meets: the database, the passwords, the clocks, and the rest of the program.
pub record Surroundings : Type 0 where
  pub fails : DbCall → Bool
  pub verify : ℕ → Bytes → Bool
  pub must_change : ℕ → Bool
  pub decimal : ℕ → Bytes
  pub now : ℕ
  pub clock : ℕ
  pub explain : InvalidUsername → Bytes
  pub new_id : Users → ℕ
  pub phc_of : Bytes → Bytes
  pub others : Workflow → ℕ → Bytes → HostState → Outcome

unfoldable pub reply_in : Surroundings → ℕ → Bytes → HostState → Outcome
reply_in e session reply s =
    handle_workflow_reply e.fails e.verify e.must_change e.decimal e.now e.clock e.explain e.new_id
      e.phc_of e.others session reply s

unfoldable pub workflow_of : ℕ → HostState → Option Workflow
workflow_of session s = elim (get session s.sessions) [ none ↦ none | some r ↦ some r.workflow ]

-- A number of replies, each to a session that waits for the password of a login, none reading as a
-- REGISTER or LOGIN command, and each answered. Between two of them the state may change in every
-- respect but the workflow of the session.
pub data Answered (session : ℕ) : ℕ → HostState → Type 0 where
  finished : (s : HostState) → Answered session 0 s
  replied :
      (e : Surroundings) (name : Username) (attempts : ℕ) (reply : Bytes) (s s' later : HostState)
      (response : Response) (n : ℕ)
      → workflow_of session s ≡ some (login name attempts)
      → auth_escape reply ≡ none
      → reply_in e session reply s ≡ (s', ok response)
      → workflow_of session later ≡ workflow_of session s'
      → Answered session n later
      → Answered session (suc n) s

-- The replies left depend on the workflow alone.
left_of : Option Workflow → ℕ
left_of none = 0
left_of (some w) = left w

left_in-workflow_of :
    (session : ℕ) (s : HostState) → left_in session s ≡ left_of (workflow_of session s)
unfolding left_in workflow_of left_of
left_in-workflow_of session s = elim (Option-cases (get session s.sessions)) [
  | inl absent ↦ ground arith
  | inr (r, there) ↦ ground arith
]

left_in_workflow :
    (session : ℕ) (s s' : HostState)
    → workflow_of session s ≡ workflow_of session s'
    → left_in session s ≡ left_in session s'
left_in_workflow session s s' same =
    left_in-workflow_of session s ∙ (ap left_of same ∙ sym (left_in-workflow_of session s'))

session_of_workflow :
    (session : ℕ) (w : Workflow) (s : HostState)
    → workflow_of session s ≡ some w
    → (r : SessionRecord) × (get session s.sessions ≡ some r) × (r.workflow ≡ w)
unfolding workflow_of
session_of_workflow session w s waits = elim (Option-cases (get session s.sessions)) [
  | inl absent ↦ absurd (ground arith)
  | inr (r, there) ↦ (r, there, ground arith)
]

-- A plain reply to the prompt reaches the arm of the login.
login_arm :
    (e : Surroundings) (session : ℕ) (name : Username) (attempts : ℕ) (reply : Bytes)
    (s : HostState) (r : SessionRecord)
    → get session s.sessions ≡ some r
    → r.workflow ≡ login name attempts
    → auth_escape reply ≡ none
    → reply_in e session reply s
      ≡ login_reply e.fails e.verify e.must_change e.decimal e.now e.clock session name attempts
          reply s
unfolding reply_in handle_workflow_reply is_pre_auth workflow_arm
login_arm e session name attempts reply s r there waits plain = ground arith

reply_in-left :
    (e : Surroundings) (session : ℕ) (name : Username) (attempts : ℕ) (reply : Bytes)
    (s s' : HostState) (response : Response)
    → workflow_of session s ≡ some (login name attempts)
    → auth_escape reply ≡ none
    → reply_in e session reply s ≡ (s', ok response)
    → left_in session s' < left_in session s
unfolding left_in left
reply_in-left e session name attempts reply s s' response waits plain ran =
    let (r, there, asks) = session_of_workflow session (login name attempts) s waits in
    let ran' = sym (login_arm e session name attempts reply s r there asks plain) ∙ ran in
    let fewer =
      login_reply-left e.fails e.verify e.must_change e.decimal e.now e.clock session name attempts
        reply s r there response (ap (λ o. o.1) ran') in
    let fewer' : left_in session s' < suc (2 - attempts) = rw ran' at fewer in
    ground (arith, fewer')

Answered-left : (session : ℕ) {n : ℕ} {s : HostState} → Answered session n s → n ≤ left_in session s
Answered-left session (Answered.finished s) = omega arith
Answered-left session
      (Answered.replied e name attempts reply s s' later response n waits plain ran same rest) =
    omega (
      arith,
      Answered-left session rest,
      left_in_workflow session later s' same,
      reply_in-left e session name attempts reply s s' response waits plain ran,
    )

left_bound : (w : Workflow) → left w ≤ 3
unfolding left
left_bound w = ground arith

left_in_bound : (session : ℕ) (s : HostState) → left_in session s ≤ 3
unfolding left_in
left_in_bound session s = elim (Option-cases (get session s.sessions)) [
  | inl absent ↦ ground arith
  | inr (r, there) ↦ ground (arith, left_bound r.workflow)
]

-- Whatever becomes of the database, the stored passwords, the clocks and the other sessions from one
-- reply to the next, a session that waits for the password of a login answers at most three
-- replies, not counting those that read as a REGISTER or LOGIN command, before its prompt is over,
-- if nothing else changes the session's workflow in between.
pub Answered-replies : (session n : ℕ) (s : HostState) → Answered session n s → n ≤ 3
Answered-replies session n s run = omega (arith, Answered-left session run, left_in_bound session s)
