-- ===== src/Host/Replies/Created.antt =====
-- crates/bbs-core/src/host.rs: the end of a registration, after a prompt or without one.
use supply_drop_bbs.Prelude.{
  ℕ, ◌≡◌, refl, sym, ap, ◌∙◌, Bool, true, false, none, some, Bytes, nat_eq, list_eq, arith, ok,
  beq_self,
}
use supply_drop_bbs.Prelude.Map.{get, insert, get-modify, modify-modify}
use supply_drop_bbs.Identity.{Username, InvalidUsername}
use supply_drop_bbs.Response.{logged_in}
use supply_drop_bbs.Host.Users.{Users, get_by_username}
use supply_drop_bbs.Host.State.{
  HostState, DbCall, Outcome, SessionRecord, Workflow, modify_session, with_sessions, with_users,
  set_workflow, list_first, insert_row, set_password_call,
}
use supply_drop_bbs.Host.Login.{initial_room}
use supply_drop_bbs.Host.Register.{
  new_user, initial_level, set_registered, set_password, create_user_and_login,
}
use supply_drop_bbs.Host.Replies.{auth_escape, is_pre_auth, workflow_arm, handle_workflow_reply}

module _ (fails : DbCall → Bool) (explain : InvalidUsername → Bytes) (new_id : Users → ℕ)
    (phc_of : Bytes → Bytes) (now : ℕ) (works : (c : DbCall) → fails c ≡ false) where
  -- The state in which the registration is finished.
  abbrev registered : ℕ → Username → Bytes → HostState → HostState
  registered session name given s =
      modify_session session
        (set_registered name (new_id s.users) (initial_level s.users)
          (initial_room (initial_level s.users) s))
        (set_password phc_of (new_id s.users) given now (
          with_users
            (insert (new_id s.users) (new_user (new_id s.users) name (initial_level s.users) now)
              s.users)
            s))

  created :
      (session : ℕ) (name : Username) (given : Bytes) (s : HostState) (r : SessionRecord)
      → get session s.sessions ≡ some r
      → get_by_username name s.users ≡ none
      → create_user_and_login fails explain new_id phc_of now session name given s
        ≡ (registered session name given s, ok (logged_in name))
  unfolding create_user_and_login with_users initial_room set_password
  created session name given s r there free =
      ground (arith, works list_first, works insert_row, works set_password_call)

  -- What a prompt left in the session is overwritten.
  registered-modify_session :
      (session : ℕ) (name : Username) (given : Bytes) (w : Workflow) (s : HostState)
      → registered session name given (modify_session session (set_workflow w) s)
        ≡ registered session name given s
  unfolding modify_session with_sessions with_users set_workflow set_registered initial_room
      set_password
  registered-modify_session session name given w s =
      ap (λ m. record (registered session name given s) { sessions = m })
        (modify-modify session _ (set_workflow w) s.sessions)

  pub get-set_workflow :
      (session : ℕ) (w : Workflow) (s : HostState) (r : SessionRecord)
      → get session s.sessions ≡ some r
      → get session (modify_session session (set_workflow w) s).sessions ≡ some (set_workflow w r)
  unfolding modify_session with_sessions
  get-set_workflow session w s r there =
      ground (arith, get-modify session session (set_workflow w) s.sessions, beq_self session)

  pub users-modify_session :
      (session : ℕ) (w : Workflow) (s : HostState)
      → (modify_session session (set_workflow w) s).users ≡ s.users
  unfolding modify_session with_sessions
  users-modify_session session w s = refl

  pub overwritten :
      (session : ℕ) (w w' : Workflow) (s : HostState)
      → modify_session session (set_workflow w) (modify_session session (set_workflow w') s)
        ≡ modify_session session (set_workflow w) s
  unfolding modify_session with_sessions set_workflow
  overwritten session w w' s =
      ap (λ m. record s { sessions = m })
        (modify-modify session (set_workflow w) (set_workflow w') s.sessions)

  pub created_after :
      (session : ℕ) (name : Username) (given : Bytes) (w : Workflow) (s : HostState)
      (r : SessionRecord)
      → get session s.sessions ≡ some r
      → get_by_username name s.users ≡ none
      → create_user_and_login fails explain new_id phc_of now session name given
          (modify_session session (set_workflow w) s)
        ≡ create_user_and_login fails explain new_id phc_of now session name given s
  created_after session name given w s r there free =
      created session name given (modify_session session (set_workflow w) s) (set_workflow w r)
        (get-set_workflow session w s r there) (rw (users-modify_session session w s) free)
      ∙ (ap (λ x. (x, ok (logged_in name))) (registered-modify_session session name given w s)
          ∙ sym (created session name given s r there free))

  -- The session's workflow is the arm that answers, where the reply is no command.
  pub arm_answers :
      (verify : ℕ → Bytes → Bool) (must_change : ℕ → Bool) (decimal : ℕ → Bytes) (clock : ℕ)
      (others : Workflow → ℕ → Bytes → HostState → Outcome) (session : ℕ) (w : Workflow)
      (reply : Bytes) (s : HostState) (r : SessionRecord)
      → get session s.sessions ≡ some r
      → is_pre_auth w ≡ true
      → auth_escape reply ≡ none
      → handle_workflow_reply fails verify must_change decimal now clock explain new_id phc_of
          others session reply
          (modify_session session (set_workflow w) s)
        ≡ workflow_arm fails verify must_change decimal now clock explain new_id phc_of others w
            session reply
            (modify_session session (set_workflow w) s)
  unfolding handle_workflow_reply set_workflow
  arm_answers verify must_change decimal clock others session w reply s r there pre plain =
      ground (arith, get-set_workflow session w s r there)
