-- ===== src/Host/Replies/Registers.antt =====
-- crates/bbs-core/src/host.rs: the two ways to register do the same.
use supply_drop_bbs.Prelude.{
  ℕ, ◌≤◌, ◌≡◌, refl, sym, ap, ◌∙◌, Bool, false, inl, inr, ◌==◌, if◌then◌else◌, Bool-cases,
  list_beq_iff, none, some, Bytes, nat_eq, list_eq, arith, length, ok, beq_self,
}
use supply_drop_bbs.Prelude.Map.{get}
use supply_drop_bbs.Identity.{Username, InvalidUsername}
use supply_drop_bbs.Host.Users.{Users, get_by_username}
use supply_drop_bbs.Host.State.{
  HostState, DbCall, Outcome, SessionRecord, Workflow, register, RegisterStage, modify_session,
  set_workflow, by_username,
}
use supply_drop_bbs.Host.Login.{busy}
use supply_drop_bbs.Host.Register.{
  validate_new_username, min_password, create_user_and_login, register_prompt, register_named,
  handle_register, register_oneshot_named, handle_register_oneshot, register_password, no_match,
  register_confirm,
}
use supply_drop_bbs.Host.Replies.{auth_escape, is_pre_auth, workflow_arm, handle_workflow_reply}
use supply_drop_bbs.Host.Replies.Created.{
  created_after, overwritten, get-set_workflow, users-modify_session, arm_answers,
}

module _ (fails : DbCall → Bool) (explain : InvalidUsername → Bytes) (new_id : Users → ℕ)
    (phc_of : Bytes → Bytes) (now : ℕ) (works : (c : DbCall) → fails c ≡ false)
    (verify : ℕ → Bytes → Bool) (must_change : ℕ → Bool) (decimal : ℕ → Bytes) (clock : ℕ)
    (others : Workflow → ℕ → Bytes → HostState → Outcome) where
  first_reply :
      (session : ℕ) (name : Username) (given : Bytes) (s : HostState) (r : SessionRecord)
      → get session s.sessions ≡ some r
      → min_password ≤ length given
      → auth_escape given ≡ none
      → (handle_workflow_reply fails verify must_change decimal now clock explain new_id phc_of
          others session given
          (modify_session session (set_workflow (register name RegisterStage.password)) s)).0
        ≡ modify_session session
            (set_workflow (register name (RegisterStage.confirm given)))
            (modify_session session (set_workflow (register name RegisterStage.password)) s)
  unfolding workflow_arm register_password is_pre_auth
  first_reply session name given s r there long plain = ground (
    arith,
    arm_answers fails explain new_id phc_of now works verify must_change decimal clock others
        session (register name RegisterStage.password) given s r there refl plain,
  )

  second_reply :
      (session : ℕ) (name : Username) (given : Bytes) (s : HostState) (r : SessionRecord)
      → get session s.sessions ≡ some r
      → auth_escape given ≡ none
      → handle_workflow_reply fails verify must_change decimal now clock explain new_id phc_of
          others session given
          (modify_session session (set_workflow (register name (RegisterStage.confirm given))) s)
        ≡ create_user_and_login fails explain new_id phc_of now session name given
            (modify_session session (set_workflow (register name (RegisterStage.confirm given))) s)
  unfolding workflow_arm register_confirm is_pre_auth
  second_reply session name given s r there plain = ground (
    arith,
    arm_answers fails explain new_id phc_of now works verify must_change decimal clock others
        session (register name (RegisterStage.confirm given)) given s r there refl plain,
    beq_self given,
  )

  prompted :
      (session : ℕ) (raw : Bytes) (name : Username) (s : HostState) (r : SessionRecord)
      → get session s.sessions ≡ some r
      → busy r ≡ none
      → validate_new_username explain raw ≡ ok name
      → get_by_username name s.users ≡ none
      → (handle_register fails explain new_id phc_of now session raw s).0
        ≡ modify_session session (set_workflow (register name RegisterStage.password)) s
  unfolding handle_register register_named register_prompt
  prompted session raw name s r there idle_session valid free = ground (arith, works by_username)

  in_one_message :
      (session : ℕ) (raw given : Bytes) (name : Username) (s : HostState) (r : SessionRecord)
      → get session s.sessions ≡ some r
      → busy r ≡ none
      → validate_new_username explain raw ≡ ok name
      → get_by_username name s.users ≡ none
      → min_password ≤ length given
      → handle_register_oneshot fails explain new_id phc_of now session raw given s
        ≡ create_user_and_login fails explain new_id phc_of now session name given s
  unfolding handle_register_oneshot register_oneshot_named
  in_one_message session raw given name s r there idle_session valid free long =
      ground (arith, works by_username)

  same_password :
      (session : ℕ) (raw given : Bytes) (name : Username) (s : HostState) (r : SessionRecord)
      → get session s.sessions ≡ some r
      → busy r ≡ none
      → validate_new_username explain raw ≡ ok name
      → get_by_username name s.users ≡ none
      → min_password ≤ length given
      → auth_escape given ≡ none
      → handle_workflow_reply fails verify must_change decimal now clock explain new_id phc_of
          others session given
          (handle_workflow_reply fails verify must_change decimal now clock explain new_id phc_of
            others session given
            (handle_register fails explain new_id phc_of now session raw s).0).0
        ≡ handle_register_oneshot fails explain new_id phc_of now session raw given s
  same_password session raw given name s r there idle_session valid free long plain =
      let first = register name RegisterStage.password in
      let second = register name (RegisterStage.confirm given) in
      let s1 = modify_session session (set_workflow first) s in
      let in_s1 = get-set_workflow fails explain new_id phc_of now works session first s r there in
      let free_s1 : get_by_username name s1.users ≡ none =
        rw (users-modify_session fails explain new_id phc_of now works session first s) free in
      rw
        (
          prompted session raw name s r there idle_session valid free,
          first_reply session name given s r there long plain,
          second_reply session name given s1 (set_workflow first r) in_s1 plain,
        )
        (created_after fails explain new_id phc_of now works session name given second s1
            (set_workflow first r) in_s1 free_s1
          ∙ (created_after fails explain new_id phc_of now works session name given first s r there
                free
              ∙ sym (in_one_message session raw given name s r there idle_session valid free long)))

  different_reply :
      (session : ℕ) (name : Username) (given again : Bytes) (s : HostState) (r : SessionRecord)
      → get session s.sessions ≡ some r
      → auth_escape again ≡ none
      → again == given ≡ false
      → handle_workflow_reply fails verify must_change decimal now clock explain new_id phc_of
          others session again
          (modify_session session (set_workflow (register name (RegisterStage.confirm given))) s)
        ≡ (
          modify_session session (set_workflow (register name RegisterStage.password)) (
              modify_session session
                (set_workflow (register name (RegisterStage.confirm given)))
                s),
          ok (no_match name),
        )
  unfolding workflow_arm register_confirm is_pre_auth
  different_reply session name given again s r there plain other = ground (
    arith,
    arm_answers fails explain new_id phc_of now works verify must_change decimal clock others
        session (register name (RegisterStage.confirm given)) again s r there refl plain,
  )

  other_password :
      (session : ℕ) (raw given again : Bytes) (name : Username) (s : HostState) (r : SessionRecord)
      → get session s.sessions ≡ some r
      → busy r ≡ none
      → validate_new_username explain raw ≡ ok name
      → get_by_username name s.users ≡ none
      → min_password ≤ length given
      → auth_escape given ≡ none
      → auth_escape again ≡ none
      → again == given ≡ false
      → handle_workflow_reply fails verify must_change decimal now clock explain new_id phc_of
          others session again
          (handle_workflow_reply fails verify must_change decimal now clock explain new_id phc_of
            others session given
            (handle_register fails explain new_id phc_of now session raw s).0).0
        ≡ ((handle_register fails explain new_id phc_of now session raw s).0, ok (no_match name))
  other_password session raw given again name s r there idle_session valid free long plain plain'
        other =
      let first = register name RegisterStage.password in
      let second = register name (RegisterStage.confirm given) in
      let s1 = modify_session session (set_workflow first) s in
      rw
        (
          prompted session raw name s r there idle_session valid free,
          first_reply session name given s r there long plain,
          different_reply session name given again s1 (set_workflow first r)
              (get-set_workflow fails explain new_id phc_of now works session first s r there)
              plain' other,
        )
        (ap (λ x. (x, ok (no_match name)))
          (overwritten fails explain new_id phc_of now works session first second s1
            ∙ overwritten fails explain new_id phc_of now works session first first s))

  -- Where the database answers, a session registers a free and valid name by the command, a
  -- password and the password again, neither reading as a REGISTER or LOGIN command and the first
  -- of at least 8 characters. Where the two are equal, this ends in the same state, with the same
  -- password stored, and the same answer as registering with it in one message; where they
  -- differ, in the state after the command, with no account made.
  pub handle_register-replies :
      (session : ℕ) (raw given again : Bytes) (name : Username) (s : HostState) (r : SessionRecord)
      → get session s.sessions ≡ some r
      → busy r ≡ none
      → validate_new_username explain raw ≡ ok name
      → get_by_username name s.users ≡ none
      → min_password ≤ length given
      → auth_escape given ≡ none
      → auth_escape again ≡ none
      → handle_workflow_reply fails verify must_change decimal now clock explain new_id phc_of
          others session again
          (handle_workflow_reply fails verify must_change decimal now clock explain new_id phc_of
            others session given
            (handle_register fails explain new_id phc_of now session raw s).0).0
        ≡ (if again == given
            then handle_register_oneshot fails explain new_id phc_of now session raw given s
            else (
              (handle_register fails explain new_id phc_of now session raw s).0,
              ok (no_match name),
            ))
  handle_register-replies session raw given again name s r there idle_session valid free long plain
        plain' =
      elim (Bool-cases (again == given)) [
        | inr other ↦ rw other (
            other_password session raw given again name s r there idle_session valid free long plain
              plain' other)
        | inl same ↦
            let e : again ≡ given = ground (arith, list_beq_iff again given) in
            rw (same, e)
              (same_password session raw given name s r there idle_session valid free long plain)
      ]
