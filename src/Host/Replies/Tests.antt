-- ===== src/Host/Replies/Tests.antt =====
-- crates/bbs-core/src/host.rs: runs of the replies on concrete inputs.
use supply_drop_bbs.Prelude.{
  ◌++◌, length, ℕ, ◌≤◌, ◌≡◌, refl, true, none, some, [], ◌∷◌, Bytes, codes, nat_eq, list_eq, arith,
  length, ok,
}
use supply_drop_bbs.Prelude.Map.{get, modify}
use supply_drop_bbs.Identity.{
  InvalidUsername, new_username, validate, validate_chars, normalise, first_disallowed, is_bracket,
}
use supply_drop_bbs.Text.{
  to_ascii_lowercase, is_control, is_whitespace, trim, trim_start, trim_end, break_on,
}
use supply_drop_bbs.Response.{Response, error, prompt, logged_out}
use supply_drop_bbs.Host.Users.{Users, same_user, get_by_username}
use supply_drop_bbs.Host.State.{
  Workflow, login, Outcome, answer, HostState, SessionRecord, fresh_session, modify_session,
  with_sessions, set_workflow,
}
use supply_drop_bbs.Host.Login.{set_failures, wrong_password, login_reply}
use supply_drop_bbs.Host.Register.{
  validate_new_username, stored_form, all_chars, is_name_char, is_edge, min_password,
  handle_register, handle_register_oneshot,
}
use supply_drop_bbs.Host.Replies.{
  auth_escape, split_once, escape_by, is_pre_auth, workflow_arm, handle_workflow_reply,
}
use supply_drop_bbs.Host.Replies.Registers.{handle_register-replies}
use supply_drop_bbs.Host.Replies.Finite.{
  Surroundings, reply_in, workflow_of, Answered, Answered-replies,
}
use supply_drop_bbs.Host.Fixture.{
  named, host, works, verifies, lasting, digits, session_there, not_busy,
}

abbrev explained : InvalidUsername → Bytes
explained _ = []

abbrev fifth : Users → ℕ
fifth _ = 5

-- The hash is left out, so that the password can be read.
abbrev unhashed : Bytes → Bytes
unhashed given = given

-- Replies to the workflows of a user who is logged in are not looked at here.
abbrev no_others : Workflow → ℕ → Bytes → HostState → Outcome
no_others w session reply s = answer s logged_out

carol_valid : validate_new_username explained (codes " @Carol") ≡ ok (named (codes "carol"))
unfolding validate_new_username stored_form all_chars is_name_char is_edge new_username validate
    validate_chars normalise to_ascii_lowercase first_disallowed is_control is_whitespace is_bracket
    trim trim_start trim_end
carol_valid = refl

carol_free : get_by_username (named (codes "carol")) host.users ≡ none
unfolding get_by_username same_user
carol_free = refl

no_escape : auth_escape (codes "pass word") ≡ none
unfolding auth_escape split_once escape_by break_on is_whitespace trim trim_start trim_end
    to_ascii_lowercase
no_escape = refl

long_enough : min_password ≤ length (codes "pass word")
unfolding min_password
long_enough = omega arith

handle_register-replies_example :
    handle_workflow_reply works verifies lasting digits 6000 200 explained fifth unhashed no_others
      7
      (codes "pass word")
      (handle_workflow_reply works verifies lasting digits 6000 200 explained fifth unhashed
        no_others 7
        (codes "pass word")
        (handle_register works explained fifth unhashed 6000 7 (codes " @Carol") host).0).0
    ≡ handle_register_oneshot works explained fifth unhashed 6000 7
        (codes " @Carol")
        (codes "pass word")
        host
handle_register-replies_example =
    handle_register-replies works explained fifth unhashed 6000 (λ c. refl) verifies lasting digits
      200 no_others 7 (codes " @Carol") (codes "pass word") (codes "pass word")
      (named (codes "carol")) host (fresh_session (codes "meshcore")) session_there not_busy
      carol_valid carol_free long_enough no_escape no_escape

-- A session that is asked for a password.
abbrev asked : SessionRecord
asked = record (fresh_session (codes "meshcore")) { workflow = login (named (codes "ann")) 0 }

abbrev asking : HostState
asking = record host { sessions = (7, asked) ∷ [] }

abbrev around : Surroundings
around = record {
  fails = works;
  verify = verifies;
  must_change = lasting;
  decimal = digits;
  now = 6000;
  clock = 200;
  explain = explained;
  new_id = fifth;
  phc_of = unhashed;
  others = no_others;
}

abbrev once : HostState
once = (reply_in around 7 (codes "bad") asking).0

-- The account is gone before the second reply.
abbrev emptied : HostState
emptied = record once { users = [] }

abbrev twice : HostState
twice = (reply_in around 7 (codes "correct") emptied).0

bad_plain : auth_escape (codes "bad") ≡ none
unfolding auth_escape split_once escape_by break_on is_whitespace trim trim_start trim_end
    to_ascii_lowercase
bad_plain = refl

correct_plain : auth_escape (codes "correct") ≡ none
unfolding auth_escape split_once escape_by break_on is_whitespace trim trim_start trim_end
    to_ascii_lowercase
correct_plain = refl

abbrev try_again : Response
try_again =
    prompt
      (codes "Incorrect password (" ++ (digits 2 ++ codes " attempt(s) remaining). Try again:"))
      true

abbrev no_account : Response
no_account = error (codes "Account no longer exists.")

wrong_run : reply_in around 7 (codes "bad") asking ≡ (once, ok try_again)
unfolding reply_in handle_workflow_reply is_pre_auth workflow_arm login_reply wrong_password
    get_by_username same_user auth_escape split_once escape_by break_on is_whitespace trim
    trim_start trim_end to_ascii_lowercase get
wrong_run = refl

gone_run : reply_in around 7 (codes "correct") emptied ≡ (twice, ok no_account)
unfolding reply_in handle_workflow_reply is_pre_auth workflow_arm login_reply wrong_password
    get_by_username same_user auth_escape split_once escape_by break_on is_whitespace trim
    trim_start trim_end to_ascii_lowercase get modify_session with_sessions set_workflow
    set_failures modify
gone_run = refl

asked_first : workflow_of 7 asking ≡ some (login (named (codes "ann")) 0)
unfolding workflow_of get
asked_first = refl

asked_again : workflow_of 7 emptied ≡ some (login (named (codes "ann")) 1)
unfolding workflow_of reply_in handle_workflow_reply is_pre_auth workflow_arm login_reply
    wrong_password get_by_username same_user auth_escape split_once escape_by break_on is_whitespace
    trim trim_start trim_end to_ascii_lowercase get modify_session with_sessions set_workflow
    set_failures modify
asked_again = refl

unchanged : workflow_of 7 emptied ≡ workflow_of 7 once
unfolding workflow_of
unchanged = refl

two_replies : Answered 7 2 asking
two_replies =
    Answered.replied around (named (codes "ann")) 0 (codes "bad") asking once emptied try_again 1
      asked_first bad_plain wrong_run unchanged
      (Answered.replied around (named (codes "ann")) 1 (codes "correct") emptied twice twice
        no_account 0 asked_again correct_plain gone_run refl (Answered.finished twice))

Answered-replies_example : 2 ≤ 3
Answered-replies_example = Answered-replies 7 2 asking two_replies
