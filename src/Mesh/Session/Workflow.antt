-- ===== src/Mesh/Session/Workflow.antt =====
-- crates/bbs-mesh/src/session.rs: when a node counts as awaiting a reply, and for how long.
use supply_drop_bbs.Prelude.{
  ℕ, ◌-◌, ◌≡◌, refl, true, false, Option, none, some, List, [], ◌∷◌, Bytes, leb, nat_eq, list_eq,
  ◌>>=◌, arith, is_some, is_some_and, beq_self,
}
use supply_drop_bbs.Prelude.Map.{get, get-modify}
use supply_drop_bbs.Mesh.Session.{
  SessionEntry, SessionState, with_entry, prompt_entry, is_text, update_awaiting_reply,
  is_awaiting_reply, awaiting_reply_expired,
}

-- The flag, the clock and the prompt of a workflow stage are set and cleared together.
pub record IsStaged (e : SessionEntry) : Type 0 where
  pub since : is_some e.awaiting_reply_since ≡ e.awaiting_reply
  pub prompt : is_some e.last_prompt_text ≡ e.awaiting_reply

pub prompt_entry-IsStaged :
    (now : ℕ) (prompt : Option Bytes) (e : SessionEntry)
    → IsStaged e
    → IsStaged (prompt_entry now prompt e)
unfolding prompt_entry
prompt_entry-IsStaged now none e h = record { since = refl; prompt = refl }
prompt_entry-IsStaged now (some text) e h = ground (arith, h.since, h.prompt)

-- The same prompt, sent again and again.
unfoldable pub prompt_again : Bytes → Bytes → List ℕ → SessionState → SessionState
prompt_again p text [] s = s
prompt_again p text (now ∷ times) s =
    prompt_again p text times (update_awaiting_reply p (some text) now s)

abbrev Stage : Bytes → ℕ → Option SessionEntry → Type 0
Stage text since none = ⊥
Stage text since (some e) =
    (e.awaiting_reply ≡ true)
    × (e.awaiting_reply_since ≡ some since)
    × (e.last_prompt_text ≡ some text)

same_prompt :
    (text : Bytes) (since now : ℕ) (o : Option SessionEntry)
    → Stage text since o
    → Stage text since (o >>= λ e. some (prompt_entry now (some text) e))
unfolding prompt_entry
same_prompt text since now none h = h
same_prompt text since now (some e) h = ground (arith, beq_self text)

prompt_again_lem :
    (p text : Bytes) (since : ℕ) (times : List ℕ) (s : SessionState)
    → Stage text since (get p s.by_prefix)
    → Stage text since (get p (prompt_again p text times s).by_prefix)
unfolding prompt_again update_awaiting_reply with_entry
prompt_again_lem p text since [] s h = h
prompt_again_lem p text since (now ∷ times) s h =
    prompt_again_lem p text since times (with_entry p (prompt_entry now (some text)) s) (
      rw (get-modify p p (prompt_entry now (some text)) s.by_prefix)
        (rw (beq_self p) (same_prompt text since now (get p s.by_prefix) h)))

first_prompt :
    (text : Bytes) (now : ℕ) (e : SessionEntry)
    → is_text e.last_prompt_text text ≡ false
    → Stage text now (some (prompt_entry now (some text) e))
unfolding prompt_entry
first_prompt text now e h = ground arith

expired_lem :
    (text : Bytes) (since now timeout : ℕ) (o : Option SessionEntry)
    → Stage text since o
    → is_some_and (o >>= λ e. e.awaiting_reply_since) (λ t. leb timeout (now - t))
      ≡ leb timeout (now - since)
expired_lem text since now timeout none h = elim h [ ]
expired_lem text since now timeout (some e) h = rw (h.1)

-- In a node's session, a prompt other than the last one starts a stage, which expires by the time
-- of that prompt, however often the prompt is repeated.
pub awaiting_reply_expired-prompt_again :
    (p text : Bytes) (first timeout now : ℕ) (times : List ℕ) (s : SessionState) (e : SessionEntry)
    → get p s.by_prefix ≡ some e
    → is_text e.last_prompt_text text ≡ false
    → awaiting_reply_expired p timeout now (prompt_again p text (first ∷ times) s)
      ≡ leb timeout (now - first)
unfolding awaiting_reply_expired prompt_again update_awaiting_reply with_entry
awaiting_reply_expired-prompt_again p text first timeout now times s e found new =
    expired_lem text first now timeout _ (
      prompt_again_lem p text first times (with_entry p (prompt_entry first (some text)) s) (
        rw (get-modify p p (prompt_entry first (some text)) s.by_prefix)
          (rw (beq_self p, found) (first_prompt text first e new))))

-- Any other answer of the host ends the workflow: the node awaits nothing and nothing can expire.
pub is_awaiting_reply-clear :
    (p : Bytes) (now timeout later : ℕ) (s : SessionState)
    → (is_awaiting_reply p (update_awaiting_reply p none now s) ≡ false)
      × (awaiting_reply_expired p timeout later (update_awaiting_reply p none now s) ≡ false)
unfolding is_awaiting_reply awaiting_reply_expired update_awaiting_reply with_entry prompt_entry
is_awaiting_reply-clear p now timeout later s =
    ground (arith, get-modify p p (prompt_entry now none) s.by_prefix, beq_self p)
