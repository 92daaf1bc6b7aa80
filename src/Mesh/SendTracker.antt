-- ===== src/Mesh/SendTracker.antt =====
-- crates/bbs-mesh/src/send_tracker.rs, and the two functions of crates/bbs-mesh/src/transport.rs that
-- drive it. Instants and durations are milliseconds, a CRC is the number of its four bytes.
pub mod Due
pub mod Budget
pub mod Fifo
mod Tests
use supply_drop_bbs.Prelude.{
  ℕ, ◌+◌, ◌≤◌, Bool, true, false, Option, none, some, List, [], ◌∷◌, ◌++◌, Bytes, ltb, leb, ◌==◌,
  nat_eq, if◌then◌else◌, length,
}
use supply_drop_bbs.Prelude.Map.{Map, get, insert, remove}

pub record RetryConfig : Type 0 where
  pub max_attempts : ℕ
  pub min_timeout : ℕ
  pub max_timeout : ℕ

-- `Duration::clamp`; it panics where the bounds are crossed, which the caller's constants exclude.
unfoldable pub ack_wait : RetryConfig → ℕ → ℕ
ack_wait cfg timeout_ms =
    if ltb timeout_ms cfg.min_timeout
    then cfg.min_timeout
    else if ltb cfg.max_timeout timeout_ms
    then cfg.max_timeout
    else timeout_ms

pub record PendingSend : Type 0 where
  pub prefix : Bytes
  pub text : Bytes
  pub txt_type : ℕ
  pub attempt : ℕ
  pub sent_at : ℕ
  pub deadline : ℕ

pub data SentOutcome : Type 0 where
  accepted : Bytes → SentOutcome
  failed : PendingSend → SentOutcome
  spurious : SentOutcome

pub record SendTracker : Type 0 where
  pub cfg : RetryConfig
  pub awaiting_sent : List PendingSend
  pub awaiting_ack : Map ℕ PendingSend

abbrev pub new : RetryConfig → SendTracker
new cfg = record { cfg = cfg; awaiting_sent = []; awaiting_ack = [] }

unfoldable pub retries_enabled : SendTracker → Bool
retries_enabled t = ltb 1 t.cfg.max_attempts

unfoldable pub record_send : Bytes → Bytes → ℕ → ℕ → ℕ → SendTracker → SendTracker
record_send prefix text txt_type attempt now t = record t {
  awaiting_sent =
      t.awaiting_sent
      ++ record {
        prefix = prefix;
        text = text;
        txt_type = txt_type;
        attempt = attempt;
        sent_at = now;
        deadline = now;
      }
        ∷ [];
}

on_sent_queue : List PendingSend → ℕ → ℕ → ℕ → SendTracker → SendTracker × SentOutcome
on_sent_queue [] crc timeout_ms now t = (t, spurious)
on_sent_queue (rec ∷ rest) crc timeout_ms now t =
    if crc == 0 then (record t { awaiting_sent = rest }, failed rec) else (
      record t {
        awaiting_sent = rest;
        awaiting_ack =
            insert crc (record rec { deadline = now + ack_wait t.cfg timeout_ms }) t.awaiting_ack;
      },
      accepted rec.prefix,
    )

unfoldable pub on_sent : ℕ → ℕ → ℕ → SendTracker → SendTracker × SentOutcome
unfolding on_sent_queue
on_sent crc timeout_ms now t = on_sent_queue t.awaiting_sent crc timeout_ms now t

unfoldable pub on_confirmed : ℕ → SendTracker → SendTracker × Option PendingSend
on_confirmed crc t = (record t { awaiting_ack = remove crc t.awaiting_ack }, get crc t.awaiting_ack)

pub record DueSends : Type 0 where
  pub to_retry : List PendingSend
  pub gave_up : List PendingSend

-- The CRCs whose deadline has passed.
unfoldable pub due_crcs : ℕ → Map ℕ PendingSend → List ℕ
due_crcs now [] = []
due_crcs now ((crc, r) ∷ m) =
    let rest = due_crcs now m in if leb r.deadline now then crc ∷ rest else rest

-- The loop over the due CRCs.
unfoldable pub take_due : ℕ → List ℕ → Map ℕ PendingSend → DueSends → Map ℕ PendingSend × DueSends
take_due max_attempts [] m due = (m, due)
take_due max_attempts (crc ∷ crcs) m due = elim (get crc m) [
  | none ↦ take_due max_attempts crcs m due
  | some rec ↦ take_due max_attempts crcs (remove crc m) (
      if ltb rec.attempt max_attempts
      then record due { to_retry = due.to_retry ++ rec ∷ [] }
      else record due { gave_up = due.gave_up ++ rec ∷ [] })
]

abbrev pub no_due : DueSends
no_due = record { to_retry = []; gave_up = [] }

unfoldable pub collect_due : ℕ → SendTracker → SendTracker × DueSends
collect_due now t =
    let (m, due) =
      take_due t.cfg.max_attempts (due_crcs now t.awaiting_ack) t.awaiting_ack no_due in
    (record t { awaiting_ack = m }, due)

abbrev pub txt_type_plain : ℕ
txt_type_plain = 0

-- `enqueue_text`: nothing is recorded where the channel to the radio is closed (`open`).
unfoldable pub enqueue_text : Bool → Bytes → Bytes → ℕ → ℕ → SendTracker → SendTracker
enqueue_text open_channel prefix text attempt now t =
    if open_channel
    then (if retries_enabled t then record_send prefix text txt_type_plain attempt now t else t)
    else t

-- What each round of the loop meets when `n` replies are left: whether the channel is open, and
-- the time.
abbrev pub Rounds : Type 0
Rounds = ℕ → Bool × ℕ

-- The loop of `retransmit_due_replies` over the replies to send again.
unfoldable pub resend_all : Rounds → List PendingSend → SendTracker → SendTracker
resend_all env [] t = t
resend_all env (rec ∷ recs) t =
    let (open_channel, now) = env (length recs) in
    resend_all env recs (enqueue_text open_channel rec.prefix rec.text (rec.attempt + 1) now t)

unfoldable pub retransmit_due_replies : Rounds → ℕ → SendTracker → SendTracker × List PendingSend
retransmit_due_replies env now t =
    if retries_enabled t
    then (let (t', due) = collect_due now t in (resend_all env due.to_retry t', due.gave_up))
    else (t, [])
