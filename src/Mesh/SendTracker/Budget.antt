-- ===== src/Mesh/SendTracker/Budget.antt =====
-- crates/bbs-mesh/src/send_tracker.rs and transport.rs: no reply is transmitted more often than the
-- configuration allows, whatever the radio answers.
use supply_drop_bbs.Prelude.{
  ℕ, ◌+◌, ◌≤◌, ◌≡◌, refl, Bool, true, false, List, [], ◌∷◌, Bytes, ◌==◌, nat_eq, arith, All,
  All-append, Bool-cases, inl, inr,
}
use supply_drop_bbs.Prelude.Map.{
  Map, IsMap, IsMap-remove, IsMap-insert, IsMap-retain, Every, Every-remove, Every-insert,
  Every-retain,
}
use supply_drop_bbs.Mesh.SendTracker.{
  RetryConfig, PendingSend, SendTracker, Rounds, new, retries_enabled, record_send, enqueue_text,
  on_sent, on_confirmed, resend_all, retransmit_due_replies,
}
use supply_drop_bbs.Mesh.SendTracker.Due.{
  due_records, with_budget, without_budget, not_due, collect_due_lem,
}

-- A first send, an answer of the radio, or a retry tick.
pub data Step : SendTracker → SendTracker → Type 0 where
  first :
      (open_channel : Bool) (prefix text : Bytes) (now : ℕ) {t t' : SendTracker}
      → t' ≡ enqueue_text open_channel prefix text 1 now t
      → Step t t'
  sent :
      (crc timeout_ms now : ℕ) {t t' : SendTracker}
      → t' ≡ (on_sent crc timeout_ms now t).0
      → Step t t'
  confirmed : (crc : ℕ) {t t' : SendTracker} → t' ≡ (on_confirmed crc t).0 → Step t t'
  tick :
      (env : Rounds) (now : ℕ) {t t' : SendTracker}
      → t' ≡ (retransmit_due_replies env now t).0
      → Step t t'

pub data Reach (cfg : RetryConfig) : SendTracker → Type 0 where
  start : Reach cfg (new cfg)
  next : {t t' : SendTracker} → Reach cfg t → Step t t' → Reach cfg t'

abbrev pub Allowed : ℕ → PendingSend → Type 0
Allowed cap r = r.attempt ≤ cap

pub record IsInBudget (cfg : RetryConfig) (t : SendTracker) : Type 0 where
  pub config : t.cfg ≡ cfg
  pub keys : IsMap t.awaiting_ack
  pub queued : All (Allowed cfg.max_attempts) t.awaiting_sent
  pub in_flight : Every (Allowed cfg.max_attempts) t.awaiting_ack

enqueue_text-IsInBudget :
    (cfg : RetryConfig) (open_channel : Bool) (prefix text : Bytes) (attempt now : ℕ)
    (t : SendTracker)
    → attempt ≤ cfg.max_attempts
    → IsInBudget cfg t
    → IsInBudget cfg (enqueue_text open_channel prefix text attempt now t)
unfolding enqueue_text record_send
enqueue_text-IsInBudget cfg false prefix text attempt now t h v = v
enqueue_text-IsInBudget cfg true prefix text attempt now t h v =
    elim (Bool-cases (retries_enabled t)) [
      | inr off ↦ rw off v
      | inl on ↦ rw on (record {
        config = v.config;
        keys = v.keys;
        queued = All-append (Allowed cfg.max_attempts) t.awaiting_sent _ v.queued (h, tt);
        in_flight = v.in_flight;
      })
    ]

queue-IsInBudget :
    (cfg : RetryConfig) (queue : List PendingSend) (crc timeout_ms now : ℕ) (t : SendTracker)
    → t.awaiting_sent ≡ queue
    → IsInBudget cfg t
    → IsInBudget cfg (on_sent crc timeout_ms now t).0
unfolding on_sent
queue-IsInBudget cfg [] crc timeout_ms now t e v =
    rw (e, on_sent)
      (record { config = v.config; keys = v.keys; queued = tt; in_flight = v.in_flight })
queue-IsInBudget cfg (rec ∷ rest) crc timeout_ms now t e v =
    let q : All (Allowed cfg.max_attempts) (rec ∷ rest) = rw e at v.queued in
    elim (Bool-cases (crc == 0)) [
      | inl lost ↦
          rw (e, lost, on_sent)
            (record { config = v.config; keys = v.keys; queued = q.1; in_flight = v.in_flight })
      | inr ok ↦
          rw (e, ok, on_sent)
            (record {
              config = v.config;
              keys = IsMap-insert crc _ t.awaiting_ack v.keys;
              queued = q.1;
              in_flight =
                  Every-insert (Allowed cfg.max_attempts) crc _ t.awaiting_ack q.0 v.in_flight;
            })
    ]

with_budget-Allowed :
    (cap : ℕ) (rs : List PendingSend) → All (λ r. r.attempt + 1 ≤ cap) (with_budget cap rs)
with_budget-Allowed cap [] = tt
with_budget-Allowed cap (r ∷ rs) = ground (arith, with_budget-Allowed cap rs)

resend_all-IsInBudget :
    (cfg : RetryConfig) (env : Rounds) (recs : List PendingSend) (t : SendTracker)
    → All (λ r. r.attempt + 1 ≤ cfg.max_attempts) recs
    → IsInBudget cfg t
    → IsInBudget cfg (resend_all env recs t)
unfolding resend_all
resend_all-IsInBudget cfg env [] t h v = v
resend_all-IsInBudget cfg env (rec ∷ recs) t h v =
    resend_all-IsInBudget cfg env recs _ h.1
      (enqueue_text-IsInBudget cfg _ rec.prefix rec.text (rec.attempt + 1) _ t h.0 v)

tick-IsInBudget :
    (cfg : RetryConfig) (env : Rounds) (now : ℕ) (t : SendTracker)
    → IsInBudget cfg t
    → IsInBudget cfg (retransmit_due_replies env now t).0
unfolding retransmit_due_replies
tick-IsInBudget cfg env now t v = elim (Bool-cases (retries_enabled t)) [
  | inr off ↦ rw off v
  | inl on ↦
      rw (on, collect_due_lem now t v.keys)
        (resend_all-IsInBudget cfg env _ _
          (rw v.config (with_budget-Allowed cfg.max_attempts (due_records now t.awaiting_ack)))
          (record {
            config = v.config;
            keys = IsMap-retain (not_due now) t.awaiting_ack v.keys;
            queued = v.queued;
            in_flight =
                Every-retain (Allowed cfg.max_attempts) (not_due now) t.awaiting_ack v.in_flight;
          }))
]

Step-IsInBudget :
    (cfg : RetryConfig) {t t' : SendTracker}
    → 1 ≤ cfg.max_attempts
    → Step t t'
    → IsInBudget cfg t
    → IsInBudget cfg t'
unfolding on_confirmed
Step-IsInBudget cfg {t} h (first open_channel prefix text now e) v =
    rw e (enqueue_text-IsInBudget cfg open_channel prefix text 1 now t h v)
Step-IsInBudget cfg {t} h (sent crc timeout_ms now e) v =
    rw e (queue-IsInBudget cfg t.awaiting_sent crc timeout_ms now t refl v)
Step-IsInBudget cfg {t} h (confirmed crc e) v = rw e (record {
  config = v.config;
  keys = IsMap-remove crc t.awaiting_ack v.keys;
  queued = v.queued;
  in_flight = Every-remove (Allowed cfg.max_attempts) crc t.awaiting_ack v.in_flight;
})
Step-IsInBudget cfg {t} h (tick env now e) v = rw e (tick-IsInBudget cfg env now t v)

-- Whatever the radio answers, every reply in flight has been transmitted at most as often as the
-- configuration allows.
pub Reach-IsInBudget :
    (cfg : RetryConfig) {t : SendTracker} → 1 ≤ cfg.max_attempts → Reach cfg t → IsInBudget cfg t
Reach-IsInBudget cfg h start = record { config = refl; keys = tt; queued = tt; in_flight = tt }
Reach-IsInBudget cfg h (next r st) = Step-IsInBudget cfg h st (Reach-IsInBudget cfg h r)

spent :
    (cap now : ℕ) (m : Map ℕ PendingSend)
    → Every (Allowed cap) m
    → All (λ r. r.attempt ≡ cap) (without_budget cap (due_records now m))
spent cap now [] h = tt
spent cap now ((crc, r) ∷ m) h = ground (arith, spent cap now m h.1)

-- In every state that the tracker reaches with a budget of at least one, a reply is given up only
-- once it has been transmitted exactly as often as the configuration allows.
pub gave_up_spent :
    (cfg : RetryConfig) (env : Rounds) (now : ℕ) {t : SendTracker}
    → 1 ≤ cfg.max_attempts
    → Reach cfg t
    → All (λ r. r.attempt ≡ cfg.max_attempts) (retransmit_due_replies env now t).1
unfolding retransmit_due_replies
gave_up_spent cfg env now {t} h r =
    let v = Reach-IsInBudget cfg h r in
    elim (Bool-cases (retries_enabled t)) [
      | inr off ↦ rw off tt
      | inl on ↦
          rw (on, collect_due_lem now t v.keys)
            (rw v.config (spent cfg.max_attempts now t.awaiting_ack v.in_flight))
    ]
