-- ===== src/Mesh/SendTracker/Fifo.antt =====
-- crates/bbs-mesh/src/send_tracker.rs: the radio's answers are correlated with the sends by order.
use supply_drop_bbs.Prelude.{
  ℕ, ◌+◌, ◌≤◌, ◌≡◌, refl, some, List, [], ◌∷◌, ◌++◌, append_assoc, append-nil, map, map-append,
  Bytes, nat_eq, arith,
}
use supply_drop_bbs.Prelude.Map.{get, get-insert}
use supply_drop_bbs.Mesh.SendTracker.{
  RetryConfig, PendingSend, SendTracker, SentOutcome, accepted, failed, spurious, ack_wait,
  record_send, on_sent, on_sent_queue, on_confirmed,
}

-- A send that is recorded, or an answer of the radio.
pub data Wire : Type 0 where
  send : Bytes → Bytes → ℕ → ℕ → ℕ → Wire
  answer : ℕ → ℕ → ℕ → Wire
  confirm : ℕ → Wire

unfoldable pub after : Wire → SendTracker → SendTracker
after (send prefix text txt_type attempt now) t = record_send prefix text txt_type attempt now t
after (answer crc timeout_ms now) t = (on_sent crc timeout_ms now t).0
after (confirm crc) t = (on_confirmed crc t).0

unfoldable pub run : List Wire → SendTracker → SendTracker
run [] t = t
run (w ∷ ws) t = run ws (after w t)

-- The nodes that the sends go to, and those that the answers are attributed to.
abbrev pub addressed : List Wire → List Bytes
addressed [] = []
addressed (send prefix text txt_type attempt now ∷ ws) = prefix ∷ addressed ws
addressed (_ ∷ ws) = addressed ws

abbrev pub attributed_to : SentOutcome → List Bytes
attributed_to (accepted prefix) = prefix ∷ []
attributed_to (failed rec) = rec.prefix ∷ []
attributed_to spurious = []

abbrev pub attributed : List Wire → SendTracker → List Bytes
attributed [] t = []
attributed (answer crc timeout_ms now ∷ ws) t =
    attributed_to (on_sent crc timeout_ms now t).1
    ++ attributed ws (after (answer crc timeout_ms now) t)
attributed (send prefix text txt_type attempt now ∷ ws) t =
    attributed ws (after (send prefix text txt_type attempt now) t)
attributed (confirm crc ∷ ws) t = attributed ws (after (confirm crc) t)

abbrev pub waiting : SendTracker → List Bytes
waiting t = map (λ r. r.prefix) t.awaiting_sent

waiting_queue :
    (crc timeout_ms now : ℕ) (queue : List PendingSend) (t : SendTracker)
    → map (λ r. r.prefix) queue
      ≡ attributed_to (on_sent_queue queue crc timeout_ms now t).1
        ++ waiting (on_sent_queue queue crc timeout_ms now (record t { awaiting_sent = queue })).0
unfolding on_sent_queue
waiting_queue crc timeout_ms now [] t = refl
waiting_queue crc timeout_ms now (rec ∷ rest) t = ground arith

waiting-answer :
    (crc timeout_ms now : ℕ) (t : SendTracker)
    → waiting t
      ≡ attributed_to (on_sent crc timeout_ms now t).1 ++ waiting (on_sent crc timeout_ms now t).0
unfolding on_sent
waiting-answer crc timeout_ms now t = waiting_queue crc timeout_ms now t.awaiting_sent t

waiting-send :
    (prefix text : Bytes) (txt_type attempt now : ℕ) (t : SendTracker)
    → waiting (record_send prefix text txt_type attempt now t) ≡ waiting t ++ prefix ∷ []
unfolding record_send
waiting-send prefix text txt_type attempt now t = map-append _ t.awaiting_sent _

waiting-confirm : (crc : ℕ) (t : SendTracker) → waiting (on_confirmed crc t).0 ≡ waiting t
unfolding on_confirmed
waiting-confirm crc t = refl

-- Sends and answers match in order: the nodes waiting at the start and those addressed since are
-- those that the answers were attributed to, followed by those that still wait.
pub fifo :
    (ws : List Wire) (t : SendTracker)
    → waiting t ++ addressed ws ≡ attributed ws t ++ waiting (run ws t)
unfolding run after
fifo [] t = append-nil (waiting t)
fifo (send prefix text txt_type attempt now ∷ ws) t = cc (
  append_assoc (waiting t) (prefix ∷ []) (addressed ws),
  waiting-send prefix text txt_type attempt now t,
  fifo ws (record_send prefix text txt_type attempt now t),
)
fifo (answer crc timeout_ms now ∷ ws) t = cc (
  waiting-answer crc timeout_ms now t,
  append_assoc (attributed_to (on_sent crc timeout_ms now t).1)
      (waiting (on_sent crc timeout_ms now t).0) (addressed ws),
  append_assoc (attributed_to (on_sent crc timeout_ms now t).1)
      (attributed ws (on_sent crc timeout_ms now t).0)
      (waiting (run ws (on_sent crc timeout_ms now t).0)),
  fifo ws (on_sent crc timeout_ms now t).0,
)
fifo (confirm crc ∷ ws) t = cc (waiting-confirm crc t, fifo ws (on_confirmed crc t).0)

ack_wait_bounds :
    (cfg : RetryConfig) (hint : ℕ)
    → cfg.min_timeout ≤ cfg.max_timeout
    → (cfg.min_timeout ≤ ack_wait cfg hint) × (ack_wait cfg hint ≤ cfg.max_timeout)
unfolding ack_wait
ack_wait_bounds cfg hint h = ground arith

queue_deadline :
    (queue : List PendingSend) (crc timeout_ms now : ℕ) (t : SendTracker) (prefix : Bytes)
    → t.cfg.min_timeout ≤ t.cfg.max_timeout
    → (on_sent_queue queue crc timeout_ms now t).1 ≡ accepted prefix
    → (r : PendingSend) × (get crc (on_sent_queue queue crc timeout_ms now t).0.awaiting_ack
        ≡ some r)
      × (r.prefix ≡ prefix)
      × (now + t.cfg.min_timeout ≤ r.deadline)
      × (r.deadline ≤ now + t.cfg.max_timeout)
unfolding on_sent_queue
queue_deadline [] crc timeout_ms now t prefix h ok = absurd (cc)
queue_deadline (rec ∷ rest) crc timeout_ms now t prefix h ok =
    let kept : PendingSend = record rec { deadline = now + ack_wait t.cfg timeout_ms } in
    (
      kept,
      ground (arith, get-insert crc crc kept t.awaiting_ack),
      ground arith,
      omega (arith, ack_wait_bounds t.cfg timeout_ms h),
      omega (arith, ack_wait_bounds t.cfg timeout_ms h),
    )

-- Where the configured minimum is at most the maximum, an accepted send waits for its confirmation
-- at least the minimum and at most the maximum.
pub on_sent_deadline :
    (crc timeout_ms now : ℕ) (t : SendTracker) (prefix : Bytes)
    → t.cfg.min_timeout ≤ t.cfg.max_timeout
    → (on_sent crc timeout_ms now t).1 ≡ accepted prefix
    → (r : PendingSend) × (get crc (on_sent crc timeout_ms now t).0.awaiting_ack ≡ some r)
      × (r.prefix ≡ prefix)
      × (now + t.cfg.min_timeout ≤ r.deadline)
      × (r.deadline ≤ now + t.cfg.max_timeout)
unfolding on_sent
on_sent_deadline crc timeout_ms now t prefix h ok =
    queue_deadline t.awaiting_sent crc timeout_ms now t prefix h ok
