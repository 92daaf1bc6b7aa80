-- ===== src/Mesh/SendTracker/Tests.antt =====
-- crates/bbs-mesh/src/send_tracker.rs: runs of the tracker on concrete inputs.
use supply_drop_bbs.Prelude.{◌≡◌, refl, true, List, [], ◌∷◌, ◌++◌, Bytes, codes, arith, All, nat_eq}
use supply_drop_bbs.Prelude.Map.{get, insert, remove, retain}
use supply_drop_bbs.Mesh.SendTracker.{
  RetryConfig, PendingSend, SendTracker, accepted, new, ack_wait, retries_enabled, record_send,
  enqueue_text, on_sent, collect_due, due_crcs, take_due, retransmit_due_replies,
}
use supply_drop_bbs.Mesh.SendTracker.Due.{
  due_records, with_budget, without_budget, not_due, collect_due_lem,
}
use supply_drop_bbs.Mesh.SendTracker.Budget.{
  first, sent, Reach, start, next, IsInBudget, Reach-IsInBudget, gave_up_spent,
}
use supply_drop_bbs.Mesh.SendTracker.Fifo.{
  Wire, send, answer, confirm, addressed, attributed, waiting, run, fifo,
}

abbrev node : Bytes
node = 1 ∷ 2 ∷ 3 ∷ 4 ∷ 5 ∷ 6 ∷ []

abbrev cfg : RetryConfig
cfg = record { max_attempts = 2; min_timeout = 4000; max_timeout = 30000 }

abbrev once : PendingSend
once = record {
  prefix = node;
  text = codes "hi";
  txt_type = 0;
  attempt = 1;
  sent_at = 1000;
  deadline = 5000;
}

abbrev twice : PendingSend
twice = record {
  prefix = node;
  text = codes "yo";
  txt_type = 0;
  attempt = 2;
  sent_at = 2000;
  deadline = 6000;
}

abbrev later : PendingSend
later = record {
  prefix = node;
  text = codes "ok";
  txt_type = 0;
  attempt = 1;
  sent_at = 9000;
  deadline = 40000;
}

abbrev busy : SendTracker
busy = record {
  cfg = cfg;
  awaiting_sent = later ∷ [];
  awaiting_ack = (11, once) ∷ (12, twice) ∷ (13, later) ∷ [];
}

collect_run : collect_due 7000 busy ≡ (
  record busy { awaiting_ack = (13, later) ∷ [] },
  record { to_retry = once ∷ []; gave_up = twice ∷ [] },
)
unfolding collect_due take_due due_crcs get remove
collect_run = refl

collect_due_lem_example : collect_due 7000 busy ≡ (
  record busy { awaiting_ack = retain (not_due 7000) busy.awaiting_ack },
  record {
    to_retry = with_budget 2 (due_records 7000 busy.awaiting_ack);
    gave_up = without_budget 2 (due_records 7000 busy.awaiting_ack);
  },
)
unfolding get
collect_due_lem_example = collect_due_lem 7000 busy (refl, (refl, (refl, tt)))

-- The first send, accepted by the radio.
abbrev in_flight : SendTracker
in_flight = record { cfg = cfg; awaiting_sent = []; awaiting_ack = (11, once) ∷ [] }

in_flight_reached : Reach cfg in_flight
unfolding enqueue_text retries_enabled record_send on_sent ack_wait insert remove
in_flight_reached =
    next
      (next {t' = record (new cfg) { awaiting_sent = record once { deadline = 1000 } ∷ [] }} start
        (first true node (codes "hi") 1000 refl))
      (sent 11 100 1000 refl)

Reach-IsInBudget_example : IsInBudget cfg in_flight
Reach-IsInBudget_example = Reach-IsInBudget cfg (omega arith) in_flight_reached

gave_up_spent_example :
    All
      (λ (r : PendingSend). r.attempt ≡ 2)
      (retransmit_due_replies (λ _. (true, 5000)) 5000 in_flight).1
gave_up_spent_example = gave_up_spent cfg (λ _. (true, 5000)) 5000 (omega arith) in_flight_reached

abbrev wires : List Wire
wires =
    send node (codes "hi") 0 1 1000
    ∷ send (0 ∷ []) (codes "yo") 0 1 1100
    ∷ answer 11 100 1200
    ∷ confirm 11
    ∷ answer 0 100 1300
    ∷ answer 14 100 1400
    ∷ []

fifo_example :
    waiting (new cfg) ++ addressed wires
    ≡ attributed wires (new cfg) ++ waiting (run wires (new cfg))
fifo_example = fifo wires (new cfg)

on_sent_accepted : (on_sent 11 500 9500 busy).1 ≡ accepted node
unfolding on_sent
on_sent_accepted = refl
