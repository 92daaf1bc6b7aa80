-- ===== src/Mesh/SendTracker/Due.antt =====
-- crates/bbs-mesh/src/send_tracker.rs: `collect_due` splits the records by deadline and budget.
use supply_drop_bbs.Prelude.{
  ℕ, ◌≡◌, Bool, not, List, [], ◌∷◌, ◌++◌, append_assoc, append-nil, ltb, leb, nat_eq, if◌then◌else◌,
  arith, Bool-cases, inl, inr,
}
use supply_drop_bbs.Prelude.Map.{Map, retain, IsMap, IsMap-remove, get-middle, remove-middle}
use supply_drop_bbs.Mesh.SendTracker.{
  PendingSend, SendTracker, DueSends, no_due, due_crcs, take_due, collect_due,
}

-- The records whose deadline has passed, and those among them with or without attempts left.
abbrev pub due_records : ℕ → Map ℕ PendingSend → List PendingSend
due_records now [] = []
due_records now ((crc, r) ∷ m) =
    let rest = due_records now m in if leb r.deadline now then r ∷ rest else rest

abbrev pub with_budget : ℕ → List PendingSend → List PendingSend
with_budget cap [] = []
with_budget cap (r ∷ rs) =
    let rest = with_budget cap rs in if ltb r.attempt cap then r ∷ rest else rest

abbrev pub without_budget : ℕ → List PendingSend → List PendingSend
without_budget cap [] = []
without_budget cap (r ∷ rs) =
    let rest = without_budget cap rs in if ltb r.attempt cap then rest else r ∷ rest

abbrev pub not_due : ℕ → ℕ → PendingSend → Bool
not_due now _ r = not (leb r.deadline now)

take_due_lem :
    (cap now : ℕ) (kept m : Map ℕ PendingSend) (due : DueSends)
    → IsMap (kept ++ m)
    → take_due cap (due_crcs now m) (kept ++ m) due ≡ (
      kept ++ retain (not_due now) m,
      record {
        to_retry = due.to_retry ++ with_budget cap (due_records now m);
        gave_up = due.gave_up ++ without_budget cap (due_records now m);
      },
    )
unfolding take_due due_crcs retain
take_due_lem cap now kept [] due h = simp append-nil
take_due_lem cap now kept ((crc, r) ∷ m) due h = elim (Bool-cases (leb r.deadline now)) [
  | inr later ↦
      let ih =
        take_due_lem cap now (kept ++ (crc, r) ∷ []) m due
          (rw (append_assoc kept ((crc, r) ∷ []) m) h) in
      ground (
        arith,
        ih,
        append_assoc kept ((crc, r) ∷ []) m,
        append_assoc kept ((crc, r) ∷ []) (retain (not_due now) m),
      )
  | inl passed ↦ ground (
    arith,
    get-middle kept crc r m h,
    remove-middle kept crc r m h,
    take_due_lem cap now kept m (record due { to_retry = due.to_retry ++ r ∷ [] }) (fewer h),
    take_due_lem cap now kept m (record due { gave_up = due.gave_up ++ r ∷ [] }) (fewer h),
    append_assoc due.to_retry (r ∷ []) (with_budget cap (due_records now m)),
    append_assoc due.gave_up (r ∷ []) (without_budget cap (due_records now m)),
  )
]
  where
    fewer : IsMap (kept ++ (crc, r) ∷ m) → IsMap (kept ++ m)
    fewer h = rw (remove-middle kept crc r m h) at (IsMap-remove crc (kept ++ (crc, r) ∷ m) h)

-- Where no CRC is held twice, the loop over the due keys is a partition: what stays is what is not due, a due record with
-- attempts left is to be sent again, and every other due record has been given up.
pub collect_due_lem :
    (now : ℕ) (t : SendTracker)
    → IsMap t.awaiting_ack
    → collect_due now t ≡ (
      record t { awaiting_ack = retain (not_due now) t.awaiting_ack },
      record {
        to_retry = with_budget t.cfg.max_attempts (due_records now t.awaiting_ack);
        gave_up = without_budget t.cfg.max_attempts (due_records now t.awaiting_ack);
      },
    )
unfolding collect_due
collect_due_lem now t h =
    ground (arith, take_due_lem t.cfg.max_attempts now [] t.awaiting_ack no_due h)
