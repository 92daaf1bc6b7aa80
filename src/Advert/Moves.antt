-- ===== src/Advert/Moves.antt =====
-- crates/bbs-plugin-api/src/advert.rs: what the decision does to the bus, by its outcome.
use supply_drop_bbs.Prelude.{
  ℕ, ◌≡◌, inl, inr, Bool, true, false, Option, some, List, Bytes, ltb, ◌==◌, nat_eq, list_eq, arith,
  Option-cases, Bool-cases, is_some_and, length, list_beq_iff, ltb→lt,
}
use supply_drop_bbs.Prelude.Map.{
  get, modify, retain, IsMap, get-modify, retain-All_stored, retain-All_meets,
}
use supply_drop_bbs.Advert.Records.{
  AdvertRecord, AdvertBusInner, within_grace, is_effectively_protected, prefix6,
}
use supply_drop_bbs.Advert.Decide.{
  FavouriteOutcome, protected_with_eviction, already_protected, ineligible, no_record_yet,
  cap_reached, set_protected, set_unprotected, snapshot_of, modify_record, protect_record,
  unprotect_locked, contains, counts, is_candidate, protected_since, victim, protect_under_cap,
  decide_favourite,
}
use supply_drop_bbs.Advert.Select.{min_by_key-All, min_by_key_least, min_by_key-none}
use supply_drop_bbs.Advert.Contract.{
  MayProtect, IsVictim, Decides, unknown, short, already, wrong_type, no_protection, room, full,
  eviction,
}

-- The parts of the filter's test.
is_candidate_parts :
    (k transport : Bytes) (now : ℕ) (exclude : List Bytes) (v : Bytes) (old : AdvertRecord)
    → is_candidate k transport now exclude v old ≡ true
    → (v == k ≡ false)
      × (old.transport ≡ transport)
      × (is_effectively_protected old now ≡ true)
      × (contains (prefix6 v) exclude ≡ false)
      × (is_some_and old.protected_at (λ t. within_grace t now) ≡ false)
unfolding is_candidate counts
is_candidate_parts k transport now exclude v old h =
    ground (arith, list_beq_iff old.transport transport)

module _ (k transport : Bytes) (now : ℕ) (exclude : List Bytes) (s : AdvertBusInner) where
  victim_lem :
      (v : Bytes) (old : AdvertRecord)
      → IsMap s.records
      → victim k transport now exclude s ≡ some (v, old)
      → IsVictim k transport now exclude s v old
  unfolding victim
  victim_lem v old valid found =
      let m = retain (is_candidate k transport now exclude) s.records in
      let stored =
        min_by_key-All protected_since (λ (j, w). get j s.records ≡ some w) m (v, old)
          (retain-All_stored (is_candidate k transport now exclude) s.records valid) found in
      let meets =
        min_by_key-All protected_since (λ (j, w). is_candidate k transport now exclude j w ≡ true) m
          (v, old) (retain-All_meets (is_candidate k transport now exclude) s.records) found in
      let parts = is_candidate_parts k transport now exclude v old meets in
      record {
        stored = stored;
        other = parts.0;
        same_radio = parts.1;
        was_protected = parts.2;
        not_excluded = parts.3;
        not_recent = parts.4;
        oldest = min_by_key_least protected_since m (v, old) found;
      }

module _ (k : Bytes) (is_eligible : ℕ → Option Bool) (now : ℕ) (exclude : List Bytes)
    (s : AdvertBusInner) (valid : IsMap s.records) where
  evict_run :
      (limit : ℕ) (r : AdvertRecord) (v : Bytes) (old : AdvertRecord)
      → get k s.records ≡ some r
      → ltb (length (retain (counts r.transport now) s.records)) limit ≡ false
      → victim k r.transport now exclude s ≡ some (v, old)
      → IsVictim k r.transport now exclude s v old
      → protect_under_cap k r.transport now limit exclude s
        ≡ some (
          modify_record k (set_protected now) (modify_record v (set_unprotected now) s),
          protected_with_eviction (snapshot_of k now (set_protected now r)) v old,
        )
  unfolding protect_under_cap protect_record unprotect_locked modify_record
  evict_run limit r v old there above chosen i =
      let still : get k (modify v (set_unprotected now) s.records) ≡ some r =
        rw (get-modify v k (set_unprotected now) s.records, i.other) there in
      ground arith

  -- The end of the decision yields what is promised, and neither `expect` fails.
  protect_under_cap_refines :
      (limit : ℕ) (r : AdvertRecord)
      → MayProtect k is_eligible now s r
      → (s' : AdvertBusInner) × (o : FavouriteOutcome) × (protect_under_cap k r.transport now limit
            exclude s
          ≡ some (s', o))
        × Decides k is_eligible limit exclude now s s' o
  unfolding protect_under_cap protect_record unprotect_locked victim
  protect_under_cap_refines limit r may =
      elim (Bool-cases (ltb (length (retain (counts r.transport now) s.records)) limit)) [
        | inl below ↦ (_, _, ground arith, room r may (ltb→lt _ _ below))
        | inr above ↦ elim (Option-cases (victim k r.transport now exclude s)) [
          | inl no_victim ↦ (
            s,
            cap_reached,
            ground arith,
            full r may (ground arith) (min_by_key-none protected_since _ (no_victim)),
          )
          | inr ((v, old), chosen) ↦
              let is_victim = victim_lem k r.transport now exclude s v old valid chosen in
              (
                _,
                _,
                evict_run limit r v old may.stored above chosen is_victim,
                eviction r v old may (ground arith) is_victim,
              )
        ]
      ]

  -- Where no key stands twice, the decision on a record never panics, and it yields what is
  -- promised: nothing changes where the record is unknown, known by its key alone, already protected,
  -- not of an eligible type, under a cap of 0, or where the cap is reached and no record may be
  -- evicted; below the cap it is protected; at the cap the record of the same radio network that was
  -- protected longest ago, among those not in a session and not protected within the grace window,
  -- is unprotected for it.
  pub decide_favourite_refines :
      (limit : ℕ)
      → (s' : AdvertBusInner) × (o : FavouriteOutcome) × (decide_favourite k is_eligible limit
            exclude now s
          ≡ some (s', o))
        × Decides k is_eligible limit exclude now s s' o
  unfolding decide_favourite
  decide_favourite_refines limit = elim (Option-cases (get k s.records)) [
    | inl absent ↦ (s, no_record_yet, ground arith, unknown absent)
    | inr (r, there) ↦ elim (Bool-cases r.has_full_record) [
      | inr bare ↦ (s, no_record_yet, ground arith, short r there bare)
      | inl known ↦ elim (Bool-cases (is_effectively_protected r now)) [
        | inl held ↦ (s, already_protected, ground arith, already r there known held)
        | inr free ↦ elim (Option-cases (is_eligible r.adv_type)) [
          | inl panics ↦ (s, ineligible, ground arith, wrong_type r there known free (inl panics))
          | inr (false, refused) ↦
              (s, ineligible, ground arith, wrong_type r there known free (inr refused))
          | inr (true, accepted) ↦
              let may : MayProtect k is_eligible now s r = record {
                stored = there;
                full = known;
                bare = free;
                eligible = accepted;
              } in
              elim (Bool-cases (limit == 0)) [
                | inl zero_cap ↦ (s, cap_reached, ground arith, no_protection r may (ground arith))
                | inr positive ↦
                    let (s', o, ran, promised) = protect_under_cap_refines limit r may in
                    (s', o, ground (arith, ran), promised)
              ]
        ]
      ]
    ]
  ]
