-- ===== src/Advert/Contract.antt =====
-- crates/bbs-plugin-api/src/advert.rs: what is promised of the decision, by its outcome.
use supply_drop_bbs.Prelude.{
  ℕ, ◌≡◌, ◌≤◌, ◌<◌, ◌⊎◌, Bool, true, false, Option, none, some, List, [], Bytes, ◌==◌, nat_eq,
  list_eq, is_some_and, length, All,
}
use supply_drop_bbs.Prelude.Map.{get, retain}
use supply_drop_bbs.Advert.Records.{
  AdvertRecord, AdvertBusInner, within_grace, is_effectively_protected, prefix6,
}
use supply_drop_bbs.Advert.Decide.{
  FavouriteOutcome, protected, protected_with_eviction, already_protected, ineligible,
  no_record_yet, cap_reached, set_protected, set_unprotected, snapshot_of, modify_record, contains,
  counts, is_candidate, protected_since,
}

-- The record may be protected: it is fully known, not protected, and of an eligible type.
pub record MayProtect (k : Bytes) (is_eligible : ℕ → Option Bool) (now : ℕ) (s : AdvertBusInner)
    (r : AdvertRecord) : Type 0 where
  pub stored : get k s.records ≡ some r
  pub full : r.has_full_record ≡ true
  pub bare : is_effectively_protected r now ≡ false
  pub eligible : is_eligible r.adv_type ≡ some true

-- The victim is a protected record of the same radio network, not the one to protect, not in a
-- session, not protected recently, and no such record was protected longer ago.
pub record IsVictim (k transport : Bytes) (now : ℕ) (exclude : List Bytes) (s : AdvertBusInner)
    (v : Bytes) (old : AdvertRecord) : Type 0 where
  pub stored : get v s.records ≡ some old
  pub other : v == k ≡ false
  pub same_radio : old.transport ≡ transport
  pub was_protected : is_effectively_protected old now ≡ true
  pub not_excluded : contains (prefix6 v) exclude ≡ false
  pub not_recent : is_some_and old.protected_at (λ t. within_grace t now) ≡ false
  pub oldest :
      All
        (λ x. protected_since (v, old) ≤ protected_since x)
        (retain (is_candidate k transport now exclude) s.records)

-- What is promised of the decision on the record at `k`: the bus and the outcome after it.
pub data Decides (k : Bytes) (is_eligible : ℕ → Option Bool) (limit : ℕ) (exclude : List Bytes)
    (now : ℕ) (s : AdvertBusInner) : AdvertBusInner → FavouriteOutcome → Type 0 where
  unknown : get k s.records ≡ none → Decides k is_eligible limit exclude now s s no_record_yet
  short :
      (r : AdvertRecord)
      → get k s.records ≡ some r
      → r.has_full_record ≡ false
      → Decides k is_eligible limit exclude now s s no_record_yet
  already :
      (r : AdvertRecord)
      → get k s.records ≡ some r
      → r.has_full_record ≡ true
      → is_effectively_protected r now ≡ true
      → Decides k is_eligible limit exclude now s s already_protected
  wrong_type :
      (r : AdvertRecord)
      → get k s.records ≡ some r
      → r.has_full_record ≡ true
      → is_effectively_protected r now ≡ false
      → (is_eligible r.adv_type ≡ none) ⊎ (is_eligible r.adv_type ≡ some false)
      → Decides k is_eligible limit exclude now s s ineligible
  no_protection :
      (r : AdvertRecord)
      → MayProtect k is_eligible now s r
      → limit ≡ 0
      → Decides k is_eligible limit exclude now s s cap_reached
  room :
      (r : AdvertRecord)
      → MayProtect k is_eligible now s r
      → length (retain (counts r.transport now) s.records) < limit
      → Decides k is_eligible limit exclude now s
          (modify_record k (set_protected now) s)
          (protected (snapshot_of k now (set_protected now r)))
  full :
      (r : AdvertRecord)
      → MayProtect k is_eligible now s r
      → limit ≤ length (retain (counts r.transport now) s.records)
      → retain (is_candidate k r.transport now exclude) s.records ≡ []
      → Decides k is_eligible limit exclude now s s cap_reached
  eviction :
      (r : AdvertRecord) (v : Bytes) (old : AdvertRecord)
      → MayProtect k is_eligible now s r
      → limit ≤ length (retain (counts r.transport now) s.records)
      → IsVictim k r.transport now exclude s v old
      → Decides k is_eligible limit exclude now s
          (modify_record k (set_protected now) (modify_record v (set_unprotected now) s))
          (protected_with_eviction (snapshot_of k now (set_protected now r)) v old)
