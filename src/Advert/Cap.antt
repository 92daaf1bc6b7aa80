-- ===== src/Advert/Cap.antt =====
-- crates/bbs-plugin-api/src/advert.rs: the number of protected contacts stays under the cap.
use supply_drop_bbs.Prelude.{
  ℕ, ◌+◌, ◌≤◌, ◌<◌, ◌≡◌, max, subst, inl, inr, Bool, false, Option, some, List, Bytes, ◌==◌, nat_eq,
  list_eq, list_beq_iff, if◌then◌else◌, arith, length, Bool-cases,
}
use supply_drop_bbs.Prelude.Map.{get, retain, IsMap, IsMap-modify, get-modify, count-modify}
use supply_drop_bbs.Advert.Records.{AdvertRecord, AdvertBusInner, is_effectively_protected}
use supply_drop_bbs.Advert.Decide.{
  FavouriteOutcome, set_protected, set_unprotected, modify_record, counts, decide_favourite,
}
use supply_drop_bbs.Advert.Contract.{IsVictim, Decides}
use supply_drop_bbs.Advert.Moves.{decide_favourite_refines}

-- The contacts of a radio network that are read as protected.
abbrev pub protected_on : Bytes → ℕ → AdvertBusInner → ℕ
protected_on radio now s = length (retain (counts radio now) s.records)

module _ (radio : Bytes) (now : ℕ) where
  counts_unprotected :
      (v : Bytes) (r : AdvertRecord) → counts radio now v (set_unprotected now r) ≡ false
  unfolding counts set_unprotected is_effectively_protected
  counts_unprotected v r = ground arith

  counts_protected :
      (k : Bytes) (r : AdvertRecord)
      → counts radio now k (set_protected now r) ≡ (r.transport == radio)
  unfolding counts set_protected is_effectively_protected
  counts_protected k r = ground arith

  counts_bare :
      (k : Bytes) (r : AdvertRecord)
      → is_effectively_protected r now ≡ false
      → counts radio now k r ≡ false
  unfolding counts
  counts_bare k r h = ground arith

  -- One protection adds one contact to its own radio network.
  protected_on_protect :
      (k : Bytes) (r : AdvertRecord) (s : AdvertBusInner)
      → IsMap s.records
      → get k s.records ≡ some r
      → is_effectively_protected r now ≡ false
      → protected_on radio now (modify_record k (set_protected now) s)
        ≡ protected_on radio now s + (if r.transport == radio then 1 else 0)
  unfolding modify_record
  protected_on_protect k r s i there bare = ground (
    arith,
    count-modify (counts radio now) k (set_protected now) s.records r i there,
    counts_protected k r,
    counts_bare k r bare,
  )

  protected_on_unprotect :
      (v : Bytes) (r : AdvertRecord) (s : AdvertBusInner)
      → IsMap s.records
      → get v s.records ≡ some r
      → protected_on radio now (modify_record v (set_unprotected now) s)
          + (if counts radio now v r then 1 else 0)
        ≡ protected_on radio now s
  unfolding modify_record
  protected_on_unprotect v r s i there = ground (
    arith,
    count-modify (counts radio now) v (set_unprotected now) s.records r i there,
    counts_unprotected v r,
  )

  counts_victim :
      {k radio' v : Bytes} {exclude : List Bytes} {s : AdvertBusInner} {old : AdvertRecord}
      → IsVictim k radio' now exclude s v old
      → counts radio now v old ≡ (radio' == radio)
  unfolding counts
  counts_victim i = ground (arith, i.same_radio, i.was_protected)

  IsMap_unprotect :
      (v : Bytes) (s : AdvertBusInner)
      → IsMap s.records
      → IsMap (modify_record v (set_unprotected now) s).records
  unfolding modify_record
  IsMap_unprotect v s i = IsMap-modify v (set_unprotected now) s.records i

  evicted_other :
      (k : Bytes) (r : AdvertRecord) (v : Bytes) (s : AdvertBusInner)
      → v == k ≡ false
      → get k s.records ≡ some r
      → get k (modify_record v (set_unprotected now) s).records ≡ some r
  unfolding modify_record
  evicted_other k r v s other there = ground (arith, get-modify v k (set_unprotected now) s.records)

  decided_cap :
      (k : Bytes) {is_eligible : ℕ → Option Bool} (limit : ℕ) {exclude : List Bytes}
      (s : AdvertBusInner) {s' : AdvertBusInner} {o : FavouriteOutcome}
      → IsMap s.records
      → Decides k is_eligible limit exclude now s s' o
      → protected_on radio now s' ≤ max limit (protected_on radio now s)
  decided_cap k limit s i (Decides.unknown _) = omega arith
  decided_cap k limit s i (Decides.short _ _ _) = omega arith
  decided_cap k limit s i (Decides.already _ _ _ _) = omega arith
  decided_cap k limit s i (Decides.wrong_type _ _ _ _ _) = omega arith
  decided_cap k limit s i (Decides.no_protection _ _ _) = omega arith
  decided_cap k limit s i (Decides.full _ _ _ _) = omega arith
  decided_cap k limit s i (Decides.room r may below) =
      let one_more = protected_on_protect k r s i may.stored may.bare in
      elim (Bool-cases (r.transport == radio)) [
        | inl same ↦
            let radios : r.transport ≡ radio = (list_beq_iff r.transport radio).0 same in
            let under : protected_on radio now s < limit = rw radios at below in
            ground (arith, one_more)
        | inr other ↦ ground (arith, one_more)
      ]
  decided_cap k limit s i (Decides.eviction r v old may above chosen) =
      let one_less = protected_on_unprotect v old s i chosen.stored in
      let one_more =
        protected_on_protect k r (modify_record v (set_unprotected now) s) (IsMap_unprotect v s i)
          (evicted_other k r v s chosen.other may.stored) may.bare in
      ground (arith, one_more, one_less, counts_victim chosen)

-- Where no key stands twice, the decision never raises the number of contacts that a radio network
-- has protected above the cap, nor above the number that it had.
pub decide_favourite_cap :
    (k : Bytes) (is_eligible : ℕ → Option Bool) (limit : ℕ) (exclude : List Bytes) (now : ℕ)
    (s s' : AdvertBusInner) (o : FavouriteOutcome)
    → IsMap s.records
    → decide_favourite k is_eligible limit exclude now s ≡ some (s', o)
    → (radio : Bytes) → protected_on radio now s' ≤ max limit (protected_on radio now s)
decide_favourite_cap k is_eligible limit exclude now s s' o i ran radio =
    let (s'', o', ran', promised) = decide_favourite_refines k is_eligible now exclude s i limit in
    let states : s'' ≡ s' = ground arith in
    subst (λ x. protected_on radio now x ≤ max limit (protected_on radio now s)) states
      (decided_cap radio now k limit s i promised)
