-- ===== src/Advert/Evict.antt =====
-- crates/bbs-plugin-api/src/advert.rs: what a full radio evicts, and why nothing could be.
use supply_drop_bbs.Prelude.{
  ℕ, ◌≤◌, ◌≡◌, refl, ◌⊎◌, inl, inr, Bool, true, false, not, ◌&&◌, ◌||◌, none, some, List, [], ◌∷◌,
  Bytes, ltb, ◌==◌, nat_eq, list_eq, list_beq_iff, arith, length, Option-cases, All,
}
use supply_drop_bbs.Prelude.Map.{Map, get, retain, IsMap, retain-All_stored, retain-All_meets}
use supply_drop_bbs.Advert.Records.{AdvertRecord, AdvertBusInner, is_effectively_protected, prefix6}
use supply_drop_bbs.Advert.Decide.{contains}
use supply_drop_bbs.Advert.Query.{
  is_evictable, seen_at, stalest_pubkey_excluding, all_remaining_from, all_remaining_favourited,
}
use supply_drop_bbs.Advert.Select.{min_by_key, min_by_key-All, min_by_key_least, min_by_key-none}

-- A record of the radio network that no session excludes.
abbrev pub in_play : List Bytes → Bytes → Bytes → AdvertRecord → Bool
in_play exclude radio k r = r.transport == radio && not (contains (prefix6 k) exclude)

-- The record is of the radio network, no session excludes it, it is not protected, and no such
-- record was heard longer ago.
pub record IsStalest (exclude : List Bytes) (radio : Bytes) (now : ℕ) (s : AdvertBusInner)
    (k : Bytes) (r : AdvertRecord) : Type 0 where
  pub stored : get k s.records ≡ some r
  pub same_radio : r.transport ≡ radio
  pub not_excluded : contains (prefix6 k) exclude ≡ false
  pub bare : is_effectively_protected r now ≡ false
  pub oldest :
      All (λ x. seen_at (k, r) ≤ seen_at x) (retain (is_evictable exclude radio now) s.records)

module _ (exclude : List Bytes) (radio : Bytes) (now : ℕ) where
  all_remaining_from_lem :
      (saw : Bool) (m : Map Bytes AdvertRecord)
      → all_remaining_from exclude radio now saw m ≡ (
          (saw || ltb 0 (length (retain (in_play exclude radio) m)))
          && length (retain (is_evictable exclude radio now) m) == 0)
  unfolding all_remaining_from retain is_evictable
  all_remaining_from_lem true [] = refl
  all_remaining_from_lem false [] = refl
  all_remaining_from_lem saw ((k, r) ∷ m) =
      ground (arith, all_remaining_from_lem saw m, all_remaining_from_lem true m)

  is_evictable_parts :
      (k : Bytes) (r : AdvertRecord)
      → is_evictable exclude radio now k r ≡ true
      → (r.transport ≡ radio)
        × (contains (prefix6 k) exclude ≡ false)
        × (is_effectively_protected r now ≡ false)
  unfolding is_evictable
  is_evictable_parts k r h = ground (arith, list_beq_iff r.transport radio)

  stalest_lem :
      (s : AdvertBusInner) (k : Bytes) (r : AdvertRecord)
      → IsMap s.records
      → min_by_key seen_at (retain (is_evictable exclude radio now) s.records) ≡ some (k, r)
      → IsStalest exclude radio now s k r
  stalest_lem s k r valid found =
      let m = retain (is_evictable exclude radio now) s.records in
      let stored =
        min_by_key-All seen_at (λ (j, w). get j s.records ≡ some w) m (k, r)
          (retain-All_stored (is_evictable exclude radio now) s.records valid) found in
      let meets =
        min_by_key-All seen_at (λ (j, w). is_evictable exclude radio now j w ≡ true) m (k, r)
          (retain-All_meets (is_evictable exclude radio now) s.records) found in
      let parts = is_evictable_parts k r meets in
      record {
        stored = stored;
        same_radio = parts.0;
        not_excluded = parts.1;
        bare = parts.2;
        oldest = min_by_key_least seen_at m (k, r) found;
      }

  -- Where no key stands twice: either a key is chosen for the eviction, and its record is of the
  -- radio network, in no session, not protected, and heard no later than any such record; or none is,
  -- and then the diagnosis is that all are protected exactly where a record of the network is in no
  -- session.
  pub stalest_pubkey_excluding_cases :
      (s : AdvertBusInner)
      → IsMap s.records
      → ((k : Bytes) × (r : AdvertRecord) × (stalest_pubkey_excluding exclude radio now s ≡ some k)
          × IsStalest exclude radio now s k r)
        ⊎ ((stalest_pubkey_excluding exclude radio now s ≡ none)
            × (all_remaining_favourited exclude radio now s
                ≡ ltb 0 (length (retain (in_play exclude radio) s.records))))
  unfolding stalest_pubkey_excluding all_remaining_favourited
  stalest_pubkey_excluding_cases s valid =
      let m = retain (is_evictable exclude radio now) s.records in
      elim (Option-cases (min_by_key seen_at m)) [
        | inr ((k, r), found) ↦ inl (k, r, ground arith, stalest_lem s k r valid found)
        | inl absent ↦
            let empty : m ≡ [] = min_by_key-none seen_at m absent in
            inr (ground arith, ground (arith, all_remaining_from_lem false s.records))
      ]
