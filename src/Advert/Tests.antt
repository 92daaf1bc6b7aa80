-- ===== src/Advert/Tests.antt =====
-- crates/bbs-plugin-api/src/advert.rs: runs of the bus on concrete inputs.
use supply_drop_bbs.Prelude.{
  ℕ, ◌≡◌, ◌≤◌, max, refl, Bool, true, Option, none, some, List, [], ◌∷◌, Bytes, codes, ◌==◌, nat_eq,
  list_eq, ltb, length, ◌⊎◌,
}
use supply_drop_bbs.Prelude.Map.{get, insert, remove, modify, retain, IsMap}
use supply_drop_bbs.Prelude.Int.{pos, negsuc}
use supply_drop_bbs.Advert.Records.{
  AdvertRecord, AdvertBusInner, new_bus, new_record, within_grace, is_effectively_protected,
  merge_protected_bit, merge_live, live, plausible_timestamp,
}
use supply_drop_bbs.Advert.Upsert.{
  Heard, ContactDetail, entry_or, with_record, set_heard, advance_last_seen, merge_bit,
  upsert_contact, upsert_meshtastic_node,
}
use supply_drop_bbs.Advert.Decide.{
  FavouriteOutcome, FavouriteSnapshot, protected_with_eviction, set_protected, set_unprotected,
  snapshot_of, modify_record, protect_record, unprotect_locked, contains, counts, is_candidate,
  protected_since, victim, protect_under_cap, decide_favourite,
}
use supply_drop_bbs.Advert.Query.{
  is_currently_favourited, stalest_pubkey_excluding, all_remaining_favourited,
}
use supply_drop_bbs.Advert.Select.{min_by_key}
use supply_drop_bbs.Advert.Contract.{Decides}
use supply_drop_bbs.Advert.Moves.{decide_favourite_refines}
use supply_drop_bbs.Advert.Invariant.{IsValid}
use supply_drop_bbs.Advert.Valid.{run-new_bus-IsValid}
use supply_drop_bbs.Advert.Window.{InWindow, snapshot, decide_favourite-run}
use supply_drop_bbs.Advert.Cap.{protected_on, decide_favourite_cap}
use supply_drop_bbs.Advert.Evict.{IsStalest, in_play, stalest_pubkey_excluding_cases}
use supply_drop_bbs.Advert.History.{
  Op, contact, node, unprotect, revert, revert_node, clear, call, run,
}

abbrev key : ℕ → Bytes
key n =
    n ∷ 2 ∷ 3 ∷ 4 ∷ 5 ∷ 6 ∷ 7 ∷ 8 ∷ 9 ∷ 10 ∷ 11 ∷ 12 ∷ 13 ∷ 14 ∷ 15 ∷ 16 ∷ 17 ∷ 18 ∷ 19 ∷ 20 ∷ 21
    ∷ 22 ∷ 23 ∷ 24 ∷ 25 ∷ 26 ∷ 27 ∷ 28 ∷ 29 ∷ 30 ∷ 31 ∷ 32 ∷ []

abbrev meshcore : Bytes
meshcore = codes "meshcore"

abbrev described : Heard
described = record { name = codes "node"; adv_type = 1; gps_lat = pos 0; gps_lon = pos 0 }

-- A contact frame with the given flags.
abbrev detail : ℕ → ContactDetail
detail flags = record {
  device_last_seen = negsuc 4;
  flags = flags;
  last_advert_timestamp = 12;
  lastmod = 0;
  out_path = [];
  out_path_len = negsuc 0;
}

-- A person may be protected.
abbrev is_person : ℕ → Option Bool
is_person t = some (t == 1)

-- The device knows a contact that it holds as a favourite, and one that it does not.
abbrev synced : List (Op × ℕ)
synced =
    (contact (key 1) described (detail 0) meshcore, 1700000000)
    ∷ (contact (key 9) described (detail 3) meshcore, 1700000000)
    ∷ []

run-new_bus-IsValid_example : IsValid (run synced new_bus)
run-new_bus-IsValid_example = run-new_bus-IsValid synced

abbrev bus : AdvertBusInner
bus = run synced new_bus

bus-IsMap : IsMap bus.records
bus-IsMap = (run-new_bus-IsValid synced).records_map

decide_favourite_refines_example :
    (s' : AdvertBusInner) × (o : FavouriteOutcome) × (decide_favourite
        (key 1)
        is_person
        1
        []
        1700001000
        bus
      ≡ some (s', o))
    × Decides (key 1) is_person 1 [] 1700001000 bus s' o
decide_favourite_refines_example =
    decide_favourite_refines (key 1) is_person 1700001000 [] bus bus-IsMap 1

-- The records of the two contacts, the first as the decision finds it.
abbrev person : AdvertRecord
person = record (new_record (key 1) 1700000000 meshcore) {
  name = codes "node";
  adv_type = 1;
  has_full_record = true;
  last_advert_timestamp = 1700000000;
}

abbrev favourite : AdvertRecord
favourite = record (new_record (key 9) 1700000000 meshcore) {
  name = codes "node";
  adv_type = 1;
  has_full_record = true;
  last_advert_timestamp = 1700000000;
  flags = 3;
  protected_at = some 1700000000;
  generation = 1;
}

-- The first contact takes the place of the other.
abbrev evicted : AdvertBusInner
evicted =
    modify_record (key 1) (set_protected 1700001000)
      (modify_record (key 9) (set_unprotected 1700001000) bus)

abbrev told : FavouriteSnapshot
told = snapshot_of (key 1) 1700001000 (set_protected 1700001000 person)

eviction_run :
    decide_favourite (key 1) is_person 1 [] 1700001000 bus
    ≡ some (evicted, protected_with_eviction told (key 9) favourite)
unfolding decide_favourite protect_under_cap protect_record unprotect_locked victim min_by_key
    is_candidate counts protected_since is_effectively_protected within_grace contains modify_record
    set_protected set_unprotected snapshot_of run call upsert_contact with_record entry_or set_heard
    advance_last_seen merge_bit merge_protected_bit merge_live live plausible_timestamp new_record
    get insert remove modify retain
eviction_run = refl

-- A node is heard and its transition of the same number undone, and then a stale sync, the removal
-- of the other contact and a flush come after the protection.
abbrev afterwards : List (Op × ℕ)
afterwards =
    (node (key 7) 77 described none meshcore, 1700001010)
    ∷ (revert_node 77 told.generation, 1700001015)
    ∷ (contact (key 1) described (detail 0) meshcore, 1700001020)
    ∷ (unprotect (key 9), 1700001030)
    ∷ (clear, 1700001040)
    ∷ (revert (key 1) 0, 1700001290)
    ∷ []

-- The number stands for the other node, so that its undoing is one of another contact.
afterwards-InWindow : InWindow (key 1) 1700001000 told.generation afterwards evicted
unfolding snapshot_of set_protected within_grace new_record call upsert_meshtastic_node get insert
    modify modify_record with_record
afterwards-InWindow =
    (tt, refl, (refl, refl, (tt, refl, (refl, refl, (tt, refl, (refl, refl, tt))))))

told_run : snapshot (protected_with_eviction told (key 9) favourite) ≡ some told
unfolding snapshot
told_run = refl

decide_favourite-run_example :
    is_currently_favourited (key 1) 1700009000 (run afterwards evicted) ≡ true
decide_favourite-run_example =
    decide_favourite-run (key 1) is_person 1 [] 1700001000 bus evicted
      (protected_with_eviction told (key 9) favourite) told (run-new_bus-IsValid synced)
      eviction_run told_run afterwards afterwards-InWindow 1700009000

decide_favourite_cap_example :
    protected_on meshcore 1700001000 evicted ≤ max 1 (protected_on meshcore 1700001000 bus)
decide_favourite_cap_example =
    decide_favourite_cap (key 1) is_person 1 [] 1700001000 bus evicted
      (protected_with_eviction told (key 9) favourite) bus-IsMap eviction_run meshcore

stalest_pubkey_excluding_cases_example :
    ((k : Bytes) × (r : AdvertRecord) × (stalest_pubkey_excluding
          (key 1 ∷ [])
          meshcore
          1700001000
          bus
        ≡ some k)
      × IsStalest (key 1 ∷ []) meshcore 1700001000 bus k r)
    ⊎ ((stalest_pubkey_excluding (key 1 ∷ []) meshcore 1700001000 bus ≡ none)
        × (all_remaining_favourited (key 1 ∷ []) meshcore 1700001000 bus
            ≡ ltb 0 (length (retain (in_play (key 1 ∷ []) meshcore) bus.records))))
stalest_pubkey_excluding_cases_example =
    stalest_pubkey_excluding_cases (key 1 ∷ []) meshcore 1700001000 bus bus-IsMap
