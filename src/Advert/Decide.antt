-- ===== src/Advert/Decide.antt =====
-- crates/bbs-plugin-api/src/advert.rs: protecting, unprotecting, and the decision under the cap.
-- `none` is the panic of an `expect`.
use supply_drop_bbs.Prelude.{
  ℕ, ◌+◌, Bool, true, false, not, ◌&&◌, Option, none, some, List, [], ◌∷◌, Bytes, ltb, ◌==◌, nat_eq,
  list_eq, if◌then◌else◌, is_some_and, length, ◌>>=◌,
}
use supply_drop_bbs.Prelude.Map.{get, modify, retain}
use supply_drop_bbs.Prelude.Int.{ℤ}
use supply_drop_bbs.Advert.Records.{
  AdvertRecord, AdvertBusInner, is_effectively_protected, within_grace, with_protect_bit, prefix6,
}
use supply_drop_bbs.Advert.Select.{min_by_key}

pub record FavouriteSnapshot : Type 0 where
  pub pubkey : Bytes
  pub name : Bytes
  pub adv_type : ℕ
  pub lat : ℤ
  pub lon : ℤ
  pub last_advert_timestamp : ℕ
  pub lastmod : ℕ
  pub out_path : Bytes
  pub out_path_len : ℤ
  pub flags : ℕ
  pub protected_at : ℕ
  pub generation : ℕ

pub data FavouriteOutcome : Type 0 where
  protected : FavouriteSnapshot → FavouriteOutcome
  protected_with_eviction : FavouriteSnapshot → Bytes → AdvertRecord → FavouriteOutcome
  already_protected : FavouriteOutcome
  ineligible : FavouriteOutcome
  no_record_yet : FavouriteOutcome
  cap_reached : FavouriteOutcome

unfoldable pub set_protected : ℕ → AdvertRecord → AdvertRecord
set_protected now r = record r {
  flags = with_protect_bit r.flags true;
  protected_at = some now;
  unprotected_at = none;
  generation = r.generation + 1;
}

unfoldable pub snapshot_of : Bytes → ℕ → AdvertRecord → FavouriteSnapshot
snapshot_of pubkey now r = record {
  pubkey = pubkey;
  name = r.name;
  adv_type = r.adv_type;
  lat = r.lat;
  lon = r.lon;
  last_advert_timestamp = r.last_advert_timestamp;
  lastmod = r.lastmod;
  out_path = r.out_path;
  out_path_len = r.out_path_len;
  flags = r.flags;
  protected_at = now;
  generation = r.generation;
}

unfoldable pub modify_record :
    Bytes → (AdvertRecord → AdvertRecord) → AdvertBusInner → AdvertBusInner
modify_record pubkey f inner = record inner { records = modify pubkey f inner.records }

unfoldable pub protect_record :
    Bytes → ℕ → AdvertBusInner → Option (AdvertBusInner × FavouriteSnapshot)
protect_record pubkey now inner = get pubkey inner.records >>= λ r.
    some
      (modify_record pubkey (set_protected now) inner, snapshot_of pubkey now (set_protected now r))

unfoldable pub set_unprotected : ℕ → AdvertRecord → AdvertRecord
set_unprotected now r = record r {
  flags = with_protect_bit r.flags false;
  protected_at = none;
  unprotected_at = some now;
  generation = r.generation + 1;
}

unfoldable pub unprotect_locked : Bytes → ℕ → AdvertBusInner → AdvertBusInner × Option AdvertRecord
unprotect_locked pubkey now inner = elim (get pubkey inner.records) [
  | none ↦ (inner, none)
  | some r ↦
      if is_effectively_protected r now
      then (modify_record pubkey (set_unprotected now) inner, some r)
      else (inner, none)
]

unfoldable pub set_reverted : ℕ → AdvertRecord → AdvertRecord
set_reverted expected r =
    if r.generation == expected
    then record r {
      flags = with_protect_bit r.flags false;
      protected_at = none;
      generation = r.generation + 1;
    }
    else r

-- `revert_protect`, and `revert_protect_locked` under its lock.
unfoldable pub revert_protect : Bytes → ℕ → AdvertBusInner → AdvertBusInner
revert_protect pubkey expected inner = modify_record pubkey (set_reverted expected) inner

unfoldable pub revert_protect_by_node_num : ℕ → ℕ → AdvertBusInner → AdvertBusInner
revert_protect_by_node_num node_num expected inner = elim (get node_num inner.node_num_index) [
  | none ↦ inner
  | some pubkey ↦ revert_protect pubkey expected inner
]

unfoldable pub contains : Bytes → List Bytes → Bool
contains p [] = false
contains p (q ∷ qs) = let rest = contains p qs in if q == p then true else rest

-- The filters of the count and of the search for a victim.
unfoldable pub counts : Bytes → ℕ → Bytes → AdvertRecord → Bool
counts transport now _ r = r.transport == transport && is_effectively_protected r now

unfoldable pub is_candidate : Bytes → Bytes → ℕ → List Bytes → Bytes → AdvertRecord → Bool
is_candidate pubkey transport now exclude_prefixes pk r =
    not (pk == pubkey)
    && (counts transport now pk r
        && (not (contains (prefix6 pk) exclude_prefixes)
            && not (is_some_and r.protected_at (λ t. within_grace t now))))

-- `protected_at.unwrap_or(0)`.
unfoldable pub protected_since : Bytes × AdvertRecord → ℕ
protected_since (_, r) = elim r.protected_at [ none ↦ 0 | some t ↦ t ]

unfoldable pub victim :
    Bytes → Bytes → ℕ → List Bytes → AdvertBusInner → Option (Bytes × AdvertRecord)
victim pubkey transport now exclude_prefixes inner =
    min_by_key protected_since
      (retain (is_candidate pubkey transport now exclude_prefixes) inner.records)

-- The end of the decision: the record is eligible and there is a cap.
unfoldable pub protect_under_cap :
    Bytes → Bytes → ℕ → ℕ → List Bytes → AdvertBusInner → Option (AdvertBusInner × FavouriteOutcome)
protect_under_cap pubkey transport now protected_cap exclude_prefixes inner =
    if ltb (length (retain (counts transport now) inner.records)) protected_cap
    then (protect_record pubkey now inner >>= λ (s, snapshot). some (s, protected snapshot))
    else elim (victim pubkey transport now exclude_prefixes inner) [
      | none ↦ some (inner, cap_reached)
      | some (victim_pubkey, _) ↦
          let (unprotected, before) = unprotect_locked victim_pubkey now inner in
          before >>= λ victim_before. protect_record pubkey now unprotected >>= λ (s, snapshot).
          some (s, protected_with_eviction snapshot victim_pubkey victim_before)
    ]

-- `is_eligible` is the caller's; `none` is its panic, which the code catches.
unfoldable pub decide_favourite :
    Bytes
    → (ℕ → Option Bool)
    → ℕ
    → List Bytes
    → ℕ
    → AdvertBusInner
    → Option (AdvertBusInner × FavouriteOutcome)
decide_favourite pubkey is_eligible protected_cap exclude_prefixes now inner =
    elim (get pubkey inner.records) [
      | none ↦ some (inner, no_record_yet)
      | some r ↦
          if not r.has_full_record
          then some (inner, no_record_yet)
          else if is_effectively_protected r now
          then some (inner, already_protected)
          else elim (is_eligible r.adv_type) [
            | none ↦ some (inner, ineligible)
            | some false ↦ some (inner, ineligible)
            | some true ↦
                if protected_cap == 0
                then some (inner, cap_reached)
                else protect_under_cap pubkey r.transport now protected_cap exclude_prefixes inner
          ]
    ]

unfoldable pub mark_favourite_if_eligible_by_node_num :
    ℕ
    → (ℕ → Option Bool)
    → ℕ
    → List Bytes
    → ℕ
    → AdvertBusInner
    → Option (AdvertBusInner × FavouriteOutcome)
mark_favourite_if_eligible_by_node_num node_num is_eligible protected_cap exclude now inner =
    elim (get node_num inner.node_num_index) [
      | none ↦ some (inner, no_record_yet)
      | some pubkey ↦ decide_favourite pubkey is_eligible protected_cap exclude now inner
    ]
