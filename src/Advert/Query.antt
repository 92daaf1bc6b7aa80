-- ===== src/Advert/Query.antt =====
-- crates/bbs-plugin-api/src/advert.rs: the readers of the bus, the eviction for a full radio, and the
-- flush of what is not protected.
use supply_drop_bbs.Prelude.{
  ℕ, Bool, true, false, not, ◌&&◌, Option, none, some, List, [], ◌∷◌, Bytes, ◌==◌, nat_eq, list_eq,
  if◌then◌else◌, is_some_and, length, map, ◌>>=◌,
}
use supply_drop_bbs.Prelude.Map.{Map, get, remove, retain}
use supply_drop_bbs.Advert.Records.{AdvertRecord, AdvertBusInner, is_effectively_protected, prefix6}
use supply_drop_bbs.Advert.Decide.{contains}
use supply_drop_bbs.Advert.Select.{min_by_key, sort_by_key_reverse}

unfoldable pub is_currently_favourited : Bytes → ℕ → AdvertBusInner → Bool
is_currently_favourited pubkey now inner =
    is_some_and (get pubkey inner.records) (λ r. is_effectively_protected r now)

unfoldable pub pubkey_by_node_num : ℕ → AdvertBusInner → Option Bytes
pubkey_by_node_num node_num inner = get node_num inner.node_num_index

unfoldable pub is_currently_favourited_by_node_num : ℕ → ℕ → AdvertBusInner → Bool
is_currently_favourited_by_node_num node_num now inner =
    is_some_and (get node_num inner.node_num_index >>= λ pk. get pk inner.records)
      (λ r. is_effectively_protected r now)

unfoldable pub node_num_owning_pubkey : Bytes → AdvertBusInner → Option ℕ
node_num_owning_pubkey pubkey inner = get pubkey inner.records >>= λ r. r.node_num

unfoldable pub values : Map Bytes AdvertRecord → List AdvertRecord
values m = map (λ (_, r). r) m

unfoldable pub list : AdvertBusInner → List AdvertRecord
list inner = sort_by_key_reverse (λ r. r.last_seen_secs) (values inner.records)

unfoldable pub count : AdvertBusInner → ℕ
count inner = length inner.records

unfoldable pub is_protected_at : ℕ → Bytes → AdvertRecord → Bool
is_protected_at now _ r = is_effectively_protected r now

unfoldable pub count_protected : ℕ → AdvertBusInner → ℕ
count_protected now inner = length (retain (is_protected_at now) inner.records)

unfoldable pub list_protected : ℕ → AdvertBusInner → List AdvertRecord
list_protected now inner =
    sort_by_key_reverse (λ r. r.last_seen_secs)
      (values (retain (is_protected_at now) inner.records))

unfoldable pub is_evictable : List Bytes → Bytes → ℕ → Bytes → AdvertRecord → Bool
is_evictable exclude_prefixes transport now pubkey r =
    r.transport == transport
    && (not (contains (prefix6 pubkey) exclude_prefixes) && not (is_effectively_protected r now))

unfoldable pub seen_at : Bytes × AdvertRecord → ℕ
seen_at (_, r) = r.last_seen_secs

unfoldable pub stalest_pubkey_excluding : List Bytes → Bytes → ℕ → AdvertBusInner → Option Bytes
stalest_pubkey_excluding exclude_prefixes transport now inner =
    min_by_key seen_at (retain (is_evictable exclude_prefixes transport now) inner.records)
    >>= λ (pubkey, _). some pubkey

-- The loop of `all_remaining_favourited` over the records, with its flag.
unfoldable pub all_remaining_from : List Bytes → Bytes → ℕ → Bool → Map Bytes AdvertRecord → Bool
all_remaining_from exclude_prefixes transport now saw_any [] = saw_any
all_remaining_from exclude_prefixes transport now saw_any ((pubkey, r) ∷ m) =
    if not (r.transport == transport)
    then all_remaining_from exclude_prefixes transport now saw_any m
    else if contains (prefix6 pubkey) exclude_prefixes
    then all_remaining_from exclude_prefixes transport now saw_any m
    else if not (is_effectively_protected r now)
    then false
    else all_remaining_from exclude_prefixes transport now true m

unfoldable pub all_remaining_favourited : List Bytes → Bytes → ℕ → AdvertBusInner → Bool
all_remaining_favourited exclude_prefixes transport now inner =
    all_remaining_from exclude_prefixes transport now false inner.records

-- `iter().find(...)`.
unfoldable pub find :
    (Bytes → AdvertRecord → Bool) → Map Bytes AdvertRecord → Option (Bytes × AdvertRecord)
find p [] = none
find p ((pubkey, r) ∷ m) = let rest = find p m in if p pubkey r then some (pubkey, r) else rest

unfoldable pub name_by_prefix : Bytes → AdvertBusInner → Option Bytes
name_by_prefix prefix inner =
    find (λ pubkey _. prefix6 pubkey == prefix) inner.records >>= λ (_, r). elim r.name [
      | [] ↦ none
      | _ ∷ _ ↦ some r.name
    ]

unfoldable pub full_pubkey_by_prefix : Bytes → Bytes → AdvertBusInner → Option Bytes
full_pubkey_by_prefix prefix transport inner =
    find (λ pubkey r. prefix6 pubkey == prefix && r.transport == transport) inner.records
    >>= λ (pubkey, _). some pubkey

unfoldable pub is_unprotected_at : ℕ → Bytes → AdvertRecord → Bool
is_unprotected_at now _ r = not (is_effectively_protected r now)

unfoldable pub keys : Map Bytes AdvertRecord → List Bytes
keys m = map (λ (pubkey, _). pubkey) m

unfoldable pub remove_all : List Bytes → Map Bytes AdvertRecord → Map Bytes AdvertRecord
remove_all [] m = m
remove_all (k ∷ ks) m = remove_all ks (remove k m)

unfoldable pub clear_unprotected : ℕ → AdvertBusInner → AdvertBusInner × ℕ
clear_unprotected now inner =
    let to_remove = keys (retain (is_unprotected_at now) inner.records) in
    (
      record {
        records = remove_all to_remove inner.records;
        node_num_index = retain (λ _ pk. not (contains pk to_remove)) inner.node_num_index;
      },
      length to_remove,
    )
