-- ===== src/Advert/Invariant.antt =====
-- crates/bbs-plugin-api/src/advert.rs: the two maps of the bus fit each other in every history.
use supply_drop_bbs.Prelude.{
  ℕ, ◌≡◌, refl, inl, inr, Bool, true, not, Option, none, some, List, [], ◌∷◌, Bytes, ◌==◌, nat_eq,
  list_eq, if◌then◌else◌, arith, Option-cases, Bool-cases, is_some, beq_self, list_beq_iff,
}
use supply_drop_bbs.Prelude.Map.{
  Map, get, insert, remove, retain, IsMap, IsMap-insert, IsMap-modify, IsMap-remove, IsMap-retain,
  get-insert, get-modify, get-remove, get-retain,
}
use supply_drop_bbs.Advert.Records.{AdvertRecord, AdvertBusInner, hex_encode, new_record}
use supply_drop_bbs.Advert.Upsert.{entry_or, with_record, advance_last_seen, merge_bit}
use supply_drop_bbs.Advert.Decide.{
  FavouriteOutcome, modify_record, set_protected, set_unprotected, contains,
}
use supply_drop_bbs.Advert.Query.{remove_all, keys, clear_unprotected, is_unprotected_at}
use supply_drop_bbs.Advert.Contract.{Decides}

-- No key stands twice, a record's text of the key is that of its key, and every node number stands
-- for the key of a record.
pub record IsValid (s : AdvertBusInner) : Type 0 where
  pub records_map : IsMap s.records
  pub index_map : IsMap s.node_num_index
  pub named :
      (k : Bytes) (r : AdvertRecord) → get k s.records ≡ some r → r.pubkey_hex ≡ hex_encode k
  pub indexed :
      (n : ℕ) (k : Bytes) → get n s.node_num_index ≡ some k → is_some (get k s.records) ≡ true

pub with_record-IsValid :
    (k : Bytes) (e : AdvertRecord) (s : AdvertBusInner)
    → e.pubkey_hex ≡ hex_encode k
    → IsValid s
    → IsValid (with_record k e s)
unfolding with_record
with_record-IsValid k e s hex i = record {
  records_map = IsMap-insert k e s.records i.records_map;
  index_map = i.index_map;
  named = λ j r found. elim (Bool-cases (k == j)) [
    | inl same ↦ ground (arith, get-insert k j e s.records, list_beq_iff k j)
    | inr other ↦ i.named j r (ground (arith, get-insert k j e s.records))
  ];
  indexed = λ n j found. ground (arith, get-insert k j e s.records, i.indexed n j found);
}

pub modify_record-IsValid :
    (k : Bytes) (f : AdvertRecord → AdvertRecord) (s : AdvertBusInner)
    → ((r : AdvertRecord) → (f r).pubkey_hex ≡ r.pubkey_hex)
    → IsValid s
    → IsValid (modify_record k f s)
unfolding modify_record
modify_record-IsValid k f s hex i = record {
  records_map = IsMap-modify k f s.records i.records_map;
  index_map = i.index_map;
  named = λ j r found. elim (Option-cases (get j s.records)) [
    | inl absent ↦ absurd (ground (arith, get-modify k j f s.records))
    | inr (w, there) ↦ ground (arith, get-modify k j f s.records, i.named j w there, hex w)
  ];
  indexed = λ n j found. elim (Option-cases (get j s.records)) [
    | inl absent ↦ absurd (ground (arith, i.indexed n j found))
    | inr (w, there) ↦ ground (arith, get-modify k j f s.records)
  ];
}

-- The writes of a record do not touch the text of its key.
pub entry_or-named :
    (k : Bytes) (fresh : AdvertRecord) (s : AdvertBusInner)
    → fresh.pubkey_hex ≡ hex_encode k
    → IsValid s
    → (entry_or k fresh s).pubkey_hex ≡ hex_encode k
unfolding entry_or
entry_or-named k fresh s hex i = elim (Option-cases (get k s.records)) [
  | inl absent ↦ rw (absent, entry_or) hex
  | inr (r, there) ↦ rw (there, entry_or) (i.named k r there)
]

pub advance_last_seen-named :
    (seen : ℕ) (e : AdvertRecord) → (advance_last_seen seen e).pubkey_hex ≡ e.pubkey_hex
unfolding advance_last_seen
advance_last_seen-named seen e = ground arith

pub merge_bit-named :
    (old : Bool) (upper : ℕ) (bit : Bool) (now : ℕ) (e : AdvertRecord)
    → (merge_bit old upper bit now e).pubkey_hex ≡ e.pubkey_hex
unfolding merge_bit
merge_bit-named old upper bit now e = ground arith

pub new_record-named :
    (k : Bytes) (now : ℕ) (radio : Bytes) → (new_record k now radio).pubkey_hex ≡ hex_encode k
unfolding new_record
new_record-named k now radio = refl

-- The index entry of a node is written with its record.
pub with_node-IsValid :
    (k : Bytes) (n : ℕ) (e : AdvertRecord) (s : AdvertBusInner)
    → e.pubkey_hex ≡ hex_encode k
    → IsValid s
    → IsValid (with_record k e (record s { node_num_index = insert n k s.node_num_index }))
unfolding with_record
with_node-IsValid k n e s hex i =
    let base = with_record-IsValid k e s hex i in
    record {
      records_map = IsMap-insert k e s.records i.records_map;
      index_map = IsMap-insert n k s.node_num_index i.index_map;
      named = base.named;
      indexed = λ m j found. elim (Bool-cases (n == m)) [
        | inl same ↦
            ground
              (arith, get-insert n m k s.node_num_index, get-insert k j e s.records, beq_self k)
        | inr other ↦
            ground
              (arith, get-insert n m k s.node_num_index, get-insert k j e s.records, i.indexed m j)
      ];
    }

pub get-remove_all :
    (ks : List Bytes) (k : Bytes) (m : Map Bytes AdvertRecord)
    → get k (remove_all ks m) ≡ (if contains k ks then none else get k m)
unfolding remove_all contains
get-remove_all [] k m = refl
get-remove_all (j ∷ ks) k m = ground (arith, get-remove_all ks k (remove j m), get-remove j k m)

IsMap-remove_all :
    (ks : List Bytes) (m : Map Bytes AdvertRecord) → IsMap m → IsMap (remove_all ks m)
unfolding remove_all
IsMap-remove_all [] m h = h
IsMap-remove_all (k ∷ ks) m h = IsMap-remove_all ks (remove k m) (IsMap-remove k m h)

pub clear_unprotected-IsValid :
    (now : ℕ) (s : AdvertBusInner) → IsValid s → IsValid (clear_unprotected now s).0
unfolding clear_unprotected
clear_unprotected-IsValid now s i =
    let gone = keys (retain (is_unprotected_at now) s.records) in
    record {
      records_map = IsMap-remove_all gone s.records i.records_map;
      index_map = IsMap-retain (λ _ k. not (contains k gone)) s.node_num_index i.index_map;
      named = λ k r found. i.named k r (ground (arith, get-remove_all gone k s.records));
      indexed = λ n k found. ground (
        arith,
        get-remove_all gone k s.records,
        get-retain (λ _ j. not (contains j gone)) n s.node_num_index i.index_map,
        Option-cases (get n s.node_num_index),
        i.indexed n k,
      );
    }

set_protected-IsValid :
    (k : Bytes) (now : ℕ) (s : AdvertBusInner)
    → IsValid s
    → IsValid (modify_record k (set_protected now) s)
unfolding set_protected
set_protected-IsValid k now s i = modify_record-IsValid k (set_protected now) s (λ r. refl) i

pub set_unprotected-IsValid :
    (k : Bytes) (now : ℕ) (s : AdvertBusInner)
    → IsValid s
    → IsValid (modify_record k (set_unprotected now) s)
unfolding set_unprotected
set_unprotected-IsValid k now s i = modify_record-IsValid k (set_unprotected now) s (λ r. refl) i

pub decided-IsValid :
    {k : Bytes} {is_eligible : ℕ → Option Bool} {limit : ℕ} {exclude : List Bytes} {now : ℕ}
    {s s' : AdvertBusInner} {o : FavouriteOutcome}
    → Decides k is_eligible limit exclude now s s' o
    → IsValid s
    → IsValid s'
decided-IsValid (Decides.unknown _) i = i
decided-IsValid (Decides.short _ _ _) i = i
decided-IsValid (Decides.already _ _ _ _) i = i
decided-IsValid (Decides.wrong_type _ _ _ _ _) i = i
decided-IsValid (Decides.no_protection _ _ _) i = i
decided-IsValid (Decides.full _ _ _ _) i = i
decided-IsValid (Decides.room r may below) i = set_protected-IsValid _ _ _ i
decided-IsValid (Decides.eviction r v old may above chosen) i =
    set_protected-IsValid _ _ _ (set_unprotected-IsValid _ _ _ i)
