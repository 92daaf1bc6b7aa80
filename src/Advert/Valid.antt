-- ===== src/Advert/Valid.antt =====
-- crates/bbs-plugin-api/src/advert.rs: every call keeps the maps of the bus fitted to each other.
use supply_drop_bbs.Prelude.{
  ℕ, ◌≡◌, ◌∙◌, inl, inr, Bool, Option, none, some, List, [], ◌∷◌, Bytes, nat_eq, list_eq, arith,
  Option-cases, Bool-cases,
}
use supply_drop_bbs.Prelude.Map.{get}
use supply_drop_bbs.Prelude.Int.{ℤ}
use supply_drop_bbs.Advert.Records.{
  AdvertRecord, AdvertBusInner, hex_encode, new_record, new_bus, is_effectively_protected,
}
use supply_drop_bbs.Advert.Upsert.{
  Heard, ContactDetail, entry_or, set_heard, upsert, upsert_with_timestamp, upsert_short,
  upsert_contact, upsert_meshtastic_node,
}
use supply_drop_bbs.Advert.Decide.{
  set_reverted, unprotect_locked, revert_protect, revert_protect_by_node_num, decide_favourite,
  mark_favourite_if_eligible_by_node_num,
}
use supply_drop_bbs.Advert.Moves.{decide_favourite_refines}
use supply_drop_bbs.Advert.Invariant.{
  IsValid, with_record-IsValid, modify_record-IsValid, entry_or-named, advance_last_seen-named,
  merge_bit-named, new_record-named, with_node-IsValid, clear_unprotected-IsValid,
  set_unprotected-IsValid, decided-IsValid,
}
use supply_drop_bbs.Advert.History.{
  Op, advert, advert_stamped, advert_short, contact, node, mark, mark_node, unprotect, revert,
  revert_node, clear, call, run, state_of,
}

module _ (now : ℕ) (s : AdvertBusInner) (i : IsValid s) where
  kept : (k radio : Bytes) → (entry_or k (new_record k now radio) s).pubkey_hex ≡ hex_encode k
  kept k radio = entry_or-named k (new_record k now radio) s (new_record-named k now radio) i

  upsert-IsValid : (k : Bytes) (h : Heard) (radio : Bytes) → IsValid (upsert k h radio now s)
  unfolding upsert set_heard
  upsert-IsValid k h radio = with_record-IsValid k _ s (kept k radio) i

  upsert_with_timestamp-IsValid :
      (k : Bytes) (h : Heard) (seen : ℤ) (radio : Bytes)
      → IsValid (upsert_with_timestamp k h seen radio now s)
  unfolding upsert_with_timestamp set_heard
  upsert_with_timestamp-IsValid k h seen radio =
      with_record-IsValid k _ s
        (advance_last_seen-named _ _ ∙ entry_or-named k _ s (new_record-named k now radio) i) i

  upsert_short-IsValid : (k radio : Bytes) → IsValid (upsert_short k radio now s)
  unfolding upsert_short
  upsert_short-IsValid k radio = elim (Option-cases (get k s.records)) [
    | inl absent ↦
        rw (absent, upsert_short) (with_record-IsValid k _ s (new_record-named k now radio) i)
    | inr (r, there) ↦ rw (there, upsert_short) (with_record-IsValid k _ s (i.named k r there) i)
  ]

  upsert_contact-IsValid :
      (k : Bytes) (h : Heard) (c : ContactDetail) (radio : Bytes)
      → IsValid (upsert_contact k h c radio now s)
  unfolding upsert_contact set_heard
  upsert_contact-IsValid k h c radio =
      with_record-IsValid k _ s
        (merge_bit-named _ _ _ _ _ ∙ (advance_last_seen-named _ _ ∙ kept k radio)) i

  upsert_meshtastic_node-IsValid :
      (k : Bytes) (n : ℕ) (h : Heard) (favorite : Option Bool) (radio : Bytes)
      → IsValid (upsert_meshtastic_node k n h favorite radio now s).0
  unfolding upsert_meshtastic_node set_heard
  upsert_meshtastic_node-IsValid k n h none radio = with_node-IsValid k n _ s (kept k radio) i
  upsert_meshtastic_node-IsValid k n h (some b) radio =
      with_node-IsValid k n _ s (merge_bit-named _ _ _ _ _ ∙ kept k radio) i

  decide_favourite-IsValid :
      (k : Bytes) (ok : ℕ → Option Bool) (limit : ℕ) (exclude : List Bytes)
      → IsValid (state_of (decide_favourite k ok limit exclude now s) s)
  unfolding state_of
  decide_favourite-IsValid k ok limit exclude =
      let (s', o, ran, promised) =
        decide_favourite_refines k ok now exclude s i.records_map limit in
      rw (ran, state_of) (decided-IsValid promised i)

  mark_node-IsValid :
      (n : ℕ) (ok : ℕ → Option Bool) (limit : ℕ) (exclude : List Bytes)
      → IsValid (state_of (mark_favourite_if_eligible_by_node_num n ok limit exclude now s) s)
  unfolding mark_favourite_if_eligible_by_node_num state_of
  mark_node-IsValid n ok limit exclude = elim (Option-cases (get n s.node_num_index)) [
    | inl absent ↦ rw (absent, state_of, mark_favourite_if_eligible_by_node_num) i
    | inr (k, there) ↦
        rw (there, mark_favourite_if_eligible_by_node_num)
          (decide_favourite-IsValid k ok limit exclude)
  ]

  unprotect_locked-IsValid : (k : Bytes) → IsValid (unprotect_locked k now s).0
  unfolding unprotect_locked
  unprotect_locked-IsValid k = elim (Option-cases (get k s.records)) [
    | inl absent ↦ rw (absent, unprotect_locked) i
    | inr (r, there) ↦ elim (Bool-cases (is_effectively_protected r now)) [
      | inl held ↦ rw (there, held, unprotect_locked) (set_unprotected-IsValid k now s i)
      | inr bare ↦ rw (there, bare, unprotect_locked) i
    ]
  ]

  reverted_named : (g : ℕ) (r : AdvertRecord) → (set_reverted g r).pubkey_hex ≡ r.pubkey_hex
  unfolding set_reverted
  reverted_named g r = ground arith

  revert_protect-IsValid : (k : Bytes) (g : ℕ) → IsValid (revert_protect k g s)
  unfolding revert_protect
  revert_protect-IsValid k g = modify_record-IsValid k (set_reverted g) s (reverted_named g) i

  revert_node-IsValid : (n g : ℕ) → IsValid (revert_protect_by_node_num n g s)
  unfolding revert_protect_by_node_num
  revert_node-IsValid n g = elim (Option-cases (get n s.node_num_index)) [
    | inl absent ↦ rw (absent, revert_protect_by_node_num) i
    | inr (k, there) ↦ rw (there, revert_protect_by_node_num) (revert_protect-IsValid k g)
  ]

pub call-IsValid : (op : Op) (now : ℕ) (s : AdvertBusInner) → IsValid s → IsValid (call op now s)
unfolding call
call-IsValid (advert k h radio) now s i = upsert-IsValid now s i k h radio
call-IsValid (advert_stamped k h seen radio) now s i =
    upsert_with_timestamp-IsValid now s i k h seen radio
call-IsValid (advert_short k radio) now s i = upsert_short-IsValid now s i k radio
call-IsValid (contact k h c radio) now s i = upsert_contact-IsValid now s i k h c radio
call-IsValid (node k n h favorite radio) now s i =
    upsert_meshtastic_node-IsValid now s i k n h favorite radio
call-IsValid (mark k ok limit exclude) now s i = decide_favourite-IsValid now s i k ok limit exclude
call-IsValid (mark_node n ok limit exclude) now s i = mark_node-IsValid now s i n ok limit exclude
call-IsValid (unprotect k) now s i = unprotect_locked-IsValid now s i k
call-IsValid (revert k g) now s i = revert_protect-IsValid now s i k g
call-IsValid (revert_node n g) now s i = revert_node-IsValid now s i n g
call-IsValid clear now s i = clear_unprotected-IsValid now s i

run-IsValid : (calls : List (Op × ℕ)) (s : AdvertBusInner) → IsValid s → IsValid (run calls s)
unfolding run
run-IsValid [] s i = i
run-IsValid ((op, now) ∷ calls) s i = run-IsValid calls (call op now s) (call-IsValid op now s i)

new_bus-IsValid : IsValid new_bus
unfolding get
new_bus-IsValid = record {
  records_map = tt;
  index_map = tt;
  named = λ k r found. absurd (cc);
  indexed = λ n k found. absurd (cc);
}

-- Every history of calls on a new bus, at any times, ends in a bus where no key stands twice, a
-- record's text of its key is that of its key, and every node number stands for the key of a
-- record that the bus has.
pub run-new_bus-IsValid : (calls : List (Op × ℕ)) → IsValid (run calls new_bus)
run-new_bus-IsValid calls = run-IsValid calls new_bus new_bus-IsValid
