-- ===== src/Advert/Grace.antt =====
-- crates/bbs-plugin-api/src/advert.rs: a protected contact stays protected through the grace window.
use supply_drop_bbs.Prelude.{
  ℕ, ◌≡◌, refl, subst, inl, inr, Bool, true, Option, none, some, Bytes, ltb, ◌==◌, nat_eq, list_eq,
  bool_eq, arith, Option-cases, Bool-cases, is_some,
}
use supply_drop_bbs.Prelude.Map.{get, get-insert, get-modify}
use supply_drop_bbs.Prelude.Int.{ℤ}
use supply_drop_bbs.Advert.Records.{AdvertRecord, AdvertBusInner, protect_bit}
use supply_drop_bbs.Advert.Upsert.{
  Heard, ContactDetail, entry_or, with_record, set_heard, advance_last_seen, merge_bit, upsert,
  upsert_with_timestamp, upsert_short, upsert_contact, upsert_meshtastic_node,
}
use supply_drop_bbs.Advert.Decide.{modify_record}

-- A claim on what protects a record, and on the record that the bus holds at a key.
abbrev pub Marks : Type 1
Marks = ℕ → Option ℕ → Option ℕ → ℕ → Type 0

abbrev pub On : Marks → AdvertRecord → Type 0
On p r = p r.flags r.protected_at r.unprotected_at r.generation

abbrev pub Holds : Marks → Bytes → AdvertBusInner → Type 0
Holds p k s = (r : AdvertRecord) × (get k s.records ≡ some r) × On p r

module _ (p : Marks) (k : Bytes) where
  pub Holds-with_record :
      (j : Bytes) (e : AdvertRecord) (s : AdvertBusInner)
      → Holds p k s
      → ((j ≡ k) → On p e)
      → Holds p k (with_record j e s)
  unfolding with_record
  Holds-with_record j e s (r, found, on) written = elim (Bool-cases (j == k)) [
    | inl same ↦
        (e, ground (arith, get-insert j k e s.records), written ((list_eq.same_iff j k).0 same))
    | inr other ↦ (r, ground (arith, get-insert j k e s.records), on)
  ]

  pub On-entry_or :
      (j : Bytes) (fresh : AdvertRecord) (s : AdvertBusInner)
      → Holds p k s
      → j ≡ k
      → On p (entry_or j fresh s)
  unfolding entry_or
  On-entry_or j fresh s (r, found, on) same = rw (same, found, entry_or) on

  pub Holds-modify :
      (j : Bytes) (f : AdvertRecord → AdvertRecord) (s : AdvertBusInner)
      → Holds p k s
      → ((j ≡ k) → (r : AdvertRecord) → On p r → On p (f r))
      → Holds p k (modify_record j f s)
  unfolding modify_record
  Holds-modify j f s (r, found, on) kept = elim (Bool-cases (j == k)) [
    | inl same ↦
        (f r, ground (arith, get-modify j k f s.records), kept ((list_eq.same_iff j k).0 same) r on)
    | inr other ↦ (r, ground (arith, get-modify j k f s.records), on)
  ]

  -- A write of what a node reports keeps the claim, if the merge of the bit does.
  module _ (now : ℕ)
      (merges : (upper : ℕ) (incoming : Bool) (r : AdvertRecord)
        → On p r
        → On p (merge_bit true upper incoming now r)) where
    advance-On : (seen : ℕ) (e : AdvertRecord) → On p e → On p (advance_last_seen seen e)
    unfolding advance_last_seen
    advance-On seen e on = elim (Bool-cases (ltb e.last_seen_secs seen)) [
      | inl later ↦ rw later on
      | inr old ↦ rw old on
    ]

    pub upsert-Holds :
        (j : Bytes) (h : Heard) (radio : Bytes) (s : AdvertBusInner)
        → Holds p k s
        → Holds p k (upsert j h radio now s)
    unfolding upsert set_heard
    upsert-Holds j h radio s held =
        Holds-with_record j _ s held (λ same. On-entry_or j _ s held same)

    pub stamped-Holds :
        (j : Bytes) (h : Heard) (seen : ℤ) (radio : Bytes) (s : AdvertBusInner)
        → Holds p k s
        → Holds p k (upsert_with_timestamp j h seen radio now s)
    unfolding upsert_with_timestamp set_heard
    stamped-Holds j h seen radio s held =
        Holds-with_record j _ s held (λ same. advance-On _ _ (On-entry_or j _ s held same))

    pub short-Holds :
        (j : Bytes) (radio : Bytes) (s : AdvertBusInner)
        → Holds p k s
        → Holds p k (upsert_short j radio now s)
    unfolding upsert_short
    short-Holds j radio s (r, found, on) = elim (Option-cases (get j s.records)) [
      | inl absent ↦
          rw (absent, upsert_short)
            (Holds-with_record j _ s (r, found, on) (λ same. absurd (ground arith)))
      | inr (e, there) ↦
          rw (there, upsert_short)
            (Holds-with_record j _ s (r, found, on)
              (λ same. let eq : r ≡ e = ground arith in subst (On p) eq on))
    ]

    pub contact-Holds :
        (j : Bytes) (h : Heard) (c : ContactDetail) (radio : Bytes) (s : AdvertBusInner)
        → Holds p k s
        → Holds p k (upsert_contact j h c radio now s)
    unfolding upsert_contact set_heard
    contact-Holds j h c radio s held = Holds-with_record j _ s held (λ same.
        let old : is_some (get j s.records) ≡ true = rw (same, held.1) refl in
        rw old
          (merges c.flags (protect_bit c.flags) _ (advance-On _ _ (On-entry_or j _ s held same))))

    pub node-Holds :
        (j : Bytes) (n : ℕ) (h : Heard) (favorite : Option Bool) (radio : Bytes)
        (s : AdvertBusInner)
        → Holds p k s
        → Holds p k (upsert_meshtastic_node j n h favorite radio now s).0
    unfolding upsert_meshtastic_node set_heard
    node-Holds j n h none radio s held =
        Holds-with_record j _ _ held (λ same. On-entry_or j _ s held same)
    node-Holds j n h (some b) radio s held = Holds-with_record j _ _ held (λ same.
        let old : is_some (get j s.records) ≡ true = rw (same, held.1) refl in
        rw old (merges 0 b _ (On-entry_or j _ s held same)))
