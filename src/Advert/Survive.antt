-- ===== src/Advert/Survive.antt =====
-- crates/bbs-plugin-api/src/advert.rs: a protected contact survives every call of the grace window
-- but its own removal.
use supply_drop_bbs.Prelude.{
  ℕ, ◌≡◌, refl, inl, inr, Bool, true, false, ◌&&◌, Option, none, some, List, [], ◌∷◌, Bytes, ◌==◌,
  ◌%◌, nat_eq, list_eq, list_beq_iff, arith, Option-cases, Bool-cases, is_some, is_some_and,
}
use supply_drop_bbs.Prelude.Map.{Map, get, retain, get-retain}
use supply_drop_bbs.Advert.Records.{
  AdvertRecord, AdvertBusInner, within_grace, is_effectively_protected, live, merge_live,
  merge_protected_bit,
}
use supply_drop_bbs.Advert.Upsert.{merge_bit}
use supply_drop_bbs.Advert.Decide.{
  FavouriteOutcome, unprotect_locked, revert_protect, revert_protect_by_node_num, decide_favourite,
  set_reverted, mark_favourite_if_eligible_by_node_num, contains,
}
use supply_drop_bbs.Advert.Query.{keys, clear_unprotected, is_unprotected_at}
use supply_drop_bbs.Advert.Contract.{MayProtect, IsVictim, Decides}
use supply_drop_bbs.Advert.Moves.{decide_favourite_refines}
use supply_drop_bbs.Advert.Invariant.{IsValid, get-remove_all}
use supply_drop_bbs.Advert.Grace.{
  Marks, On, Holds, Holds-modify, upsert-Holds, stamped-Holds, short-Holds, contact-Holds,
  node-Holds,
}
use supply_drop_bbs.Advert.History.{
  Op, advert, advert_stamped, advert_short, contact, node, mark, mark_node, unprotect, revert,
  revert_node, clear, call, state_of,
}

-- What a protection at the time `t` leaves, with its transition number.
abbrev pub ProtectedAt : ℕ → ℕ → Marks
ProtectedAt t g flags protected_at unprotected_at generation =
    (flags % 2 ≡ 1) × (protected_at ≡ some t) × (unprotected_at ≡ none) × (generation ≡ g)

-- The call on the bus is not the removal of the contact at `k`, nor the undoing of its transition
-- `g`, by its key or by a node number that stands for it.
abbrev pub IsOther : Bytes → ℕ → AdvertBusInner → Op → Type 0
IsOther k g s (unprotect j) = j == k ≡ false
IsOther k g s (revert j h) = (j == k && h == g) ≡ false
IsOther k g s (revert_node n h) =
    (is_some_and (get n s.node_num_index) (λ j. j == k) && h == g) ≡ false
IsOther k g s _ = Unit

-- A key is among those that a filter selects if its own record passes.
contains-keys :
    (p : Bytes → AdvertRecord → Bool) (k : Bytes) (m : Map Bytes AdvertRecord)
    → contains k (keys m) ≡ is_some (get k m)
unfolding contains keys get
contains-keys p k [] = refl
contains-keys p k ((j, r) ∷ m) = ground (arith, contains-keys p k m)

pub bit_protects :
    (t g now : ℕ) (r : AdvertRecord)
    → On (ProtectedAt t g) r
    → is_effectively_protected r now ≡ true
unfolding is_effectively_protected
bit_protects t g now r on = ground arith

module _ (k : Bytes) (t g now : ℕ) (fresh : within_grace t now ≡ true) where
  merge_keeps :
      (upper : ℕ) (incoming : Bool) (r : AdvertRecord)
      → On (ProtectedAt t g) r
      → On (ProtectedAt t g) (merge_bit true upper incoming now r)
  unfolding merge_bit merge_protected_bit live merge_live
  merge_keeps upper incoming r on = ground arith

  -- Neither the record to protect nor the victim is the protected one.
  not_bare :
      {j : Bytes} {is_eligible : ℕ → Option Bool} {s : AdvertBusInner} {r : AdvertRecord}
      → MayProtect j is_eligible now s r
      → (w : AdvertRecord) → get k s.records ≡ some w
      → On (ProtectedAt t g) w
      → (j ≡ k → ⊥)
  not_bare {j} may w found on same = ground (arith, bit_protects t g now w on, may.stored, may.bare)

  not_victim :
      {j radio v : Bytes} {exclude : List Bytes} {s : AdvertBusInner} {old : AdvertRecord}
      → IsVictim j radio now exclude s v old
      → (w : AdvertRecord) → get k s.records ≡ some w
      → On (ProtectedAt t g) w
      → (v ≡ k → ⊥)
  not_victim i w found on same = ground (arith, i.stored, i.not_recent)

  decided_keeps :
      {j : Bytes} {is_eligible : ℕ → Option Bool} {limit : ℕ} {exclude : List Bytes}
      {s s' : AdvertBusInner} {o : FavouriteOutcome}
      → Decides j is_eligible limit exclude now s s' o
      → Holds (ProtectedAt t g) k s
      → Holds (ProtectedAt t g) k s'
  decided_keeps (Decides.unknown _) held = held
  decided_keeps (Decides.short _ _ _) held = held
  decided_keeps (Decides.already _ _ _ _) held = held
  decided_keeps (Decides.wrong_type _ _ _ _ _) held = held
  decided_keeps (Decides.no_protection _ _ _) held = held
  decided_keeps (Decides.full _ _ _ _) held = held
  decided_keeps (Decides.room r may below) (w, found, on) =
      Holds-modify (ProtectedAt t g) k _ _ _ (w, found, on)
        (λ same _ _. absurd (not_bare may w found on same))
  decided_keeps (Decides.eviction r v old may above chosen) (w, found, on) =
      Holds-modify (ProtectedAt t g) k _ _ _
        (Holds-modify (ProtectedAt t g) k _ _ _ (w, found, on)
          (λ same _ _. absurd (not_victim chosen w found on same)))
        (λ same _ _. absurd (not_bare may w found on same))

  clear_keeps :
      (s : AdvertBusInner)
      → IsValid s
      → Holds (ProtectedAt t g) k s
      → Holds (ProtectedAt t g) k (clear_unprotected now s).0
  unfolding clear_unprotected is_unprotected_at
  clear_keeps s i (w, found, on) = (
    w,
    ground (
      arith,
      get-remove_all (keys (retain (is_unprotected_at now) s.records)) k s.records,
      contains-keys (is_unprotected_at now) k (retain (is_unprotected_at now) s.records),
      get-retain (is_unprotected_at now) k s.records i.records_map,
      bit_protects t g now w on,
    ),
    on,
  )

  reverted_keeps :
      (h : ℕ) (r : AdvertRecord)
      → h == g ≡ false
      → On (ProtectedAt t g) r
      → On (ProtectedAt t g) (set_reverted h r)
  unfolding set_reverted
  reverted_keeps h r other on = ground arith

  mark_keeps :
      (j : Bytes) (ok : ℕ → Option Bool) (limit : ℕ) (exclude : List Bytes) (s : AdvertBusInner)
      → IsValid s
      → Holds (ProtectedAt t g) k s
      → Holds (ProtectedAt t g) k (state_of (decide_favourite j ok limit exclude now s) s)
  unfolding state_of
  mark_keeps j ok limit exclude s i held =
      let (s', o, ran, promised) =
        decide_favourite_refines j ok now exclude s i.records_map limit in
      rw (ran, state_of) (decided_keeps promised held)

  unprotect_keeps :
      (j : Bytes) (s : AdvertBusInner)
      → j == k ≡ false
      → Holds (ProtectedAt t g) k s
      → Holds (ProtectedAt t g) k (unprotect_locked j now s).0
  unfolding unprotect_locked
  unprotect_keeps j s other held = elim (Option-cases (get j s.records)) [
    | inl absent ↦ rw (absent, unprotect_locked) held
    | inr (r, there) ↦ elim (Bool-cases (is_effectively_protected r now)) [
      | inl high ↦
          rw (there, high, unprotect_locked)
            (Holds-modify (ProtectedAt t g) k j _ s held
              (λ same _ _. absurd (ground (arith, list_beq_iff j k))))
      | inr low ↦ rw (there, low, unprotect_locked) held
    ]
  ]

  revert_keeps :
      (j : Bytes) (h : ℕ) (s : AdvertBusInner)
      → (j == k && h == g) ≡ false
      → Holds (ProtectedAt t g) k s
      → Holds (ProtectedAt t g) k (revert_protect j h s)
  unfolding revert_protect
  revert_keeps j h s other held =
      Holds-modify (ProtectedAt t g) k j _ s held
        (λ same r on. reverted_keeps h r (ground (arith, list_beq_iff j k)) on)

  -- One call of the window.
  pub call_keeps :
      (op : Op) (s : AdvertBusInner)
      → IsOther k g s op
      → IsValid s
      → Holds (ProtectedAt t g) k s
      → Holds (ProtectedAt t g) k (call op now s)
  unfolding call mark_favourite_if_eligible_by_node_num revert_protect_by_node_num state_of
  call_keeps (advert j h radio) s other i held =
      upsert-Holds (ProtectedAt t g) k now merge_keeps j h radio s held
  call_keeps (advert_stamped j h seen radio) s other i held =
      stamped-Holds (ProtectedAt t g) k now merge_keeps j h seen radio s held
  call_keeps (advert_short j radio) s other i held =
      short-Holds (ProtectedAt t g) k now merge_keeps j radio s held
  call_keeps (contact j h c radio) s other i held =
      contact-Holds (ProtectedAt t g) k now merge_keeps j h c radio s held
  call_keeps (node j n h favorite radio) s other i held =
      node-Holds (ProtectedAt t g) k now merge_keeps j n h favorite radio s held
  call_keeps (mark j ok limit exclude) s other i held = mark_keeps j ok limit exclude s i held
  call_keeps (mark_node n ok limit exclude) s other i held =
      elim (Option-cases (get n s.node_num_index)) [
        | inl absent ↦ rw (absent, state_of, mark_favourite_if_eligible_by_node_num, call) held
        | inr (j, there) ↦
            rw (there, mark_favourite_if_eligible_by_node_num, call)
              (mark_keeps j ok limit exclude s i held)
      ]
  call_keeps (unprotect j) s other i held = unprotect_keeps j s other held
  call_keeps (revert j h) s other i held = revert_keeps j h s other held
  call_keeps (revert_node n h) s other i held = elim (Option-cases (get n s.node_num_index)) [
    | inl absent ↦ rw (absent, revert_protect_by_node_num, call) held
    | inr (j, there) ↦
        rw (there, revert_protect_by_node_num, call) (revert_keeps j h s (ground arith) held)
  ]
  call_keeps clear s other i held = clear_keeps s i held
