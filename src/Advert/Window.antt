-- ===== src/Advert/Window.antt =====
-- crates/bbs-plugin-api/src/advert.rs: a protection holds through every history of its grace window.
use supply_drop_bbs.Prelude.{
  ℕ, ◌≡◌, refl, subst, Bool, true, false, Option, none, some, List, [], ◌∷◌, Bytes, ◌==◌, nat_eq,
  list_eq, arith, beq_self,
}
use supply_drop_bbs.Prelude.Map.{get, get-modify}
use supply_drop_bbs.Advert.Records.{AdvertRecord, AdvertBusInner, within_grace}
use supply_drop_bbs.Advert.Decide.{
  FavouriteOutcome, FavouriteSnapshot, protected, protected_with_eviction, already_protected,
  ineligible, no_record_yet, cap_reached, set_protected, set_unprotected, snapshot_of,
  modify_record, decide_favourite,
}
use supply_drop_bbs.Advert.Query.{is_currently_favourited}
use supply_drop_bbs.Advert.Contract.{Decides}
use supply_drop_bbs.Advert.Moves.{decide_favourite_refines}
use supply_drop_bbs.Advert.Invariant.{IsValid, decided-IsValid}
use supply_drop_bbs.Advert.Valid.{call-IsValid}
use supply_drop_bbs.Advert.Grace.{Holds}
use supply_drop_bbs.Advert.Survive.{ProtectedAt, IsOther, bit_protects, call_keeps}
use supply_drop_bbs.Advert.History.{Op, call, run}

-- The calls, made one after the other on the bus, are other ones, and they fall in the window of the
-- time `t`.
abbrev pub InWindow : Bytes → ℕ → ℕ → List (Op × ℕ) → AdvertBusInner → Type 0
InWindow k t g [] s = Unit
InWindow k t g ((op, now) ∷ calls) s =
    IsOther k g s op × (within_grace t now ≡ true) × InWindow k t g calls (call op now s)

run_keeps :
    (k : Bytes) (t g : ℕ) (calls : List (Op × ℕ)) (s : AdvertBusInner)
    → InWindow k t g calls s
    → IsValid s
    → Holds (ProtectedAt t g) k s
    → Holds (ProtectedAt t g) k (run calls s)
unfolding run
run_keeps k t g [] s h i held = held
run_keeps k t g ((op, now) ∷ calls) s h i held =
    run_keeps k t g calls (call op now s) h.2 (call-IsValid op now s i)
      (call_keeps k t g now h.1 op s h.0 i held)

-- What the caller is told to send, where the decision protects.
unfoldable pub snapshot : FavouriteOutcome → Option FavouriteSnapshot
snapshot (protected f) = some f
snapshot (protected_with_eviction f _ _) = some f
snapshot already_protected = none
snapshot ineligible = none
snapshot no_record_yet = none
snapshot cap_reached = none

module _ (k : Bytes) (t : ℕ) where
  set_protected-Holds :
      (r : AdvertRecord) (s : AdvertBusInner)
      → get k s.records ≡ some r
      → Holds
          (ProtectedAt t (snapshot_of k t (set_protected t r)).generation)
          k
          (modify_record k (set_protected t) s)
  unfolding set_protected snapshot_of modify_record
  set_protected-Holds r s there = (
    set_protected t r,
    ground (arith, get-modify k k (set_protected t) s.records, beq_self k),
    (omega arith, refl, refl, refl),
  )

  -- The victim is another record.
  unevicted :
      (r : AdvertRecord) (v : Bytes) (s : AdvertBusInner)
      → v == k ≡ false
      → get k s.records ≡ some r
      → get k (modify_record v (set_unprotected t) s).records ≡ some r
  unfolding modify_record
  unevicted r v s other there = ground (arith, get-modify v k (set_unprotected t) s.records)

  protecting :
      (f : FavouriteSnapshot) (r : AdvertRecord) (s : AdvertBusInner)
      → snapshot_of k t (set_protected t r) ≡ f
      → get k s.records ≡ some r
      → Holds (ProtectedAt t f.generation) k (modify_record k (set_protected t) s)
  protecting f r s same there =
      subst (λ x. Holds (ProtectedAt t x.generation) k (modify_record k (set_protected t) s)) same
        (set_protected-Holds r s there)

  decided-Holds :
      {is_eligible : ℕ → Option Bool} {limit : ℕ} {exclude : List Bytes} (s : AdvertBusInner)
      {s' : AdvertBusInner} {o : FavouriteOutcome} (f : FavouriteSnapshot)
      → Decides k is_eligible limit exclude t s s' o
      → snapshot o ≡ some f
      → Holds (ProtectedAt t f.generation) k s'
  unfolding snapshot
  decided-Holds s f (Decides.unknown _) e = absurd (cc)
  decided-Holds s f (Decides.short _ _ _) e = absurd (cc)
  decided-Holds s f (Decides.already _ _ _ _) e = absurd (cc)
  decided-Holds s f (Decides.wrong_type _ _ _ _ _) e = absurd (cc)
  decided-Holds s f (Decides.no_protection _ _ _) e = absurd (cc)
  decided-Holds s f (Decides.full _ _ _ _) e = absurd (cc)
  decided-Holds s f (Decides.room r may below) e = protecting f r s (ground arith) may.stored
  decided-Holds s f (Decides.eviction r v old may above chosen) e =
      protecting f r (modify_record v (set_unprotected t) s) (ground arith)
        (unevicted r v s chosen.other may.stored)

-- Once the decision at the time `t` protects a contact, with or without an eviction, it is read as
-- protected at every later time, whatever calls come in between: syncs from the device, adverts,
-- protections with evictions, flushes, removals of others and undone protections of others, as
-- long as each falls within the grace window of `t`, none is the contact's own removal, and none
-- undoes this contact's transition that the snapshot names, by its key or by a node number that
-- stands for the contact at that moment.
pub decide_favourite-run :
    (k : Bytes) (is_eligible : ℕ → Option Bool) (limit : ℕ) (exclude : List Bytes) (t : ℕ)
    (s s' : AdvertBusInner) (o : FavouriteOutcome) (f : FavouriteSnapshot)
    → IsValid s
    → decide_favourite k is_eligible limit exclude t s ≡ some (s', o)
    → snapshot o ≡ some f
    → (calls : List (Op × ℕ)) → InWindow k t f.generation calls s'
    → (now : ℕ) → is_currently_favourited k now (run calls s') ≡ true
unfolding is_currently_favourited
decide_favourite-run k is_eligible limit exclude t s s' o f i ran told calls window now =
    let (s'', o', ran', promised) =
      decide_favourite_refines k is_eligible t exclude s i.records_map limit in
    let states : s'' ≡ s' = ground arith in
    let outcomes : o' ≡ o = ground arith in
    let held : Holds (ProtectedAt t f.generation) k s' =
      subst (λ x. Holds (ProtectedAt t f.generation) k x) states
        (decided-Holds k t s f promised (rw outcomes told)) in
    let valid : IsValid s' = subst IsValid states (decided-IsValid promised i) in
    let (w, found, on) = run_keeps k t f.generation calls s' window valid held in
    ground (arith, bit_protects t f.generation now w on)
