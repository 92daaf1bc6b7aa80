-- ===== src/Prelude/Map.antt =====
-- A `HashMap` as an association list. Its iteration order is the list's, where the source has none.
use Prim.Native.Nat.{◌≤◌, ◌+◌}
use mathlib.Core.Path.{◌≡◌, refl, subst}
use mathlib.Core.Logic.{◌⊎◌, inl, inr}
use mathlib.Core.Bool.{Bool, true}
use mathlib.Core.List.{List, [], ◌∷◌, ◌++◌}
use mathlib.Core.Option.{Option, none, some}
use native.Mathlib.Omega.{arith}
use supply_drop_bbs.Prelude.Tests.{if◌then◌else◌, Bool-cases}
use supply_drop_bbs.Prelude.Options.{◌>>=◌, Option-cases}
use supply_drop_bbs.Prelude.Lists.{length, All}
use supply_drop_bbs.Prelude.Equality.{PartialEq, ◌==◌, beq_self}

abbrev pub Map {ℓ κ} : Type ℓ → Type κ → Type (ℓ ⊔ κ)
Map K V = List (K × V)

module _ {ℓ κ} {K : Type ℓ} {V : Type κ} ⦃e : PartialEq K⦄ where
  unfoldable pub get : K → Map K V → Option V
  get k [] = none
  get k ((j, v) ∷ m) = if j == k then some v else get k m

  unfoldable pub remove : K → Map K V → Map K V
  remove k [] = []
  remove k ((j, v) ∷ m) = let rest = remove k m in if j == k then rest else (j, v) ∷ rest

  unfoldable pub insert : K → V → Map K V → Map K V
  insert k v m = (k, v) ∷ remove k m

  -- A write through `get_mut`: nothing happens at a key that is not there.
  unfoldable pub modify : K → (V → V) → Map K V → Map K V
  modify k f [] = []
  modify k f ((j, v) ∷ m) = if j == k then (j, f v) ∷ m else (j, v) ∷ modify k f m

  unfoldable pub retain : (K → V → Bool) → Map K V → Map K V
  retain p [] = []
  retain p ((j, v) ∷ m) = let rest = retain p m in if p j v then (j, v) ∷ rest else rest

  -- No key stands twice.
  abbrev pub IsMap : Map K V → Type κ
  IsMap [] = Unit
  IsMap ((k, v) ∷ m) = (get k m ≡ none) × IsMap m

  pub get-nil : (k : K) → get k [] ≡ none
  unfolding get
  get-nil k = refl

  pub get-remove : (k j : K) (m : Map K V) → get j (remove k m) ≡ (if k == j then none else get j m)
  unfolding get remove
  get-remove k j [] = ground arith
  get-remove k j ((i, v) ∷ m) =
      ground (arith, get-remove k j m, e.same_iff i k, e.same_iff i j, e.same_iff k j)

  pub get-insert :
      (k j : K) (v : V) (m : Map K V) → get j (insert k v m) ≡ (if k == j then some v else get j m)
  unfolding get insert
  get-insert k j v m = ground (arith, get-remove k j m, e.same_iff k j)

  pub get-modify :
      (k j : K) (f : V → V) (m : Map K V)
      → get j (modify k f m) ≡ (if k == j then (get j m >>= λ v. some (f v)) else get j m)
  unfolding get modify
  get-modify k j f [] = ground arith
  get-modify k j f ((i, v) ∷ m) =
      ground (arith, get-modify k j f m, e.same_iff i k, e.same_iff i j, e.same_iff k j)

  -- What stands at a key after a write stood there before, or is the written value.
  pub get-modify_inv :
      (k j : K) (f : V → V) (m : Map K V) (v : V)
      → get j (modify k f m) ≡ some v
      → (w : V) × (get j m ≡ some w) × ((v ≡ w) ⊎ (v ≡ f w))
  get-modify_inv k j f m v h = elim (Option-cases (get j m)) [
    | inl absent ↦ absurd (ground (arith, get-modify k j f m))
    | inr (w, found) ↦ (w, found, ground (arith, get-modify k j f m))
  ]

  pub modify-modify :
      (k : K) (f g : V → V) (m : Map K V) → modify k f (modify k g m) ≡ modify k (λ v. f (g v)) m
  unfolding modify
  modify-modify k f g [] = refl
  modify-modify k f g ((i, v) ∷ m) = ground (arith, modify-modify k f g m)

  get-retain-none :
      (p : K → V → Bool) (k : K) (m : Map K V) → get k m ≡ none → get k (retain p m) ≡ none
  unfolding get retain
  get-retain-none p k [] h = refl
  get-retain-none p k ((i, v) ∷ m) h = ground (arith, get-retain-none p k m, e.same_iff i k)

  pub get-retain :
      (p : K → V → Bool) (k : K) (m : Map K V)
      → IsMap m
      → get k (retain p m) ≡ (get k m >>= λ v. if p k v then some v else none)
  unfolding get retain
  get-retain p k [] h = refl
  get-retain p k ((i, v) ∷ m) h =
      ground (arith, get-retain p k m h.1, get-retain-none p k m, e.same_iff i k)

  pub IsMap-remove : (k : K) (m : Map K V) → IsMap m → IsMap (remove k m)
  unfolding remove
  IsMap-remove k [] h = tt
  IsMap-remove k ((i, v) ∷ m) h = ground (arith, IsMap-remove k m h.1, get-remove k i m)

  pub IsMap-insert : (k : K) (v : V) (m : Map K V) → IsMap m → IsMap (insert k v m)
  unfolding insert
  IsMap-insert k v m h = (ground (arith, get-remove k k m, e.same_iff k k), IsMap-remove k m h)

  pub IsMap-modify : (k : K) (f : V → V) (m : Map K V) → IsMap m → IsMap (modify k f m)
  unfolding modify
  IsMap-modify k f [] h = tt
  IsMap-modify k f ((i, v) ∷ m) h = ground (arith, IsMap-modify k f m h.1, get-modify k i f m)

  pub IsMap-retain : (p : K → V → Bool) (m : Map K V) → IsMap m → IsMap (retain p m)
  unfolding retain
  IsMap-retain p [] h = tt
  IsMap-retain p ((i, v) ∷ m) h = ground (arith, IsMap-retain p m h.1, get-retain-none p i m)

  pub remove_absent : (k : K) (m : Map K V) → get k m ≡ none → remove k m ≡ m
  unfolding get remove
  remove_absent k [] h = refl
  remove_absent k ((i, v) ∷ m) h = ground (arith, remove_absent k m)

  -- What the filter leaves stands in the map and meets the test.
  All-cons :
      (k : K) (v : V) (m l : Map K V)
      → get k m ≡ none
      → All (λ (j, w). get j m ≡ some w) l
      → All (λ (j, w). get j ((k, v) ∷ m) ≡ some w) l
  unfolding get
  All-cons k v m [] absent h = tt
  All-cons k v m ((j, w) ∷ l) absent h =
      (ground (arith, h.0, e.same_iff k j), All-cons k v m l absent h.1)

  pub retain-All_stored :
      (p : K → V → Bool) (m : Map K V) → IsMap m → All (λ (j, w). get j m ≡ some w) (retain p m)
  unfolding get retain
  retain-All_stored p [] h = tt
  retain-All_stored p ((k, v) ∷ m) h =
      let rest = All-cons k v m (retain p m) h.0 (retain-All_stored p m h.1) in
      elim (Bool-cases (p k v)) [
        | inl keep ↦ rw keep (ground (arith, beq_self k), rest)
        | inr drop ↦ rw drop rest
      ]

  pub retain-All_meets :
      (p : K → V → Bool) (m : Map K V) → All (λ (j, w). p j w ≡ true) (retain p m)
  unfolding retain
  retain-All_meets p [] = tt
  retain-All_meets p ((k, v) ∷ m) = elim (Bool-cases (p k v)) [
    | inl keep ↦ rw keep (keep, retain-All_meets p m)
    | inr drop ↦ rw drop (retain-All_meets p m)
  ]

  -- A write at one key moves the number of entries that meet a test by that entry alone.
  pub count-modify :
      (p : K → V → Bool) (k : K) (f : V → V) (m : Map K V) (v : V)
      → IsMap m
      → get k m ≡ some v
      → length (retain p (modify k f m)) + (if p k v then 1 else 0)
        ≡ length (retain p m) + (if p k (f v) then 1 else 0)
  unfolding get retain modify
  count-modify p k f [] v h found = absurd (cc)
  count-modify p k f ((j, w) ∷ m) v h found = elim (Bool-cases (j == k)) [
    | inl same ↦
        let jk : j ≡ k = (e.same_iff j k).0 same in let wv : w ≡ v = ground arith in ground arith
    | inr other ↦ let ih = count-modify p k f m v h.1 (rw other at found) in ground (arith, ih)
  ]

  -- An entry behind others is found and removed, for no key stands twice.
  pub get-middle :
      (l : Map K V) (k : K) (v : V) (m : Map K V)
      → IsMap (l ++ (k, v) ∷ m)
      → get k (l ++ (k, v) ∷ m) ≡ some v
  unfolding get
  get-middle [] k v m h = ground (arith, beq_self k)
  get-middle ((i, w) ∷ l) k v m h = ground (arith, get-middle l k v m h.1, e.same_iff i k)

  pub remove-middle :
      (l : Map K V) (k : K) (v : V) (m : Map K V)
      → IsMap (l ++ (k, v) ∷ m)
      → remove k (l ++ (k, v) ∷ m) ≡ l ++ m
  unfolding remove
  remove-middle [] k v m h = ground (arith, beq_self k, remove_absent k m)
  remove-middle ((i, w) ∷ l) k v m h =
      ground (arith, remove-middle l k v m h.1, get-middle l k v m h.1, e.same_iff i k)

  pub length-remove : (k : K) (m : Map K V) → length (remove k m) ≤ length m
  unfolding remove
  length-remove k [] = omega arith
  length-remove k ((i, v) ∷ m) = ground (arith, length-remove k m)

pub ruleset map_laws = (get-nil, get-remove, get-insert, get-modify)

-- A predicate on all the values.
module _ {ℓ κ μ} {K : Type ℓ} {V : Type κ} ⦃e : PartialEq K⦄ (P : V → Type μ) where
  abbrev pub Every : Map K V → Type μ
  Every [] = Unit
  Every ((k, v) ∷ m) = P v × Every m

  pub Every-remove : (k : K) (m : Map K V) → Every m → Every (remove k m)
  unfolding remove
  Every-remove k [] h = h
  Every-remove k ((j, v) ∷ m) h = elim (Bool-cases (j == k)) [
    | inl same ↦ rw same (Every-remove k m h.1)
    | inr other ↦ rw other (h.0, Every-remove k m h.1)
  ]

  pub Every-insert : (k : K) (v : V) (m : Map K V) → P v → Every m → Every (insert k v m)
  unfolding insert
  Every-insert k v m p h = (p, Every-remove k m h)

  pub Every-retain : (test : K → V → Bool) (m : Map K V) → Every m → Every (retain test m)
  unfolding retain
  Every-retain test [] h = h
  Every-retain test ((j, v) ∷ m) h = elim (Bool-cases (test j v)) [
    | inl keep ↦ rw keep (h.0, Every-retain test m h.1)
    | inr drop ↦ rw drop (Every-retain test m h.1)
  ]

  pub Every-get : (k : K) (m : Map K V) (v : V) → Every m → get k m ≡ some v → P v
  unfolding get
  Every-get k [] v h found = absurd (cc)
  Every-get k ((j, w) ∷ m) v h found = elim (Bool-cases (j == k)) [
    | inl same ↦ let p : w ≡ v = ground arith in subst P p h.0
    | inr other ↦ Every-get k m v h.1 (rw other at found)
  ]
