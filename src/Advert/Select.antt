-- ===== src/Advert/Select.antt =====
-- The iterator calls of crates/bbs-plugin-api/src/advert.rs that choose among records.
use supply_drop_bbs.Prelude.{
  ℕ, ◌≤◌, ◌≡◌, refl, Option, none, some, List, [], ◌∷◌, inl, inr, leb, if◌then◌else◌, arith,
  Option-cases, Bool-cases, subst, All,
}

module _ {ℓ} {A : Type ℓ} (f : A → ℕ) where
  -- `min_by_key`: the first of the least.
  unfoldable pub min_by_key : List A → Option A
  min_by_key [] = none
  min_by_key (x ∷ xs) = elim (min_by_key xs) [
    | none ↦ some x
    | some y ↦ if leb (f x) (f y) then some x else some y
  ]

  insert_by_key : A → List A → List A
  insert_by_key x [] = x ∷ []
  insert_by_key x (y ∷ ys) =
      let rest = insert_by_key x ys in if leb (f y) (f x) then x ∷ y ∷ ys else y ∷ rest

  -- `sort_by_key` with the key reversed: the greatest first, equals in their order.
  unfoldable pub sort_by_key_reverse : List A → List A
  unfolding insert_by_key
  sort_by_key_reverse [] = []
  sort_by_key_reverse (x ∷ xs) = insert_by_key x (sort_by_key_reverse xs)

  pub min_by_key-none : (xs : List A) → min_by_key xs ≡ none → xs ≡ []
  unfolding min_by_key
  min_by_key-none [] h = refl
  min_by_key-none (x ∷ xs) h = elim (Option-cases (min_by_key xs)) [
    | inl e ↦ ground arith
    | inr (y, e) ↦ ground arith
  ]

  -- The chosen item has every property that all the items have, and none is less.
  pub min_by_key-All {κ} :
      (P : A → Type κ) (xs : List A) (y : A) → All P xs → min_by_key xs ≡ some y → P y
  unfolding min_by_key
  min_by_key-All P [] y h found = absurd (cc)
  min_by_key-All P (x ∷ xs) y h found = elim (Option-cases (min_by_key xs)) [
    | inl e ↦ let p : x ≡ y = ground arith in subst P p h.0
    | inr (z, e) ↦ elim (Bool-cases (leb (f x) (f z))) [
      | inl here ↦ let p : x ≡ y = ground arith in subst P p h.0
      | inr there ↦ let p : z ≡ y = ground arith in subst P p (min_by_key-All P xs z h.1 e)
    ]
  ]

  weaken : (a b : ℕ) (xs : List A) → a ≤ b → All (λ x. b ≤ f x) xs → All (λ x. a ≤ f x) xs
  weaken a b [] h all = tt
  weaken a b (x ∷ xs) h all = (ground arith, weaken a b xs h all.1)

  pub min_by_key_least : (xs : List A) (y : A) → min_by_key xs ≡ some y → All (λ x. f y ≤ f x) xs
  unfolding min_by_key
  min_by_key_least [] y found = tt
  min_by_key_least (x ∷ xs) y found = elim (Option-cases (min_by_key xs)) [
    | inl e ↦
        let p : x ≡ y = ground arith in
        let none_left : xs ≡ [] = min_by_key-none xs e in (ground arith, rw none_left tt)
    | inr (z, e) ↦
        let ih = min_by_key_least xs z e in (ground arith, weaken (f y) (f z) xs (ground arith) ih)
  ]
