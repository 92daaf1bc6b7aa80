-- ===== src/Host/Moderation/Sysops.antt =====
-- crates/bbs-core/src/host.rs: an active sysop remains, whatever the commands on accounts do.
use supply_drop_bbs.Prelude.{
  ℕ, ◌+◌, ◌≤◌, ◌<◌, ◌≡◌, zero, suc, refl, sym, ap, ◌∙◌, ◌⊎◌, inl, inr, Bool, true, false, ◌&&◌,
  some, List, [], ◌∷◌, ◌==◌, nat_eq, list_eq, if◌then◌else◌, length, take, arith, Bool-cases,
}
use supply_drop_bbs.Prelude.Map.{get, modify, retain, IsMap, IsMap-modify, count-modify}
use supply_drop_bbs.Identity.{Username}
use supply_drop_bbs.Permissions.{sysop}
use supply_drop_bbs.Host.Users.{
  User, Users, is_active, same_level, same_user, get_by_username, active_rows,
}
use supply_drop_bbs.Host.State.{Outcome}
use supply_drop_bbs.Host.Moderation.{count_sysops}

abbrev pub is_active_sysop : ℕ → User → Bool
is_active_sysop _ u = is_active u.status && same_level u.permission_level sysop

-- The rows that hold the name of an active sysop.
abbrev pub active_sysops : Users → ℕ
active_sysops users = length (retain is_active_sysop users)

-- Each row stands under its id.
abbrev pub Keyed : Users → Type 0
Keyed [] = Unit
Keyed ((k, u) ∷ users) = (u.id ≡ k) × Keyed users

pub record HasSysop (users : Users) : Type 0 where
  pub keys : IsMap users
  pub keyed : Keyed users
  pub some_sysop : 0 < active_sysops users

pub get_by_username-get :
    (name : Username) (users : Users) (u : User)
    → IsMap users
    → Keyed users
    → get_by_username name users ≡ some u
    → get u.id users ≡ some u
unfolding get_by_username get
get_by_username-get name [] u m k found = absurd (cc)
get_by_username-get name ((i, w) ∷ users) u m k found =
    elim (Bool-cases (same_user w.username name)) [
      | inl here ↦
          let wu : w ≡ u = ground arith in
          let iu : i ≡ u.id = sym k.0 ∙ ap (λ x. x.id) wu in ground arith
      | inr there ↦
          let ih = get_by_username-get name users u m.1 k.1 (rw there at found) in
          ground (arith, ih, m.0)
    ]

pub Keyed-modify :
    (id : ℕ) (f : User → User) (users : Users)
    → ((u : User) → (f u).id ≡ u.id)
    → Keyed users
    → Keyed (modify id f users)
unfolding modify
Keyed-modify id f [] same k = tt
Keyed-modify id f ((i, u) ∷ users) same k = elim (Bool-cases (i == id)) [
  | inl here ↦ rw here (same u ∙ k.0, k.1)
  | inr there ↦ rw there (k.0, Keyed-modify id f users same k.1)
]

-- The sysops of a page of rows are rows.
pub count_sysops-take : (n : ℕ) (us : List User) → count_sysops (take n us) ≤ count_sysops us
unfolding count_sysops
count_sysops-take zero us = omega arith
count_sysops-take (suc n) [] = omega arith
count_sysops-take (suc n) (u ∷ us) = ground (arith, count_sysops-take n us)

pub count_sysops-rows : (users : Users) → count_sysops (active_rows users) ≡ active_sysops users
unfolding count_sysops active_rows retain
count_sysops-rows [] = refl
count_sysops-rows ((i, u) ∷ users) = ground (arith, count_sysops-rows users)

-- The outcome's state has an active sysop.
pub record Keeps (o : Outcome) : Type 0 where
  pub kept : HasSysop o.0.users

-- A change of the row `u` takes no active sysop away.
pub record IsSafe (change : User → User) (u : User) : Type 0 where
  pub same_id : (w : User) → (change w).id ≡ w.id
  pub stays : (id : ℕ) → is_active_sysop id u ≡ true → is_active_sysop id (change u) ≡ true

pub modify-HasSysop :
    (id : ℕ) (change : User → User) (users : Users) (u : User)
    → get id users ≡ some u
    → IsSafe change u
    → HasSysop users
    → HasSysop (modify id change users)
modify-HasSysop id change users u there safe h = record {
  keys = IsMap-modify id change users h.keys;
  keyed = Keyed-modify id change users safe.same_id h.keyed;
  some_sysop = enough (Bool-cases (is_active_sysop id u));
}
  where
    counted :
        length (retain is_active_sysop (modify id change users))
          + (if is_active_sysop id u then 1 else 0)
        ≡ active_sysops users + (if is_active_sysop id (change u) then 1 else 0)
    counted = count-modify is_active_sysop id change users u h.keys there

    enough :
        (is_active_sysop id u ≡ true) ⊎ (is_active_sysop id u ≡ false)
        → 0 < active_sysops (modify id change users)
    enough (inl was) =
        let now : is_active_sysop id (change u) ≡ true = safe.stays id was in
        let before = h.some_sysop in ground (arith, rw (was, now) at counted)
    enough (inr was) = let before = h.some_sysop in ground (arith, rw was at counted)
