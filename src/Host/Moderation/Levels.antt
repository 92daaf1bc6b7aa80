-- ===== src/Host/Moderation/Levels.antt =====
-- crates/bbs-core/src/host.rs: which changes of one account leave an active sysop.
use supply_drop_bbs.Prelude.{
  ℕ, ◌≤◌, ◌<◌, ◌≡◌, refl, inl, inr, true, false, some, leb, nat_eq, list_eq, take, arith,
  Bool-cases,
}
use supply_drop_bbs.Prelude.Map.{get, modify, count-modify, IsMap-modify}
use supply_drop_bbs.Permissions.{PermissionLevel, unvalidated, user, aide, sysop, rank}
use supply_drop_bbs.Host.Users.{
  User, Users, UserStatus, active, banned, deleted, is_active, is_banned, below, same_level,
  active_rows, list_active, set_status, set_level, set_suspended, set_unsuspended,
}
use supply_drop_bbs.Host.Moderation.{count_sysops, takes_last_sysop}
use supply_drop_bbs.Host.Moderation.Sysops.{
  is_active_sysop, active_sysops, HasSysop, IsSafe, modify-HasSysop, count_sysops-take,
  count_sysops-rows, Keyed-modify,
}

pub rank_top : (level : PermissionLevel) → rank level ≤ 100
unfolding rank
rank_top unvalidated = omega arith
rank_top user = omega arith
rank_top aide = omega arith
rank_top sysop = omega arith

pub rank_sysop : rank sysop ≡ 100
unfolding rank
rank_sysop = refl

-- The level of an actor is at most that of a sysop, so an account below it is none.
pub below_sysop :
    (u : User) (level : PermissionLevel)
    → below u.permission_level level ≡ true
    → (id : ℕ) → is_active_sysop id u ≡ false
unfolding below same_level
below_sysop u level h id = ground (arith, rank_top level)

-- A change of an account that is no active sysop, and one that leaves another.
pub harmless :
    (change : User → User) (u : User)
    → ((w : User) → (change w).id ≡ w.id)
    → ((id : ℕ) → is_active_sysop id u ≡ false)
    → IsSafe change u
harmless change u same none_there = record {
  same_id = same;
  stays = λ id was. absurd (ground (arith, none_there id));
}

pub one_of_two :
    (id : ℕ) (change : User → User) (users : Users) (u : User)
    → get id users ≡ some u
    → ((w : User) → (change w).id ≡ w.id)
    → 1 < active_sysops users
    → HasSysop users
    → HasSysop (modify id change users)
one_of_two id change users u there same two h = record {
  keys = IsMap-modify id change users h.keys;
  keyed = Keyed-modify id change users same h.keyed;
  some_sysop = ground (arith, count-modify is_active_sysop id change users u h.keys there);
}

pub same_ids : (u : User) (status : UserStatus) → (set_status status u).id ≡ u.id
unfolding set_status
same_ids u status = refl

pub unsuspend-IsSafe : (u : User) → IsSafe set_unsuspended u
unfolding set_unsuspended
unsuspend-IsSafe u = record { same_id = λ w. refl; stays = λ id was. was }

pub level_id : (level : PermissionLevel) (u : User) → (set_level level u).id ≡ u.id
unfolding set_level
level_id level u = refl

pub suspend_id : (until : ℕ) (u : User) → (set_suspended until u).id ≡ u.id
unfolding set_suspended
suspend_id until u = refl

pub leb-false : (a b : ℕ) → leb a b ≡ false → b < a
leb-false a b h = ground arith

pub another_level :
    (level : PermissionLevel) (u : User)
    → same_level u.permission_level sysop ≡ true
    → same_level u.permission_level level ≡ false
    → below level sysop ≡ true
unfolding below same_level
another_level level u a_sysop other = ground (arith, rank_top level)

pub two_left :
    (level : PermissionLevel) (u : User) (users : Users)
    → same_level u.permission_level sysop ≡ true
    → same_level u.permission_level level ≡ false
    → takes_last_sysop level u users ≡ false
    → 1 < active_sysops users
unfolding takes_last_sysop list_active
two_left level u users a_sysop other guard =
    let many : leb (count_sysops (take 500 (active_rows users))) 1 ≡ false =
      rw (a_sysop, another_level level u a_sysop other) at guard in
    let several : 1 < count_sysops (take 500 (active_rows users)) = leb-false _ _ many in
    omega (arith, count_sysops-take 500 (active_rows users), count_sysops-rows users)

-- A change of level that the guard lets through leaves a sysop.
pub level_left :
    (level : PermissionLevel) (u : User) (users : Users)
    → get u.id users ≡ some u
    → same_level u.permission_level level ≡ false
    → takes_last_sysop level u users ≡ false
    → HasSysop users
    → HasSysop (modify u.id (set_level level) users)
unfolding takes_last_sysop list_active
level_left level u users there other guard h =
    elim (Bool-cases (same_level u.permission_level sysop)) [
      | inr none_there ↦
          modify-HasSysop u.id (set_level level) users u there
            (harmless (set_level level) u (λ w. level_id level w)
              (λ id. ground (arith, none_there)))
            h
      | inl a_sysop ↦
          one_of_two u.id (set_level level) users u there (λ w. level_id level w)
            (two_left level u users a_sysop other guard) h
    ]

pub unvalidated_none :
    (u : User)
    → same_level u.permission_level unvalidated ≡ true
    → (id : ℕ) → is_active_sysop id u ≡ false
unfolding same_level rank
unvalidated_none u new id = ground arith

pub banned_none : (u : User) → is_banned u.status ≡ true → (id : ℕ) → is_active_sysop id u ≡ false
unfolding is_banned is_active
banned_none u was id = elim (Bool-cases (is_active u.status)) [
  | inl yes_active ↦ absurd (not_both u.status yes_active was)
  | inr not_active ↦ ground arith
]
  where
    not_both : (st : UserStatus) → is_active st ≡ true → is_banned st ≡ true → ⊥
    not_both active a b = cc
    not_both banned a b = cc
    not_both deleted a b = cc

-- An account below the actor may lose its status.
pub lower_left :
    (u : User) (level : PermissionLevel) (status : UserStatus) (users : Users)
    → get u.id users ≡ some u
    → below u.permission_level level ≡ true
    → HasSysop users
    → HasSysop (modify u.id (set_status status) users)
lower_left u level status users there lower h =
    modify-HasSysop u.id (set_status status) users u there
      (harmless (set_status status) u (λ w. same_ids w status) (below_sysop u level lower)) h
