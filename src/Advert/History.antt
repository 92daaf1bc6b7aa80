-- ===== src/Advert/History.antt =====
-- crates/bbs-plugin-api/src/advert.rs: histories of calls on the bus. A call that would panic leaves
-- the bus as it was.
use supply_drop_bbs.Prelude.{ℕ, Bool, Option, none, some, List, [], ◌∷◌, Bytes}
use supply_drop_bbs.Prelude.Int.{ℤ}
use supply_drop_bbs.Advert.Records.{AdvertBusInner}
use supply_drop_bbs.Advert.Upsert.{
  Heard, ContactDetail, upsert, upsert_with_timestamp, upsert_short, upsert_contact,
  upsert_meshtastic_node,
}
use supply_drop_bbs.Advert.Decide.{
  FavouriteOutcome, decide_favourite, mark_favourite_if_eligible_by_node_num, unprotect_locked,
  revert_protect, revert_protect_by_node_num,
}
use supply_drop_bbs.Advert.Query.{clear_unprotected}

-- One call of a method that writes, with its arguments.
pub data Op : Type 0 where
  advert : Bytes → Heard → Bytes → Op
  advert_stamped : Bytes → Heard → ℤ → Bytes → Op
  advert_short : Bytes → Bytes → Op
  contact : Bytes → Heard → ContactDetail → Bytes → Op
  node : Bytes → ℕ → Heard → Option Bool → Bytes → Op
  mark : Bytes → (ℕ → Option Bool) → ℕ → List Bytes → Op
  mark_node : ℕ → (ℕ → Option Bool) → ℕ → List Bytes → Op
  unprotect : Bytes → Op
  revert : Bytes → ℕ → Op
  revert_node : ℕ → ℕ → Op
  clear : Op

unfoldable pub state_of :
    Option (AdvertBusInner × FavouriteOutcome) → AdvertBusInner → AdvertBusInner
state_of none before = before
state_of (some (after, _)) before = after

-- The bus after a call at the time `now`.
unfoldable pub call : Op → ℕ → AdvertBusInner → AdvertBusInner
call (advert k h tr) now s = upsert k h tr now s
call (advert_stamped k h seen tr) now s = upsert_with_timestamp k h seen tr now s
call (advert_short k tr) now s = upsert_short k tr now s
call (contact k h c tr) now s = upsert_contact k h c tr now s
call (node k n h favorite tr) now s = (upsert_meshtastic_node k n h favorite tr now s).0
call (mark k ok cap ex) now s = state_of (decide_favourite k ok cap ex now s) s
call (mark_node n ok cap ex) now s =
    state_of (mark_favourite_if_eligible_by_node_num n ok cap ex now s) s
call (unprotect k) now s = (unprotect_locked k now s).0
call (revert k g) now s = revert_protect k g s
call (revert_node n g) now s = revert_protect_by_node_num n g s
call clear now s = (clear_unprotected now s).0

-- Calls with their times.
unfoldable pub run : List (Op × ℕ) → AdvertBusInner → AdvertBusInner
run [] s = s
run ((op, now) ∷ calls) s = run calls (call op now s)
