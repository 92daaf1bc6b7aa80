-- ===== src/Mesh/Session/Entries.antt =====
-- crates/bbs-mesh/src/session.rs: writes to an entry that keep a state valid.
use supply_drop_bbs.Prelude.{
  ℕ, ◌≤◌, ◌≡◌, refl, some, Bytes, nat_eq, list_eq, arith, Option-cases, ◌⊎◌, inl, inr,
}
use supply_drop_bbs.Prelude.Map.{get, get-modify, get-modify_inv, IsMap-modify}
use supply_drop_bbs.Mesh.Session.{SessionEntry, SessionState, new_entry, lookup, with_entry}
use supply_drop_bbs.Mesh.Session.Recent.{Ordered-weaken}
use supply_drop_bbs.Mesh.Session.History.{IsValidEntry, IsValid}

pub later : (t now : ℕ) (e : SessionEntry) → t ≤ now → IsValidEntry t e → IsValidEntry now e
later t now e h v = record {
  staged = v.staged;
  ordered = Ordered-weaken 0 0 e.recent_msgs t now (omega arith) h v.ordered;
  capped = v.capped;
}

lookup-with_entry :
    (p q : Bytes) (f : SessionEntry → SessionEntry) (s : SessionState)
    → ((e : SessionEntry) → (f e).session_id ≡ e.session_id)
    → lookup q (with_entry p f s) ≡ lookup q s
unfolding lookup with_entry
lookup-with_entry p q f s same = elim (Option-cases (get q s.by_prefix)) [
  | inl absent ↦ ground (arith, get-modify p q f s.by_prefix)
  | inr (e, found) ↦ ground (arith, get-modify p q f s.by_prefix, same e)
]

-- A write that keeps the session and the validity of each entry keeps the state valid.
pub with_entry-IsValid :
    (t now : ℕ) (p : Bytes) (f : SessionEntry → SessionEntry) (s : SessionState)
    → t ≤ now
    → ((e : SessionEntry) → (f e).session_id ≡ e.session_id)
    → ((e : SessionEntry) → IsValidEntry now e → IsValidEntry now (f e))
    → IsValid t s
    → IsValid now (with_entry p f s)
unfolding with_entry
with_entry-IsValid t now p f s h same keep v = record {
  indexed = record {
    forth = λ q i e. v.indexed.forth q i (rw (← lookup-with_entry p q f s same) e);
    back = λ q i e. rw (lookup-with_entry p q f s same) (v.indexed.back q i e);
  };
  entries = λ q e found. kept q e (get-modify_inv p q f s.by_prefix e found);
  prefixes = IsMap-modify p f s.by_prefix v.prefixes;
  sessions = v.sessions;
  pending = v.pending;
}
  where
    kept :
        (q : Bytes) (e : SessionEntry)
        → (w : SessionEntry) × (get q s.by_prefix ≡ some w) × ((e ≡ w) ⊎ (e ≡ f w))
        → IsValidEntry now e
    kept q e (w, found, inl same_entry) = rw same_entry (later t now w h (v.entries q w found))
    kept q e (w, found, inr new_entry_eq) =
        rw new_entry_eq (keep w (later t now w h (v.entries q w found)))

pub new_entry-IsValid : (now id : ℕ) → IsValidEntry now (new_entry id)
new_entry-IsValid now id = record {
  staged = record { since = refl; prompt = refl };
  ordered = omega arith;
  capped = omega arith;
}
