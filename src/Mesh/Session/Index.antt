-- ===== src/Mesh/Session/Index.antt =====
-- crates/bbs-mesh/src/session.rs: the two maps of `SessionState` mirror one another.
use supply_drop_bbs.Prelude.{
  ℕ, ◌≡◌, none, some, Bytes, ◌==◌, nat_eq, list_eq, if◌then◌else◌, arith, Option-cases, inl, inr,
  list_beq_iff,
}
use supply_drop_bbs.Prelude.Map.{get, get-insert, get-remove}
use supply_drop_bbs.Mesh.Session.{
  SessionState, empty_state, get_or_insert, lookup, remove_by_prefix, new_entry,
}

-- A prefix has a session exactly when the session is mapped back to the prefix.
pub record IsIndexed (s : SessionState) : Type 0 where
  pub forth : (p : Bytes) (i : ℕ) → lookup p s ≡ some i → get i s.by_session ≡ some p
  pub back : (p : Bytes) (i : ℕ) → get i s.by_session ≡ some p → lookup p s ≡ some i

pub IsIndexed-empty : IsIndexed empty_state
unfolding lookup get
IsIndexed-empty = record { forth = λ p i h. cc; back = λ p i h. cc }

pub lookup-get_or_insert :
    (p q : Bytes) (id : ℕ) (s : SessionState)
    → lookup q (get_or_insert p id s).0
      ≡ (if p == q then some (get_or_insert p id s).1 else lookup q s)
unfolding lookup get_or_insert
lookup-get_or_insert p q id s =
    ground (arith, get-insert p q (new_entry id) s.by_prefix, list_beq_iff p q)

pub get_or_insert-IsIndexed :
    (p : Bytes) (id : ℕ) (s : SessionState)
    → get id s.by_session ≡ none
    → IsIndexed s
    → IsIndexed (get_or_insert p id s).0
unfolding lookup get_or_insert
get_or_insert-IsIndexed p id s fresh h = record {
  forth = λ q i e. ground (
    arith,
    get-insert p q (new_entry id) s.by_prefix,
    get-insert id i p s.by_session,
    list_beq_iff p q,
    h.forth q i,
  );
  back = λ q i e. ground (
    arith,
    get-insert p q (new_entry id) s.by_prefix,
    get-insert id i p s.by_session,
    list_beq_iff p q,
    h.back q i,
  );
}

pub remove_by_prefix-IsIndexed :
    (p : Bytes) (s : SessionState) → IsIndexed s → IsIndexed (remove_by_prefix p s).0
unfolding lookup remove_by_prefix
remove_by_prefix-IsIndexed p s h = elim (Option-cases (get p s.by_prefix)) [
  | inl absent ↦ rw (absent, remove_by_prefix) (record { forth = h.forth; back = h.back })
  | inr (entry, found) ↦
      rw (found, remove_by_prefix)
        (record {
          forth = λ q i e. ground (
            arith,
            get-remove p q s.by_prefix,
            get-remove entry.session_id i s.by_session,
            list_beq_iff p q,
            h.forth q i,
            h.forth p i,
          );
          back = λ q i e. ground (
            arith,
            get-remove p q s.by_prefix,
            get-remove entry.session_id i s.by_session,
            list_beq_iff p q,
            h.back q i,
            h.forth p entry.session_id,
          );
        })
]
