-- ===== src/Mesh/Session/Protect.antt =====
-- crates/bbs-mesh/src/session.rs: pending contact protection and the catch-up request.
use supply_drop_bbs.Prelude.{
  ℕ, ◌+◌, ◌-◌, ◌≤◌, ◌≡◌, refl, Bool, true, false, not, ◌&&◌, some, List, [], ◌∷◌, Bytes, ltb, ◌==◌,
  nat_eq, list_eq, if◌then◌else◌, arith, is_some_and,
}
use supply_drop_bbs.Prelude.Map.{get, retain, get-insert, get-retain, IsMap}
use supply_drop_bbs.Mesh.Session.{
  SessionState, secs, pending_protect_ttl, contacts_catchup_cooldown, mark_pending_protect,
  is_pending_protect, should_request_contacts_catchup, mark_contacts_catchup_requested,
}

abbrev fresh : ℕ → Bytes → ℕ → Bool
fresh now _ at = ltb (now - at) (secs pending_protect_ttl)

-- Where no prefix is held twice, after a mark exactly the marked prefix and the prefixes whose mark
-- is younger than the time to live are pending.
pub is_pending_protect-mark :
    (p q : Bytes) (now : ℕ) (s : SessionState)
    → IsMap s.pending_protect
    → is_pending_protect q (mark_pending_protect p now s) ≡ (
        if p == q
        then true
        else is_some_and
            (get q s.pending_protect)
            (λ at. ltb (now - at) (secs pending_protect_ttl)))
unfolding is_pending_protect mark_pending_protect
is_pending_protect-mark p q now s h = ground (
  arith,
  get-insert p q now (retain (fresh now) s.pending_protect),
  get-retain (fresh now) q s.pending_protect h,
)

-- The end of `attempt_protect_and_update_pending` in crates/bbs-mesh/src/transport.rs: the request goes out
-- where the transport is not draining and the channel to the radio takes it.
unfoldable pub request_catchup : Bool → Bool → ℕ → SessionState → SessionState × Bool
request_catchup draining room now s =
    if should_request_contacts_catchup now s && not draining
    then (if room then (mark_contacts_catchup_requested now s, true) else (s, false))
    else (s, false)

-- The times at which a request is sent, of those at which one is considered.
unfoldable pub sent_requests : List (Bool × Bool × ℕ) → SessionState → List ℕ
sent_requests [] s = []
sent_requests ((draining, room, now) ∷ times) s =
    let rest = sent_requests times (request_catchup draining room now s).0 in
    if (request_catchup draining room now s).1 then now ∷ rest else rest

abbrev pub Apart : ℕ → List ℕ → Type 0
Apart gap [] = Unit
Apart gap (t ∷ []) = Unit
Apart gap (t ∷ u ∷ ts) = (t + gap ≤ u) × Apart gap (u ∷ ts)

sent_requests_after :
    (at : ℕ) (times : List (Bool × Bool × ℕ)) (s : SessionState)
    → s.contacts_catchup_requested_at ≡ some at
    → Apart (secs contacts_catchup_cooldown) (at ∷ sent_requests times s)
unfolding sent_requests request_catchup should_request_contacts_catchup
    mark_contacts_catchup_requested
sent_requests_after at [] s h = tt
sent_requests_after at ((draining, room, now) ∷ times) s h = ground (
  arith,
  sent_requests_after at times s h,
  sent_requests_after now times (mark_contacts_catchup_requested now s) refl,
)

-- Two successive catch-up requests are at least the cooldown apart.
pub sent_requests-Apart :
    (times : List (Bool × Bool × ℕ)) (s : SessionState)
    → Apart (secs contacts_catchup_cooldown) (sent_requests times s)
unfolding sent_requests request_catchup should_request_contacts_catchup
    mark_contacts_catchup_requested
sent_requests-Apart [] s = tt
sent_requests-Apart ((draining, room, now) ∷ times) s = ground (
  arith,
  sent_requests-Apart times s,
  sent_requests_after now times (mark_contacts_catchup_requested now s) refl,
)
