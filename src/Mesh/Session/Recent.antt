-- ===== src/Mesh/Session/Recent.antt =====
-- crates/bbs-mesh/src/session.rs: what the list of recently seen identities remembers.
use supply_drop_bbs.Prelude.{
  ℕ, suc, ◌+◌, ◌≤◌, ◌<◌, ◌≡◌, ◌⊎◌, inl, inr, refl, true, List, [], ◌∷◌, ◌++◌, Bytes, nat_eq,
  list_eq, arith, length, length-append, All, nat_beq_iff, list_beq_iff, Bool-cases,
}
use supply_drop_bbs.Mesh.Session.{
  Seen, secs, timestamp_dedup, recent_msg_cap, evict, has_seen, cap_recent, dedup_recent,
}

-- The identity stands in the list with at most `k` later ones behind it.
abbrev pub Within : ℕ → Seen → List Seen → Type 0
Within k m [] = ⊥
Within k m (x ∷ xs) = ((x ≡ m) × (length xs ≤ k)) ⊎ Within k m xs

-- The times ascend from `lo`, and none lies after `now`.
abbrev pub Ordered : ℕ → List Seen → ℕ → Type 0
Ordered lo [] now = lo ≤ now
Ordered lo ((ts, t, seen) ∷ rest) now = (lo ≤ seen) × Ordered seen rest now

abbrev pub In : Seen → List Seen → Type 0
In m [] = ⊥
In m (x ∷ xs) = (x ≡ m) ⊎ In m xs

pub Within-evict :
    (k now ts : ℕ) (text : Bytes) (at : ℕ) (l : List Seen)
    → now < at + secs timestamp_dedup
    → Within k (ts, text, at) l
    → Within k (ts, text, at) (evict now l)
unfolding evict
Within-evict k now ts text at [] live w = w
Within-evict k now ts text at ((ts', t', seen) ∷ rest) live (inl (e, w)) = ground arith
Within-evict k now ts text at ((ts', t', seen) ∷ rest) live (inr w) =
    ground (arith, Within-evict k now ts text at rest live w)

pub Within-append :
    (k : ℕ) (m y : Seen) (l : List Seen) → Within k m l → Within (suc k) m (l ++ y ∷ [])
Within-append k m y [] w = elim w [ ]
Within-append k m y (x ∷ xs) (inl (e, w)) = inl (e, omega (arith, length-append xs (y ∷ [])))
Within-append k m y (x ∷ xs) (inr w) = inr (Within-append k m y xs w)

pub Within-cap :
    (k : ℕ) (m : Seen) (l : List Seen)
    → k < recent_msg_cap
    → Within k m l
    → Within k m (cap_recent l)
unfolding cap_recent
Within-cap k m [] h w = w
Within-cap k m (x ∷ xs) h (inl w) = ground arith
Within-cap k m (x ∷ xs) h (inr w) = ground arith

pub Within-mono : (k n : ℕ) (m : Seen) (l : List Seen) → k ≤ n → Within k m l → Within n m l
Within-mono k n m [] h w = w
Within-mono k n m (x ∷ xs) h (inl (e, w)) = inl (e, omega arith)
Within-mono k n m (x ∷ xs) h (inr w) = inr (Within-mono k n m xs h w)

pub has_seen-Within :
    (k ts : ℕ) (text : Bytes) (at : ℕ) (l : List Seen)
    → Within k (ts, text, at) l
    → has_seen ts text l ≡ true
unfolding has_seen
has_seen-Within k ts text at [] w = elim w [ ]
has_seen-Within k ts text at ((ts', t', seen) ∷ rest) (inl (e, w)) =
    ground (arith, nat_beq_iff ts' ts, list_beq_iff t' text)
has_seen-Within k ts text at ((ts', t', seen) ∷ rest) (inr w) =
    ground (arith, has_seen-Within k ts text at rest w)

-- The newest identity is the last.
pub Within-new : (m : Seen) (l : List Seen) → Within 0 m (l ++ m ∷ [])
Within-new m [] = inl (refl, omega arith)
Within-new m (x ∷ xs) = inr (Within-new m xs)

-- One more message moves an identity by at most one place.
pub Within-dedup_recent :
    (k ts : ℕ) (text : Bytes) (at : ℕ) (ts' : ℕ) (text' : Bytes) (now : ℕ) (l : List Seen)
    → now < at + secs timestamp_dedup
    → suc k < recent_msg_cap
    → Within k (ts, text, at) l
    → Within (suc k) (ts, text, at) (dedup_recent ts' text' now l).0
unfolding dedup_recent
Within-dedup_recent k ts text at ts' text' now l live h w =
    let w' = Within-evict k now ts text at l live w in
    elim (Bool-cases (has_seen ts' text' (evict now l))) [
      | inl e ↦ rw e (Within-mono k (suc k) _ _ (omega arith) w')
      | inr e ↦
          rw e (Within-cap (suc k) _ _ h (Within-append k (ts, text, at) (ts', text', now) _ w'))
    ]

pub length-cap_recent :
    (l : List Seen) → length l ≤ suc recent_msg_cap → length (cap_recent l) ≤ recent_msg_cap
unfolding cap_recent
length-cap_recent [] h = omega arith
length-cap_recent (x ∷ xs) h = ground arith

pub length-evict : (now : ℕ) (l : List Seen) → length (evict now l) ≤ length l
unfolding evict
length-evict now [] = omega arith
length-evict now (x ∷ xs) = ground (arith, length-evict now xs)

pub length-dedup_recent :
    (ts : ℕ) (text : Bytes) (now : ℕ) (l : List Seen)
    → length l ≤ recent_msg_cap
    → length (dedup_recent ts text now l).0 ≤ recent_msg_cap
unfolding dedup_recent
length-dedup_recent ts text now l h = ground (
  arith,
  length-evict now l,
  length-append (evict now l) ((ts, text, now) ∷ []),
  length-cap_recent (evict now l ++ (ts, text, now) ∷ []),
)

pub Ordered-weaken :
    (lo lo' : ℕ) (l : List Seen) (now now' : ℕ)
    → lo' ≤ lo
    → now ≤ now'
    → Ordered lo l now
    → Ordered lo' l now'
Ordered-weaken lo lo' [] now now' h k o = omega arith
Ordered-weaken lo lo' ((ts, t, seen) ∷ rest) now now' h k o =
    (omega arith, Ordered-weaken seen seen rest now now' (omega arith) k o.1)

Ordered-evict : (now lo : ℕ) (l : List Seen) (t : ℕ) → Ordered lo l t → Ordered lo (evict now l) t
unfolding evict
Ordered-evict now lo [] t o = o
Ordered-evict now lo ((ts, x, seen) ∷ rest) t o =
    ground (arith, Ordered-weaken seen lo (evict now rest) t t, Ordered-evict now seen rest t o.1)

Ordered-append :
    (lo : ℕ) (l : List Seen) (ts : ℕ) (text : Bytes) (t now : ℕ)
    → t ≤ now
    → Ordered lo l t
    → Ordered lo (l ++ (ts, text, now) ∷ []) now
Ordered-append lo [] ts text t now h o = omega arith
Ordered-append lo ((ts', x, seen) ∷ rest) ts text t now h o =
    (o.0, Ordered-append seen rest ts text t now h o.1)

Ordered-cap_recent : (l : List Seen) (now : ℕ) → Ordered 0 l now → Ordered 0 (cap_recent l) now
unfolding cap_recent
Ordered-cap_recent [] now o = o
Ordered-cap_recent ((ts, x, seen) ∷ rest) now o = ground (arith, Ordered-weaken seen 0 rest now now)

pub Ordered-dedup_recent :
    (ts : ℕ) (text : Bytes) (t now : ℕ) (l : List Seen)
    → t ≤ now
    → Ordered 0 l t
    → Ordered 0 (dedup_recent ts text now l).0 now
unfolding dedup_recent
Ordered-dedup_recent ts text t now l h o = elim (Bool-cases (has_seen ts text (evict now l))) [
  | inl e ↦ rw e (Ordered-weaken 0 0 _ t now (omega arith) h (Ordered-evict now 0 l t o))
  | inr e ↦
      rw e
        (Ordered-cap_recent _ now (Ordered-append 0 _ ts text t now h (Ordered-evict now 0 l t o)))
]

-- What eviction leaves is in the window, and was in the list.
abbrev pub Live : ℕ → Seen → Type 0
Live now m = now < m.2 + secs timestamp_dedup

Live-after :
    (now lo : ℕ) (l : List Seen) (t : ℕ)
    → now < lo + secs timestamp_dedup
    → Ordered lo l t
    → All (Live now) l
Live-after now lo [] t h o = tt
Live-after now lo ((ts, x, seen) ∷ rest) t h o =
    (omega arith, Live-after now seen rest t (omega arith) o.1)

pub evict-Live :
    (now lo : ℕ) (l : List Seen) (t : ℕ) → Ordered lo l t → All (Live now) (evict now l)
unfolding evict
evict-Live now lo [] t o = tt
evict-Live now lo ((ts, x, seen) ∷ rest) t o =
    ground (arith, Live-after now seen rest t, evict-Live now seen rest t o.1)

In-evict : (now : ℕ) (m : Seen) (l : List Seen) → In m (evict now l) → In m l
unfolding evict
In-evict now m [] h = h
In-evict now m ((ts, x, seen) ∷ rest) h = ground (arith, In-evict now m rest)

has_seen_sound :
    (now ts : ℕ) (text : Bytes) (l : List Seen)
    → All (Live now) l
    → has_seen ts text l ≡ true
    → (seen : ℕ) × In (ts, text, seen) l × (now < seen + secs timestamp_dedup)
unfolding has_seen
has_seen_sound now ts text [] live h = cc
has_seen_sound now ts text ((ts', t', seen) ∷ rest) live h =
    elim (Bool-cases (has_seen ts text rest)) [
      | inl e ↦ let (at, i, w) = has_seen_sound now ts text rest live.1 e in (at, inr i, w)
      | inr e ↦ (seen, inl (ground (arith, nat_beq_iff ts' ts, list_beq_iff t' text)), live.0)
    ]

pub dedup_recent_sound :
    (ts : ℕ) (text : Bytes) (t now : ℕ) (l : List Seen)
    → Ordered 0 l t
    → (dedup_recent ts text now l).1 ≡ true
    → (seen : ℕ) × In (ts, text, seen) l × (now < seen + secs timestamp_dedup)
unfolding dedup_recent
dedup_recent_sound ts text t now l o h =
    let found : has_seen ts text (evict now l) ≡ true = ground arith in
    let (seen, i, w) = has_seen_sound now ts text (evict now l) (evict-Live now 0 l t o) found in
    (seen, In-evict now (ts, text, seen) l i, w)
