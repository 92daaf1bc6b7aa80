-- ===== src/Companion/Framing.antt =====
-- The header of three bytes, in both directions.
use supply_drop_bbs.Prelude.{
  ℕ, zero, suc, ◌/◌, ◌%◌, ◌≤◌, ◌<◌, ◌≡◌, ◌≢◌, ◌↔◌, ◌⊎◌, inl, inr, refl, [], ◌∷◌, ◌++◌, Bytes, leb,
  nat_eq, nat_beq_iff, length, take, drop, take-append, length-append, length-take, arith,
  Bool-cases, ap, sym, subst,
}
use supply_drop_bbs.Companion.Wire.{ok, panic, at, slice, le_u16, u16_bytes}
use supply_drop_bbs.Companion.Wire.Ints.{le_u16-digits}
use supply_drop_bbs.Companion.Frames.{OutboundFrame}
use supply_drop_bbs.Companion.Outbound.{build_payload, wrap_payload, encode_outbound}
use supply_drop_bbs.Companion.Inbound.{strip_frame_header}

-- The bytes begin with a frame: the prefix, a length of at most 256, and that many bytes of payload.
-- More bytes may follow, where the documentation of `strip_frame_header` asks for exactly that many.
abbrev pub IsFrame : Bytes → Bytes → Type 0
IsFrame wire payload =
    (lo : ℕ) × (hi : ℕ) × (extra : Bytes) × (wire ≡ 0x3E ∷ lo ∷ hi ∷ (payload ++ extra))
    × (length payload ≡ le_u16 lo hi)
    × (length payload ≤ 256)

strip_body :
    (lo hi : ℕ) (b : Bytes)
    → le_u16 lo hi ≤ length b
    → le_u16 lo hi ≤ 256
    → strip_frame_header (0x3E ∷ lo ∷ hi ∷ b) ≡ ok (take (le_u16 lo hi) b)
unfolding strip_frame_header at slice
strip_body lo hi b h small = ground arith

strip_ok :
    (lo hi : ℕ) (b p : Bytes)
    → strip_frame_header (0x3E ∷ lo ∷ hi ∷ b) ≡ ok p
    → (le_u16 lo hi ≤ length b) × (le_u16 lo hi ≤ 256) × (p ≡ take (le_u16 lo hi) b)
unfolding strip_frame_header at slice
strip_ok lo hi b p h = ground arith

strip_prefix_ok : (c : ℕ) (b p : Bytes) → strip_frame_header (c ∷ b) ≡ ok p → c ≡ 0x3E
unfolding strip_frame_header at slice
strip_prefix_ok c b p h = ground (arith, nat_beq_iff c 0x3E)

take-drop : (n : ℕ) (b : Bytes) → b ≡ take n b ++ drop n b
take-drop zero b = refl
take-drop (suc n) [] = refl
take-drop (suc n) (c ∷ b) = ap (λ t. c ∷ t) (take-drop n b)

strip_short : (wire p : Bytes) → length wire < 3 → strip_frame_header wire ≢ ok p
unfolding strip_frame_header at
strip_short [] p h = λ e. cc
strip_short (c ∷ wire) p h = ground arith

stripped_whole :
    (lo hi : ℕ) (b p : Bytes)
    → strip_frame_header (0x3E ∷ lo ∷ hi ∷ b) ≡ ok p
    → IsFrame (0x3E ∷ lo ∷ hi ∷ b) p
stripped_whole lo hi b p h =
    let n = le_u16 lo hi in
    let (fits, small, e) = strip_ok lo hi b p h in
    let size : length p ≡ n = rw (e, length-take n b) (omega arith) in
    (lo, hi, drop n b, rw (e) (ap (λ t. 0x3E ∷ lo ∷ hi ∷ t) (take-drop n b)), size, omega arith)

-- Stripping the header returns a payload if and only if the bytes begin with a frame of it, which
-- has at most 256 bytes of payload; whatever follows the frame is ignored, not refused.
pub strip_frame_header-IsFrame :
    (wire payload : Bytes) → (strip_frame_header wire ≡ ok payload) ↔ IsFrame wire payload
strip_frame_header-IsFrame wire payload = (stripped wire payload, whole)
  where
    whole : IsFrame wire payload → strip_frame_header wire ≡ ok payload
    whole (lo, hi, extra, e, len, small) =
        rw
          (
            e,
            strip_body lo hi (payload ++ extra) (omega (arith, length-append payload extra))
                (omega arith),
            sym len,
            take-append payload extra,
          )
          refl

    stripped : (wire payload : Bytes) → strip_frame_header wire ≡ ok payload → IsFrame wire payload
    stripped [] payload h = absurd (strip_short [] payload (omega arith) h)
    stripped (c ∷ []) payload h = absurd (strip_short (c ∷ []) payload (omega arith) h)
    stripped (c ∷ lo ∷ []) payload h = absurd (strip_short (c ∷ lo ∷ []) payload (omega arith) h)
    stripped (c ∷ lo ∷ hi ∷ b) payload h =
        let e = strip_prefix_ok c (lo ∷ hi ∷ b) payload h in
        subst (λ x. IsFrame (x ∷ lo ∷ hi ∷ b) payload) (sym e)
          (stripped_whole lo hi b payload
            (subst (λ x. strip_frame_header (x ∷ lo ∷ hi ∷ b) ≡ ok payload) e h))

-- Encoding a command never writes a wrong length: it panics where the payload has more than 65535
-- bytes, and otherwise the header's length is that of the payload behind it.
pub encode_outbound_framed :
    (f : OutboundFrame)
    → ((65535 < length (build_payload f)) × (encode_outbound f ≡ panic))
      ⊎ ((lo : ℕ) × (hi : ℕ) × (encode_outbound f ≡ ok (0x3C ∷ lo ∷ hi ∷ build_payload f))
          × (le_u16 lo hi ≡ length (build_payload f)))
unfolding encode_outbound wrap_payload u16_bytes
encode_outbound_framed f = elim (Bool-cases (leb (length (build_payload f)) 65535)) [
  | inl fits ↦ inr (
    length (build_payload f) % 256,
    length (build_payload f) / 256 % 256,
    ground arith,
    le_u16-digits (length (build_payload f)) (ground arith),
  )
  | inr long ↦ inl (ground arith, ground arith)
]
