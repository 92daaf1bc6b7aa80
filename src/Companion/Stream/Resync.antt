-- ===== src/Companion/Stream/Resync.antt =====
-- The reader finds the frames between other bytes.
use supply_drop_bbs.Prelude.{
  ◌≤◌, ◌≡◌, ◌≢◌, refl, ap, ◌∙◌, some, List, [], ◌∷◌, ◌++◌, Bytes, nat_eq, nat_beq_iff, length,
  length-append, take-append, drop-append, arith, All, map, append_assoc,
}
use supply_drop_bbs.Companion.Wire.{u16_bytes}
use supply_drop_bbs.Companion.Wire.Ints.{le_u16-digits}
use supply_drop_bbs.Companion.Inbound.{decode_inbound}
use supply_drop_bbs.Companion.Stream.{
  Received, received, read_exact, skip_to_prefix, read_payload, read_length, read_frame,
}

-- Bytes in front of a frame: the frame's prefix is not among them.
abbrev pub IsNoise : Bytes → Type 0
IsNoise noise = All (λ c. c ≢ 0x3E) noise

-- A payload as the radio frames it.
abbrev pub framed : Bytes → Bytes
framed payload = 0x3E ∷ (u16_bytes (length payload) ++ payload)

skip_to_prefix-noise :
    (noise rest : Bytes) → IsNoise noise → skip_to_prefix (noise ++ 0x3E ∷ rest) ≡ some rest
unfolding skip_to_prefix
skip_to_prefix-noise [] rest h = refl
skip_to_prefix-noise (c ∷ noise) rest h =
    ground (arith, skip_to_prefix-noise noise rest h.1, nat_beq_iff c 0x3E)

read_exact-append : (p rest : Bytes) → read_exact (length p) (p ++ rest) ≡ some (p, rest)
unfolding read_exact
read_exact-append p rest =
    ground (arith, take-append p rest, drop-append p rest, length-append p rest)

-- A frame of at most 256 bytes of payload is read whatever bytes other than its prefix come before
-- it: the answer is what the decoder makes of the payload, and the bytes behind the frame are left.
pub read_frame-noise :
    (lossy : Bytes → Bytes) (noise payload rest : Bytes)
    → IsNoise noise
    → length payload ≤ 256
    → read_frame lossy (noise ++ (framed payload ++ rest))
      ≡ (received (decode_inbound lossy payload), rest)
unfolding read_frame read_length read_payload u16_bytes
read_frame-noise lossy noise payload rest clean small = ground (
  arith,
  skip_to_prefix-noise noise (u16_bytes (length payload) ++ (payload ++ rest)) clean,
  le_u16-digits (length payload) (omega arith),
  read_exact-append payload rest,
)

-- A connection: payloads in their frames, each with the noise in front of it.
abbrev pub Transfer : Type 0
Transfer = Bytes × Bytes

unfoldable pub wire_of : List Transfer → Bytes
wire_of [] = []
wire_of ((noise, payload) ∷ rest) = noise ++ (framed payload ++ wire_of rest)

-- `read_frame` called once for each transfer, and the bytes left then.
unfoldable pub read_frames : (Bytes → Bytes) → List Transfer → Bytes → List Received × Bytes
unfolding read_frame
read_frames lossy [] stream = ([], stream)
read_frames lossy (t ∷ rest) stream =
    let (r, stream') = read_frame lossy stream in
    let (rs, end) = read_frames lossy rest stream' in (r ∷ rs, end)

-- Frames of at most 256 bytes of payload are all received, in order and none twice, whatever noise
-- without a prefix byte stands before each, and the bytes after the last one are left.
pub read_frames-wire_of :
    (lossy : Bytes → Bytes) (transfers : List Transfer) (rest : Bytes)
    → All (λ t. IsNoise t.0 × (length t.1 ≤ 256)) transfers
    → read_frames lossy transfers (wire_of transfers ++ rest)
      ≡ (map (λ t. received (decode_inbound lossy t.1)) transfers, rest)
unfolding read_frames wire_of
read_frames-wire_of lossy [] rest h = refl
read_frames-wire_of lossy ((noise, payload) ∷ more) rest h =
    let e = read_frame-noise lossy noise payload (wire_of more ++ rest) h.0.0 h.0.1 in
    let assoc : (noise ++ (framed payload ++ wire_of more)) ++ rest
        ≡ noise ++ (framed payload ++ (wire_of more ++ rest)) =
      append_assoc noise (framed payload ++ wire_of more) rest
      ∙ ap (λ b. noise ++ b) (append_assoc (framed payload) (wire_of more) rest) in
    rw (assoc, e, read_frames-wire_of lossy more rest h.1) refl
