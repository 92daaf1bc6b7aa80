-- ===== src/Meshtastic/Stream/Resync.antt =====
-- Messages between other bytes are found, and what is written is framed right.
use supply_drop_bbs.Prelude.{
  ℕ, ◌/◌, ◌%◌, min, ◌≤◌, ◌<◌, ◌≡◌, ◌≢◌, ◌⊎◌, inl, inr, refl, ap, ◌∙◌, Bool-cases, some, List, [],
  ◌∷◌, ◌++◌, append_assoc, Bytes, leb, nat_eq, nat_beq_iff, length, take-append, drop-append,
  length-append, map, All, arith, Result, ok, err,
}
use supply_drop_bbs.Meshtastic.Stream.{
  StreamError, too_long, to_be_bytes, from_be_bytes, find_header, read_exact, read_body,
  read_from_radio, decoded, start1, start2, wrap_to_radio, write_to_radio,
}

-- Bytes that the search for a header passes over and that leave it at their end: each start byte is
-- followed by a byte of its own that is not the second one.
abbrev pub IsNoise : Bytes → Type 0
IsNoise [] = Unit
IsNoise (c ∷ []) = c ≢ start1
IsNoise (c ∷ d ∷ s) = ((c ≢ start1) × IsNoise (d ∷ s)) ⊎ ((c ≡ start1) × (d ≢ start2) × IsNoise s)

-- A payload behind its header.
abbrev pub framed : Bytes → Bytes
framed payload = start1 ∷ start2 ∷ (to_be_bytes (length payload) ++ payload)

find_header_skip : (noise s : Bytes) → IsNoise noise → find_header (noise ++ s) ≡ find_header s
unfolding find_header
find_header_skip [] s h = refl
find_header_skip (c ∷ []) [] h = refl
find_header_skip (c ∷ []) (d ∷ s) h = ground (arith, nat_beq_iff c start1)
find_header_skip (c ∷ d ∷ noise) s (inl (h, more)) =
    ground (arith, nat_beq_iff c start1, find_header_skip (d ∷ noise) s more)
find_header_skip (c ∷ d ∷ noise) s (inr (h, k, more)) =
    ground (arith, nat_beq_iff c start1, nat_beq_iff d start2, find_header_skip noise s more)

read_exact-append : (p rest : Bytes) → read_exact (length p) (p ++ rest) ≡ some (p, rest)
unfolding read_exact
read_exact-append p rest =
    ground (arith, take-append p rest, drop-append p rest, length-append p rest)

be_bytes : (n : ℕ) → n < 0x1_0000 → from_be_bytes (n / 256 % 256) (n % 256) ≡ n
be_bytes n h = omega arith

-- A connection: payloads behind their headers, each with the noise in front of it.
abbrev pub Transfer : Type 0
Transfer = Bytes × Bytes

unfoldable pub radio_wire : List Transfer → Bytes
radio_wire [] = []
radio_wire ((noise, payload) ∷ rest) = noise ++ (framed payload ++ radio_wire rest)

module _ {M E : Type 0} (decode : Bytes → Result E M) where
  read_from_radio-noise :
      (noise payload rest : Bytes)
      → IsNoise noise
      → length payload ≤ 512
      → read_from_radio decode (noise ++ (framed payload ++ rest)) ≡ (decoded decode payload, rest)
  unfolding read_from_radio read_body find_header
  read_from_radio-noise noise payload rest clean small = ground (
    arith,
    find_header_skip noise (framed payload ++ rest) clean,
    be_bytes (length payload) (omega arith),
    read_exact-append payload rest,
  )

  -- A first start byte directly before a message hides it: the message's header is passed over, and
  -- the search goes on in its length and payload.
  pub read_from_radio-doubled_start :
      (noise payload rest : Bytes)
      → IsNoise noise
      → read_from_radio decode (noise ++ start1 ∷ (framed payload ++ rest))
        ≡ read_from_radio decode (to_be_bytes (length payload) ++ (payload ++ rest))
  unfolding read_from_radio find_header
  read_from_radio-doubled_start noise payload rest clean =
      let e : find_header (noise ++ start1 ∷ (framed payload ++ rest))
          ≡ find_header (to_be_bytes (length payload) ++ (payload ++ rest)) =
        find_header_skip noise (start1 ∷ (framed payload ++ rest)) clean in
      rw (e, read_from_radio) refl

  -- `read_from_radio` called once for each transfer, and the bytes left then.
  unfoldable pub read_all : List Transfer → Bytes → List (Result (StreamError E) M) × Bytes
  read_all [] stream = ([], stream)
  read_all (t ∷ rest) stream =
      let (r, stream') = read_from_radio decode stream in
      let (rs, end) = read_all rest stream' in (r ∷ rs, end)

  -- Messages of at most 512 bytes are all received, in order and none twice, whatever noise stands
  -- before each of them; noise is bytes in which every first start byte is followed by a byte of
  -- the noise other than the second start byte.
  pub read_all-radio_wire :
      (transfers : List Transfer) (rest : Bytes)
      → All (λ t. IsNoise t.0 × (length t.1 ≤ 512)) transfers
      → read_all transfers (radio_wire transfers ++ rest)
        ≡ (map (λ t. decoded decode t.1) transfers, rest)
  unfolding read_all radio_wire
  read_all-radio_wire [] rest h = refl
  read_all-radio_wire ((noise, payload) ∷ more) rest h =
      let e = read_from_radio-noise noise payload (radio_wire more ++ rest) h.0.0 h.0.1 in
      let assoc : (noise ++ (framed payload ++ radio_wire more)) ++ rest
          ≡ noise ++ (framed payload ++ (radio_wire more ++ rest)) =
        append_assoc noise (framed payload ++ radio_wire more) rest
        ∙ ap (λ b. noise ++ b) (append_assoc (framed payload) (radio_wire more) rest) in
      rw (assoc, e, read_all-radio_wire more rest h.1) refl

-- A message is written behind a header with its exact length, or refused with its length where its
-- encoding has more than 512 bytes: the clamp of the length to 16 bits is never the length sent.
pub write_to_radio-framed :
    {M : Type 0} (encode : M → Bytes) (msg : M)
    → ((length (encode msg) ≤ 512) × (write_to_radio encode msg ≡ ok (framed (encode msg))))
      ⊎ ((512 < length (encode msg))
          × (write_to_radio encode msg ≡ err (too_long (length (encode msg)))))
unfolding write_to_radio wrap_to_radio
write_to_radio-framed encode msg = elim (Bool-cases (leb (length (encode msg)) 512)) [
  | inl fits ↦
      let n : min (length (encode msg)) 65535 ≡ length (encode msg) = ground arith in
      inl (ground arith, ground (arith, n))
  | inr long ↦ inr (ground arith, ground arith)
]
