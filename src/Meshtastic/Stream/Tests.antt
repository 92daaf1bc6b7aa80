-- ===== src/Meshtastic/Stream/Tests.antt =====
-- The framing at concrete messages. A message here is its own encoding.
use supply_drop_bbs.Prelude.{
  ℕ, ◌≤◌, ◌<◌, ◌≡◌, ◌⊎◌, inl, inr, refl, List, [], ◌∷◌, ◌++◌, Bytes, map, arith, Result, ok, err,
}
use supply_drop_bbs.Meshtastic.Stream.{
  too_long, unexpected_eof, to_be_bytes, read_from_radio, decoded, write_to_radio,
}
use supply_drop_bbs.Meshtastic.Stream.Resync.{
  IsNoise, framed, radio_wire, read_all, read_all-radio_wire, read_from_radio-doubled_start,
  write_to_radio-framed,
}

-- An empty payload is refused.
abbrev decode_plain : Bytes → Result ℕ Bytes
decode_plain [] = err 0
decode_plain (c ∷ b) = ok (c ∷ b)

abbrev encode_plain : Bytes → Bytes
encode_plain b = b

abbrev traffic : List (Bytes × Bytes)
traffic = (0 ∷ 1 ∷ 0x94 ∷ 0 ∷ [], 8 ∷ 1 ∷ []) ∷ ([], []) ∷ []

traffic-IsNoise : IsNoise (0 ∷ 1 ∷ 0x94 ∷ 0 ∷ [])
traffic-IsNoise = inl (λ e. cc, inl (λ e. cc, inr (refl, λ e. cc, tt)))

read_all-radio_wire_example :
    read_all decode_plain traffic (radio_wire traffic ++ 5 ∷ [])
    ≡ (map (λ t. decoded decode_plain t.1) traffic, 5 ∷ [])
read_all-radio_wire_example =
    read_all-radio_wire decode_plain traffic (5 ∷ [])
      ((traffic-IsNoise, omega arith), ((tt, omega arith), tt))

read_from_radio-doubled_start_example :
    read_from_radio decode_plain (1 ∷ 0x94 ∷ (framed (8 ∷ 1 ∷ []) ++ []))
    ≡ read_from_radio decode_plain (to_be_bytes 2 ++ (8 ∷ 1 ∷ []))
read_from_radio-doubled_start_example =
    read_from_radio-doubled_start decode_plain (1 ∷ []) (8 ∷ 1 ∷ []) [] (λ e. cc)

write_to_radio-framed_example :
    ((2 ≤ 512) × (write_to_radio encode_plain (8 ∷ 1 ∷ []) ≡ ok (framed (8 ∷ 1 ∷ []))))
    ⊎ ((512 < 2) × (write_to_radio encode_plain (8 ∷ 1 ∷ []) ≡ err (too_long 2)))
write_to_radio-framed_example = write_to_radio-framed encode_plain (8 ∷ 1 ∷ [])

-- The message between the two frames is lost.
hidden :
    read_from_radio decode_plain (0x94 ∷ (framed (8 ∷ 1 ∷ []) ++ [])) ≡ (err unexpected_eof, [])
unfolding read_from_radio
hidden = refl
