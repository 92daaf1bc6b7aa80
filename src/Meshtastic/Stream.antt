-- ===== src/Meshtastic/Stream.antt =====
-- crates/bbs-meshtastic/src/stream.rs: the framing of protobuf messages on the stream. The stream is
-- the list of the bytes still to come. The protobuf crate is a parameter: `encode` and `decode`.
pub mod Resync
mod Tests
use supply_drop_bbs.Prelude.{
  ℕ, zero, suc, ◌+◌, ◌-◌, ◌/◌, ◌%◌, ◌*◌, min, Bool, true, false, Option, some, none, List, [], ◌∷◌,
  ◌++◌, Bytes, ltb, leb, ◌==◌, nat_eq, length, take, drop, if◌then◌else◌, Result, ok, err,
}

abbrev pub start1 : ℕ
start1 = 0x94

abbrev pub start2 : ℕ
start2 = 0xC3

abbrev pub max_proto_len : ℕ
max_proto_len = 512

-- `u16::to_be_bytes` and `u16::from_be_bytes`.
abbrev pub to_be_bytes : ℕ → Bytes
to_be_bytes n = (n / 256 % 256) ∷ (n % 256) ∷ []

abbrev pub from_be_bytes : ℕ → ℕ → ℕ
from_be_bytes hi lo = 256 * hi + lo

-- The causes of an `io::Error`.
pub data StreamError (E : Type 0) : Type 0 where
  too_long : ℕ → StreamError E
  unexpected_eof : StreamError E
  invalid_data : E → StreamError E

-- The loop that looks for the two start bytes: what follows them.
unfoldable pub find_header : Bytes → Option Bytes
find_header [] = none
find_header (c ∷ []) = none
find_header (c ∷ d ∷ stream) =
    let behind_pair = find_header stream in
    let behind_one = find_header (d ∷ stream) in
    if c == start1 then (if d == start2 then some stream else behind_pair) else behind_one

unfoldable pub read_exact : ℕ → Bytes → Option (Bytes × Bytes)
read_exact n stream = if leb n (length stream) then some (take n stream, drop n stream) else none

module _ {M E : Type 0} (decode : Bytes → Result E M) where
  abbrev pub decoded : Bytes → Result (StreamError E) M
  decoded payload = elim (decode payload) [ ok m ↦ ok m | err e ↦ err (invalid_data e) ]

  unfoldable pub read_body : Bytes → Result (StreamError E) M × Bytes
  unfolding read_exact
  read_body (hi ∷ lo ∷ stream) =
      let len = from_be_bytes hi lo in
      if ltb max_proto_len len then (err (too_long len), stream) else elim (read_exact len stream) [
        | none ↦ (err unexpected_eof, [])
        | some (payload, rest) ↦ (decoded payload, rest)
      ]
  read_body _ = (err unexpected_eof, [])

  -- The outcome, and the stream that is left.
  unfoldable pub read_from_radio : Bytes → Result (StreamError E) M × Bytes
  unfolding find_header read_body
  read_from_radio stream = elim (find_header stream) [
    | none ↦ (err unexpected_eof, [])
    | some rest ↦ read_body rest
  ]

module _ {M : Type 0} (encode : M → Bytes) where
  unfoldable pub wrap_to_radio : M → Bytes
  wrap_to_radio msg =
      let payload = encode msg in
      start1 ∷ start2 ∷ (to_be_bytes (min (length payload) 65535) ++ payload)

  -- The bytes written.
  unfoldable pub write_to_radio : M → Result (StreamError (Unit {0})) Bytes
  unfolding wrap_to_radio
  write_to_radio msg =
      let wire = wrap_to_radio msg in
      if ltb max_proto_len (length wire - 4) then err (too_long (length wire - 4)) else ok wire
