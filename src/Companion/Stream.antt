-- ===== src/Companion/Stream.antt =====
-- crates/meshcore-companion/src/client.rs: `read_frame`. The stream is the list of the bytes that are
-- still to come; `read_exact` on too short a stream is the end of the connection.
pub mod Resync
use supply_drop_bbs.Prelude.{
  ℕ, zero, suc, ◌+◌, Bool, true, false, Option, some, none, List, [], ◌∷◌, Bytes, ltb, leb, ◌==◌,
  nat_eq, length, take, drop, if◌then◌else◌,
}
use supply_drop_bbs.Companion.Wire.{Outcome, FrameDecodeError, le_u16}
use supply_drop_bbs.Companion.Frames.{InboundFrame}
use supply_drop_bbs.Companion.Inbound.{decode_inbound, max_payload_size}

-- What `read_frame` returns: a frame, or an `io::Error` by its cause; or the decoder panicked.
pub data Received : Type 0 where
  frame : InboundFrame → Received
  undecodable : FrameDecodeError → Received
  invalid_length : ℕ → Received
  unexpected_eof : Received
  panicked : Received

unfoldable pub read_exact : ℕ → Bytes → Option (Bytes × Bytes)
read_exact n stream = if leb n (length stream) then some (take n stream, drop n stream) else none

-- The loop that looks for the prefix: what follows it.
unfoldable pub skip_to_prefix : Bytes → Option Bytes
skip_to_prefix [] = none
skip_to_prefix (c ∷ stream) =
    let rest = skip_to_prefix stream in if c == 0x3E then some stream else rest

abbrev pub received : Outcome InboundFrame → Received
received (Outcome.ok f) = frame f
received (Outcome.err e) = undecodable e
received Outcome.panic = panicked

unfoldable pub read_payload : (Bytes → Bytes) → ℕ → Bytes → Received × Bytes
unfolding read_exact
read_payload lossy payload_len stream =
    if ltb max_payload_size payload_len
    then (invalid_length payload_len, stream)
    else elim (read_exact payload_len stream) [
      | none ↦ (unexpected_eof, [])
      | some (payload, rest) ↦ (received (decode_inbound lossy payload), rest)
    ]

unfoldable pub read_length : (Bytes → Bytes) → Bytes → Received × Bytes
unfolding read_payload
read_length lossy (lo ∷ hi ∷ stream) = read_payload lossy (le_u16 lo hi) stream
read_length lossy _ = (unexpected_eof, [])

-- The outcome, and the stream that is left for the next call.
unfoldable pub read_frame : (Bytes → Bytes) → Bytes → Received × Bytes
unfolding skip_to_prefix read_length
read_frame lossy stream = elim (skip_to_prefix stream) [
  | none ↦ (unexpected_eof, [])
  | some rest ↦ read_length lossy rest
]
