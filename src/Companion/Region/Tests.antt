-- ===== src/Companion/Region/Tests.antt =====
-- A region at a concrete name, with the UTF-8 of code points and a digest of 32 bytes.
use supply_drop_bbs.Prelude.{
  ◌+◌, ◌/◌, ◌%◌, ◌≡◌, refl, some, [], ◌∷◌, Bytes, codes, ltb, length, drop, arith, if◌then◌else◌,
  ok,
}
use supply_drop_bbs.Text.{len, trim, is_control, is_whitespace, trim_start, trim_end}
use supply_drop_bbs.Companion.Wire.{Outcome, zeros}
use supply_drop_bbs.Companion.Wire.Ints.{IsNulFree}
use supply_drop_bbs.Companion.Frames.{FloodScope, InboundFrame, OutboundFrame}
use supply_drop_bbs.Companion.Outbound.{build_payload}
use supply_drop_bbs.Companion.Inbound.{decode_inbound}
use supply_drop_bbs.Companion.Region.{for_region}
use supply_drop_bbs.Companion.Region.RoundTrip.{IsUtf8, for_region-decode_inbound}

abbrev utf8 : Bytes → Bytes
utf8 [] = []
utf8 (c ∷ s) =
    let rest = utf8 s in
    if ltb c 0x80
    then c ∷ rest
    else if ltb c 0x800
    then (192 + c / 64) ∷ (128 + c % 64) ∷ rest
    else if ltb c 0x10000
    then (224 + c / 4096) ∷ (128 + c / 64 % 64) ∷ (128 + c % 64) ∷ rest
    else (240 + c / 262144) ∷ (128 + c / 4096 % 64) ∷ (128 + c / 64 % 64) ∷ (128 + c % 64) ∷ rest

abbrev keep : Bytes → Bytes
keep b = b

length-utf8 : (s : Bytes) → length (utf8 s) ≡ len s
length-utf8 [] = refl
length-utf8 (c ∷ s) = ground (arith, length-utf8 s)

utf8-IsNulFree : (s : Bytes) → IsNulFree s → IsNulFree (utf8 s)
utf8-IsNulFree [] h = tt
utf8-IsNulFree (c ∷ s) h = ground (arith, utf8-IsNulFree s h.1)

utf8-IsUtf8 : IsUtf8 utf8 keep
utf8-IsUtf8 = record { size = length-utf8; no_nul = utf8-IsNulFree; valid = λ s. refl }

-- It stands for SHA-256.
abbrev digest : Bytes → Bytes
digest [] = 1 ∷ zeros 31
digest (c ∷ b) = (c % 256) ∷ 2 ∷ zeros 30

length-digest : (b : Bytes) → length (digest b) ≡ 32
length-digest [] = refl
length-digest (c ∷ b) = refl

abbrev usa : FloodScope
usa = record { name = codes "usa"; key = b'#' ∷ 2 ∷ zeros 14 }

usa_made : for_region utf8 digest (codes " #usa ") ≡ ok usa
unfolding for_region trim is_whitespace trim_end trim_start is_control
usa_made = refl

for_region-decode_inbound_example :
    decode_inbound keep (28 ∷ drop 1 (build_payload (OutboundFrame.set_default_flood_scope usa)))
    ≡ Outcome.ok (InboundFrame.default_flood_scope (some usa))
for_region-decode_inbound_example =
    for_region-decode_inbound utf8 keep digest (codes " #usa ") usa utf8-IsUtf8 length-digest
      usa_made
