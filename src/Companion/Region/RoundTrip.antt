-- ===== src/Companion/Region/RoundTrip.antt =====
-- A region's scope fits the radio's fields, and is read back as it was sent.
use supply_drop_bbs.Prelude.{
  ◌<◌, drop, ◌-◌, ◌≤◌, ◌≡◌, ◌≢◌, refl, sym, ◌∙◌, some, subst, append-nil, false, [], ◌∷◌, ◌++◌,
  Bytes, length, take, length-take, take_whole, length-append, arith, Result, ok, err, and_then,
  nat_eq,
}
use supply_drop_bbs.Text.{is_empty, is_control, len, trim}
use supply_drop_bbs.Companion.Wire.{Outcome, slice, zeros, padded}
use supply_drop_bbs.Companion.Wire.Ints.{IsNulFree, until_nul-zeros, length-zeros}
use supply_drop_bbs.Companion.Wire.Skip.{slice_skip, slice_front}
use supply_drop_bbs.Companion.Frames.{FloodScope, InboundFrame, OutboundFrame}
use supply_drop_bbs.Companion.Bodies.{read_cstr}
use supply_drop_bbs.Companion.Outbound.{build_payload}
use supply_drop_bbs.Companion.Inbound.{decode_inbound, decode_response, decode_flood_scope}
use supply_drop_bbs.Companion.Region.{
  RegionNameError, has_control, checked_name, normalize_region_name, without_hash, region_key,
  for_region,
}

has_control-NulFree : (s : Bytes) → has_control s ≡ false → IsNulFree s
unfolding has_control is_control
has_control-NulFree [] h = tt
has_control-NulFree (c ∷ s) h = (ground arith, has_control-NulFree s (ground arith))

-- What an accepted name is like.
pub record IsRegionName (name : Bytes) : Type 0 where
  pub filled : name ≢ []
  pub no_nul : IsNulFree name
  pub fits : len name ≤ 30

checked_name-IsRegionName : (s name : Bytes) → checked_name s ≡ ok name → IsRegionName name
unfolding checked_name
checked_name-IsRegionName [] name h = absurd (cc h)
checked_name-IsRegionName (c ∷ s) name h =
    let e : name ≡ c ∷ s = ground arith in
    subst IsRegionName (sym e) (record {
      filled = λ x. cc;
      no_nul = has_control-NulFree (c ∷ s) (ground arith);
      fits = ground arith;
    })

-- What the code relies on of UTF-8: `str::len` counts its bytes, only NUL has a zero byte, and
-- decoding it leaves it as it is.
pub record IsUtf8 (utf8 lossy : Bytes → Bytes) : Type 0 where
  pub size : (s : Bytes) → length (utf8 s) ≡ len s
  pub no_nul : (s : Bytes) → IsNulFree s → IsNulFree (utf8 s)
  pub valid : (s : Bytes) → lossy (utf8 s) ≡ utf8 s

length-padded : (name : Bytes) → length name ≤ 30 → length (padded 30 31 name) ≡ 31
length-padded name h = omega (
  arith,
  length-append (take 30 name) (zeros (31 - length (take 30 name))),
  length-take 30 name,
  length-zeros (31 - length (take 30 name)),
)

read_cstr-padded :
    (lossy : Bytes → Bytes) (name : Bytes)
    → length name ≤ 30
    → IsNulFree name
    → lossy name ≡ name
    → read_cstr lossy (padded 30 31 name) ≡ name
unfolding read_cstr
read_cstr-padded lossy name h nul utf8 =
    let e = take_whole 30 name h in rw (e, until_nul-zeros name (31 - length name) nul, utf8) refl

decode_flood_scope_fields :
    (lossy : Bytes → Bytes) (body field name key : Bytes)
    → length body ≡ 47
    → slice body 0 31 ≡ Outcome.ok field
    → slice body 31 47 ≡ Outcome.ok key
    → read_cstr lossy field ≡ name
    → is_empty name ≡ false
    → decode_flood_scope lossy 28 body
      ≡ Outcome.ok (InboundFrame.default_flood_scope (some (record { name = name; key = key })))
unfolding decode_flood_scope
decode_flood_scope_fields lossy [] field name key l first second r filled = absurd (omega arith)
decode_flood_scope_fields lossy (c ∷ body) field name key l first second r filled =
    rw (l, first, r, filled, second) refl

decode_flood_scope-padded :
    (lossy : Bytes → Bytes) (name key : Bytes)
    → length name ≤ 30
    → IsNulFree name
    → lossy name ≡ name
    → is_empty name ≡ false
    → length key ≡ 16
    → decode_flood_scope lossy 28 (padded 30 31 name ++ key)
      ≡ Outcome.ok (InboundFrame.default_flood_scope (some (record { name = name; key = key })))
decode_flood_scope-padded lossy name key fits nul utf8 filled size =
    let field = padded 30 31 name in
    let n = length-padded name fits in
    let r = read_cstr-padded lossy name fits nul utf8 in
    let first = slice_front field key 31 (omega (arith, n)) in
    let whole : slice key 0 16 ≡ Outcome.ok key =
      subst (λ b. slice b 0 16 ≡ Outcome.ok key) (append-nil key)
        (slice_front key [] 16 (omega arith)) in
    let second : slice (field ++ key) 31 47 ≡ Outcome.ok key =
      slice_skip field key 31 47 0 16 (omega (arith, n)) (omega (arith, n)) ∙ whole in
    let l : length (field ++ key) ≡ 47 = omega (arith, n, length-append field key) in
    decode_flood_scope_fields lossy (field ++ key) field name key l first second r filled

is_empty-false :
    (utf8 lossy : Bytes → Bytes)
    → IsUtf8 utf8 lossy
    → (name : Bytes) → name ≢ []
    → is_empty (utf8 name) ≡ false
is_empty-false utf8 lossy u [] h = absurd (h refl)
is_empty-false utf8 lossy u (c ∷ s) h = filled (utf8 (c ∷ s)) (ground (arith, u.size (c ∷ s)))
  where
    filled : (b : Bytes) → 0 < length b → is_empty b ≡ false
    filled [] k = absurd (omega arith)
    filled (x ∷ b) k = refl

abbrev scope_of : (Bytes → Bytes) → (Bytes → Bytes) → Bytes → FloodScope
scope_of utf8 sha256 name = record { name = utf8 name; key = take 16 (sha256 (b'#' ∷ utf8 name)) }

scoped :
    (utf8 sha256 : Bytes → Bytes) (scope : FloodScope) (r : Result RegionNameError Bytes)
    → ((name : Bytes) → r ≡ ok name → IsRegionName name)
    → and_then r (λ name. ok (scope_of utf8 sha256 name)) ≡ ok scope
    → (name : Bytes) × IsRegionName name × (scope ≡ scope_of utf8 sha256 name)
scoped utf8 sha256 scope (err e) k h = absurd (cc h)
scoped utf8 sha256 scope (ok name) k h = (name, k name refl, cc h)

for_region_scope :
    (utf8 sha256 : Bytes → Bytes) (input : Bytes) (scope : FloodScope)
    → for_region utf8 sha256 input ≡ ok scope
    → (name : Bytes) × IsRegionName name × (scope ≡ scope_of utf8 sha256 name)
unfolding for_region normalize_region_name region_key
for_region_scope utf8 sha256 input scope made =
    scoped utf8 sha256 scope (normalize_region_name input)
      (checked_name-IsRegionName (trim (without_hash (trim input)))) made

-- Given what the code relies on of UTF-8, and a digest of 32 bytes, the scope that `for_region` makes
-- survives the radio: where the radio answers with the fields that
-- the command to set it carried, the answer decodes to the same name and key, so no part of the
-- name was cut or lost.
pub for_region-decode_inbound :
    (utf8 lossy sha256 : Bytes → Bytes) (input : Bytes) (scope : FloodScope)
    → IsUtf8 utf8 lossy
    → ((b : Bytes) → length (sha256 b) ≡ 32)
    → for_region utf8 sha256 input ≡ ok scope
    → decode_inbound lossy
        (28 ∷ drop 1 (build_payload (OutboundFrame.set_default_flood_scope scope)))
      ≡ Outcome.ok (InboundFrame.default_flood_scope (some scope))
unfolding decode_inbound decode_response build_payload
for_region-decode_inbound utf8 lossy sha256 input scope u digest made =
    let (name, is, e) = for_region_scope utf8 sha256 input scope made in
    let key = take 16 (sha256 (b'#' ∷ utf8 name)) in
    let size : length key ≡ 16 =
      omega (arith, length-take 16 (sha256 (b'#' ∷ utf8 name)), digest (b'#' ∷ utf8 name)) in
    rw e (
      decode_flood_scope-padded lossy (utf8 name) key (omega (arith, u.size name, is.fits))
        (u.no_nul name is.no_nul) (u.valid name) (is_empty-false utf8 lossy u name is.filled) size)
