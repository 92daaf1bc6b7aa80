-- ===== src/Companion/Inbound/RoundTrip.antt =====
-- A contact that is encoded decodes to itself.
use supply_drop_bbs.Prelude.{
  ℕ, ◌+◌, ◌-◌, ◌≤◌, ◌<◌, ◌≡◌, refl, ◌∙◌, [], ◌∷◌, ◌++◌, Bytes, length, take, length-append,
  length-take, take_whole, arith, nat_eq,
}
use supply_drop_bbs.Prelude.Int.{ℤ, pos, negsuc}
use supply_drop_bbs.Companion.Wire.{
  ok, at, slice, r_u32, r_i32, u32_bytes, i32_bytes, zeros, padded, from_i8,
}
use supply_drop_bbs.Companion.Wire.Ints.{InI8, InI32, IsNulFree, until_nul-zeros, length-zeros}
use supply_drop_bbs.Companion.Wire.Skip.{
  at_skip, slice_skip, slice_front, r_u32_skip, r_i32_skip, r_u32-u32_bytes, r_i32-i32_bytes,
}
use supply_drop_bbs.Companion.Frames.{Contact, InboundFrame}
use supply_drop_bbs.Companion.Outbound.{encode_contact_body}
use supply_drop_bbs.Companion.Bodies.{read_cstr, out_path_len_of, parse_contact}
use supply_drop_bbs.Companion.Inbound.{decode_response, decode_inbound}

-- A contact as its Rust type holds it, with a name that fits its field of 32 bytes.
pub record IsContact (lossy : Bytes → Bytes) (c : Contact) : Type 0 where
  pub pubkey_size : length c.pubkey ≡ 32
  pub path_size : length c.out_path ≡ 64
  pub path_len_range : InI8 c.out_path_len
  pub name_size : length c.name ≤ 32
  pub name_nul : IsNulFree c.name
  pub name_utf8 : lossy c.name ≡ c.name
  pub advert_range : c.last_advert_timestamp < 0x1_0000_0000
  pub lat_range : InI32 c.gps_lat
  pub lon_range : InI32 c.gps_lon
  pub lastmod_range : c.lastmod < 0x1_0000_0000

out_path_len_of-from_i8 : (z : ℤ) → InI8 z → out_path_len_of (from_i8 z) ≡ z
out_path_len_of-from_i8 (pos n) h = ground arith
out_path_len_of-from_i8 (negsuc n) h = ground arith

length-padded : (name : Bytes) → length (padded 32 32 name) ≡ 32
length-padded name = omega (
  arith,
  length-append (take 32 name) (zeros (32 - length (take 32 name))),
  length-take 32 name,
  length-zeros (32 - length (take 32 name)),
)

module _ (pk path pad tail : Bytes) (a b c : ℕ) (hk : length pk ≡ 32) (hp : length path ≡ 64)
    (hd : length pad ≡ 32) where
  abbrev layout : Bytes
  layout = pk ++ (a ∷ b ∷ c ∷ (path ++ (pad ++ tail)))

  tail_u32 : (k i : ℕ) → k ≡ 131 + i → r_u32 layout k ≡ r_u32 tail i
  tail_u32 k i h =
      r_u32_skip pk _ k (99 + i) (omega arith)
      ∙ r_u32_skip (a ∷ b ∷ c ∷ []) (path ++ (pad ++ tail)) (99 + i) (96 + i) (omega arith)
      ∙ r_u32_skip path (pad ++ tail) (96 + i) (32 + i) (omega arith)
      ∙ r_u32_skip pad tail (32 + i) i (omega arith)

  tail_i32 : (k i : ℕ) → k ≡ 131 + i → r_i32 layout k ≡ r_i32 tail i
  unfolding r_i32
  tail_i32 k i h = rw (tail_u32 k i h) refl

  slice_path : slice layout 35 99 ≡ ok path
  slice_path =
      slice_skip pk _ 35 99 3 67 (omega arith) (omega arith)
      ∙ slice_skip (a ∷ b ∷ c ∷ []) (path ++ (pad ++ tail)) 3 67 0 64 (omega arith) (omega arith)
      ∙ slice_front path _ 64 (omega arith)

  slice_pad : slice layout 99 131 ≡ ok pad
  slice_pad =
      slice_skip pk _ 99 131 67 99 (omega arith) (omega arith)
      ∙ slice_skip (a ∷ b ∷ c ∷ []) (path ++ (pad ++ tail)) 67 99 64 96 (omega arith) (omega arith)
      ∙ slice_skip path (pad ++ tail) 64 96 0 32 (omega arith) (omega arith)
      ∙ slice_front pad tail 32 (omega arith)

read_cstr-padded :
    (lossy : Bytes → Bytes) (name : Bytes)
    → length name ≤ 32
    → IsNulFree name
    → lossy name ≡ name
    → read_cstr lossy (padded 32 32 name) ≡ name
unfolding read_cstr
read_cstr-padded lossy name h nul utf8 =
    let e = take_whole 32 name h in rw (e, until_nul-zeros name (32 - length name) nul, utf8) refl

-- The last four fields of a contact.
abbrev stamps : Contact → Bytes
stamps c =
    u32_bytes c.last_advert_timestamp
    ++ (i32_bytes c.gps_lat ++ (i32_bytes c.gps_lon ++ u32_bytes c.lastmod))

length-encode_contact_body :
    (lossy : Bytes → Bytes) (c : Contact) → IsContact lossy c → length (encode_contact_body c) ≡ 147
unfolding encode_contact_body u32_bytes
length-encode_contact_body lossy c is = omega (
  arith,
  is.pubkey_size,
  is.path_size,
  length-padded c.name,
  length-append c.pubkey (
      c.adv_type
      ∷ c.flags
      ∷ from_i8 c.out_path_len
      ∷ (c.out_path ++ (padded 32 32 c.name ++ stamps c))),
  length-append c.out_path (padded 32 32 c.name ++ stamps c),
  length-append (padded 32 32 c.name) (stamps c),
)

parse_contact-encode_contact_body :
    (lossy : Bytes → Bytes) (c : Contact)
    → IsContact lossy c
    → parse_contact lossy (encode_contact_body c) ≡ ok c
unfolding encode_contact_body parse_contact u32_bytes at
parse_contact-encode_contact_body lossy c is =
    let pk = c.pubkey in
    let path = c.out_path in
    let pad = padded 32 32 c.name in
    let tail = stamps c in
    let opl = from_i8 c.out_path_len in
    let hk = is.pubkey_size in
    let hp = is.path_size in
    let hd = length-padded c.name in
    let lat_lon = i32_bytes c.gps_lat ++ (i32_bytes c.gps_lon ++ u32_bytes c.lastmod) in
    let lon = i32_bytes c.gps_lon ++ u32_bytes c.lastmod in
    let ts =
      tail_u32 pk path pad tail c.adv_type c.flags opl hk hp hd 131 0 refl
      ∙ r_u32-u32_bytes c.last_advert_timestamp lat_lon is.advert_range in
    let la =
      tail_i32 pk path pad tail c.adv_type c.flags opl hk hp hd 135 4 refl
      ∙ (r_i32_skip (u32_bytes c.last_advert_timestamp) lat_lon 4 0 (omega arith)
          ∙ r_i32-i32_bytes c.gps_lat lon is.lat_range) in
    let lo =
      tail_i32 pk path pad tail c.adv_type c.flags opl hk hp hd 139 8 refl
      ∙ (r_i32_skip (u32_bytes c.last_advert_timestamp) lat_lon 8 4 (omega arith)
          ∙ (r_i32_skip (i32_bytes c.gps_lat) lon 4 0 (omega arith)
              ∙ r_i32-i32_bytes c.gps_lon (u32_bytes c.lastmod) is.lon_range)) in
    let lm =
      tail_u32 pk path pad tail c.adv_type c.flags opl hk hp hd 143 12 refl
      ∙ (r_u32_skip (u32_bytes c.last_advert_timestamp) lat_lon 12 8 (omega arith)
          ∙ (r_u32_skip (i32_bytes c.gps_lat) lon 8 4 (omega arith)
              ∙ (r_u32_skip (i32_bytes c.gps_lon) (u32_bytes c.lastmod) 4 0 (omega arith)
                  ∙ r_u32-u32_bytes c.lastmod [] is.lastmod_range))) in
    rw
      (
        slice_front pk (c.adv_type ∷ c.flags ∷ opl ∷ (path ++ (pad ++ tail))) 32 (omega arith),
        at_skip pk (c.adv_type ∷ c.flags ∷ opl ∷ (path ++ (pad ++ tail))) 32 0 (omega arith),
        at_skip pk (c.adv_type ∷ c.flags ∷ opl ∷ (path ++ (pad ++ tail))) 33 1 (omega arith),
        at_skip pk (c.adv_type ∷ c.flags ∷ opl ∷ (path ++ (pad ++ tail))) 34 2 (omega arith),
        slice_path pk path pad tail c.adv_type c.flags opl hk hp hd,
        slice_pad pk path pad tail c.adv_type c.flags opl hk hp hd,
        ts,
        la,
        lo,
        lm,
        read_cstr-padded lossy c.name is.name_size is.name_nul is.name_utf8,
        out_path_len_of-from_i8 c.out_path_len is.path_len_range,
      )
      refl

-- A contact within the ranges of its Rust type, whose name fits its field, holds no NUL and is left
-- alone by the lossy decoding of UTF-8, comes back unchanged when the body that the encoder writes
-- for it is decoded as a contact.
pub decode_inbound-encode_contact_body :
    (lossy : Bytes → Bytes) (c : Contact)
    → IsContact lossy c
    → decode_inbound lossy (3 ∷ encode_contact_body c) ≡ ok (InboundFrame.contact c)
unfolding decode_inbound decode_response
decode_inbound-encode_contact_body lossy c is =
    let e = parse_contact-encode_contact_body lossy c is in
    ground (arith, e, length-encode_contact_body lossy c is)
