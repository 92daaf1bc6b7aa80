-- ===== src/Identity/Canonical.antt =====
-- crates/bbs-plugin-api/src/identity.rs: an accepted username is in its one stored form.
use supply_drop_bbs.Prelude.{
  ℕ, ◌≤◌, ◌<◌, ◌≡◌, ◌≢◌, refl, true, false, none, some, [], ◌∷◌, Bytes, ltb, nat_eq, list_eq,
  nat_beq_iff, ok, arith, All, subst, length,
}
use supply_drop_bbs.Text.{
  is_whitespace, is_control, lower, to_ascii_lowercase, len, is_ascii, strip_prefix,
}
use supply_drop_bbs.Text.Trim.{to_ascii_lowercase_self}
use supply_drop_bbs.Identity.{
  Username, max_len, first_disallowed, is_bracket, first_char, last_char, validate_chars,
  is_reserved, validate, normalise, new_username, try_from,
}

-- A character that a username may hold.
pub record IsNameChar (c : ℕ) : Type 0 where
  pub ascii : c < 0x80
  pub visible : is_control c ≡ false
  pub ink : is_whitespace c ≡ false
  pub no_at : c ≢ b'@'
  pub small : lower c ≡ c

pub record IsUsername (s : Bytes) : Type 0 where
  pub nonempty : s ≢ []
  pub fits : length s ≤ max_len
  pub chars : All IsNameChar s
  pub first : is_bracket (first_char s) ≡ false
  pub last : is_bracket (last_char s) ≡ false
  pub free : is_reserved s ≡ false

accepted_chars :
    (s : Bytes)
    → is_ascii s ≡ true
    → first_disallowed s ≡ none
    → to_ascii_lowercase s ≡ s
    → All IsNameChar s
unfolding first_disallowed to_ascii_lowercase
accepted_chars [] a d l = tt
accepted_chars (c ∷ s) a d l = ground (arith, accepted_chars s, nat_beq_iff c b'@')

chars-ascii : (s : Bytes) → All IsNameChar s → is_ascii s ≡ true
chars-ascii [] h = refl
chars-ascii (c ∷ s) h = ground (arith, chars-ascii s h.1)

chars-allowed : (s : Bytes) → All IsNameChar s → first_disallowed s ≡ none
unfolding first_disallowed
chars-allowed [] h = refl
chars-allowed (c ∷ s) h = ground (arith, chars-allowed s h.1, nat_beq_iff c b'@')

chars-small : (s : Bytes) → All IsNameChar s → to_ascii_lowercase s ≡ s
unfolding to_ascii_lowercase
chars-small [] h = refl
chars-small (c ∷ s) h = ground (arith, chars-small s h.1)

length_ascii : (s : Bytes) → is_ascii s ≡ true → len s ≡ length s
length_ascii [] h = refl
length_ascii (c ∷ s) h = ground (arith, length_ascii s)

normalise_self : (s : Bytes) → IsUsername s → normalise s ≡ s
unfolding normalise
normalise_self [] u = absurd (u.nonempty refl)
normalise_self (c ∷ s) u =
    ground (arith, nat_beq_iff c b'@', u.chars.0.no_at, chars-small (c ∷ s) u.chars)

validate_chars_sound :
    (s : Bytes)
    → validate_chars s ≡ ok tt
    → (s ≢ [])
      × (len s ≤ max_len)
      × (is_ascii s ≡ true)
      × (first_disallowed s ≡ none)
      × (is_bracket (first_char s) ≡ false)
      × (is_bracket (last_char s) ≡ false)
unfolding validate_chars
validate_chars_sound [] h = absurd (cc)
validate_chars_sound (c ∷ s) h =
    (λ e. cc, ground arith, ground arith, ground arith, ground arith, ground arith)

validate_chars_complete : (s : Bytes) → IsUsername s → validate_chars s ≡ ok tt
unfolding validate_chars
validate_chars_complete [] u = absurd (u.nonempty refl)
validate_chars_complete (c ∷ s) u =
    let fits : ltb max_len (len (c ∷ s)) ≡ false =
      ground (arith, length_ascii (c ∷ s) (chars-ascii (c ∷ s) u.chars), u.fits) in
    rw (fits, chars-ascii (c ∷ s) u.chars, chars-allowed (c ∷ s) u.chars, u.first, u.last)

normalise-small : (raw : Bytes) → to_ascii_lowercase (normalise raw) ≡ normalise raw
unfolding normalise
normalise-small raw = ground (
  arith,
  to_ascii_lowercase_self (elim (strip_prefix b'@' raw) [ some rest ↦ rest | none ↦ raw ]),
)

validate_sound : (s : Bytes) → validate s ≡ ok tt → to_ascii_lowercase s ≡ s → IsUsername s
unfolding validate
validate_sound s h small =
    let passed : validate_chars s ≡ ok tt = ground arith in
    let (nonempty, fits, ascii, allowed, first, last) = validate_chars_sound s passed in
    record {
      nonempty = nonempty;
      fits = omega (arith, length_ascii s ascii);
      chars = accepted_chars s ascii allowed small;
      first = first;
      last = last;
      free = ground (arith, passed);
    }

-- Whatever is typed, an accepted username is one to 32 ASCII characters, none of them a capital
-- letter, a control character, a blank or `@`, with no dash or underscore at either end, and it is
-- not reserved.
pub new_username_sound :
    (raw : Bytes) (u : Username) → new_username raw ≡ ok u → IsUsername u.as_str
unfolding new_username
new_username_sound raw u h =
    let valid : validate (normalise raw) ≡ ok tt = ground arith in
    let same : normalise raw ≡ u.as_str = ground (arith, valid) in
    subst IsUsername same (validate_sound (normalise raw) valid (normalise-small raw))

-- Every text of that form is accepted as it stands, and is read back from storage as it stands.
pub new_username_complete :
    (s : Bytes)
    → IsUsername s
    → (new_username s ≡ ok (record { as_str = s })) × (try_from s ≡ ok (record { as_str = s }))
unfolding new_username try_from validate
new_username_complete s u = ground (arith, normalise_self s u, validate_chars_complete s u, u.free)
