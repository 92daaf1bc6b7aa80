-- ===== src/MeshName/Truncate.antt =====
-- What truncation leaves of a name.
use supply_drop_bbs.Prelude.{
  ℕ, zero, suc, ◌+◌, ◌-◌, ◌≤◌, ◌≡◌, subst, inl, inr, refl, ap, Bool, true, false, Bool-cases,
  Option-cases, [], ◌∷◌, ◌++◌, sym, append-nil, Bytes, leb, nat_eq, arith, All, ok, none, ◌⊎◌,
}
use supply_drop_bbs.Text.{len_utf8, len}
use supply_drop_bbs.MeshName.{
  is_char_boundary, floor_boundary, str_before, strip_display_spoofing_codepoints,
  truncate_mesh_node_name, find_control, max_mesh_node_name_bytes, validate_mesh_node_name,
}

floor_boundary_le : (s : Bytes) (n : ℕ) → floor_boundary s n ≤ n
unfolding floor_boundary
floor_boundary_le s zero = omega arith
floor_boundary_le s (suc n) = ground (arith, floor_boundary_le s n)

floor_boundary-is_char_boundary :
    (s : Bytes) (n : ℕ) → is_char_boundary s (floor_boundary s n) ≡ true
unfolding floor_boundary is_char_boundary
floor_boundary-is_char_boundary [] zero = refl
floor_boundary-is_char_boundary (c ∷ s) zero = refl
floor_boundary-is_char_boundary s (suc n) = ground (arith, floor_boundary-is_char_boundary s n)

floor_boundary_max :
    (s : Bytes) (n k : ℕ) → k ≤ n → is_char_boundary s k ≡ true → k ≤ floor_boundary s n
unfolding floor_boundary
floor_boundary_max s zero k h b = omega arith
floor_boundary_max s (suc n) k h b = elim (Bool-cases (leb k n)) [
  | inl below ↦
      let le = floor_boundary_max s n k (ground arith) b in
      ground (arith, le, floor_boundary_le s n)
  | inr above ↦
      let e : k ≡ suc n = ground arith in
      let here = subst (λ x. is_char_boundary s x ≡ true) e b in ground arith
]

-- Cutting at a boundary keeps a prefix of just that many bytes.
str_before_prefix :
    (s : Bytes) (n : ℕ)
    → is_char_boundary s n ≡ true
    → (rest : Bytes) × (s ≡ str_before s n ++ rest) × (len (str_before s n) ≡ n)
unfolding is_char_boundary str_before
str_before_prefix [] n b = ([], refl, ground arith)
str_before_prefix (c ∷ s) zero b = (c ∷ s, refl, refl)
str_before_prefix (c ∷ s) (suc n) b =
    let (rest, e, l) = str_before_prefix s (suc n - len_utf8 c) (ground arith) in
    let step : str_before (c ∷ s) (suc n) ≡ c ∷ str_before s (suc n - len_utf8 c) = ground arith in
    (rest, rw step (ap (λ t. c ∷ t) e), rw step (ground (arith, l)))

-- A prefix ends at a boundary.
prefix-is_char_boundary : (kept rest : Bytes) → is_char_boundary (kept ++ rest) (len kept) ≡ true
unfolding is_char_boundary
prefix-is_char_boundary [] [] = refl
prefix-is_char_boundary [] (c ∷ rest) = refl
prefix-is_char_boundary (c ∷ kept) rest =
    let e : (len_utf8 c + len kept) - len_utf8 c ≡ len kept = omega arith in
    ground (arith, e, prefix-is_char_boundary kept rest)

len-append : (a b : Bytes) → len (a ++ b) ≡ len a + len b
len-append [] b = omega arith
len-append (c ∷ a) b = omega (arith, len-append a b)

-- What `truncate_mesh_node_name` promises of the stripped name, the budget, and what is sent.
abbrev pub IsLongest : Bytes → ℕ → Bytes → Type 0
IsLongest cleaned max sent =
    ((rest : Bytes) × (cleaned ≡ sent ++ rest))
    × (len sent ≤ max)
    × ((kept rest : Bytes) → cleaned ≡ kept ++ rest → len kept ≤ max → len kept ≤ len sent)

whole-IsLongest : (cleaned : Bytes) (max : ℕ) → len cleaned ≤ max → IsLongest cleaned max cleaned
whole-IsLongest cleaned max h = (
  ([], sym (append-nil cleaned)),
  h,
  λ kept rest e small.
      let l : len cleaned ≡ len kept + len rest = rw e (len-append kept rest) in omega arith,
)

cut-IsLongest :
    (cleaned : Bytes) (max : ℕ)
    → IsLongest cleaned max (str_before cleaned (floor_boundary cleaned max))
cut-IsLongest cleaned max =
    let end = floor_boundary cleaned max in
    let (rest, e, l) =
      str_before_prefix cleaned end (floor_boundary-is_char_boundary cleaned max) in
    let longest : (kept rest : Bytes) → cleaned ≡ kept ++ rest → len kept ≤ max → len kept ≤ end =
      λ kept rest eq h. floor_boundary_max cleaned max (len kept) h (
        subst (λ x. is_char_boundary x (len kept) ≡ true) (sym eq)
          (prefix-is_char_boundary kept rest)) in
    (
      (rest, e),
      omega (arith, l, floor_boundary_le cleaned max),
      λ kept rest eq h. rw l (longest kept rest eq h),
    )

valid_parts :
    (s : Bytes) (sharing_location : Bool)
    → validate_mesh_node_name s sharing_location ≡ ok tt
    → (len s ≤ max_mesh_node_name_bytes sharing_location) × (find_control s ≡ none)
unfolding validate_mesh_node_name
valid_parts s sharing_location valid = elim (Option-cases (find_control s)) [
  | inl plain ↦ (ground arith, plain)
  | inr (c, found) ↦ absurd (ground arith)
]

valid_again :
    (s : Bytes) (sharing_location : Bool)
    → len s ≤ max_mesh_node_name_bytes sharing_location
    → find_control s ≡ none
    → (s ≡ []) ⊎ (validate_mesh_node_name s sharing_location ≡ ok tt)
unfolding validate_mesh_node_name
valid_again [] sharing_location fits plain = inl refl
valid_again (c ∷ s) sharing_location fits plain = inr (ground arith)

module _ (is_format : ℕ → Bool) where
  -- No character of the text is of the category Format.
  abbrev pub IsShown : Bytes → Type 0
  IsShown s = All (λ c. is_format c ≡ false) s

  strip-IsShown : (s : Bytes) → IsShown (strip_display_spoofing_codepoints is_format s)
  unfolding strip_display_spoofing_codepoints
  strip-IsShown [] = tt
  strip-IsShown (c ∷ s) = elim (Bool-cases (is_format c)) [
    | inl hidden ↦ rw hidden (strip-IsShown s)
    | inr shown ↦ rw shown (shown, strip-IsShown s)
  ]

  strip_shown : (s : Bytes) → IsShown s → strip_display_spoofing_codepoints is_format s ≡ s
  unfolding strip_display_spoofing_codepoints
  strip_shown [] h = refl
  strip_shown (c ∷ s) h = ground (arith, strip_shown s h.1)

  -- The name sent is the longest prefix of the stripped name, cut between characters, that fits the
  -- budget of bytes; the stripped name has no character of the category Format.
  pub truncate_mesh_node_name-IsLongest :
      (s : Bytes) (sharing_location : Bool)
      → IsLongest
          (strip_display_spoofing_codepoints is_format s)
          (max_mesh_node_name_bytes sharing_location)
          (truncate_mesh_node_name is_format s sharing_location)
        × IsShown (strip_display_spoofing_codepoints is_format s)
  unfolding truncate_mesh_node_name
  truncate_mesh_node_name-IsLongest s sharing_location =
      let cleaned = strip_display_spoofing_codepoints is_format s in
      let max = max_mesh_node_name_bytes sharing_location in
      (
        elim (Bool-cases (leb (len cleaned) max)) [
          | inl fits ↦ rw fits (whole-IsLongest cleaned max (ground arith))
          | inr over ↦ rw over (cut-IsLongest cleaned max)
        ],
        strip-IsShown s,
      )

  strip_le : (s : Bytes) → len (strip_display_spoofing_codepoints is_format s) ≤ len s
  unfolding strip_display_spoofing_codepoints
  strip_le [] = omega arith
  strip_le (c ∷ s) = ground (arith, strip_le s)

  find_control-strip :
      (s : Bytes)
      → find_control s ≡ none
      → find_control (strip_display_spoofing_codepoints is_format s) ≡ none
  unfolding find_control strip_display_spoofing_codepoints
  find_control-strip [] h = refl
  find_control-strip (c ∷ s) h = ground (arith, find_control-strip s)

  truncate_whole :
      (s : Bytes) (sharing_location : Bool)
      → len (strip_display_spoofing_codepoints is_format s)
        ≤ max_mesh_node_name_bytes sharing_location
      → truncate_mesh_node_name is_format s sharing_location
        ≡ strip_display_spoofing_codepoints is_format s
  unfolding truncate_mesh_node_name
  truncate_whole s sharing_location small = ground arith

  -- A name that is valid is sent whole but for its characters of the category Format, and what is sent
  -- is valid again, or empty.
  pub truncate_mesh_node_name-validate :
      (s : Bytes) (sharing_location : Bool)
      → validate_mesh_node_name s sharing_location ≡ ok tt
      → (truncate_mesh_node_name is_format s sharing_location
          ≡ strip_display_spoofing_codepoints is_format s)
        × ((truncate_mesh_node_name is_format s sharing_location ≡ [])
            ⊎ (validate_mesh_node_name
                  (truncate_mesh_node_name is_format s sharing_location)
                  sharing_location
                ≡ ok tt))
  truncate_mesh_node_name-validate s sharing_location valid =
      let (fits, plain) = valid_parts s sharing_location valid in
      let cleaned = strip_display_spoofing_codepoints is_format s in
      let small : len cleaned ≤ max_mesh_node_name_bytes sharing_location =
        omega (arith, strip_le s) in
      rw (truncate_whole s sharing_location small)
        (refl, valid_again cleaned sharing_location small (find_control-strip s plain))
