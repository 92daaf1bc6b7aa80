-- ===== src/Text/Trim.antt =====
-- Laws of trimming and of lower case.
use supply_drop_bbs.Prelude.{
  ℕ, ◌≡◌, refl, true, [], ◌∷◌, ◌++◌, Bytes, arith, All, Bool-cases, inl, inr,
}
use supply_drop_bbs.Text.{is_whitespace, lower, to_ascii_lowercase, trim_start, trim_end, trim}

abbrev pub IsBlank : Bytes → Type 0
IsBlank = All (λ c. is_whitespace c ≡ true)

pub trim_start-blank : (a s : Bytes) → IsBlank a → trim_start (a ++ s) ≡ trim_start s
unfolding trim_start
trim_start-blank [] s h = refl
trim_start-blank (c ∷ a) s (hc, h) = rw hc (trim_start-blank a s h)

pub trim_end_blank : (b : Bytes) → IsBlank b → trim_end b ≡ []
unfolding trim_end
trim_end_blank [] h = refl
trim_end_blank (c ∷ b) (hc, h) = rw (trim_end_blank b h, hc)

pub trim_end-blank : (s b : Bytes) → IsBlank b → trim_end (s ++ b) ≡ trim_end s
unfolding trim_end
trim_end-blank [] b h = unfold trim_end in trim_end_blank b h
trim_end-blank (c ∷ s) b h = rw (trim_end-blank s b h)

pub trim_start_blank : (b : Bytes) → IsBlank b → trim_start b ≡ []
unfolding trim_start
trim_start_blank [] h = refl
trim_start_blank (c ∷ b) (hc, h) = rw hc (trim_start_blank b h)

trim-append_blank :
    (s b : Bytes) → IsBlank b → trim_end (trim_start (s ++ b)) ≡ trim_end (trim_start s)
unfolding trim_start
trim-append_blank [] b h = rw (trim_start_blank b h)
trim-append_blank (c ∷ s) b h = elim (Bool-cases (is_whitespace c)) [
  | inl blank ↦ rw blank (trim-append_blank s b h)
  | inr ink ↦ rw ink (trim_end-blank (c ∷ s) b h)
]

-- Trimming does not see blanks at the ends.
pub trim_pad : (a s b : Bytes) → IsBlank a → IsBlank b → trim (a ++ (s ++ b)) ≡ trim s
unfolding trim
trim_pad a s b ha hb = rw (trim_start-blank a (s ++ b) ha) (trim-append_blank s b hb)

pub lower-lower : (c : ℕ) → lower (lower c) ≡ lower c
unfolding lower
lower-lower c = ground arith

pub to_ascii_lowercase_self :
    (s : Bytes) → to_ascii_lowercase (to_ascii_lowercase s) ≡ to_ascii_lowercase s
unfolding to_ascii_lowercase
to_ascii_lowercase_self [] = refl
to_ascii_lowercase_self (c ∷ s) = ground (arith, lower-lower c, to_ascii_lowercase_self s)
