-- ===== src/Text.antt =====
-- What the program uses of Rust's texts. A text is the list of its code points (`char`s).
pub mod Trim
pub mod Number
use supply_drop_bbs.Prelude.{
  ℕ, ◌+◌, ◌-◌, ◌≤◌, Bool, true, false, not, ◌&&◌, ◌||◌, Option, none, some, List, [], ◌∷◌, ◌++◌,
  map, Bytes, codes, ltb, leb, ◌==◌, nat_eq, list_eq, if◌then◌else◌,
}

-- `char::is_whitespace`: the Unicode property White_Space.
unfoldable pub is_whitespace : ℕ → Bool
is_whitespace c =
    (leb 9 c && leb c 13)
    || c == 32
    || c == 0x85
    || c == 0xA0
    || c == 0x1680
    || (leb 0x2000 c && leb c 0x200A)
    || c == 0x2028
    || c == 0x2029
    || c == 0x202F
    || c == 0x205F
    || c == 0x3000

-- `char::is_ascii_whitespace`, which leaves out the vertical tab.
unfoldable pub is_ascii_whitespace : ℕ → Bool
is_ascii_whitespace c = c == 9 || c == 10 || c == 12 || c == 13 || c == 32

-- `char::is_control`: the general category Cc.
unfoldable pub is_control : ℕ → Bool
is_control c = ltb c 32 || (leb 0x7F c && leb c 0x9F)

unfoldable pub lower : ℕ → ℕ
lower c = if leb b'A' c && leb c b'Z' then c + 32 else c

unfoldable pub to_ascii_lowercase : Bytes → Bytes
unfolding lower
to_ascii_lowercase [] = []
to_ascii_lowercase (c ∷ s) = lower c ∷ to_ascii_lowercase s

unfoldable pub trim_start : Bytes → Bytes
trim_start [] = []
trim_start (c ∷ s) = let rest = trim_start s in if is_whitespace c then rest else c ∷ s

unfoldable pub trim_end : Bytes → Bytes
trim_end [] = []
trim_end (c ∷ s) =
    let rest = trim_end s in
    elim rest [ [] ↦ if is_whitespace c then [] else c ∷ [] | d ∷ t ↦ c ∷ d ∷ t ]

unfoldable pub trim : Bytes → Bytes
trim s = trim_end (trim_start s)

-- `str::len`: the bytes of the UTF-8 encoding.
abbrev pub len_utf8 : ℕ → ℕ
len_utf8 c = if ltb c 0x80 then 1 else if ltb c 0x800 then 2 else if ltb c 0x10000 then 3 else 4

abbrev pub len : Bytes → ℕ
len [] = 0
len (c ∷ s) = len_utf8 c + len s

abbrev pub is_ascii : Bytes → Bool
is_ascii [] = true
is_ascii (c ∷ s) = ltb c 0x80 && is_ascii s

abbrev pub is_empty : Bytes → Bool
is_empty [] = true
is_empty (c ∷ s) = false

-- `str::strip_prefix` with a character.
abbrev pub strip_prefix : ℕ → Bytes → Option Bytes
strip_prefix p [] = none
strip_prefix p (c ∷ s) = if c == p then some s else none

-- The text up to the first character of a class, and the rest from that character on.
unfoldable pub break_on : (ℕ → Bool) → Bytes → Bytes × Bytes
break_on p [] = ([], [])
break_on p (c ∷ s) =
    let (word, rest) = break_on p s in if p c then ([], c ∷ s) else (c ∷ word, rest)

-- `str::split_whitespace`, as the list of its words.
unfoldable pub words_from : Bytes → Bytes → List Bytes
words_from [] [] = []
words_from (w ∷ ws) [] = (w ∷ ws) ∷ []
words_from cur (c ∷ s) = elim (is_whitespace c) [
  | false ↦ words_from (cur ++ c ∷ []) s
  | true ↦ elim cur [ [] ↦ words_from [] s | w ∷ ws ↦ (w ∷ ws) ∷ words_from [] s ]
]

unfoldable pub split_whitespace : Bytes → List Bytes
unfolding words_from
split_whitespace s = words_from [] s
