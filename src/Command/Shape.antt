-- ===== src/Command/Shape.antt =====
-- crates/bbs-plugin-api/src/command.rs: what the arguments of a parsed command satisfy.
use supply_drop_bbs.Prelude.{
  ℕ, ◌≤◌, ◌≡◌, ◌≢◌, inl, inr, refl, Bool, true, false, ◌&&◌, Option, none, some, List, [], ◌∷◌,
  Bytes, codes, leb, ◌==◌, nat_eq, list_eq, list_beq_iff, ◌>>=◌, arith, Bool-cases, Option-cases,
  to_option, Result, ok, err,
}
use supply_drop_bbs.Prelude.Int.{ℤ}
use supply_drop_bbs.Text.{trim, to_ascii_lowercase, is_empty, split_whitespace, strip_prefix}
use supply_drop_bbs.Text.Number.{parse_i64, parse_unsigned}
use supply_drop_bbs.Identity.{Username, InvalidUsername, new_username}
use supply_drop_bbs.Identity.Canonical.{IsUsername, new_username_sound}
use supply_drop_bbs.Command.{
  Command, register, login, register_one_shot, login_one_shot, logout, workflow_reply, unknown,
  cancel, delete_message, validate_user, set_user_level, block_user, ban_user, unban_user,
  timeout_user, create_room, delete_room, edit_user, search_users, user_info, delete_user,
  set_user_password, set_guest_room,
}
use supply_drop_bbs.Command.Parse.{
  Keyword, k_register, k_login, k_delete, k_search, k_validate, k_block, k_ban, k_unban, k_timeout,
  k_whois, k_create_room, k_delete_room, k_edit_user, k_delete_user, k_aide, k_sysop, k_user,
  k_password, k_guest, dispatch, parse_block, timeout_command, parse_timeout, parse_guest_room,
  username_in, unwrap_or_empty, parse_keyword, parse_trimmed, parse, is_cancel, split_first_word,
  keyword_of, keywords, with_user, with_text,
}

abbrev pub IsName : Username → Type 0
IsName u = IsUsername u.as_str

-- What an arm of the `match` on the keyword may answer.
abbrev pub IsArm : Command → Type 0
IsArm cancel = ⊥
IsArm (workflow_reply r) = ⊥
IsArm (register_one_shot name password) = ⊥
IsArm (login_one_shot u password) = ⊥
IsArm logout = ⊥
IsArm (register name) = name ≢ []
IsArm (login u) = IsName u
IsArm (validate_user u) = IsName u
IsArm (set_user_level u level) = IsName u
IsArm (block_user u force) = IsName u
IsArm (ban_user u) = IsName u
IsArm (unban_user u) = IsName u
IsArm (timeout_user u days) = IsName u × (1 ≤ days) × (days ≤ 5)
IsArm (create_room name) = name ≢ []
IsArm (delete_room name) = name ≢ []
IsArm (edit_user u) = IsName u
IsArm (search_users query) = query ≢ []
IsArm (user_info u) = IsName u
IsArm (delete_user u) = IsName u
IsArm (set_user_password u) = IsName u
IsArm (set_guest_room (some name)) = (name ≢ []) × (to_ascii_lowercase name ≢ codes "off")
IsArm _ = Unit

abbrev Names : Option Username → Type 0
Names none = Unit
Names (some u) = IsName u

Names-result :
    (r : Result InvalidUsername Username)
    → ((u : Username) → r ≡ ok u → IsName u)
    → Names (to_option r)
Names-result (ok u) h = h u refl
Names-result (err e) h = tt

Names-new : (s : Bytes) → Names (to_option (new_username s))
Names-new s = Names-result (new_username s) (new_username_sound s)

Names-username_in : (rest : Option Bytes) → Names (username_in rest)
unfolding username_in
Names-username_in none = tt
Names-username_in (some s) = Names-new s

with_user-IsArm :
    (o : Option Username) (f : Username → Command) (other : Command)
    → Names o
    → ((u : Username) → IsName u → IsArm (f u))
    → IsArm other
    → IsArm (with_user o f other)
with_user-IsArm none f other h hf ho = ho
with_user-IsArm (some u) f other h hf ho = hf u h

with_text-IsArm :
    (s : Option Bytes) (f : Bytes → Command) (other : Command)
    → ((t : Bytes) → t ≢ [] → IsArm (f t))
    → IsArm other
    → IsArm (with_text s f other)
with_text-IsArm none f other hf ho = ho
with_text-IsArm (some []) f other hf ho = ho
with_text-IsArm (some (c ∷ s)) f other hf ho = hf (c ∷ s) (λ e. cc)

block-IsArm :
    (text arg : Bytes) (force : Option Bool)
    → IsArm (with_user (to_option (new_username arg)) (λ u. block_user u force) (unknown text))
block-IsArm text arg force = with_user-IsArm _ _ _ (Names-new arg) (λ u h. h) tt

parse_block-IsArm : (text : Bytes) (rest : Option Bytes) → IsArm (parse_block text rest)
unfolding parse_block
parse_block-IsArm text rest =
    let arg = trim (unwrap_or_empty rest) in
    elim (Option-cases (strip_prefix b'+' arg)) [
      | inr (s, plus) ↦ rw (plus, parse_block) (block-IsArm text (trim s) (some true))
      | inl no_plus ↦ elim (Option-cases (strip_prefix b'-' arg)) [
        | inr (s, minus) ↦ rw (no_plus, minus, parse_block) (block-IsArm text (trim s) (some false))
        | inl no_minus ↦ rw (no_plus, no_minus, parse_block) (block-IsArm text arg none)
      ]
    ]

timeout_command-IsArm :
    (text : Bytes) (o : Option Username) (days : Option ℕ)
    → Names o
    → IsArm (timeout_command text o days)
unfolding timeout_command
timeout_command-IsArm text none days h = tt
timeout_command-IsArm text (some u) none h = tt
timeout_command-IsArm text (some u) (some days) h = elim (Bool-cases (leb 1 days && leb days 5)) [
  | inl inside ↦ rw inside (h, ground arith, ground arith)
  | inr outside ↦ rw outside tt
]

timeout_words-IsArm :
    (text : Bytes) (words : List Bytes)
    → IsArm (elim words [
      | [] ↦ timeout_command text none none
      | u ∷ [] ↦ timeout_command text (username_in (some u)) none
      | u ∷ d ∷ more ↦ timeout_command text (username_in (some u)) (parse_unsigned 255 d)
    ])
timeout_words-IsArm text [] = timeout_command-IsArm text none none tt
timeout_words-IsArm text (u ∷ []) = timeout_command-IsArm text _ none (Names-username_in (some u))
timeout_words-IsArm text (u ∷ d ∷ more) =
    timeout_command-IsArm text _ _ (Names-username_in (some u))

guest_room_empty : (text : Bytes) → IsArm (parse_guest_room text (some []))
unfolding parse_guest_room to_ascii_lowercase
guest_room_empty text = tt

guest_room-IsArm : (text : Bytes) (rest : Option Bytes) → IsArm (parse_guest_room text rest)
unfolding parse_guest_room
guest_room-IsArm text none = tt
guest_room-IsArm text (some []) = guest_room_empty text
guest_room-IsArm text (some (c ∷ s)) =
    elim (Bool-cases (to_ascii_lowercase (c ∷ s) == codes "off")) [
      | inl off ↦ rw off tt
      | inr on ↦ rw on (
        λ e. cc,
        λ e. absurd (cc ((list_beq_iff (to_ascii_lowercase (c ∷ s)) (codes "off")).1 e)),
      )
    ]

delete-IsArm :
    (text : Bytes) (o : Option ℤ)
    → IsArm (elim o [ some id ↦ delete_message id | none ↦ unknown text ])
delete-IsArm text none = tt
delete-IsArm text (some id) = tt

user-IsArm :
    (rest : Option Bytes) (f : Username → Command) (other : Command)
    → ((u : Username) → IsName u → IsArm (f u))
    → IsArm other
    → IsArm (with_user (username_in rest) f other)
user-IsArm rest f other = with_user-IsArm (username_in rest) f other (Names-username_in rest)

dispatch-IsArm : (kw : Keyword) (text : Bytes) (rest : Option Bytes) → IsArm (dispatch kw text rest)
unfolding dispatch parse_timeout
dispatch-IsArm k_register text rest = with_text-IsArm rest _ _ (λ t h. h) tt
dispatch-IsArm k_login text rest = user-IsArm rest _ _ (λ u h. h) tt
dispatch-IsArm k_search text rest = with_text-IsArm rest _ _ (λ t h. h) tt
dispatch-IsArm k_delete text rest = delete-IsArm text (rest >>= parse_i64)
dispatch-IsArm k_validate text rest = user-IsArm rest _ _ (λ u h. h) tt
dispatch-IsArm k_block text rest = parse_block-IsArm text rest
dispatch-IsArm k_ban text rest = user-IsArm rest _ _ (λ u h. h) tt
dispatch-IsArm k_unban text rest = user-IsArm rest _ _ (λ u h. h) tt
dispatch-IsArm k_timeout text rest =
    timeout_words-IsArm text (split_whitespace (unwrap_or_empty rest))
dispatch-IsArm k_whois text rest = user-IsArm rest _ _ (λ u h. h) tt
dispatch-IsArm k_create_room text rest = with_text-IsArm rest _ _ (λ t h. h) tt
dispatch-IsArm k_delete_room text rest = with_text-IsArm rest _ _ (λ t h. h) tt
dispatch-IsArm k_edit_user text rest = user-IsArm rest _ _ (λ u h. h) tt
dispatch-IsArm k_delete_user text rest = user-IsArm rest _ _ (λ u h. h) tt
dispatch-IsArm k_aide text rest = user-IsArm rest _ _ (λ u h. h) tt
dispatch-IsArm k_sysop text rest = user-IsArm rest _ _ (λ u h. h) tt
dispatch-IsArm k_user text rest = user-IsArm rest _ _ (λ u h. h) tt
dispatch-IsArm k_password text rest = user-IsArm rest _ _ (λ u h. h) tt
dispatch-IsArm k_guest text rest = guest_room-IsArm text rest
dispatch-IsArm _ text rest = tt

keyword-IsArm :
    (text : Bytes) (rest : Option Bytes) (o : Option Keyword)
    → IsArm (elim o [ some kw ↦ dispatch kw text rest | none ↦ unknown text ])
keyword-IsArm text rest none = tt
keyword-IsArm text rest (some kw) = dispatch-IsArm kw text rest

parse_keyword-IsArm : (text : Bytes) → IsArm (parse_keyword text)
unfolding parse_keyword
parse_keyword-IsArm text =
    keyword-IsArm text (split_first_word text).1
      (keyword_of (to_ascii_lowercase (split_first_word text).0) keywords)

-- Where no prompt is open, a line that is not CANCEL or STOP gives a command whose arguments are
-- valid: its usernames passed validation, a timeout is one to five days, the names and the query
-- are not empty, and it is no reply and no one-shot login or registration.
pub parse-IsArm : (line : Bytes) → is_cancel (trim line) ≡ false → IsArm (parse line false)
unfolding parse
parse-IsArm line h = elim (Bool-cases (is_empty (trim line))) [
  | inl blank ↦ rw (h, blank, parse_trimmed) tt
  | inr full ↦ rw (h, full, parse_trimmed) (parse_keyword-IsArm (trim line))
]
