-- ===== src/Command/Modes.antt =====
-- crates/bbs-plugin-api/src/command.rs: the order of the tests of `parse`.
use supply_drop_bbs.Prelude.{
  ◌≡◌, ◌≢◌, ◌↔◌, inl, inr, refl, Bool, true, false, Bytes, nat_eq, list_eq, Bool-cases, subst,
}
use supply_drop_bbs.Text.{trim}
use supply_drop_bbs.Command.{Command, workflow_reply, cancel}
use supply_drop_bbs.Command.Parse.{parse_trimmed, parse, is_cancel}
use supply_drop_bbs.Command.Shape.{IsArm, parse-IsArm}

not_cancel : (c : Command) → IsArm c → c ≢ cancel
not_cancel c h e = subst IsArm e h

not_reply : (c : Command) (r : Bytes) → IsArm c → c ≢ workflow_reply r
not_reply c r h e = subst IsArm e h

parse_cancel :
    (line : Bytes) (awaiting : Bool) → is_cancel (trim line) ≡ true → parse line awaiting ≡ cancel
unfolding parse
parse_cancel line awaiting h = rw (h, parse_trimmed)

parse_reply :
    (line : Bytes) → is_cancel (trim line) ≡ false → parse line true ≡ workflow_reply (trim line)
unfolding parse
parse_reply line h = rw (h, parse_trimmed)

modes_of :
    (line reply : Bytes) (awaiting : Bool)
    → is_cancel (trim line) ≡ false
    → ((parse line awaiting ≡ cancel) ↔ (is_cancel (trim line) ≡ true))
      × ((parse line awaiting ≡ workflow_reply reply)
          ↔ ((is_cancel (trim line) ≡ false) × (awaiting ≡ true) × (trim line ≡ reply)))
modes_of line reply true h =
    let is : parse line true ≡ workflow_reply (trim line) = parse_reply line h in
    (
      (λ e. absurd (cc is), λ e. absurd (cc)),
      (λ e. (h, refl, cc is), λ k. let same : trim line ≡ reply = k.2 in cc is),
    )
modes_of line reply false h =
    let arm = parse-IsArm line h in
    (
      (λ e. absurd (not_cancel _ arm e), λ e. absurd (cc)),
      (λ e. absurd (not_reply _ reply arm e), λ k. absurd (cc (k.1))),
    )

-- A line gives CANCEL exactly when its word is CANCEL or STOP in any case, prompt or no prompt; and
-- it gives a reply exactly when a prompt is open and it is neither, the reply being the line
-- without the blanks around it.
pub parse_modes :
    (line reply : Bytes) (awaiting : Bool)
    → ((parse line awaiting ≡ cancel) ↔ (is_cancel (trim line) ≡ true))
      × ((parse line awaiting ≡ workflow_reply reply)
          ↔ ((is_cancel (trim line) ≡ false) × (awaiting ≡ true) × (trim line ≡ reply)))
parse_modes line reply awaiting = elim (Bool-cases (is_cancel (trim line))) [
  | inl word ↦
      let is : parse line awaiting ≡ cancel = parse_cancel line awaiting word in
      ((λ _. word, λ _. is), (λ e. absurd (cc is), λ h. absurd (cc (h.0))))
  | inr other ↦ modes_of line reply awaiting other
]
