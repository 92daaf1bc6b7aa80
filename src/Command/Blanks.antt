-- ===== src/Command/Blanks.antt =====
-- crates/bbs-plugin-api/src/command.rs: blanks around a line do not matter, and which lines are taken
-- as the answer to a prompt.
use supply_drop_bbs.Prelude.{◌≡◌, Bool, ◌++◌, Bytes, nat_eq, list_eq, ap}
use supply_drop_bbs.Text.Trim.{IsBlank, trim_pad}
use supply_drop_bbs.Command.Parse.{parse_trimmed, parse}

-- A line means the same with blanks before and behind it.
pub parse_pad :
    (a line b : Bytes) (awaiting : Bool)
    → IsBlank a
    → IsBlank b
    → parse (a ++ (line ++ b)) awaiting ≡ parse line awaiting
unfolding parse
parse_pad a line b awaiting ha hb = ap (λ s. parse_trimmed s awaiting) (trim_pad a line b ha hb)
