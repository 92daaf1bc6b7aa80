-- ===== src/Response.antt =====
-- crates/bbs-plugin-api/src/command.rs: what the host answers, and how a transport shows it.
use supply_drop_bbs.Prelude.{Bool, true, false, Option, some, List, [], ◌∷◌, ◌++◌, Bytes, codes}
use supply_drop_bbs.Identity.{Username}

pub data Response : Type 0 where
  text : Bytes → Response
  prompt : Bytes → Bool → Response
  logged_in : Username → Response
  logged_out : Response
  error : Bytes → Response
  multi_text : List Bytes → Response

-- `Vec::join("\n")`.
abbrev pub join_lines : List Bytes → Bytes
join_lines [] = []
join_lines (p ∷ []) = p
join_lines (p ∷ q ∷ ps) = p ++ (10 ∷ join_lines (q ∷ ps))

unfoldable pub render : Response → Option Bytes
render (text t) = some t
render (prompt t hide_input) = some t
render (logged_in u) = some (codes "Welcome, " ++ (u.as_str ++ codes ". Type 'H' for commands."))
render logged_out = some (codes "Goodbye. Your session has ended.")
render (error e) = some (codes "Error: " ++ e)
render (multi_text parts) = some (join_lines parts)

unfoldable pub sets_awaiting_reply : Response → Bool
sets_awaiting_reply (prompt t hide_input) = true
sets_awaiting_reply _ = false

unfoldable pub hides_next_input : Response → Bool
hides_next_input (prompt t hide_input) = hide_input
hides_next_input _ = false
