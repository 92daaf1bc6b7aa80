-- ===== src/Lib.antt =====
-- Supply Drop BBS: the verification library of the repository.
--
-- Supply Drop BBS is a bulletin board for mesh radio. A transport (crates/bbs-mesh for MeshCore,
-- crates/bbs-meshtastic, crates/bbs-process-transport, crates/bbs-cli) turns radio traffic into
-- commands, the host (crates/bbs-core) runs them against the database, and its responses go back as
-- texts, which the radio may lose and which senders may repeat.
--
-- The files and what they model:
--   Prelude           shared names: lists, Boolean tests, equality, options, results, maps.
--   Text              the functions of std's str that the source calls, on lists of code points.
--   Identity          crates/bbs-plugin-api/src/identity.rs: usernames.
--   Permissions       crates/bbs-plugin-api/src/permissions.rs: levels and their check.
--   Command, Response crates/bbs-plugin-api/src/command.rs: Command, Command::parse (Command/Parse),
--                     Response and its methods.
--   Mesh/Session      crates/bbs-mesh/src/session.rs: SessionState, one function per method. The
--                     pieces of dispatch_message in crates/bbs-mesh/src/transport.rs that use it are
--                     in Mesh/Session/Dedup (accept_message, after_response), and the catch-up
--                     request of attempt_protect_and_update_pending in Mesh/Session/Protect.
--   Mesh/SendTracker  crates/bbs-mesh/src/send_tracker.rs: SendTracker, one function per method, with
--                     enqueue_text and retransmit_due_replies of crates/bbs-mesh/src/transport.rs.
--   Companion         crates/meshcore-companion: Companion/Frames the frames (types.rs, frame.rs),
--                     Companion/Inbound and Companion/Outbound the decoder and the encoder of
--                     frame.rs, Companion/Wire the reads and writes of numbers that they use, and
--                     Companion/Stream read_frame of client.rs,
--                     and Companion/Region the region names of scope.rs.
--   Meshtastic        crates/bbs-meshtastic/src/stream.rs: the framing of messages on the stream.
--   Advert            crates/bbs-plugin-api/src/advert.rs: the bus of heard nodes. Advert/Records the
--                     records and the rules on the protection bit, Advert/Upsert what adverts and
--                     syncs write, Advert/Decide the decision under the cap and Advert/Contract what
--                     is promised of it, Advert/Query the readers and the flush, Advert/History runs
--                     of several calls.
--   Host              crates/bbs-core/src/host.rs: Host/Users the accounts (user.rs, and the statements
--                     of db/user_store.rs), Host/State the sessions and the checks that handlers
--                     start with, Host/Login the handlers of LOGIN and the reply to its prompt,
--                     Host/Throttle the counters of failures, Host/Suspension timeouts, Host/Barred
--                     the check before every command, Host/Moderation the commands on accounts,
--                     Host/Admin admin_update_user, Host/Register registration, Host/Replies the
--                     replies inside a workflow, up to the login.
--   MeshName          crates/bbs-core/src/mesh_name.rs: the node name of adverts.
-- The other modules below these hold the proofs and are named for what they prove.
--
-- How the code is represented: a method on `&mut self` takes the state last and returns the new state
-- with its result; an operation that reads a clock takes the reading, in milliseconds (in seconds for the
-- advert bus). A `HashMap` is
-- an association list without repeated keys, and the order in which it is walked is not relied on.
-- Text is a list of code points and a key is a list of bytes. Session ids, CRCs and times are natural
-- numbers without a bound; the attempt counter, which the source keeps in a byte, is shown to stay
-- within the configured budget. In the companion codec a byte is a number, a String is its UTF-8
-- bytes, and a panic (an index out of range, a failed assertion) is an outcome of its own; the
-- conversion String::from_utf8_lossy is a parameter, of which the round trip of a contact assumes
-- that it leaves the name alone. The protobuf crate and the Unicode tables that MeshName asks are
-- parameters too, and so are UTF-8 and SHA-256 in Companion/Region. All loops are
-- structural, so there is no fuel. A handler of the host runs to its end before another starts; which
-- calls of the database fail is a parameter, and so are the check of a password and the hash that is
-- stored of a new one, the printing of a number, the id of a new row and the arms of the workflows
-- after a login.
--
-- Not modelled: input and output (radio, sockets, database, HTTP), the scheduling of the
-- asynchronous tasks, logging, and so far the rest of the host (rooms, messages, profiles) and
-- the other stores of crates/bbs-core, the backup and restore, the sessions and commands of crates/bbs-meshtastic,
-- and the process, web and command-line transports.
mod Prelude
pub mod Mesh
pub mod Companion
pub mod MeshName
pub mod Meshtastic
pub mod Text
pub mod Identity
pub mod Permissions
pub mod Command
pub mod Response
pub mod Advert
pub mod Host
