-- ===== src/Lib.antt =====
-- OMNI OS is a private vault of memories for one person, with a local core (crates/omni-core) that
-- decides what leaves the device, and a private network (crates/omni-vpn) whose gateway answers only
-- clients that knock with a signed request. This library models the parts of both crates that decide,
-- and proves that they decide as they should.
--
-- The parts and how they interact
-- - The vault (crates/omni-core/src/vault.rs) holds sources, memories with their history, grants and
--   receipts in an encrypted SQLite database. A request that uses memories names a grant; `context`
--   selects what the grant authorizes and, right before sending, `current_context_receipt` selects
--   again and records what is disclosed.
-- - Every request is inspected, with its files, and judged by up to two policies, one of the
--   organization, read from a protected file at the start, and one that the owner edits
--   (crates/omni-core/src/policy.rs). A decision on it is kept.
-- - Beside the owner, an installation for work approves clients one by one, with tokens of their own, and
--   binds grants to them (crates/omni-core/src/work.rs).
-- - A conversation that the owner opts to save keeps its exchanges for a time. A request on one is
--   prepared, sent to a provider and finished; the reply is saved only if the request is still pending
--   (crates/omni-core/src/continuity.rs).
-- - A change of a memory, a source, a grant or the policy writes a record of the audit journal in the
--   same transaction; a blocked request writes one after its decision is kept
--   (crates/omni-core/src/journal.rs). The journal also follows each request as an interaction.
-- - In the network, a knock is a signed UDP payload inside a WireGuard tunnel. The verifier admits it
--   at most once (crates/omni-vpn/src/knock.rs), the payload travels in IPv4/UDP frames
--   (crates/omni-vpn/src/wire.rs), and an admitted client may move to a new key, with an overlap in
--   which both are valid (crates/omni-vpn/src/rotation.rs). The server's loop
--   (crates/omni-vpn/src/server.rs) authenticates a knock, keeps the keys of its clients, and saves its
--   state before it answers.
--
-- The files
-- - Prelude: the libraries' names, Boolean tests, lists on native numbers, fallible code as `Result`
--   with do blocks (`anyhow::Result`), association lists for maps, and what the code uses of `str`.
-- - Core/Errors: one value for each message of the code.
-- - Core/Audit: `audit_on`, `valid_action`, `identifier`, `bounded_metadata`, `metric`,
--   `sanitize_error`. The journal is a list of records, newest first; the random id and the time of a
--   record are an argument, `Stamp`. Core/Audit/Clean is about what a journal can hold.
-- - Core/Policy: `PolicySpec`, `CompiledPolicy::compile` and `CompiledPolicy::evaluate`, with the regex
--   engine and the digest as a record of operations, `Engine`. Core/Policy/Inspect: `Inspection` and
--   `Inspection::visit` on JSON trees. Core/Policy/Files: `Inspection::new` on text files.
--   Core/Policy/Managed: `load_managed_pinned` and `managed_from_env`. Core/Policy/Store: the tables of
--   the policy and its decisions, with `policy_current`, `policy_view`, `policy_save`,
--   `policy_evaluate` and `policy_decisions`. Proofs: Compile, Verdict, Seen, Whole, Trusted, Saved,
--   Decided and Retained.
-- - Core/Vault: the tables as lists of rows in a record, `add_memory`, `update_memory`,
--   `delete_memory`, `delete_source` and `memories`. Core/Vault/Context: `create_grant`, `revoke` and
--   `context`. Core/Vault/Receipts: `receipt`, `current_context_receipt` and `receipt_status`. Proofs:
--   Selected, Revoked, Disclosed, Deleted and Valid. Core/Vault/Capture: `add_capture`. Core/Vault/Steps:
--   the successful operations as a step relation.
-- - Core/Work: the tables of the installation beside its vault, with `enable_work`,
--   `create_work_client`, `active_client` and `authenticate_client`. Core/Work/Access: `revoke_client`,
--   `bind_work_grant`, `authorize_principal` and `record_work_request`. Proofs: Steps, Ended and Allowed.
-- - Core/Continuity: the tables of saved conversations, `prune_conversations`, `conversations`,
--   `conversation`, `create_conversation`, `delete_conversation` and `clear_conversation_attempt`.
--   Core/Continuity/Exchange: `prepare_conversation` and `finish_conversation`. Core/Continuity/Talk: the
--   abstract conversation and the operations on it, and the view of the tables as one. Proofs: Rows,
--   Tables, Updates, Inserts, Created, Exchanged, Bounds and Steps for the refinement; Prepared, History
--   and Replayed.
-- - Core/Journal: the records of interactions, with `journal_start`, `journal_finish`, `journal_prune`,
--   `journal_delete_history`, `journal_recover_interrupted` and `estimated_cost`. Proofs: Sound,
--   Recovered and Restarted.
-- - Vpn/Keys: `decode_key` of crates/omni-vpn/src/lib.rs. Vpn/Knock: requests, acknowledgements and the
--   verifier. Vpn/Wire: `udp_frame`, `udp_payload` and `checksum`. Vpn/Rotation: every operation of
--   `Rotation`. Vpn/Server: `cleanup`, `recent_handshake`, `admission` and the handling of a request.
--   Vpn/Server/Loop: the start of `run` and one round of its loop. Proofs: their child modules, with
--   Exclusive, Served, Reached and Started for the keys of the server, and Meanwhile, Prepared and Agreed
--   for both sides of a rotation.
--
-- How state and failure are modelled
-- An operation takes the state and returns the state after it with its result. Where it runs in a
-- transaction, a failure leaves the state, and the model returns the error alone; where it does not
-- (`policy_evaluate`, `Verifier::authenticate`, the operations on conversations, one request of the
-- server), the state after a failure is returned too. Foreign keys with ON DELETE CASCADE and
-- primary keys are written out. A random id, a key or a reading of the clock is an argument, so
-- that a theorem holds for every one. A time that the code keeps as RFC 3339 text in UTC is a
-- number, in the same order.
--
-- Bounds and fuel
-- Sums of fixed width keep their wrap-around or saturation (`saturating_add`, `% 65536`, and the limit
-- 2 ^ 63 of SQLite's integers in `metric` and `policy_save`). The loop that folds the carries of a
-- checksum runs on fuel: two rounds are enough for every sum of 32 bits, which is proved. All other
-- loops are recursion on lists or JSON trees.
--
-- What is not modelled
-- HMAC-SHA256, SHA-256, X25519, base64, JSON texts, regular expressions, the lower case of Unicode
-- and what the file system answers are parameters, as records of functions, since their code lives
-- in other packages. So are the arithmetic of `f64`, the answers of `wg`, `nft` and the disk, and
-- `normalize_base` of crates/omni-core/src/config.rs, which stands on a URL parser. The HTTP
-- server, the embedded runtime, the device plugin, the desktop application, the browser extension,
-- the collector and the scripts are glue and user interface. The views that only read (`work_view`,
-- `conversation_messages`, `journal_history`, `journal_logs`, `journal_usage`), consent in the
-- vault, the rewriting of chat messages (`prepare_files`), configuration, recovery archives and
-- analytics reports stand outside this library so far. A revision of a conversation is a natural
-- number; a negative one in a request equals none that is stored. Two threads in one operation are
-- not modelled: each operation is one step, as the lock around the vault makes it.
pub mod Prelude
pub mod Vpn
pub mod Core
