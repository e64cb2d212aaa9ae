-- ===== src/Lib.antt =====
-- Codex Privacy HUD: what a local daemon (src/privacy_hud) observes of the hooks of a coding agent,
-- rules on, and accounts for.
--
-- Parts, and the files that model them:
-- - Accounting (src/privacy_hud/accounting.py): the closed vocabularies (Accounting/Vocabulary), the
--   evidence bits and their stored integer (Accounting/Evidence, with `_stored_evidence` of
--   ledger.py), the records (Accounting/Records), `_partition_unresolved` (Accounting/Outcomes) and
--   `resolve_outcomes` (Accounting/Outcomes/Counts). The sets of the source are lists that are read
--   only through membership, inclusion, overlap and emptiness; the loop's local variables are the
--   record `Facts`.
-- - PromptHold (src/privacy_hud/prompt_hold.py): the confirmation gate of one session. `decide` is
--   the purge of old holds, then one of four rulings; `finish_confirmation`, `snapshot`, `restore`
--   and `clear` are functions on the record `PromptGate`. A time is a number of milliseconds, and
--   HMAC-SHA256 a parameter.
-- - Consent (src/privacy_hud/ledger.py, minimize.py): the table of one-shot consent tokens, with the
--   primary key of the table as an error of `mint_token`.
-- - Policy (src/privacy_hud/ledger.py, policy_services.py): the policy table, its reader, and the
--   checks of a rule before it is written.
-- - Engine (src/privacy_hud/engine.py, detect/paths.py): the ruling of `Engine.observe`: the network
--   block, the read guard, the map of origins, the rules of the user, the hard block of the matrix
--   and the token that lifts it, in the source's order. It reads Policy and Consent. Keyed hashes and
--   the search of a path for a sensitive name are fields of `Wiring`.
-- - Hooks (src/privacy_hud/hook_evidence.py): the normalization of a hook's payload, and the kinds of
--   event that evidence supports. The shell parser, the names of MCP tools and the keyed identities
--   are fields of `Readers`.
-- - Checks (src/privacy_hud/ledger.py): what the ledger requires of an observation and of an event
--   before it writes them, and when an event is charged. Hooks is proved against it.
-- - Ledger (src/privacy_hud/ledger.py, ledger_schema.py, budget.py, guard_targets.py): the tables
--   of version 2 (Ledger/Tables), the identities of subjects and recipients (Ledger/Identities),
--   the checks of a batch (Ledger/Batch), the loop over its events with what each is charged
--   (Ledger/Loop), `_record_observation` as `record_core` (Ledger/Recording), the guard targets
--   and `record_observation` (Ledger/Targets), the index of guard targets (Ledger/Index), the life
--   of a session (Ledger/Sessions), and `_summary_v2` (Ledger/Summary), which reads the coverage
--   of the session from the tables of `Coverage`. An operation takes the tables and returns the
--   tables after it, or raises: a savepoint that rolls back is a result without tables. `Call` and
--   `Later` (Ledger/Calls) are the calls that return and any sequence of them; `Kept` is how an
--   invariant of all of them is proved. Random identifiers are a sequence `uuid`, of which
--   theorems may ask that no two are equal; a row's number is the number of rows, since no row is
--   deleted. A score is a float that is not negative, as a whole number of the smallest float;
--   the curve of a score and the arithmetic that rounds (`Floats`) are fields of the profile, so
--   that no theorem on scores rests on exact sums. The trigger that freezes the accounting of a
--   session is `is_frozen` (Ledger/Recording). Ledger/Transactions is the connection with its
--   transactions around the calls, as `_write_transaction` ends them.
-- - Settings (src/privacy_hud/settings.py): the file of settings and the cache of it in a process.
-- - Coverage (src/privacy_hud/ledger.py): who watched a session and from when, the scan gaps, and whether
--   the account of the session is complete.
-- - Minimize (src/privacy_hud/minimize.py): the replacement of findings in a text by pseudonyms. A text is
--   a list of code points, and the pseudonym a parameter.
-- - Bands (src/privacy_hud/accounting.py, matrix/loader.py): which bands a scoring profile accepts, and the
--   name of a percentage.
-- - Prelude: shared names, tests, lists, sets, dictionaries, and keys with decidable equality.
--
-- Every loop of the source is a structural recursion or a fold over a list; no fuel is used.
--
-- Not modelled: the rebuild of the schema, the tables of version 1, how floats are rounded, the detectors, the
-- shell parser, the daemon and its protocol, the hook client, installation, and the user interfaces.
-- In `Engine.observe`, what follows the ruling (the rows that are recorded, but for the guard target,
-- and the texts of the decision), the record of a scan gap, and the RuntimeError of an engine whose
-- identity was cleared are left out; so are the checks of the delivery key and the accounting key with
-- which `normalize` begins. Of the schema's constraints and triggers, those are modelled that a part
-- above names (the primary key of the tokens, the unique keys of coverage, the clauses of the guard
-- targets, the trigger on a session's score); the CHECK, UNIQUE and FOREIGN KEY clauses and the other
-- triggers are not.
pub mod Prelude
pub mod Accounting
pub mod PromptHold
pub mod Consent
pub mod Policy
pub mod Engine
pub mod Coverage
pub mod Minimize
pub mod Bands
pub mod Checks
pub mod Ledger
pub mod Settings
pub mod Hooks
