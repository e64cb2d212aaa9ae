-- ===== src/Ledger.antt =====
-- The version-2 ledger of src/privacy_hud/ledger.py.
pub mod Tables
pub mod Identities
pub mod Batch
pub mod Loop
pub mod Recording
pub mod Targets
pub mod Sessions
pub mod Charges
pub mod Outcome
pub mod Metadata
pub mod Calls
pub mod Rows
pub mod Scores
pub mod Pairs
pub mod Fresh
pub mod Repeats
pub mod Replay
pub mod Closed
pub mod Kinds
pub mod Priced
pub mod Budgeted
pub mod Index
pub mod Links
pub mod Sound
pub mod Transactions
pub mod Spending
pub mod Summary
pub mod Percentage
pub mod Monotone
pub mod Examples
pub mod Denials
pub mod Tests
