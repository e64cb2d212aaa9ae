-- ===== src/Accounting.antt =====
-- src/privacy_hud/accounting.py, the pure core of version-2 accounting.
pub mod Vocabulary
pub mod Evidence
pub mod Records
pub mod Outcomes
