-- ===== src/Accounting/Vocabulary.antt =====
-- The vocabulary of src/privacy_hud/accounting.py: its `Literal` types, with the equality tests.
-- Codes number the constructors in the order of the source.
pub mod Data
pub mod Hooks
pub use codex_privacy_hud.Accounting.Vocabulary.Data.{
  DataType, data_type_key, Boundary, boundary_key, DestinationKind, destination_kind_key, EventKind,
  event_kind_key, SafeSuffix, safe_suffix_key, SubjectKind, subject_kind_key,
}
pub use codex_privacy_hud.Accounting.Vocabulary.Hooks.{
  HookEvent, hook_event_key, Phase, phase_key, ActionKind, action_kind_key, DecisionKind,
  decision_kind_key, ResolutionScope, resolution_scope_key, Resolution, resolved, unresolved,
  resolution_key, ScanGap, scan_gap_key,
}
