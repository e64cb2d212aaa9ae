-- ===== src/Accounting/Records.antt =====
-- The records of src/privacy_hud/accounting.py that observations and events are made of. A digest
-- and an opaque identifier are texts: the program only compares them. The checks of types that the
-- model's own types make are not repeated.
use codex_privacy_hud.Prelude.{ℕ, String, Bool, Option}
use codex_privacy_hud.Accounting.Vocabulary.{
  DataType, Boundary, DestinationKind, EventKind, HookEvent, Phase, ActionKind, DecisionKind,
  ResolutionScope, Resolution, ScanGap, SafeSuffix, SubjectKind,
}
use codex_privacy_hud.Accounting.Evidence.{Evidence}

abbrev pub Digest : Type 0
Digest = String

abbrev pub OpaqueId : Type 0
OpaqueId = String

pub record SubjectInput : Type 0 where
  pub subject_kind : SubjectKind
  pub identity_hash : Option Digest
  pub safe_suffix : Option SafeSuffix
  pub unresolved_token : Option String

pub record RecipientInput : Type 0 where
  pub destination_kind : DestinationKind
  pub identity_hash : Option Digest
  pub unresolved_token : Option String

pub record GuardTarget : Type 0 where
  pub target_id : OpaqueId
  pub rule_id : String
  pub same_as_event_id : Option ℕ

pub record ObservationRecord : Type 0 where
  pub session_id : String
  pub delivery_key : OpaqueId
  pub action_id : OpaqueId
  pub turn_id : Option OpaqueId
  pub ts : ℕ
  pub hook_event : HookEvent
  pub phase : Phase
  pub action_kind : ActionKind
  pub boundary : Boundary
  pub decision : DecisionKind
  pub evidence : Evidence
  pub resolution_scope : ResolutionScope
  pub potential_crossing : Bool
  pub scan_gap : Option ScanGap
  pub guard_target : Option GuardTarget

pub record EventRecord : Type 0 where
  pub subject : SubjectInput
  pub recipient : RecipientInput
  pub kind : EventKind
  pub evidence : Evidence
  pub data_type : DataType
  pub rule_id : Option String
  pub occurrences : ℕ
  pub source_label : String
  pub boundary : Boundary
  pub masked_example : Option String

pub record OutcomeObservation : Type 0 where
  pub observation_id : OpaqueId
  pub observed : ObservationRecord

pub record OutcomeEvent : Type 0 where
  pub observation_id : OpaqueId
  pub subject_id : OpaqueId
  pub recipient_id : OpaqueId
  pub subject_resolution : Resolution
  pub recipient_resolution : Resolution
  pub kind : EventKind
  pub evidence : Evidence

pub record OutcomeCounts : Type 0 where
  pub permission_actions : ℕ
  pub denials_issued : ℕ
  pub denials_enforced : ℕ
  pub reads_stopped : ℕ
  pub rewrite_actions_issued : ℕ
  pub rewrite_actions_enforced : ℕ
  pub unresolved_actions : ℕ
