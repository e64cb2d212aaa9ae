-- ===== src/Checks.antt =====
-- What the ledger checks of the records that it is handed: the checks of
-- src/privacy_hud/ledger.py before a version-2 write. The result of a check is whether it returns; where
-- it does not, the source raises `ValueError`. Tests of types that the model's types make are not
-- repeated. Parameters, in `Formats`: the regular expression of an opaque identifier, and the closed
-- set and format of texts. `profile` is the map from destinations to boundaries of a scoring profile.
use codex_privacy_hud.Prelude.{
  ℕ, ◌^◌, String, Bool, true, not, ◌&&◌, ◌||◌, Option, none, some, ◌==◌, ltb, leb, is_some,
  string_key,
}
use codex_privacy_hud.Accounting.Vocabulary.{
  DataType, Boundary, DestinationKind, EventKind, HookEvent, Phase, ActionKind, DecisionKind,
  ResolutionScope, boundary_key, event_kind_key, decision_kind_key, phase_key, hook_event_key,
  action_kind_key, resolution_scope_key,
}
use codex_privacy_hud.Accounting.Evidence.{
  Evidence, join, meets, within, only_deny_issued, only_deny_enforced,
  only_rejected_before_crossing, only_rewrite_enforced, only_local_detection,
  only_execution_observed, only_permission_issued, only_crossing_confirmed,
  only_persistence_observed, only_hook_observed,
}
use codex_privacy_hud.Accounting.Records.{ObservationRecord, EventRecord}

pub record Formats : Type 0 where
  pub is_opaque_id : String → Bool
  pub is_path_rule : String → Bool
  pub is_source_label : String → Bool
  pub is_safe_exemplar : DataType → Option String → Bool

-- `_HOOK_PHASE`
unfoldable pub hook_phase : HookEvent → Phase
hook_phase HookEvent.pre_tool_use = Phase.pre
hook_phase HookEvent.user_prompt_submit = Phase.pre
hook_phase HookEvent.post_tool_use = Phase.post
hook_phase HookEvent.session_start = Phase.lifecycle
hook_phase HookEvent.session_end = Phase.lifecycle
hook_phase HookEvent.subagent_start = Phase.lifecycle
hook_phase HookEvent.subagent_stop = Phase.lifecycle
hook_phase HookEvent.pre_compact = Phase.lifecycle

-- `_KIND_EVIDENCE`
unfoldable pub kind_evidence : EventKind → Evidence
kind_evidence EventKind.detected = only_local_detection
kind_evidence EventKind.local_access = only_execution_observed
kind_evidence EventKind.permitted = only_permission_issued
kind_evidence EventKind.exposed = only_crossing_confirmed
kind_evidence EventKind.prevented =
    join only_deny_issued
      (join only_deny_enforced (join only_rewrite_enforced only_rejected_before_crossing))
kind_evidence EventKind.retention = only_persistence_observed

-- `_RESOLVING_EVIDENCE`
abbrev pub resolving_evidence : Evidence
resolving_evidence =
    join only_deny_enforced
      (join only_rewrite_enforced (join only_crossing_confirmed only_rejected_before_crossing))

-- `_is_count`: at least `low`, and less than `_MAX_INTEGER`
unfoldable pub is_count : ℕ → ℕ → Bool
is_count n low = leb low n && ltb n (2 ^ 63)

-- A missing text, or one that the test accepts.
abbrev pub if_given : (String → Bool) → Option String → Bool
if_given test none = true
if_given test (some s) = test s

unfoldable pub is_well_formed_observation : Formats → ObservationRecord → Bool
is_well_formed_observation fm o =
    fm.is_opaque_id o.delivery_key
    && fm.is_opaque_id o.action_id
    && if_given fm.is_opaque_id o.turn_id
    && is_count o.ts 0
    && o.phase == hook_phase o.hook_event
    && (not (is_some o.scan_gap) || not (o.phase == Phase.lifecycle))

-- The second half of `_check_observation`: the evidence agrees with the decision.
unfoldable pub is_consistent : ObservationRecord → Bool
is_consistent o = not (
    (o.evidence.deny_issued && not (o.decision == DecisionKind.deny))
    || (o.evidence.rewrite_issued && not (o.decision == DecisionKind.rewrite))
    || (o.evidence.permission_issued
        && not (o.decision == DecisionKind.allow || o.decision == DecisionKind.rewrite))
    || (not (o.resolution_scope == ResolutionScope.none)
        && not (meets o.evidence resolving_evidence)))

-- `_check_observation`
unfoldable pub check_observation : Formats → ObservationRecord → Bool
check_observation fm o = is_well_formed_observation fm o && is_consistent o

-- `o.evidence != Evidence.HOOK_OBSERVED`
abbrev is_hook_observed : Evidence → Bool
is_hook_observed e = within e only_hook_observed && within only_hook_observed e

-- `_check_start_observation`
unfoldable pub check_start_observation : Formats → ObservationRecord → String → Bool
check_start_observation fm o session_id =
    check_observation fm o
    && o.session_id == session_id
    && o.hook_event == HookEvent.session_start
    && o.phase == Phase.lifecycle
    && o.action_kind == ActionKind.lifecycle
    && o.boundary == Boundary.b0
    && o.decision == DecisionKind.none
    && not (is_some o.scan_gap)
    && not o.potential_crossing
    && is_hook_observed o.evidence
    && o.resolution_scope == ResolutionScope.none

unfoldable pub is_well_formed_event : Formats → EventRecord → Bool
is_well_formed_event fm e =
    if_given fm.is_path_rule e.rule_id
    && is_count e.occurrences 1
    && fm.is_source_label e.source_label
    && fm.is_safe_exemplar e.data_type e.masked_example

-- The second half of `_check_event`
unfoldable pub is_supported : EventRecord → ObservationRecord → (DestinationKind → Boundary) → Bool
is_supported e o profile = not (
    not (within e.evidence o.evidence)
    || not (e.boundary == o.boundary)
    || not (e.boundary == profile e.recipient.destination_kind)
    || not (meets e.evidence (kind_evidence e.kind))
    || (e.kind == EventKind.exposed && e.boundary == Boundary.b0)
    || (e.kind == EventKind.local_access && not (e.boundary == Boundary.b0)))

-- `_check_event`
unfoldable pub check_event :
    Formats → EventRecord → ObservationRecord → (DestinationKind → Boundary) → Bool
check_event fm e o profile = is_well_formed_event fm e && is_supported e o profile

-- `_chargeable`
unfoldable pub chargeable : EventRecord → (DestinationKind → Boundary) → Bool
chargeable e profile =
    e.kind == EventKind.exposed
    && e.evidence.crossing_confirmed
    && not (e.boundary == Boundary.b0)
    && e.boundary == profile e.recipient.destination_kind
    && is_some e.subject.identity_hash
    && is_some e.recipient.identity_hash
