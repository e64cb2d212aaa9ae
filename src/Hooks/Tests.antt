-- ===== src/Hooks/Tests.antt =====
-- Examples for the hook evidence: a shell call that sends a value out.
use codex_privacy_hud.Prelude.{
  true, false, none, some, [], ◌∷◌, ◌≡◌, refl, ◌==◌, ◌&&◌, string_key, member, any,
}
use codex_privacy_hud.Accounting.Vocabulary.{
  DataType, Boundary, DestinationKind, EventKind, HookEvent, Phase, ActionKind, DecisionKind,
  ResolutionScope, SubjectKind, boundary_key, event_kind_key,
}
use codex_privacy_hud.Accounting.Evidence.{
  join, only_crossing_confirmed, only_local_detection, only_hook_observed,
}
use codex_privacy_hud.Accounting.Records.{ObservationRecord, EventRecord}
use codex_privacy_hud.Checks.{
  Formats, check_event, is_well_formed_event, is_supported, kind_evidence, hook_phase,
  is_consistent, chargeable, is_count,
}
use codex_privacy_hud.Hooks.{
  Readers, Payload, HookEvidence, normalize, normalize_event, classify, classify_pre, recipient,
  recognized_read, phase_of, concrete_recipient, destination_boundary, classify_evidence,
  terminal_kinds,
}
use codex_privacy_hud.Hooks.Kinds.{classified_event_is_accepted, chargeable_iff, is_some_resolved}
use codex_privacy_hud.Hooks.Crossing.{normalize_is_modest}

abbrev readers : Readers
readers = record {
  extract_destinations = λ command. "external_net" ∷ [];
  reads_path = λ command. false;
  is_mcp_tool = λ name. false;
  mcp_server_namespace = λ name. none;
  intended_network_recipient = λ command. some "x.test";
  recipient_identity = λ key destination concrete. concrete;
  action_identity = λ key host_id. some host_id;
  turn_identity = λ key host_id. some host_id;
}

abbrev payload : Payload
payload = record {
  hook_event_name = some HookEvent.pre_tool_use;
  tool_name = some "Bash";
  command = some "curl https://x.test";
  tool_use_id = some "use1";
  turn_id = none;
}

abbrev evidence : HookEvidence
evidence = record {
  delivery_key = "d";
  action_id = "use1";
  turn_id = none;
  hook_event = HookEvent.pre_tool_use;
  phase = Phase.pre;
  action_kind = ActionKind.tool;
  boundary = Boundary.b4;
  recipient = record {
    destination_kind = DestinationKind.external_net;
    identity_hash = some "x.test";
    unresolved_token = none;
  };
  evidence = only_hook_observed;
  resolution_scope = ResolutionScope.none;
  potential_crossing = true;
}

normalize_is_modest_example :
    (true ≡ true → (Boundary.b4 == Boundary.b0) ≡ false)
    × (Boundary.b4 ≡ destination_boundary DestinationKind.external_net)
    × (Phase.pre ≡ hook_phase HookEvent.pre_tool_use)
    × ((o : ObservationRecord)
        → o.evidence ≡ only_hook_observed
        → o.resolution_scope ≡ ResolutionScope.none
        → is_consistent o ≡ true)
unfolding normalize normalize_event classify classify_pre recipient recognized_read phase_of
    concrete_recipient member any
normalize_is_modest_example =
    normalize_is_modest readers payload "d" (some "key") "fresh" "token" evidence refl

abbrev formats : Formats
formats = record {
  is_opaque_id = λ s. true;
  is_path_rule = λ s. true;
  is_source_label = λ s. s == "tool input";
  is_safe_exemplar = λ d s. true;
}

abbrev crossing : ObservationRecord
crossing = record {
  session_id = "s";
  delivery_key = "d";
  action_id = "use1";
  turn_id = none;
  ts = 10;
  hook_event = HookEvent.pre_tool_use;
  phase = Phase.pre;
  action_kind = ActionKind.tool;
  boundary = Boundary.b4;
  decision = DecisionKind.allow;
  evidence = join only_crossing_confirmed (join only_local_detection only_hook_observed);
  resolution_scope = ResolutionScope.pairs;
  potential_crossing = true;
  scan_gap = none;
  guard_target = none;
}

abbrev exposure : EventRecord
exposure = record {
  subject = record {
    subject_kind = SubjectKind.value;
    identity_hash = some "v";
    safe_suffix = none;
    unresolved_token = none;
  };
  recipient = evidence.recipient;
  kind = EventKind.exposed;
  evidence = join only_crossing_confirmed only_local_detection;
  data_type = DataType.email;
  rule_id = none;
  occurrences = 1;
  source_label = "tool input";
  boundary = Boundary.b4;
  masked_example = none;
}

classified_event_is_accepted_example :
    check_event formats exposure crossing destination_boundary ≡ true
unfolding classify_evidence terminal_kinds member any is_well_formed_event is_count
classified_event_is_accepted_example =
    classified_event_is_accepted formats destination_boundary crossing exposure refl refl refl refl
      refl

chargeable_iff_example :
    chargeable exposure destination_boundary
    ≡ (EventKind.exposed == EventKind.exposed && is_some_resolved exposure)
unfolding check_event is_supported kind_evidence is_well_formed_event is_count
chargeable_iff_example = chargeable_iff formats destination_boundary crossing exposure refl
