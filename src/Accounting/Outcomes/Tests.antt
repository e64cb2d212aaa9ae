-- ===== src/Accounting/Outcomes/Tests.antt =====
-- Examples for the outcomes of src/privacy_hud/accounting.py: a read that was denied with effect at
-- one hook and seen to run at another.
use mathlib.Core.List.Perm
use mathlib.Core.List.{mem-cons_self, mem-cons_of_mem}
use codex_privacy_hud.Prelude.{
  ◌≤◌, true, none, some, List, [], ◌∷◌, ◌≡◌, refl, ◌↔◌, member, count_where, string_key,
}
use codex_privacy_hud.Accounting.Vocabulary.{
  Boundary, EventKind, HookEvent, Phase, ActionKind, DecisionKind, ResolutionScope, Resolution,
}
use codex_privacy_hud.Accounting.Evidence.{
  to_int, stored_evidence, join, only_deny_issued, only_deny_enforced, only_execution_observed,
  executed_bits,
}
use codex_privacy_hud.Accounting.Evidence.Stored.{stored_evidence-to_int}
use codex_privacy_hud.Accounting.Records.{ObservationRecord, OutcomeObservation, OutcomeEvent}
use codex_privacy_hud.Accounting.Outcomes.{Seen, pair, partition_unresolved}
use codex_privacy_hud.Accounting.Outcomes.Order.{partition_unresolved-perm}
use codex_privacy_hud.Accounting.Outcomes.Conflicts.{partition_unresolved_of_conflict}
use codex_privacy_hud.Accounting.Outcomes.Counts.{unresolved, resolve_outcomes}
use codex_privacy_hud.Accounting.Outcomes.Counts.Unresolved.{boundary_open, unresolved_iff}
use codex_privacy_hud.Accounting.Outcomes.Counts.Stopped.{acted, was_stopped, reads_stopped_iff}

abbrev before : ObservationRecord
before = record {
  session_id = "s";
  delivery_key = "d1";
  action_id = "a";
  turn_id = none;
  ts = 10;
  hook_event = HookEvent.pre_tool_use;
  phase = Phase.pre;
  action_kind = ActionKind.read;
  boundary = Boundary.b1;
  decision = DecisionKind.deny;
  evidence = join only_deny_issued only_deny_enforced;
  resolution_scope = ResolutionScope.pairs;
  potential_crossing = true;
  scan_gap = none;
  guard_target = none;
}

abbrev after : ObservationRecord
after = record before {
  delivery_key = "d2";
  hook_event = HookEvent.post_tool_use;
  phase = Phase.post;
  decision = DecisionKind.none;
  evidence = only_execution_observed;
  resolution_scope = ResolutionScope.none;
}

abbrev stopped : OutcomeEvent
stopped = record {
  observation_id = "o1";
  subject_id = "x";
  recipient_id = "y";
  subject_resolution = Resolution.resolved;
  recipient_resolution = Resolution.resolved;
  kind = EventKind.prevented;
  evidence = join only_deny_issued only_deny_enforced;
}

abbrev ran : OutcomeEvent
ran = record stopped {
  observation_id = "o2";
  kind = EventKind.local_access;
  evidence = only_execution_observed;
}

abbrev seen_before : Seen
seen_before = (before, stopped ∷ [])

abbrev seen_after : Seen
seen_after = (after, ran ∷ [])

abbrev observations : List OutcomeObservation
observations =
    record { observation_id = "o1"; observed = before }
    ∷ record { observation_id = "o2"; observed = after }
    ∷ []

stored_evidence-to_int_example :
    (to_int executed_bits ≤ 2047) × (stored_evidence (to_int executed_bits) ≡ some executed_bits)
stored_evidence-to_int_example = stored_evidence-to_int executed_bits

partition_unresolved-perm_example :
    partition_unresolved (seen_before ∷ seen_after ∷ [])
    ≡ partition_unresolved (seen_after ∷ seen_before ∷ [])
partition_unresolved-perm_example = partition_unresolved-perm (Perm.swap seen_after seen_before [])

partition_unresolved_of_conflict_example :
    partition_unresolved (seen_before ∷ seen_after ∷ []) ≡ true
unfolding pair
partition_unresolved_of_conflict_example =
    partition_unresolved_of_conflict (seen_before ∷ seen_after ∷ []) ran stopped ("x", "y")
      (record {
        by = seen_after;
        in_group = mem-cons_of_mem seen_before mem-cons_self;
        in_events = mem-cons_self;
      })
      (record { by = seen_before; in_group = mem-cons_self; in_events = mem-cons_self }) refl refl
      refl refl

unresolved_iff_example :
    (member "a" (unresolved observations (stopped ∷ ran ∷ [])) ≡ true)
    ↔ ((b : Boundary) × (boundary_open "a" b observations (stopped ∷ ran ∷ []) ≡ true))
unresolved_iff_example = unresolved_iff observations (stopped ∷ ran ∷ []) "a"

-- The read that was denied, without what came after
abbrev denial : OutcomeObservation
denial = record { observation_id = "o1"; observed = before }

reads_stopped_iff_example :
    (resolve_outcomes (denial ∷ []) (stopped ∷ [])).reads_stopped
    ≡ count_where (was_stopped (denial ∷ []) (stopped ∷ [])) (acted (denial ∷ []))
reads_stopped_iff_example = reads_stopped_iff (denial ∷ []) (stopped ∷ [])
