-- ===== src/Ledger/Denials.antt =====
-- The ledger at work: a denied read, recorded with its guard target.

use codex_privacy_hud.Prelude.{
  false, none, some, [], ◌∷◌, ◌≡◌, refl, string_key, count_where, all, any, member, lookup, upsert,
  filter,
}
use codex_privacy_hud.Prelude.Results.{Result, raised, returned}
use codex_privacy_hud.Accounting.Vocabulary.{
  DataType, Boundary, DestinationKind, EventKind, ActionKind, DecisionKind, ResolutionScope,
  SubjectKind,
}
use codex_privacy_hud.Accounting.Evidence.{join, only_hook_observed, only_deny_issued}
use codex_privacy_hud.Accounting.Records.{ObservationRecord, EventRecord}
use codex_privacy_hud.Checks.{
  check_start_observation, check_observation, is_well_formed_observation, is_count, hook_phase,
  is_consistent, check_event, is_well_formed_event, is_supported, kind_evidence, chargeable,
}
use codex_privacy_hud.Ledger.Batch.{check_batch, same_action_kind, event_key}
use codex_privacy_hud.Ledger.Identities.{
  identity_id, known_identity, find_identity, settle, add_identity,
}
use codex_privacy_hud.Ledger.Loop.{record_event, record_events, charge, add_event, add_disclosure}
use codex_privacy_hud.Ledger.Tables.{
  LedgerError, Db, RecordResult, find_session, update_session, next_disclosure_delta, group_score,
  group_size,
}
use codex_privacy_hud.Ledger.Targets.{
  record_observation, with_target, record_target, record_found, is_guard_observation,
  is_guarded_event, insert_target, accepts_target, same_exists, settle_target,
}
use codex_privacy_hud.Ledger.Index.{GuardTargetIndex, record_guarded, prepare, remember, receipt}
use codex_privacy_hud.Ledger.Recording.{
  record_core, record_in, record_delivery, record_new, find_delivery, finish, score_after,
  is_frozen,
}
use codex_privacy_hud.Ledger.Sessions.{start_at, activate, start_accounted_session}
use codex_privacy_hud.Ledger.Calls.{no_tables}
use codex_privacy_hud.Ledger.Examples.{uuid, formats, crossing, exposure, started, sent_result}

-- A read that was denied, of a file that a rule names
abbrev pub denied : ObservationRecord
denied = record crossing {
  delivery_key = "d2";
  action_id = "use2";
  action_kind = ActionKind.read;
  boundary = Boundary.b0;
  decision = DecisionKind.deny;
  evidence = join only_deny_issued only_hook_observed;
  resolution_scope = ResolutionScope.none;
}

abbrev pub prevention : EventRecord
prevention = record exposure {
  subject = record {
    subject_kind = SubjectKind.file;
    identity_hash = none;
    safe_suffix = none;
    unresolved_token = some "t";
  };
  recipient = record {
    destination_kind = DestinationKind.local;
    identity_hash = none;
    unresolved_token = some "t";
  };
  kind = EventKind.prevented;
  evidence = only_deny_issued;
  data_type = DataType.path;
  rule_id = some "path.env";
  source_label = "local file";
  boundary = Boundary.b0;
}

-- The index, the tables and the result after the denied read
unfoldable pub guarded : Result LedgerError (GuardTargetIndex × (Db × RecordResult))
guarded = record_guarded uuid formats "h" "g" "path.env" denied (prevention ∷ []) false [] started

abbrev pub made_of :
    Result LedgerError (GuardTargetIndex × (Db × RecordResult))
    → GuardTargetIndex × (Db × RecordResult)
made_of (raised e) = ([], (no_tables, sent_result))
made_of (returned m) = m

-- The run, what the index then knows, and the call of the ledger in it
guarded_run :
    (guarded ≡ returned (made_of guarded))
    × ((made_of guarded).0 ≡ ("h", ("g", 1)) ∷ [])
    × (record_observation uuid formats
          (record denied { guard_target = some (prepare "h" "g" "path.env" []) })
          (prevention ∷ [])
          started
        ≡ returned ((made_of guarded).1.0, (made_of guarded).1.1))
unfolding guarded record_guarded record_target record_found is_guard_observation is_guarded_event
    insert_target accepts_target same_exists settle_target prepare remember receipt lookup upsert
    filter started start_accounted_session uuid find_session start_at activate
    check_start_observation check_observation is_well_formed_observation is_count hook_phase
    is_consistent record_core record_in record_delivery record_new find_delivery check_batch
    record_events finish score_after is_frozen update_session same_action_kind all check_event
    is_well_formed_event is_supported kind_evidence event_key member any record_event identity_id
    known_identity find_identity settle add_identity charge add_event add_disclosure chargeable
    with_target record_observation next_disclosure_delta group_score group_size count_where
guarded_run = (refl, refl, refl)

pub guarded_call : guarded ≡ returned (made_of guarded)
guarded_call = guarded_run.0

pub guarded_record_call :
    record_observation uuid formats
      (record denied { guard_target = some (prepare "h" "g" "path.env" []) })
      (prevention ∷ [])
      started
    ≡ returned ((made_of guarded).1.0, (made_of guarded).1.1)
guarded_record_call = guarded_run.2

pub guarded_index : (made_of guarded).0 ≡ ("h", ("g", 1)) ∷ []
guarded_index = guarded_run.1
