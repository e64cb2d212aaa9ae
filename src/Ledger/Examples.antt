-- ===== src/Ledger/Examples.antt =====
-- The ledger at work: a session that sends an address out, and ends.
use Prim.Native.Nat.{zero, suc, ◌*◌, ◌/◌}
use text.Mathlib.TextLemmas.{length-append}
use Prim.Native.String.{count, ◌++◌ as str_append}
use codex_privacy_hud.Prelude.{
  ℕ, ◌+◌, true, false, none, some, List, [], ◌∷◌, ◌≡◌, refl, sym, ap, ◌∙◌, arith, string_key,
  count_where, all, any, member,
}
use codex_privacy_hud.Prelude.Results.{Result, raised, returned}
use codex_privacy_hud.Accounting.Vocabulary.{
  DataType, Boundary, DestinationKind, EventKind, HookEvent, Phase, ActionKind, DecisionKind,
  ResolutionScope, SubjectKind,
}
use codex_privacy_hud.Accounting.Evidence.{
  join, only_crossing_confirmed, only_local_detection, only_hook_observed,
}
use codex_privacy_hud.Accounting.Records.{OpaqueId, ObservationRecord, EventRecord}
use codex_privacy_hud.Checks.{
  Formats, check_start_observation, check_observation, is_well_formed_observation, is_count,
  hook_phase, is_consistent, check_event, is_well_formed_event, is_supported, kind_evidence,
  chargeable,
}
use codex_privacy_hud.Ledger.Batch.{check_batch, same_action_kind, event_key}
use codex_privacy_hud.Ledger.Identities.{
  identity_id, known_identity, find_identity, settle, add_identity,
}
use codex_privacy_hud.Ledger.Loop.{record_event, record_events, charge, add_event, add_disclosure}
use codex_privacy_hud.Ledger.Tables.{
  LedgerError, Profile, AccountedSession, Db, RecordResult, find_session, update_session,
  next_disclosure_delta, group_score, group_size,
}
use codex_privacy_hud.Ledger.Targets.{record_observation, with_target}
use codex_privacy_hud.Ledger.Recording.{
  record_core, record_in, record_delivery, record_new, find_delivery, finish, score_after,
  is_frozen,
}
use codex_privacy_hud.Ledger.Sessions.{start_at, activate, start_accounted_session, ended_tables}
use codex_privacy_hud.Ledger.Kinds.{kind_of}
use codex_privacy_hud.Ledger.Calls.{Call, Later, Reached, no_tables}

-- Identifiers: `n` strokes
unfoldable pub uuid : ℕ → OpaqueId
uuid zero = ""
uuid (suc n) = str_append "u" (uuid n)

count-uuid : (n : ℕ) → count (uuid n) ≡ n
unfolding uuid
count-uuid zero = refl
count-uuid (suc n) = length-append "u" (uuid n) ∙ omega (arith, count-uuid n)

pub distinct : (i j : ℕ) → uuid i ≡ uuid j → i ≡ j
distinct i j h = sym (count-uuid i) ∙ ap count h ∙ count-uuid j

abbrev pub formats : Formats
formats = record {
  is_opaque_id = λ s. true;
  is_path_rule = λ s. true;
  is_source_label = λ s. true;
  is_safe_exemplar = λ d s. true;
}

abbrev pub boundary_of : DestinationKind → Boundary
boundary_of DestinationKind.external_net = Boundary.b4
boundary_of d = Boundary.b0

-- Scores that are small whole numbers, of which no sum is rounded
abbrev total : List ℕ → ℕ
total [] = 0
total (x ∷ xs) = x + total xs

abbrev pub profile : Profile
profile = record {
  budget_cap = 120;
  destination_boundary = boundary_of;
  curve = λ d to n. 2;
  storable_limit = 1000;
  floats = record {
    plus = λ a b. a + b;
    sum = total;
    rounded_percent = λ score cap. 100 * score / cap;
  };
}

abbrev pub start : ObservationRecord
start = record {
  session_id = "s";
  delivery_key = "d0";
  action_id = "start";
  turn_id = none;
  ts = 10;
  hook_event = HookEvent.session_start;
  phase = Phase.lifecycle;
  action_kind = ActionKind.lifecycle;
  boundary = Boundary.b0;
  decision = DecisionKind.none;
  evidence = only_hook_observed;
  resolution_scope = ResolutionScope.none;
  potential_crossing = false;
  scan_gap = none;
  guard_target = none;
}

abbrev pub crossing : ObservationRecord
crossing = record start {
  delivery_key = "d1";
  action_id = "use1";
  hook_event = HookEvent.pre_tool_use;
  phase = Phase.pre;
  action_kind = ActionKind.tool;
  boundary = Boundary.b4;
  decision = DecisionKind.allow;
  evidence = join only_crossing_confirmed (join only_local_detection only_hook_observed);
  resolution_scope = ResolutionScope.pairs;
  potential_crossing = true;
}

abbrev pub exposure : EventRecord
exposure = record {
  subject = record {
    subject_kind = SubjectKind.value;
    identity_hash = some "v";
    safe_suffix = none;
    unresolved_token = none;
  };
  recipient = record {
    destination_kind = DestinationKind.external_net;
    identity_hash = some "x.test";
    unresolved_token = none;
  };
  kind = EventKind.exposed;
  evidence = join only_crossing_confirmed only_local_detection;
  data_type = DataType.email;
  rule_id = none;
  occurrences = 1;
  source_label = "tool input";
  boundary = Boundary.b4;
  masked_example = none;
}

-- The tables of a result, or those before
abbrev pub tables_of : {A : Type 0} → Db → Result LedgerError (Db × A) → Db
tables_of db (raised e) = db
tables_of db (returned r) = r.0

unfoldable pub started : Db
started = tables_of no_tables (start_accounted_session uuid formats "s" profile start no_tables)

pub started_call :
    start_accounted_session uuid formats "s" profile start no_tables ≡ returned (started, true)
unfolding started start_accounted_session uuid find_session start_at activate
    check_start_observation check_observation is_well_formed_observation is_count hook_phase
    is_consistent record_core record_in record_delivery record_new find_delivery check_batch
    record_events finish score_after is_frozen update_session same_action_kind all
started_call = refl

unfoldable pub sent : Db
sent = tables_of started (record_observation uuid formats crossing (exposure ∷ []) started)

abbrev pub sent_result : RecordResult
sent_result = record {
  observation_id = "u";
  event_ids = 1 ∷ [];
  disclosure_ids = 1 ∷ [];
  budget_delta = 2;
  duplicate_delivery = false;
  guard_target_event_id = none;
}

-- The session in the tables, and after its end
abbrev pub charged_session : AccountedSession
charged_session = record {
  session_id = "s";
  ended_at = none;
  available = true;
  budget_score = 2;
  profile = profile;
}

unfoldable pub ended : Db
ended = ended_tables "s" 20 sent

-- The run: its result, the rows that it leaves, and that the delivery was valid
sent_run :
    (record_observation uuid formats crossing (exposure ∷ []) started
      ≡ returned (sent, sent_result))
    × (find_session "s" sent.sessions ≡ some charged_session)
    × (kind_of "uuu" sent.recipients ≡ some DestinationKind.external_net)
    × (find_session "s" ended.sessions ≡ some (record charged_session { ended_at = some 20 }))
unfolding ended kind_of started start_accounted_session uuid find_session start_at activate
    check_start_observation check_observation is_well_formed_observation is_count hook_phase
    is_consistent record_core record_in record_delivery record_new find_delivery check_batch
    record_events finish score_after is_frozen update_session same_action_kind all sent check_event
    is_well_formed_event is_supported kind_evidence event_key member any record_event identity_id
    known_identity find_identity settle add_identity charge add_event add_disclosure chargeable
    with_target record_observation next_disclosure_delta group_score group_size count_where
sent_run = (refl, refl, refl, refl)

pub sent_call :
    record_observation uuid formats crossing (exposure ∷ []) started ≡ returned (sent, sent_result)
sent_call = sent_run.0

pub sent_session : find_session "s" sent.sessions ≡ some charged_session
sent_session = sent_run.1

pub sent_recipient : kind_of "uuu" sent.recipients ≡ some DestinationKind.external_net
sent_recipient = sent_run.2

pub ended_session :
    find_session "s" ended.sessions ≡ some (record charged_session { ended_at = some 20 })
ended_session = sent_run.3

pub reached : Reached uuid formats sent
reached =
    Later.and_by (Later.and_by Later.at_first (Call.starts "s" profile start true started_call))
      (Call.records crossing (exposure ∷ []) sent_result sent_call)
