-- ===== src/Ledger/Targets.antt =====
-- `record_target` of src/privacy_hud/guard_targets.py, with the constraints and the trigger of its table in
-- src/privacy_hud/ledger_schema.py, and `Ledger.record_observation` of src/privacy_hud/ledger.py around it. `basis` is one
-- constant and is left out, and so is the making of the table.
use codex_privacy_hud.Prelude.{
  ℕ, String, Bool, true, false, not, ◌&&◌, Option, none, some, List, [], ◌∷◌, ◌++◌, any, filter,
  ◌==◌, string_key, nat_key, if◌then◌else◌, ltb, is_some,
}
use codex_privacy_hud.Prelude.Results.{Result, returned, and_then}
use codex_privacy_hud.Accounting.Vocabulary.{
  Boundary, DataType, EventKind, HookEvent, Phase, ActionKind, DecisionKind, SubjectKind,
  boundary_key, data_type_key, event_kind_key, hook_event_key, phase_key, action_kind_key,
  decision_kind_key, subject_kind_key,
}
use codex_privacy_hud.Accounting.Records.{OpaqueId, GuardTarget, ObservationRecord, EventRecord}
use codex_privacy_hud.Checks.{Formats}
use codex_privacy_hud.Ledger.Tables.{
  LedgerError, AccountedSession, IdentityRow, EventRow, TargetRow, Db, find_session, is_open,
  RecordResult,
}
use codex_privacy_hud.Ledger.Recording.{record_core}

unfoldable pub is_guard_observation : ObservationRecord → Bool
is_guard_observation o =
    o.hook_event == HookEvent.pre_tool_use
    && o.phase == Phase.pre
    && o.action_kind == ActionKind.read
    && o.boundary == Boundary.b0
    && o.decision == DecisionKind.deny

-- The conditions of the `SELECT` on an event, and on its subject
abbrev is_unresolved_file : EventRow → IdentityRow SubjectKind → Bool
is_unresolved_file e s =
    s.session_id == e.session_id
    && s.identity_id == e.subject_id
    && s.kind == SubjectKind.file
    && not s.is_resolved
    && not (is_some s.identity_hash)

abbrev has_rule : String → Option String → Bool
has_rule rule none = false
has_rule rule (some r) = r == rule

unfoldable pub is_guarded_event :
    String → OpaqueId → String → List (IdentityRow SubjectKind) → EventRow → Bool
is_guarded_event session_id observation_id rule_id subjects e =
    e.session_id == session_id
    && e.observation_id == observation_id
    && e.event.kind == EventKind.prevented
    && e.event.data_type == DataType.path
    && e.event.source_label == "local file"
    && e.event.boundary == Boundary.b0
    && has_rule rule_id e.event.rule_id
    && e.event.evidence.deny_issued
    && any (is_unresolved_file e) subjects

-- What the table requires of a row: its key, the row that it says is the same, and an open session
abbrev pub is_target : String → ℕ → OpaqueId → TargetRow → Bool
is_target session_id event_id target_id t =
    t.session_id == session_id && t.event_id == event_id && t.target_id == target_id

unfoldable pub same_exists : TargetRow → Option ℕ → List TargetRow → Bool
same_exists t none targets = true
same_exists t (some same) targets =
    ltb 0 same && ltb same t.event_id && any (is_target t.session_id same t.target_id) targets

abbrev pub open_row : Option AccountedSession → Bool
open_row none = false
open_row (some s) = is_open s

unfoldable pub accepts_target : Formats → TargetRow → Db → Bool
accepts_target fm t db =
    fm.is_opaque_id t.target_id
    && fm.is_path_rule t.rule_id
    && not (any (λ u. u.event_id == t.event_id) db.targets)
    && same_exists t t.same_as_event_id db.targets
    && open_row (find_session t.session_id db.sessions)

-- `INSERT INTO guard_targets`: none where a constraint fails
unfoldable pub insert_target : Formats → TargetRow → Db → Option (Db × ℕ)
insert_target fm t db =
    if accepts_target fm t db
    then some (record db { targets = db.targets ++ t ∷ [] }, t.event_id)
    else none

abbrev row_for : String → GuardTarget → EventRow → TargetRow
row_for session_id g e = record {
  event_id = e.id;
  session_id = session_id;
  target_id = g.target_id;
  rule_id = g.rule_id;
  same_as_event_id = g.same_as_event_id;
}

-- The one event that was found, or an error
unfoldable pub record_found : Formats → String → GuardTarget → List EventRow → Db → Option (Db × ℕ)
record_found fm session_id g [] db = none
record_found fm session_id g (e ∷ []) db = insert_target fm (row_for session_id g e) db
record_found fm session_id g (e ∷ f ∷ es) db = none

-- `record_target`: none where it raises
unfoldable pub record_target :
    Formats → ObservationRecord → RecordResult → Option GuardTarget → Db → Option (Db × ℕ)
record_target fm o r none db = none
record_target fm o r (some g) db =
    let found =
      record_found fm o.session_id g
        (filter (is_guarded_event o.session_id r.observation_id g.rule_id db.subjects) db.events)
        db in
    if is_guard_observation o then found else none

-- The rows of the target, or the rows before where it raised
unfoldable pub settle_target : Option (Db × ℕ) → Db → RecordResult → Db × RecordResult
settle_target none db r = (db, r)
settle_target (some made) db r = (made.0, record r { guard_target_event_id = some made.1 })

unfoldable pub with_target : Formats → ObservationRecord → Db × RecordResult → Db × RecordResult
with_target fm o (db, r) =
    if is_some o.guard_target && not r.duplicate_delivery
    then settle_target (record_target fm o r o.guard_target db) db r
    else (db, r)

-- `Ledger.record_observation`
unfoldable pub record_observation :
    (ℕ → OpaqueId)
    → Formats
    → ObservationRecord
    → List EventRecord
    → Db
    → Result LedgerError (Db × RecordResult)
record_observation uuid fm o es db =
    and_then (record_core uuid fm o es db) (λ made. returned (with_target fm o made))
