-- ===== src/Ledger/Recording.antt =====
-- `Ledger._record_observation` of src/privacy_hud/ledger.py. `uuid n` is the n-th random identifier.
-- The savepoint around it is the result: what raises returns no tables, and its caller keeps the old
-- ones.
use codex_privacy_hud.Prelude.{
  ℕ, ◌+◌, String, Bool, true, false, not, ◌&&◌, Option, none, some, List, [], ◌∷◌, ◌++◌, map,
  filter, ◌==◌, string_key, nat_key, pair_key, if◌then◌else◌, member, ltb, is_some, ◌||◌,
}
use codex_privacy_hud.Prelude.Results.{Result, raised, returned, raise_if, and_then}
use codex_privacy_hud.Accounting.Vocabulary.{
  ScanGap, data_type_key, subject_kind_key, destination_kind_key, event_kind_key, action_kind_key,
}
use codex_privacy_hud.Accounting.Records.{OpaqueId, ObservationRecord, EventRecord}
use codex_privacy_hud.Checks.{Formats, check_observation}
use codex_privacy_hud.Ledger.Tables.{
  LedgerError, Floats, AccountedSession, ObservationRow, ScanGapRow, DisclosureRow, Db,
  find_session, update_session, RecordResult,
}
use codex_privacy_hud.Ledger.Batch.{check_batch, is_delivery, is_event_of, same_action_kind}
use codex_privacy_hud.Ledger.Loop.{Progress, record_events}

abbrev pub start_progress : Db → Progress
start_progress db = record {
  db = db;
  local_subjects = [];
  local_recipients = [];
  event_ids = [];
  disclosure_ids = [];
  deltas = [];
}

-- The score after `UPDATE sessions SET budget_score=budget_score+?`, which only runs `if deltas`
unfoldable pub score_after : Floats → List ℕ → ℕ → ℕ
score_after f [] score = score
score_after f (d ∷ ds) score = f.plus score (f.sum (d ∷ ds))

abbrev pub add_points : Floats → List ℕ → AccountedSession → AccountedSession
add_points f deltas s = record s { budget_score = score_after f deltas s.budget_score }

-- The trigger `sessions_accounting_frozen` of src/privacy_hud/ledger_schema.py, on that statement
unfoldable pub is_frozen : List ℕ → AccountedSession → Bool
is_frozen [] s = false
is_frozen (d ∷ ds) s =
    let score = score_after s.profile.floats (d ∷ ds) s.budget_score in
    ltb score s.budget_score
    || is_some s.ended_at && not (score == s.budget_score)
    || not (ltb score s.profile.storable_limit)

abbrev gap_rows : String → ObservationRecord → Option ScanGap → List ScanGapRow
gap_rows session_id o none = []
gap_rows session_id o (some reason) =
    record { session_id = session_id; ts = o.ts; boundary = o.boundary; reason = reason } ∷ []

-- What is written after the loop: the score, and the scan gap
unfoldable pub finish : AccountedSession → ObservationRow → Progress → Db × RecordResult
finish s r p = (
  record p.db {
    sessions = update_session s.session_id (add_points s.profile.floats p.deltas) p.db.sessions;
    gaps = p.db.gaps ++ gap_rows s.session_id r.observed r.observed.scan_gap;
  },
  record {
    observation_id = r.observation_id;
    event_ids = p.event_ids;
    disclosure_ids = p.disclosure_ids;
    budget_delta = s.profile.floats.sum p.deltas;
    duplicate_delivery = false;
    guard_target_event_id = none;
  },
)

abbrev pub insert_observation : ObservationRow → Db → Db
insert_observation r db = record db {
  observations = db.observations ++ r ∷ [];
  drawn = db.drawn + 1;
}

-- `_recorded_result`
abbrev pub is_charged_by : List ℕ → String → DisclosureRow → Bool
is_charged_by event_ids session_id d =
    d.session_id == session_id && member d.first_event_id event_ids

unfoldable pub recorded_events : String → OpaqueId → Db → List ℕ
recorded_events session_id observation_id db =
    map (λ e. e.id) (filter (is_event_of session_id observation_id) db.events)

-- `JOIN events e ON e.id = d.first_event_id ... AND e.observation_id=?`
unfoldable pub observed_events : OpaqueId → Db → List ℕ
observed_events observation_id db =
    map (λ e. e.id) (filter (λ e. e.observation_id == observation_id) db.events)

unfoldable pub recorded_result : AccountedSession → OpaqueId → Db → RecordResult
recorded_result s observation_id db =
    let charged =
      filter (is_charged_by (observed_events observation_id db) s.session_id) db.disclosures in
    record {
      observation_id = observation_id;
      event_ids = recorded_events s.session_id observation_id db;
      disclosure_ids = map (λ d. d.disclosure_id) charged;
      budget_delta = s.profile.floats.sum (map (λ d. d.budget_delta) charged);
      duplicate_delivery = true;
      guard_target_event_id = none;
    }

-- `SELECT observation_id FROM observations WHERE session_id=? AND delivery_key=?`
unfoldable pub find_delivery : String → OpaqueId → List ObservationRow → Option OpaqueId
find_delivery session_id delivery_key [] = none
find_delivery session_id delivery_key (r ∷ rows) =
    let rest = find_delivery session_id delivery_key rows in
    if is_delivery session_id delivery_key r then some r.observation_id else rest

module _ (uuid : ℕ → OpaqueId) (fm : Formats) where
  -- A delivery that is new, once its session is known
  unfoldable pub record_new :
      AccountedSession
      → ObservationRecord
      → List EventRecord
      → Db
      → Result LedgerError (Db × RecordResult)
  record_new s o es db =
      let r : ObservationRow = record { observation_id = uuid db.drawn; observed = o } in
      raise_if (not (check_observation fm o && same_action_kind o db.observations))
        LedgerError.invalid_observation
        (and_then (check_batch fm o s [] es) (λ _.
          and_then
            (record_events uuid s r.observation_id es (start_progress (insert_observation r db)))
            (λ p.
              raise_if (is_frozen p.deltas s) LedgerError.frozen_accounting
                (returned (finish s r p)))))

  unfoldable pub record_delivery :
      Option OpaqueId
      → AccountedSession
      → ObservationRecord
      → List EventRecord
      → Db
      → Result LedgerError (Db × RecordResult)
  record_delivery (some old) s o es db = returned (db, recorded_result s old db)
  record_delivery none s o es db = record_new s o es db

  unfoldable pub record_in :
      Option AccountedSession
      → ObservationRecord
      → List EventRecord
      → Db
      → Result LedgerError (Db × RecordResult)
  record_in none o es db = raised LedgerError.unsupported_session
  record_in (some s) o es db =
      raise_if (not (fm.is_opaque_id o.delivery_key)) LedgerError.invalid_observation
        (record_delivery (find_delivery s.session_id o.delivery_key db.observations) s o es db)

  -- `_record_observation`
  unfoldable pub record_core :
      ObservationRecord → List EventRecord → Db → Result LedgerError (Db × RecordResult)
  record_core o es db =
      raise_if (o.session_id == "") LedgerError.invalid_observation
        (record_in (find_session o.session_id db.sessions) o es db)
