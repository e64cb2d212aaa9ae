-- ===== src/Ledger/Summary.antt =====
-- `Ledger._summary_v2` of src/privacy_hud/ledger.py, with `percent` of src/privacy_hud/budget.py. The table of
-- coverage is the one of `Coverage`.
use Prim.Native.Nat.{min}
use codex_privacy_hud.Prelude.{
  ℕ, ◌+◌, String, Bool, true, false, not, ◌&&◌, ◌||◌, Option, none, some, List, [], ◌∷◌, ◌++◌, map,
  filter, length, count_where, insert, ◌==◌, string_key, nat_key, if◌then◌else◌, ltb,
}
use codex_privacy_hud.Prelude.Results.{Result, raised, returned}
use codex_privacy_hud.Accounting.Vocabulary.{
  SubjectKind, DestinationKind, EventKind, Resolution, event_kind_key,
}
use codex_privacy_hud.Accounting.Records.{OpaqueId, OutcomeObservation, OutcomeEvent, OutcomeCounts}
use codex_privacy_hud.Accounting.Outcomes.Counts.{resolve_outcomes}
use codex_privacy_hud.Coverage.{Book, verified, coverage_of}
use codex_privacy_hud.Ledger.Tables.{
  LedgerError, Floats, AccountedSession, ObservationRow, IdentityRow, EventRow, Db, find_session,
}

-- `percent`, where the cap is not 0
unfoldable pub percent : Floats → ℕ → ℕ → ℕ
percent f score cap = min 100 (f.rounded_percent score cap)

pub data UnavailableReason : Type 0 where
  accounting_unavailable unresolved_actions unresolved_subjects unresolved_recipients
        coverage_incomplete :
      UnavailableReason

pub record AccountingSummary : Type 0 where
  pub available : Bool
  pub confirmed_points : ℕ
  pub budget_cap : ℕ
  pub percentage : Option ℕ
  pub observations : ℕ
  pub event_rows : ℕ
  pub finding_occurrences : ℕ
  pub distinct_subjects : ℕ
  pub exposure_events : ℕ
  pub intervention_events : ℕ
  pub distinct_disclosures : ℕ
  pub concrete_recipients : ℕ
  pub outcomes : OutcomeCounts
  pub unresolved_subject_events : ℕ
  pub unresolved_recipient_events : ℕ
  pub percentage_unavailable_reasons : List UnavailableReason

-- A row of the query on events: the event, and how its subject and recipient are resolved
pub record JoinedRow : Type 0 where
  pub event : EventRow
  pub subject_resolution : Bool
  pub recipient_resolution : Bool

unfoldable pub find_row :
    {K : Type 0} → String → OpaqueId → List (IdentityRow K) → Option (IdentityRow K)
find_row session_id id [] = none
find_row session_id id (r ∷ rows) =
    let rest = find_row session_id id rows in
    if r.session_id == session_id && r.identity_id == id then some r else rest

-- One event with its rows, or nothing where one is missing
abbrev joined :
    EventRow
    → Option (IdentityRow SubjectKind)
    → Option (IdentityRow DestinationKind)
    → List JoinedRow
joined e none r = []
joined e (some s) none = []
joined e (some s) (some r) =
    record { event = e; subject_resolution = s.is_resolved; recipient_resolution = r.is_resolved }
    ∷ []

unfoldable pub joined_rows : String → Db → List EventRow → List JoinedRow
joined_rows session_id db [] = []
joined_rows session_id db (e ∷ es) =
    let rest = joined_rows session_id db es in
    if e.session_id == session_id
    then joined e (find_row session_id e.subject_id db.subjects)
        (find_row session_id e.recipient_id db.recipients)
      ++ rest
    else rest

abbrev resolution : Bool → Resolution
resolution true = Resolution.resolved
resolution false = Resolution.unresolved

abbrev outcome_event : JoinedRow → OutcomeEvent
outcome_event j = record {
  observation_id = j.event.observation_id;
  subject_id = j.event.subject_id;
  recipient_id = j.event.recipient_id;
  subject_resolution = resolution j.subject_resolution;
  recipient_resolution = resolution j.recipient_resolution;
  kind = j.event.event.kind;
  evidence = j.event.event.evidence;
}

abbrev outcome_observation : ObservationRow → OutcomeObservation
outcome_observation r = record { observation_id = r.observation_id; observed = r.observed }

-- `len({...})`
unfoldable pub set_of : List OpaqueId → List OpaqueId
set_of [] = []
set_of (x ∷ xs) = insert x (set_of xs)

abbrev pub total_occurrences : List JoinedRow → ℕ
total_occurrences [] = 0
total_occurrences (j ∷ js) = j.event.event.occurrences + total_occurrences js

abbrev reason_if : Bool → UnavailableReason → List UnavailableReason → List UnavailableReason
reason_if test reason rest = if test then reason ∷ rest else rest

unfoldable pub reasons : Bool → ℕ → ℕ → ℕ → Bool → List UnavailableReason
reasons available actions subjects recipients is_verified =
    reason_if (not available) UnavailableReason.accounting_unavailable (
      reason_if (ltb 0 actions) UnavailableReason.unresolved_actions (
        reason_if (ltb 0 subjects) UnavailableReason.unresolved_subjects (
          reason_if (ltb 0 recipients) UnavailableReason.unresolved_recipients
            (reason_if (not is_verified) UnavailableReason.coverage_incomplete []))))

abbrev pub percent_unless : Floats → List UnavailableReason → ℕ → ℕ → Option ℕ
percent_unless f [] score cap = some (percent f score cap)
percent_unless f (r ∷ rs) score cap = none

abbrev pub observations_of : String → Db → List OutcomeObservation
observations_of session_id db =
    map outcome_observation (filter (λ r. r.observed.session_id == session_id) db.observations)

abbrev pub outcomes_of : String → Db → OutcomeCounts
outcomes_of session_id db =
    resolve_outcomes (observations_of session_id db)
      (map outcome_event (joined_rows session_id db db.events))

abbrev pub unresolved_subjects_of : List JoinedRow → ℕ
unresolved_subjects_of = count_where (λ j. not j.subject_resolution)

abbrev pub unresolved_recipients_of : List JoinedRow → ℕ
unresolved_recipients_of = count_where (λ j. not j.recipient_resolution)

unfoldable pub summarize : AccountedSession → Bool → Db → AccountingSummary
summarize s is_verified db =
    let rows = joined_rows s.session_id db db.events in
    let outcomes = outcomes_of s.session_id db in
    let charged = filter (λ d. d.session_id == s.session_id) db.disclosures in
    let withheld =
      reasons s.available outcomes.unresolved_actions (unresolved_subjects_of rows)
        (unresolved_recipients_of rows) is_verified in
    record {
      available = s.available;
      confirmed_points = s.budget_score;
      budget_cap = s.profile.budget_cap;
      percentage = percent_unless s.profile.floats withheld s.budget_score s.profile.budget_cap;
      observations = length (observations_of s.session_id db);
      event_rows = length rows;
      finding_occurrences = total_occurrences rows;
      distinct_subjects =
          length (set_of (map (λ j. j.event.subject_id) (filter (λ j. j.subject_resolution) rows)));
      exposure_events = count_where (λ j. j.event.event.kind == EventKind.exposed) rows;
      intervention_events =
          count_where
            (λ j.
              j.event.event.kind == EventKind.prevented || j.event.event.evidence.rewrite_issued)
            rows;
      distinct_disclosures = length charged;
      concrete_recipients = length (set_of (map (λ d. d.recipient_id) charged));
      outcomes = outcomes;
      unresolved_subject_events = unresolved_subjects_of rows;
      unresolved_recipient_events = unresolved_recipients_of rows;
      percentage_unavailable_reasons = withheld;
    }

unfoldable pub summary_of :
    Option AccountedSession → Bool → Db → Result LedgerError AccountingSummary
summary_of none is_verified db = raised LedgerError.unsupported_session
summary_of (some s) is_verified db = returned (summarize s is_verified db)

-- `_summary_v2`
unfoldable pub summary_v2 : String → Book → Db → Result LedgerError AccountingSummary
summary_v2 session_id book db =
    summary_of (find_session session_id db.sessions) (verified (coverage_of session_id book)) db
