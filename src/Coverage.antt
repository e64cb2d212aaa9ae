-- ===== src/Coverage.antt =====
-- Whether the account of a session is complete: `SessionCoverage`, and the tables `sessions`,
-- `coverage` and `scan_gaps` of src/privacy_hud/ledger.py with the methods of `Ledger` that write and
-- read them. Of `end_session`, what it does to the table `sessions`. `observer` is the ledger's own
-- identifier, and a time is an argument.
pub mod Doubts
mod Tests
use mathlib.Core.List.{foldl}
use codex_privacy_hud.Prelude.{
  ℕ, String, Bool, true, false, not, ◌&&◌, ◌||◌, Option, none, some, List, [], ◌∷◌, ◌++◌, map, any,
  count_where, if◌then◌else◌, ltb, leb, nat_eq, ◌==◌, string_key, is_some,
}

pub record SessionRow : Type 0 where
  pub session_id : String
  pub started_at : ℕ
  pub ended_at : Option ℕ
  pub cwd : String
  pub model : String

pub record CoverageRow : Type 0 where
  pub session_id : String
  pub ts : ℕ
  pub observer : String
  pub reason : String

pub record GapRow : Type 0 where
  pub session_id : String
  pub ts : ℕ
  pub boundary : String
  pub reason : String

-- The three tables.
pub record Book : Type 0 where
  pub sessions : List SessionRow
  pub coverage : List CoverageRow
  pub scan_gaps : List GapRow

abbrev pub coverage_session_start : String
coverage_session_start = "session_start"

abbrev pub coverage_attached : String
coverage_attached = "attached"

abbrev pub coverage_unobserved_hooks : String
coverage_unobserved_hooks = "unobserved_hooks"

abbrev pub unattributed_session : String
unattributed_session = ""

pub record SessionCoverage : Type 0 where
  pub recorded : Bool
  pub observers : ℕ
  pub attached : Bool
  pub unobserved_hooks : Bool
  pub shallow_scans : ℕ

-- `verified`
unfoldable pub verified : SessionCoverage → Bool
verified c =
    c.recorded
    && nat_eq c.observers 1
    && not c.attached
    && not c.unobserved_hooks
    && nat_eq c.shallow_scans 0

-- The phrases of `reason`
pub data Reason : Type 0 where
  never_recorded no_record_of_start already_under_way restarted no_daemon : Reason
  had_scan_gaps : ℕ → Reason

-- `reason`. `none` is the empty phrase.
pub reason : SessionCoverage → Option Reason
reason c =
    if not c.recorded
    then some Reason.never_recorded
    else if nat_eq c.observers 0
    then some Reason.no_record_of_start
    else if c.attached
    then some Reason.already_under_way
    else if ltb 1 c.observers
    then some Reason.restarted
    else if c.unobserved_hooks
    then some Reason.no_daemon
    else if not (nat_eq c.shallow_scans 0)
    then some (Reason.had_scan_gaps c.shallow_scans)
    else none

-- `INSERT OR IGNORE INTO sessions`, whose primary key is the session
pub insert_session : SessionRow → List SessionRow → List SessionRow
insert_session r rows =
    if any (λ x. x.session_id == r.session_id) rows then rows else rows ++ r ∷ []

abbrev pub is_same_watch : CoverageRow → CoverageRow → Bool
is_same_watch r x = x.session_id == r.session_id && x.observer == r.observer

-- `INSERT OR IGNORE INTO coverage`, where a session and an observer are unique
pub insert_coverage : CoverageRow → List CoverageRow → List CoverageRow
insert_coverage r rows = if any (is_same_watch r) rows then rows else rows ++ r ∷ []

-- `start_session`
pub start_session : String → ℕ → String → String → String → Bool → Book → Book
start_session observer now session_id cwd model observed_start b = record b {
  sessions =
      insert_session
        (record {
          session_id = session_id;
          started_at = now;
          ended_at = none;
          cwd = cwd;
          model = model;
        })
        b.sessions;
  coverage =
      insert_coverage
        (record {
          session_id = session_id;
          ts = now;
          observer = observer;
          reason = if observed_start then coverage_session_start else coverage_attached;
        })
        b.coverage;
}

-- `note_unobserved_hooks`
pub note_unobserved_hooks : String → ℕ → Book → Book
note_unobserved_hooks observer ts b = record b {
  coverage =
      insert_coverage
        (record {
          session_id = unattributed_session;
          ts = ts;
          observer = observer;
          reason = coverage_unobserved_hooks;
        })
        b.coverage;
}

-- `unattributed_gaps`
pub unattributed_gaps : Book → ℕ
unattributed_gaps b =
    count_where (λ r. r.session_id == unattributed_session && r.reason == coverage_unobserved_hooks)
      b.coverage

-- `record_scan_gap`
pub record_scan_gap : String → String → String → ℕ → Book → Book
record_scan_gap session_id boundary why ts b = record b {
  scan_gaps =
      b.scan_gaps
      ++ (record { session_id = session_id; ts = ts; boundary = boundary; reason = why }) ∷ [];
}

-- `scan_gaps`
unfoldable pub scan_gaps_of : String → Book → ℕ
scan_gaps_of session_id b = count_where (λ r. r.session_id == session_id) b.scan_gaps

abbrev end_row : String → ℕ → SessionRow → SessionRow
end_row session_id now r =
    if r.session_id == session_id && not (is_some r.ended_at)
    then record r { ended_at = some now }
    else r

-- `end_session`: an ended session keeps its first end time
pub end_session : String → ℕ → Book → Book
end_session session_id now b = record b { sessions = map (end_row session_id now) b.sessions }

unfoldable pub find_session : String → List SessionRow → Option SessionRow
find_session session_id [] = none
find_session session_id (r ∷ rows) =
    let rest = find_session session_id rows in if r.session_id == session_id then some r else rest

abbrev pub is_of : String → CoverageRow → Bool
is_of session_id r = r.session_id == session_id

-- `attached` and `observers` of a session
unfoldable pub is_attached : String → Book → Bool
is_attached session_id b = any (λ r. is_of session_id r && r.reason == coverage_attached) b.coverage

unfoldable pub observers_of : String → Book → ℕ
observers_of session_id b = count_where (is_of session_id) b.coverage

-- Whether hooks that no daemon saw count against the session: it is open or the newest, and they
-- came at or after its start.
unfoldable pub unobserved : SessionRow → Book → Bool
unobserved s b =
    (not (is_some s.ended_at) || not (any (λ x. ltb s.started_at x.started_at) b.sessions))
    && any
        (λ r.
          r.session_id == unattributed_session
          && r.reason == coverage_unobserved_hooks
          && leb s.started_at r.ts)
        b.coverage

unfoldable pub coverage_at : Option SessionRow → String → Book → SessionCoverage
unfolding unobserved
coverage_at none session_id b = record {
  recorded = false;
  observers = observers_of session_id b;
  attached = is_attached session_id b;
  unobserved_hooks = false;
  shallow_scans = 0;
}
coverage_at (some s) session_id b = record {
  recorded = true;
  observers = observers_of session_id b;
  attached = is_attached session_id b;
  unobserved_hooks = unobserved s b;
  shallow_scans = scan_gaps_of session_id b;
}

-- `coverage`
unfoldable pub coverage_of : String → Book → SessionCoverage
unfolding coverage_at find_session
coverage_of session_id b =
    if session_id == ""
    then record {
      recorded = false;
      observers = 0;
      attached = false;
      unobserved_hooks = false;
      shallow_scans = 0;
    }
    else coverage_at (find_session session_id b.sessions) session_id b
