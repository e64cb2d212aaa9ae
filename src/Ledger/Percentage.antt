-- ===== src/Ledger/Percentage.antt =====
-- When the summary of a session of src/privacy_hud/ledger.py shows a percentage.
use codex_privacy_hud.Prelude.{String, Bool, ◌&&◌, all, ◌==◌, string_key, nat_key}
use codex_privacy_hud.Coverage.{Book, verified, coverage_of}
use codex_privacy_hud.Ledger.Tables.{AccountedSession, Db}
use codex_privacy_hud.Ledger.Summary.{joined_rows, outcomes_of}

-- Whether everything that the percentage would speak of is known
abbrev pub is_known : String → Book → Db → AccountedSession → Bool
is_known session_id book db s =
    s.available
    && (outcomes_of session_id db).unresolved_actions == 0
    && all (λ j. j.subject_resolution) (joined_rows session_id db db.events)
    && all (λ j. j.recipient_resolution) (joined_rows session_id db db.events)
    && verified (coverage_of session_id book)
