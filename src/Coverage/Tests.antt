-- ===== src/Coverage/Tests.antt =====
-- Examples for the coverage of a session that was attached to late.
use codex_privacy_hud.Prelude.{
  true, false, none, List, [], ◌∷◌, ◌≡◌, ◌↔◌, refl, any, count_where, string_key,
}
use codex_privacy_hud.Coverage.{
  Book, SessionCoverage, verified, reason, start_session, coverage_of, observers_of, is_attached,
  scan_gaps_of, coverage_attached, coverage_at, find_session, unobserved, insert_session,
  insert_coverage,
}
use codex_privacy_hud.Coverage.Doubts.{
  reason_iff, Write, write_all, doubts_stay, is_doubtful, restart_shows,
}

abbrev empty : Book
empty = record { sessions = []; coverage = []; scan_gaps = [] }

abbrev late : Book
late = record empty {
  coverage = record { session_id = "s"; ts = 5; observer = "d1"; reason = coverage_attached } ∷ [];
}

abbrev clean : SessionCoverage
clean = record {
  recorded = true;
  observers = 1;
  attached = false;
  unobserved_hooks = false;
  shallow_scans = 0;
}

-- One daemon that watched from the start is verified.
watched : verified (coverage_of "s" (start_session "d1" 3 "s" "/" "m" true empty)) ≡ true
unfolding verified coverage_of coverage_at find_session unobserved start_session insert_session
    insert_coverage observers_of is_attached scan_gaps_of any count_where
watched = refl

reason_iff_example : (reason clean ≡ none) ↔ (verified clean ≡ true)
reason_iff_example = reason_iff clean

abbrev later : List Write
later = Write.start "d1" 9 "s" "/" "m" true ∷ Write.end "s" 10 ∷ []

doubts_stay_example : verified (coverage_of "s" (write_all later late)) ≡ false
unfolding is_doubtful observers_of is_attached scan_gaps_of any count_where
doubts_stay_example = doubts_stay "s" later late refl

restart_shows_example :
    verified (
      coverage_of "s"
        (start_session "d2" 9 "s" "/" "m" false (start_session "d1" 3 "s" "/" "m" true empty)))
    ≡ false
restart_shows_example = restart_shows "s" "d1" "d2" "/" "/" "m" "m" 3 9 true false empty refl
