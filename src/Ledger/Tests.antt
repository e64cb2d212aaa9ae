-- ===== src/Ledger/Tests.antt =====
-- Examples for the ledger: its theorems at the tables of `Examples` and `Denials`.

use codex_privacy_hud.Prelude.{
  ◌≤◌, true, false, ◌⊎◌, none, some, [], ◌∷◌, ◌≡◌, refl, string_key, count_where, all, any, lookup,
  filter,
}
use codex_privacy_hud.Prelude.Results.{returned}
use codex_privacy_hud.Accounting.Vocabulary.{DataType, DestinationKind}
use codex_privacy_hud.Ledger.Tables.{Db, find_session, group_score, is_pair, group_size}
use codex_privacy_hud.Ledger.Targets.{is_target}
use codex_privacy_hud.Ledger.Index.{prepare}
use codex_privacy_hud.Ledger.Links.{targets_linked, is_linked}
use codex_privacy_hud.Ledger.Transactions.{Connection, Step, Steps, prepared_is_stored}
use codex_privacy_hud.Ledger.Spending.{record_observation-Spends, Spares, Spends}
use codex_privacy_hud.Ledger.Sessions.{
  mark_known, mark_accounting_unavailable, end_v2_session, end_known, withdrawn_tables,
}
use codex_privacy_hud.Ledger.Calls.{Call, Later}
use codex_privacy_hud.Accounting.Outcomes.Counts.{seen}
use codex_privacy_hud.Ledger.Scores.{score_of, of_session}
use codex_privacy_hud.Ledger.Pairs.{charged_once_per_pair}
use codex_privacy_hud.Ledger.Closed.{closed_stays_charged}
use codex_privacy_hud.Coverage.{Book, coverage_session_start, find_session as find_row_of}
use codex_privacy_hud.Ledger.Monotone.{score_of-le}
use codex_privacy_hud.Ledger.Priced.{group_points}
use codex_privacy_hud.Ledger.Budgeted.{group_points-group_score}
use codex_privacy_hud.Ledger.Examples.{
  uuid, distinct, formats, profile, start, crossing, exposure, started, started_call, sent,
  sent_result, sent_call, reached, charged_session, ended, sent_session, sent_recipient,
  ended_session,
}
use codex_privacy_hud.Ledger.Denials.{
  denied, prevention, guarded, made_of, guarded_call, guarded_record_call, guarded_index,
}

record_observation-Spends_example :
    Spares started sent sent_result ⊎ Spends crossing started sent sent_result
record_observation-Spends_example =
    record_observation-Spends uuid formats crossing (exposure ∷ []) started sent sent_result
      sent_call

charged_once_per_pair_example : count_where (is_pair "s" "uu" "uuu") sent.disclosures ≤ 1
charged_once_per_pair_example = charged_once_per_pair uuid formats sent reached "s" "uu" "uuu"

group_points-group_score_example :
    group_points "s" DataType.email "uuu" sent.disclosures
    ≡ group_score profile DataType.email DestinationKind.external_net
        (group_size "s" DataType.email "uuu" sent.disclosures)
group_points-group_score_example =
    group_points-group_score uuid distinct formats sent reached "s" charged_session "uuu"
      DestinationKind.external_net DataType.email sent_session sent_recipient

ended_call : end_v2_session "s" 20 sent ≡ returned ended
unfolding end_v2_session end_known ended
ended_call = rw sent_session refl

withdrawn : Db
withdrawn = withdrawn_tables "s" ended

withdrawn_call : mark_accounting_unavailable "s" ended ≡ returned withdrawn
unfolding withdrawn mark_accounting_unavailable mark_known
withdrawn_call = rw ended_session refl

closed_stays_charged_example :
    (filter (of_session "s") withdrawn.disclosures ≡ filter (of_session "s") ended.disclosures)
    × (score_of "s" withdrawn.sessions ≡ score_of "s" ended.sessions)
closed_stays_charged_example =
    closed_stays_charged uuid formats ended withdrawn
      (Later.and_by reached (Call.ends "s" 20 ended_call))
      (Later.and_by Later.at_first (Call.marks "s" withdrawn_call)) "s"
      (record charged_session { ended_at = some 20 }) ended_session refl

targets_linked_example :
    all (is_linked (made_of guarded).1.0.targets) (made_of guarded).1.0.targets ≡ true
targets_linked_example = targets_linked uuid formats (made_of guarded).1.0 (
    Later.and_by (Later.and_by Later.at_first (Call.starts "s" profile start true started_call)) (
      Call.records (record denied { guard_target = some (prepare "h" "g" "path.env" []) })
        (prevention ∷ []) (made_of guarded).1.1 guarded_record_call))

-- A denied read, and then a transaction that begins and is rolled back
abbrev opened : Connection
opened = record { stored = started; working = started; in_transaction = false; seen = [] }

abbrev read : Connection
read = record {
  stored = (made_of guarded).1.0;
  working = (made_of guarded).1.0;
  in_transaction = false;
  seen = (made_of guarded).0;
}

steps : Steps uuid formats "s" opened read
unfolding guarded
steps =
    Steps.and_by
      (Steps.and_by
        (Steps.and_by Steps.at_first (
          Step.guards "h" "g" "path.env" denied (prevention ∷ []) (made_of guarded).0
            (made_of guarded).1.0 (made_of guarded).1.1 refl guarded_call))
        (Step.begins refl))
      (Step.rolls_back refl)

same_target : (prepare "h" "g2" "path.env" (made_of guarded).0).same_as_event_id ≡ some 1
unfolding prepare lookup
same_target = rw (guarded_index) refl

prepared_is_stored_example :
    (any
        (is_target "s" 1 (prepare "h" "g2" "path.env" (made_of guarded).0).target_id)
        (made_of guarded).1.0.targets
      ≡ true)
    × (any
          (is_target "s" 1 (prepare "h" "g2" "path.env" (made_of guarded).0).target_id)
          (made_of guarded).1.0.targets
        ≡ true)
prepared_is_stored_example =
    prepared_is_stored uuid formats "s" opened read refl steps "h" "g2" "path.env" 1 same_target

abbrev book : Book
book = record {
  sessions =
      record { session_id = "s"; started_at = 10; ended_at = none; cwd = "/"; model = "m" } ∷ [];
  coverage =
      record { session_id = "s"; ts = 10; observer = "o"; reason = coverage_session_start } ∷ [];
  scan_gaps = [];
}

score_of-le_example : score_of "s" started.sessions ≤ score_of "s" sent.sessions
score_of-le_example =
    score_of-le uuid formats started sent
      (Later.and_by Later.at_first (Call.records crossing (exposure ∷ []) sent_result sent_call))
      "s"
