-- ===== src/Ledger/Monotone.antt =====
-- Scores of src/privacy_hud/ledger.py under the trigger of src/privacy_hud/ledger_schema.py.
use codex_privacy_hud.Prelude.{
  ℕ, ◌≤◌, String, false, not, ◌&&◌, ◌||◌, none, List, [], ◌∷◌, ltb, is_some, nat_key, ||-false,
  ◌==◌, string_key, ◌≡◌, refl, sym, ap, ◌∙◌, arith, inl, inr, ==→eq, Bool-cases,
}
use codex_privacy_hud.Accounting.Records.{OpaqueId, ObservationRecord, EventRecord}
use codex_privacy_hud.Checks.{Formats}
use codex_privacy_hud.Ledger.Tables.{Profile, AccountedSession, Db, RecordResult, find_session}
use codex_privacy_hud.Ledger.Recording.{is_frozen, score_after}
use codex_privacy_hud.Ledger.Sessions.{new_session, insert_session, end_at, withdraw}
use codex_privacy_hud.Ledger.Outcome.{NewDelivery}
use codex_privacy_hud.Ledger.Calls.{Kept, Later, Later-kept}
use codex_privacy_hud.Ledger.Rows.{find_session-append_other}
use codex_privacy_hud.Ledger.Scores.{
  score_of, score_in, recorded_score, found_score, score_of-kept, end_at-id, end_at-score,
}

-- What the trigger lets pass
permitted_le :
    (deltas : List ℕ) (s : AccountedSession)
    → is_frozen deltas s ≡ false
    → s.budget_score ≤ score_after s.profile.floats deltas s.budget_score
unfolding is_frozen score_after
permitted_le [] s h = omega arith
permitted_le (d ∷ ds) s h =
    let score = s.profile.floats.plus s.budget_score (s.profile.floats.sum (d ∷ ds)) in
    let ended = is_some s.ended_at && not (score == s.budget_score) in
    let (passed, fits) =
      ||-false (ltb score s.budget_score || ended) (not (ltb score s.profile.storable_limit)) h in
    let (above, same) = ||-false (ltb score s.budget_score) ended passed in ground (arith, above)

module _ (session_id : String) (low : ℕ) where
  unfoldable IsAtLeast : Db → Type 0
  IsAtLeast db = low ≤ score_of session_id db.sessions

  inserted-IsAtLeast :
      (name : String) (profile : Profile) (db : Db)
      → find_session name db.sessions ≡ none
      → IsAtLeast db
      → IsAtLeast (insert_session (new_session name profile) db)
  unfolding IsAtLeast score_of
  inserted-IsAtLeast name profile db h good = elim (Bool-cases (name == session_id)) [
    | inl same ↦
        let gone : score_of session_id db.sessions ≡ 0 =
          ap (λ j. score_in (find_session j db.sessions)) (sym (==→eq name session_id same))
          ∙ ap score_in h in
        omega (arith, gone, good)
    | inr other ↦
        rw (find_session-append_other session_id db.sessions (new_session name profile) other) good
  ]

  recorded-IsAtLeast :
      (uuid : ℕ → OpaqueId) (fm : Formats) (o : ObservationRecord) (es : List EventRecord)
      (db after : Db) (r : RecordResult)
      → NewDelivery uuid fm o es db after r
      → IsAtLeast db
      → IsAtLeast after
  unfolding IsAtLeast
  recorded-IsAtLeast uuid fm o es db after r new good =
      rw (recorded_score uuid fm o es db after r new session_id)
        (elim (Bool-cases (session_id == o.session_id)) [
          | inl same ↦
              let before : score_of session_id db.sessions ≡ new.session.budget_score =
                ap (λ j. score_of j db.sessions) (==→eq session_id o.session_id same)
                ∙ found_score o.session_id db.sessions new.session new.found in
              let more = permitted_le new.progress.deltas new.session new.permitted in
              rw same (omega (arith, good, before, more))
          | inr other ↦ rw other good
        ])

  kept-IsAtLeast : (uuid : ℕ → OpaqueId) (fm : Formats) → Kept uuid fm IsAtLeast
  unfolding IsAtLeast
  kept-IsAtLeast uuid fm = record {
    kept_inserted = inserted-IsAtLeast;
    kept_recorded = recorded-IsAtLeast uuid fm;
    kept_target = λ db t fits good. good;
    kept_ended = λ name now db good.
        rw
          (score_of-kept name (end_at now) (end_at-id now) (end_at-score now) session_id
            db.sessions)
          good;
    kept_withdrawn = λ name db good.
        rw (score_of-kept name withdraw (λ s. refl) (λ s. refl) session_id db.sessions) good;
  }

-- No number of calls of any kind lowers the score of a session, whatever the sums of floats are rounded to:
-- the trigger on the sessions refuses a write that would.
pub score_of-le :
    (uuid : ℕ → OpaqueId) (fm : Formats) (db later : Db)
    → Later uuid fm db later
    → (session_id : String) → score_of session_id db.sessions ≤ score_of session_id later.sessions
unfolding IsAtLeast
score_of-le uuid fm db later calls session_id =
    Later-kept uuid fm (kept-IsAtLeast session_id (score_of session_id db.sessions) uuid fm) calls
      (omega arith)
