-- ===== src/Ledger/Scores.antt =====
-- The scores of the sessions of src/privacy_hud/ledger.py, and what a call adds to them.
use codex_privacy_hud.Prelude.{
  ℕ, String, Bool, false, Option, none, some, List, ◌==◌, string_key, ◌≡◌, refl, ap, ◌∙◌, arith,
  inl, inr, ==→eq, ==_refl, Bool-cases, if◌then◌else◌,
}
use codex_privacy_hud.Accounting.Records.{OpaqueId, ObservationRecord, EventRecord}
use codex_privacy_hud.Checks.{Formats}
use codex_privacy_hud.Ledger.Tables.{
  AccountedSession, DisclosureRow, Db, find_session, update_session, at_session, RecordResult,
}
use codex_privacy_hud.Ledger.Recording.{finish, add_points, score_after}
use codex_privacy_hud.Ledger.Sessions.{end_at}
use codex_privacy_hud.Ledger.Outcome.{NewDelivery, record_events-Frame}
use codex_privacy_hud.Ledger.Rows.{find_session-id, find_session-update_session}
use mathlib.Core.Option.{map as option_map}

-- What a session is shown to have spent: 0 where there is no such session
abbrev pub score_in : Option AccountedSession → ℕ
score_in none = 0
score_in (some s) = s.budget_score

unfoldable pub score_of : String → List AccountedSession → ℕ
score_of session_id rows = score_in (find_session session_id rows)

abbrev pub of_session : String → DisclosureRow → Bool
of_session session_id d = d.session_id == session_id

same_score :
    (name : String) (f : AccountedSession → AccountedSession)
    → ((s : AccountedSession) → (f s).budget_score ≡ s.budget_score)
    → (found : Option AccountedSession)
    → score_in (option_map (at_session name f) found) ≡ score_in found
same_score name f keeps none = refl
same_score name f keeps (some s) = elim (Bool-cases (s.session_id == name)) [
  | inl same ↦ rw same (keeps s)
  | inr other ↦ rw other refl
]

-- An update that leaves the scores as they are
pub score_of-kept :
    (name : String) (f : AccountedSession → AccountedSession)
    → ((s : AccountedSession) → (f s).session_id ≡ s.session_id)
    → ((s : AccountedSession) → (f s).budget_score ≡ s.budget_score)
    → (session_id : String) (rows : List AccountedSession)
    → score_of session_id (update_session name f rows) ≡ score_of session_id rows
unfolding score_of
score_of-kept name f keeps_id keeps session_id rows =
    rw (find_session-update_session name session_id f keeps_id rows)
      (same_score name f keeps (find_session session_id rows))

pub end_at-id : (now : ℕ) (s : AccountedSession) → (end_at now s).session_id ≡ s.session_id
end_at-id now s = ground arith

pub end_at-score : (now : ℕ) (s : AccountedSession) → (end_at now s).budget_score ≡ s.budget_score
end_at-score now s = ground arith

other_score :
    (name session_id : String) (f : AccountedSession → AccountedSession)
    (rows : List AccountedSession) (found : Option AccountedSession)
    → find_session session_id rows ≡ found
    → (session_id == name) ≡ false
    → score_in (option_map (at_session name f) found) ≡ score_in found
other_score name session_id f rows none h other = refl
other_score name session_id f rows (some s) h other =
    rw (find_session-id session_id rows s h, other) refl

-- The score of every session after a new delivery
pub recorded_score :
    (uuid : ℕ → OpaqueId) (fm : Formats) (o : ObservationRecord) (es : List EventRecord)
    (db after : Db) (r : RecordResult)
    → (new : NewDelivery uuid fm o es db after r) → (session_id : String)
    → score_of session_id after.sessions ≡ (
        if session_id == o.session_id
        then score_after new.session.profile.floats new.progress.deltas new.session.budget_score
        else score_of session_id db.sessions)
unfolding finish score_of
recorded_score uuid fm o es db after r new session_id =
    let name = new.session.session_id in
    let f = add_points new.session.profile.floats new.progress.deltas in
    let rows_kept : new.progress.db.sessions ≡ db.sessions =
      (record_events-Frame uuid new.session _ es _ new.progress new.looped).same_sessions in
    let named : name ≡ o.session_id =
      find_session-id o.session_id db.sessions new.session new.found in
    rw
      (
        ← ap (λ x. x.0) new.made,
        rows_kept,
        find_session-update_session name session_id f (λ s. refl) db.sessions,
      )
      (elim (Bool-cases (session_id == o.session_id)) [
        | inl same ↦
            let found : find_session session_id db.sessions ≡ some new.session =
              ap (λ j. find_session j db.sessions) (==→eq session_id o.session_id same)
              ∙ new.found in
            rw (same, found, ==_refl name) refl
        | inr other ↦
            rw other (other_score name session_id f db.sessions _ refl (rw (← named) at other))
      ])

pub found_score :
    (session_id : String) (rows : List AccountedSession) (s : AccountedSession)
    → find_session session_id rows ≡ some s
    → score_of session_id rows ≡ s.budget_score
unfolding score_of
found_score session_id rows s h = rw h refl
