-- ===== src/Ledger/Closed.antt =====
-- What a session of src/privacy_hud/ledger.py that has ended, or whose accounting is unavailable, still takes.
use codex_privacy_hud.Prelude.{
  ℕ, String, true, false, some, List, [], ◌∷◌, ◌++◌, filter, filter-append, ◌==◌, string_key, ◌≡◌,
  refl, sym, ap, ◌∙◌, arith, inl, inr, ==→eq, ==_refl, ==_sym_false, Bool-cases,
}
use codex_privacy_hud.Accounting.Records.{OpaqueId, ObservationRecord, EventRecord}
use codex_privacy_hud.Checks.{Formats}
use codex_privacy_hud.Ledger.Tables.{
  Profile, AccountedSession, DisclosureRow, Db, RecordResult, find_session, update_session,
  at_session, is_open,
}
use codex_privacy_hud.Ledger.Recording.{finish, add_points, score_after}
use codex_privacy_hud.Ledger.Sessions.{new_session, end_at, withdraw}
use codex_privacy_hud.Ledger.Charges.{Charges, Charges-record_events}
use codex_privacy_hud.Ledger.Outcome.{NewDelivery, record_events-Frame}
use codex_privacy_hud.Ledger.Calls.{Kept, Later, Later-kept, Reached}
use codex_privacy_hud.Ledger.Rows.{
  find_session-id, find_session-append_found, find_session-update_session,
}
use codex_privacy_hud.Ledger.Scores.{
  of_session, end_at-id, end_at-score, score_of, recorded_score, found_score, score_of-kept,
}
use mathlib.Core.List.{append-nil}

Charges-other :
    (sid : String) {s : AccountedSession} {ds : List DisclosureRow} {t : List ℕ}
    {es : List DisclosureRow} {u : List ℕ}
    → (s.session_id == sid) ≡ false
    → Charges s ds t es u
    → filter (of_session sid) es ≡ filter (of_session sid) ds
unfolding filter
Charges-other sid h Charges.done = refl
Charges-other sid h (Charges.more {es = before} c d i) =
    let others : of_session sid d ≡ false = rw i.of_session h in
    rw (filter-append (of_session sid) before (d ∷ []), others, Charges-other sid h c)
      (append-nil (filter (of_session sid) _))

Charges-closed :
    {s : AccountedSession} {ds : List DisclosureRow} {t : List ℕ} {es : List DisclosureRow}
    {u : List ℕ}
    → is_open s ≡ false
    → Charges s ds t es u
    → (es ≡ ds) × (u ≡ t)
Charges-closed h Charges.done = (refl, refl)
Charges-closed h (Charges.more c d i) = cc (h, i.session_open)

record Closed (sid : String) (rows : List DisclosureRow) (score : ℕ) (db : Db) : Type 0 where
  session : AccountedSession
  found : find_session sid db.sessions ≡ some session
  closed : is_open session ≡ false
  same_rows : filter (of_session sid) db.disclosures ≡ rows
  same_score : score_of sid db.sessions ≡ score

updated_row :
    (name : String) (f : AccountedSession → AccountedSession)
    → ((s : AccountedSession) → (f s).session_id ≡ s.session_id)
    → ((s : AccountedSession) → is_open s ≡ false → is_open (f s) ≡ false)
    → (sid : String) (rows : List AccountedSession) (s : AccountedSession)
    → find_session sid rows ≡ some s
    → is_open s ≡ false
    → (find_session sid (update_session name f rows) ≡ some (at_session name f s))
      × (is_open (at_session name f s) ≡ false)
updated_row name f keeps stays sid rows s found closed = (
  rw (find_session-update_session name sid f keeps rows, found) refl,
  elim (Bool-cases (s.session_id == name)) [
    | inl same ↦ rw same (stays s closed)
    | inr other ↦ rw other closed
  ],
)

end_at-closed :
    (now : ℕ) (s : AccountedSession) → is_open s ≡ false → is_open (end_at now s) ≡ false
end_at-closed now s h = ground arith

withdraw-closed : (s : AccountedSession) → is_open s ≡ false → is_open (withdraw s) ≡ false
withdraw-closed s h = refl

inserted_score :
    (sid name : String) (profile : Profile) (db : Db) (s : AccountedSession)
    → find_session sid db.sessions ≡ some s
    → score_of sid (db.sessions ++ new_session name profile ∷ []) ≡ score_of sid db.sessions
unfolding score_of
inserted_score sid name profile db s found =
    rw (find_session-append_found sid db.sessions (new_session name profile) s found, found) refl

module _ (sid : String) (rows : List DisclosureRow) (score : ℕ) (uuid : ℕ → OpaqueId)
    (fm : Formats) where
  disclosed :
      (o : ObservationRecord) (es : List EventRecord) (db after : Db) (r : RecordResult)
      → (new : NewDelivery uuid fm o es db after r) → Closed sid rows score db
      → (filter (of_session sid) new.progress.db.disclosures ≡ rows)
        × (score_of sid after.sessions ≡ score)
  unfolding score_after
  disclosed o es db after r new c =
      let charges = Charges-record_events uuid new.session _ es _ new.progress new.looped in
      let named = find_session-id _ _ _ new.found in
      elim (Bool-cases (new.session.session_id == sid)) [
        | inl same ↦
            let twice : some c.session ≡ some new.session =
              sym c.found
              ∙ ap (λ j. find_session j db.sessions) (sym (==→eq _ _ same) ∙ named)
              ∙ new.found in
            let one : c.session ≡ new.session = cc in
            let ours : (sid == o.session_id) ≡ true =
              rw (sym (==→eq _ _ same) ∙ named) (==_refl o.session_id) in
            let before : new.session.budget_score ≡ score =
              rw (← one) (sym (found_score sid db.sessions c.session c.found) ∙ c.same_score) in
            let (nothing, no_points) = Charges-closed (rw (← one) c.closed) charges in
            (
              ap (filter (of_session sid)) nothing ∙ c.same_rows,
              recorded_score uuid fm o es db after r new sid ∙ rw (ours, no_points) before,
            )
        | inr other ↦
            let apart : (sid == o.session_id) ≡ false =
              rw named at (==_sym_false new.session.session_id sid other) in
            (
              Charges-other sid other charges ∙ c.same_rows,
              recorded_score uuid fm o es db after r new sid ∙ rw apart c.same_score,
            )
      ]

  recorded-Closed :
      (o : ObservationRecord) (es : List EventRecord) (db after : Db) (r : RecordResult)
      → NewDelivery uuid fm o es db after r
      → Closed sid rows score db
      → Closed sid rows score after
  unfolding finish
  recorded-Closed o es db after r new c =
      let kept : new.progress.db.sessions ≡ db.sessions =
        (record_events-Frame uuid new.session _ es _ new.progress new.looped).same_sessions in
      let f = add_points new.session.profile.floats new.progress.deltas in
      let later = rw (← ap (λ x. x.0) new.made) at (disclosed o es db after r new c).1 in
      let (found, closed) =
        updated_row new.session.session_id f (λ s. refl) (λ s h. h) sid db.sessions c.session
          c.found c.closed in
      rw (← ap (λ x. x.0) new.made) (record {
        session = at_session new.session.session_id f c.session;
        found = rw kept found;
        closed = closed;
        same_rows = (disclosed o es db after r new c).0;
        same_score = later;
      })

  kept-Closed : Kept uuid fm (Closed sid rows score)
  kept-Closed = record {
    kept_inserted = λ name profile db h c. record {
      session = c.session;
      found =
          find_session-append_found sid db.sessions (new_session name profile) c.session c.found;
      closed = c.closed;
      same_rows = c.same_rows;
      same_score = inserted_score sid name profile db c.session c.found ∙ c.same_score;
    };
    kept_recorded = recorded-Closed;
    kept_target = λ db t fits c. record {
      session = c.session;
      found = c.found;
      closed = c.closed;
      same_rows = c.same_rows;
      same_score = c.same_score;
    };
    kept_ended = λ name now db c.
        let (found, closed) =
          updated_row name (end_at now) (end_at-id now) (end_at-closed now) sid db.sessions
            c.session c.found c.closed in
        record {
          session = at_session name (end_at now) c.session;
          found = found;
          closed = closed;
          same_rows = c.same_rows;
          same_score =
              score_of-kept name (end_at now) (end_at-id now) (end_at-score now) sid db.sessions
              ∙ c.same_score;
        };
    kept_withdrawn = λ name db c.
        let (found, closed) =
          updated_row name withdraw (λ s. refl) withdraw-closed sid db.sessions c.session c.found
            c.closed in
        record {
          session = at_session name withdraw c.session;
          found = found;
          closed = closed;
          same_rows = c.same_rows;
          same_score =
              score_of-kept name withdraw (λ s. refl) (λ s. refl) sid db.sessions ∙ c.same_score;
        };
  }

-- In all tables that calls lead to: once a session has ended or its accounting is unavailable, no number of
-- calls of any kind adds a disclosure to it, takes one away, or changes its score.
pub closed_stays_charged :
    (uuid : ℕ → OpaqueId) (fm : Formats) (db later : Db)
    → Reached uuid fm db
    → Later uuid fm db later
    → (sid : String) (s : AccountedSession) → find_session sid db.sessions ≡ some s
    → is_open s ≡ false
    → (filter (of_session sid) later.disclosures ≡ filter (of_session sid) db.disclosures)
      × (score_of sid later.sessions ≡ score_of sid db.sessions)
closed_stays_charged uuid fm db later reached calls sid s found closed =
    let after =
      Later-kept uuid fm
        (kept-Closed sid (filter (of_session sid) db.disclosures) (score_of sid db.sessions) uuid
          fm)
        calls
        (record {
          session = s;
          found = found;
          closed = closed;
          same_rows = refl;
          same_score = refl;
        }) in
    (after.same_rows, after.same_score)
