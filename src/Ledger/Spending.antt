-- ===== src/Ledger/Spending.antt =====
-- What a call of `record_observation` of src/privacy_hud/ledger.py writes to the disclosures and the
-- scores, and what its result says of it.
use codex_privacy_hud.Prelude.{
  ℕ, String, true, some, List, [], ◌∷◌, ◌++◌, map, ◌==◌, string_key, ◌≡◌, refl, sym, ap, ◌∙◌, inl,
  inr, ◌⊎◌, if◌then◌else◌, false,
}
use codex_privacy_hud.Prelude.Results.{returned, and_then-returned}
use codex_privacy_hud.Accounting.Records.{OpaqueId, ObservationRecord, EventRecord}
use codex_privacy_hud.Checks.{Formats}
use codex_privacy_hud.Ledger.Tables.{
  AccountedSession, DisclosureRow, Db, RecordResult, find_session,
}
use codex_privacy_hud.Ledger.Loop.{
  Progress, record_event, record_events, charge, add_disclosure, add_event, disclosure,
}
use codex_privacy_hud.Ledger.Recording.{finish, score_after, recorded_result}
use codex_privacy_hud.Ledger.Charges.{charge_cases, returned_inj}
use codex_privacy_hud.Ledger.Outcome.{NewDelivery, record_core_cases}
use codex_privacy_hud.Ledger.Targets.{record_observation}
use codex_privacy_hud.Ledger.Metadata.{Targeted, record_observation_split}
use codex_privacy_hud.Ledger.Repeats.{map-append}
use codex_privacy_hud.Ledger.Scores.{score_of, recorded_score}
use mathlib.Core.List.{append-nil, append_assoc}

-- The rows that the loop has added to the disclosures, and its lists of them
record Added (before : List DisclosureRow) (p : Progress) : Type 0 where
  rows : List DisclosureRow
  appended : p.db.disclosures ≡ before ++ rows
  listed : p.disclosure_ids ≡ map (λ d. d.disclosure_id) rows
  counted : p.deltas ≡ map (λ d. d.budget_delta) rows

extended :
    (before : List DisclosureRow) (d : DisclosureRow) (p : Progress)
    → Added before p
    → Added before (add_disclosure d p)
unfolding add_disclosure
extended before d p a = record {
  rows = a.rows ++ d ∷ [];
  appended = rw a.appended (append_assoc before a.rows (d ∷ []));
  listed = rw (a.listed, map-append (λ x. x.disclosure_id) a.rows) refl;
  counted = rw (a.counted, map-append (λ x. x.budget_delta) a.rows) refl;
}

charge-Added :
    (before : List DisclosureRow) (s : AccountedSession) (sub rec : OpaqueId) (e : EventRecord)
    (p q : Progress)
    → charge s sub rec e p ≡ returned q
    → Added before p
    → Added before q
charge-Added before s sub rec e p q h a = elim (charge_cases s sub rec e p q h) [
  | inl same ↦ rw (← same) a
  | inr c ↦
      rw (← c.added) (extended before (disclosure s.session_id sub rec e.data_type p c.delta) p a)
]

module _ (uuid : ℕ → OpaqueId) where
  record_events-Added :
      (before : List DisclosureRow) (s : AccountedSession) (oid : OpaqueId) (es : List EventRecord)
      (p q : Progress)
      → record_events uuid s oid es p ≡ returned q
      → Added before p
      → Added before q
  unfolding record_events record_event add_event
  record_events-Added before s oid [] p q h a = let same : p ≡ q = returned_inj h in rw (← same) a
  record_events-Added before s oid (e ∷ es) p q h a =
      let (mid, first, rest) = and_then-returned _ _ q h in
      record_events-Added before s oid es mid q rest (
        charge-Added before s _ _ e _ mid first
          (record { rows = a.rows; appended = a.appended; listed = a.listed; counted = a.counted }))

-- A call that adds rows: the result names them and the rounded sum of their points, and only the score of the
-- session grows, by that sum and only where there is a row.
pub record Spends (o : ObservationRecord) (db after : Db) (r : RecordResult) : Type 0 where
  pub session : AccountedSession
  pub found : find_session o.session_id db.sessions ≡ some session
  pub fresh : r.duplicate_delivery ≡ false
  pub added : List DisclosureRow
  pub appended : after.disclosures ≡ db.disclosures ++ added
  pub listed : r.disclosure_ids ≡ map (λ d. d.disclosure_id) added
  pub totalled : r.budget_delta ≡ session.profile.floats.sum (map (λ d. d.budget_delta) added)
  pub scored :
      (session_id : String)
      → score_of session_id after.sessions ≡ (
          if session_id == o.session_id
          then score_after session.profile.floats
              (map (λ d. d.budget_delta) added)
              session.budget_score
          else score_of session_id db.sessions)

-- A call for a delivery that is known
pub record Spares (db after : Db) (r : RecordResult) : Type 0 where
  pub repeated : r.duplicate_delivery ≡ true
  pub same_rows : after.disclosures ≡ db.disclosures
  pub same_sessions : after.sessions ≡ db.sessions

module _ (uuid : ℕ → OpaqueId) (fm : Formats) where
  new-Spends :
      (o : ObservationRecord) (es : List EventRecord) (db after : Db) (r : RecordResult)
      → NewDelivery uuid fm o es db after r
      → Spends o db after r
  unfolding finish
  new-Spends o es db after r new =
      let a =
        record_events-Added uuid db.disclosures new.session _ es _ new.progress new.looped (record {
          rows = [];
          appended = sym (append-nil db.disclosures);
          listed = refl;
          counted = refl;
        }) in
      record {
        session = new.session;
        found = new.found;
        fresh = sym (ap (λ x. x.1.duplicate_delivery) new.made);
        added = a.rows;
        appended = sym (ap (λ x. x.0.disclosures) new.made) ∙ a.appended;
        listed = sym (ap (λ x. x.1.disclosure_ids) new.made) ∙ a.listed;
        totalled =
            sym (ap (λ x. x.1.budget_delta) new.made) ∙ ap new.session.profile.floats.sum a.counted;
        scored = λ session_id.
            recorded_score uuid fm o es db after r new session_id
            ∙ ap
                (λ ds.
                  if session_id == o.session_id
                  then score_after new.session.profile.floats ds new.session.budget_score
                  else score_of session_id db.sessions)
                a.counted;
      }

  Targeted-Spends :
      (o : ObservationRecord) (db mid after : Db) (s r : RecordResult)
      → Targeted fm o mid s after r
      → Spares db mid s ⊎ Spends o db mid s
      → Spares db after r ⊎ Spends o db after r
  Targeted-Spends o db mid after s r Targeted.untouched h = h
  Targeted-Spends o db mid after s r (Targeted.appended t fits asked) (inl h) =
      inl
        (record { repeated = h.repeated; same_rows = h.same_rows; same_sessions = h.same_sessions })
  Targeted-Spends o db mid after s r (Targeted.appended t fits asked) (inr h) = inr (record {
    session = h.session;
    found = h.found;
    fresh = h.fresh;
    added = h.added;
    appended = h.appended;
    listed = h.listed;
    totalled = h.totalled;
    scored = h.scored;
  })

  -- A recording that returns either answers a delivery that is known, and leaves the disclosures and the
  -- sessions as they are; or it appends disclosures, returns their identifiers and the float sum of their
  -- points, adds that sum to the score of the session if there is such a disclosure, and leaves every other
  -- score as it is.
  pub record_observation-Spends :
      (o : ObservationRecord) (es : List EventRecord) (db after : Db) (r : RecordResult)
      → record_observation uuid fm o es db ≡ returned (after, r)
      → Spares db after r ⊎ Spends o db after r
  unfolding recorded_result
  record_observation-Spends o es db after r h =
      let split = record_observation_split uuid fm o es db after r h in
      Targeted-Spends o db _ after _ r split.metadata
        (elim (record_core_cases uuid fm o es db _ _ split.core) [
          | inl old ↦ inl (record {
            repeated = ap (λ x. x.duplicate_delivery) old.repeated;
            same_rows = ap (λ x. x.disclosures) old.unchanged;
            same_sessions = ap (λ x. x.sessions) old.unchanged;
          })
          | inr new ↦ inr (new-Spends o es db _ _ new)
        ])
