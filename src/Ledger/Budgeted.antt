-- ===== src/Ledger/Budgeted.antt =====
-- The points of every group in all tables that calls of src/privacy_hud/ledger.py lead to.
use codex_privacy_hud.Prelude.{
  ℕ, String, true, none, some, List, [], ◌∷◌, ◌++◌, map, count_where, filter, ◌==◌, string_key, ◌≡◌,
  refl, sym, ap, ◌∙◌, arith, inl, inr, ==→eq, Bool-cases, is_some,
}
use codex_privacy_hud.Prelude.Results.{returned, and_then-returned}
use codex_privacy_hud.Accounting.Vocabulary.{
  DataType, DestinationKind, data_type_key, destination_kind_key, subject_kind_key,
}
use codex_privacy_hud.Accounting.Records.{OpaqueId, ObservationRecord, EventRecord}
use codex_privacy_hud.Checks.{Formats}
use codex_privacy_hud.Ledger.Tables.{
  Profile, AccountedSession, IdentityRow, DisclosureRow, Db, RecordResult, find_session,
  update_session, at_session, group_size, group_score,
}
use codex_privacy_hud.Ledger.Identities.{Known, identity_id, find_identity}
use codex_privacy_hud.Ledger.Loop.{
  Progress, record_event, record_events, charge, add_disclosure, add_event, with_subjects,
  subjects_known, recipients_known, subject_descriptor, recipient_descriptor,
}
use codex_privacy_hud.Ledger.Recording.{finish, add_points}
use codex_privacy_hud.Ledger.Charges.{charge_cases, returned_inj}
use codex_privacy_hud.Ledger.Fresh.{identity_id-drawn}
use codex_privacy_hud.Ledger.Kinds.{
  kind_of, Coherent, Undrawn, Undrawn-later, Sound, identity_id-Sound, identity_id-kept,
  identity_id-kind,
}
use codex_privacy_hud.Ledger.Priced.{
  group_points, IsPriced-kind, IsPriced-session, IsPriced-row, AllPriced, charged_priced,
}
use codex_privacy_hud.Ledger.Kinds.{Coherent-erase, Undrawn-erase, kind_of-erase}
use codex_privacy_hud.Ledger.Outcome.{NewDelivery}
use codex_privacy_hud.Ledger.Calls.{Kept, Reached, Reached-kept, no_tables}
use codex_privacy_hud.Ledger.Rows.{
  find_session-id, find_session-append_other, find_session-update_session, at_session-profile,
}
use codex_privacy_hud.Ledger.Sessions.{new_session, end_at, withdraw, erase}
use codex_privacy_hud.Ledger.Scores.{end_at-id}

module _ (uuid : ℕ → OpaqueId) (distinct : (i j : ℕ) → uuid i ≡ uuid j → i ≡ j) where
  abbrev recipients_of : Db → Known DestinationKind
  recipients_of db = record { rows = db.recipients; local = []; drawn = db.drawn }

  -- In the course of the loop over the batch of a session
  record Accounted (s : AccountedSession) (p : Progress) : Type 0 where
    found : find_session s.session_id p.db.sessions ≡ some s
    coherent : Coherent p.db.recipients
    undrawn : Undrawn uuid p.db.drawn p.db.recipients
    priced : AllPriced p.db.sessions p.db.recipients p.db.disclosures

  charge-Accounted :
      (s : AccountedSession) (sub rec : OpaqueId) (e : EventRecord) (p q : Progress)
      → charge s sub rec e p ≡ returned q
      → (is_some e.recipient.identity_hash ≡ true
          → kind_of rec p.db.recipients ≡ some e.recipient.destination_kind)
      → Accounted s p
      → Accounted s q
  unfolding add_disclosure
  charge-Accounted s sub rec e p q h kind good = elim (charge_cases s sub rec e p q h) [
    | inl same ↦ rw (← same) good
    | inr c ↦ rw (← c.added) (record {
      found = good.found;
      coherent = good.coherent;
      undrawn = good.undrawn;
      priced =
          charged_priced s p.db.sessions p.db.recipients p.db.disclosures _ good.found c.lawful
            (rw c.to_recipient (kind c.identified)) good.priced;
    })
  ]

  record_event-Accounted :
      (s : AccountedSession) (oid : OpaqueId) (e : EventRecord) (p q : Progress)
      → record_event uuid s oid e p ≡ returned q
      → Accounted s p
      → Accounted s q
  unfolding record_event add_event AllPriced
  record_event-Accounted s oid e p q h good =
      let first =
        identity_id uuid s.session_id oid (subject_descriptor e.subject) (subjects_known p) in
      let known = recipients_known (with_subjects p first.0) in
      let d = recipient_descriptor e.recipient in
      let drawn =
        identity_id-drawn uuid s.session_id oid (subject_descriptor e.subject) (subjects_known p) in
      let sound : Sound uuid known = record {
        coherent = good.coherent;
        undrawn = Undrawn-later uuid _ _ p.db.recipients drawn good.undrawn;
      } in
      let after = identity_id-Sound uuid distinct s.session_id oid d known sound in
      charge-Accounted s first.1 (identity_id uuid s.session_id oid d known).1 e _ q h
        (identity_id-kind uuid s.session_id oid d known sound)
        (record {
          found = good.found;
          coherent = after.coherent;
          undrawn = after.undrawn;
          priced = λ sid dt rec.
              IsPriced-kind _ _ _ dt _ _ (identity_id-kept uuid s.session_id oid d known rec)
                (good.priced sid dt rec);
        })

  record_events-Accounted :
      (s : AccountedSession) (oid : OpaqueId) (es : List EventRecord) (p q : Progress)
      → record_events uuid s oid es p ≡ returned q
      → Accounted s p
      → Accounted s q
  unfolding record_events
  record_events-Accounted s oid [] p q h good =
      let same : p ≡ q = returned_inj h in rw (← same) good
  record_events-Accounted s oid (e ∷ es) p q h good =
      let (mid, first, rest) = and_then-returned _ _ q h in
      record_events-Accounted s oid es mid q rest (record_event-Accounted s oid e p mid first good)

  record Budgeted (db : Db) : Type 0 where
    rows_coherent : Coherent db.recipients
    rows_undrawn : Undrawn uuid db.drawn db.recipients
    all_priced : AllPriced db.sessions db.recipients db.disclosures

  updated_priced :
      (name : String) (f : AccountedSession → AccountedSession)
      → ((s : AccountedSession) → (f s).session_id ≡ s.session_id)
      → ((s : AccountedSession) → (f s).profile ≡ s.profile)
      → (sessions : List AccountedSession) (recipients : List (IdentityRow DestinationKind))
        (ds : List DisclosureRow)
      → AllPriced sessions recipients ds
      → AllPriced (update_session name f sessions) recipients ds
  unfolding AllPriced
  updated_priced name f keeps_id keeps sessions recipients ds good sid dt rec =
      rw (find_session-update_session name sid f keeps_id sessions) (
        IsPriced-row _ (at_session name f) _ dt _ _ (at_session-profile name f keeps)
          (good sid dt rec))

  end_at-profile : (now : ℕ) (s : AccountedSession) → (end_at now s).profile ≡ s.profile
  end_at-profile now s = elim (Bool-cases (is_some s.ended_at)) [
    | inl same ↦ rw same refl
    | inr other ↦ rw other refl
  ]

  inserted_priced :
      (name : String) (profile : Profile) (db : Db)
      → find_session name db.sessions ≡ none
      → AllPriced db.sessions db.recipients db.disclosures
      → AllPriced (db.sessions ++ new_session name profile ∷ []) db.recipients db.disclosures
  unfolding AllPriced
  inserted_priced name profile db h good sid dt rec = elim (Bool-cases (name == sid)) [
    | inl same ↦
        let eq = ==→eq name sid same in
        IsPriced-session _ _ dt _ _
          (rw (ap (λ j. find_session j db.sessions) (sym eq) ∙ h) at (good sid dt rec))
    | inr other ↦
        rw (find_session-append_other sid db.sessions (new_session name profile) other)
          (good sid dt rec)
  ]

  erased_priced :
      (name : String) (sessions : List AccountedSession)
      (recipients : List (IdentityRow DestinationKind)) (ds : List DisclosureRow)
      → AllPriced sessions recipients ds
      → AllPriced sessions (map (erase name) recipients) ds
  unfolding AllPriced
  erased_priced name sessions recipients ds good sid dt rec =
      rw (kind_of-erase rec name recipients) (good sid dt rec)

  recorded-Budgeted :
      (fm : Formats) (o : ObservationRecord) (es : List EventRecord) (db after : Db)
      (r : RecordResult)
      → NewDelivery uuid fm o es db after r
      → Budgeted db
      → Budgeted after
  unfolding finish
  recorded-Budgeted fm o es db after r new good =
      let named = find_session-id o.session_id db.sessions new.session new.found in
      let end =
        record_events-Accounted new.session (uuid db.drawn) es _ new.progress new.looped (record {
          found = ap (λ j. find_session j db.sessions) named ∙ new.found;
          coherent = good.rows_coherent;
          undrawn = Undrawn-later uuid db.drawn _ db.recipients (omega arith) good.rows_undrawn;
          priced = good.all_priced;
        }) in
      rw (← ap (λ x. x.0) new.made) (record {
        rows_coherent = end.coherent;
        rows_undrawn = end.undrawn;
        all_priced =
            updated_priced new.session.session_id
              (add_points new.session.profile.floats new.progress.deltas) (λ s. refl) (λ s. refl) _
              _ _ end.priced;
      })

  kept-Budgeted : (fm : Formats) → Kept uuid fm Budgeted
  kept-Budgeted fm = record {
    kept_inserted = λ name profile db h good. record {
      rows_coherent = good.rows_coherent;
      rows_undrawn = good.rows_undrawn;
      all_priced = inserted_priced name profile db h good.all_priced;
    };
    kept_recorded = recorded-Budgeted fm;
    kept_target = λ db t fits good. record {
      rows_coherent = good.rows_coherent;
      rows_undrawn = good.rows_undrawn;
      all_priced = good.all_priced;
    };
    kept_ended = λ name now db good. record {
      rows_coherent = Coherent-erase name db.recipients good.rows_coherent;
      rows_undrawn = Undrawn-erase uuid name db.drawn db.recipients good.rows_undrawn;
      all_priced = erased_priced name _ _ _ (
          updated_priced name (end_at now) (end_at-id now) (end_at-profile now) db.sessions
            db.recipients db.disclosures good.all_priced);
    };
    kept_withdrawn = λ name db good. record {
      rows_coherent = good.rows_coherent;
      rows_undrawn = good.rows_undrawn;
      all_priced =
          updated_priced name withdraw (λ s. refl) (λ s. refl) db.sessions db.recipients
            db.disclosures good.all_priced;
    };
  }

  no_tables-Budgeted : Budgeted no_tables
  unfolding AllPriced Coherent Undrawn find_session find_identity kind_of group_points group_size
      filter count_where
  no_tables-Budgeted = record {
    rows_coherent = λ sid kind h id found. cc;
    rows_undrawn = λ j above. refl;
    all_priced = λ sid dt rec. (refl, refl);
  }

  -- In all tables that calls lead to, the disclosures of a session, of one type and to one recipient, have
  -- cost together what the session's scoring function gives for as many of them, at the kind of the
  -- recipient's row, if no two identifiers that are drawn are equal.
  pub group_points-group_score :
      (fm : Formats) (db : Db)
      → Reached uuid fm db
      → (sid : String) (s : AccountedSession) (rec : OpaqueId) (to : DestinationKind)
        (dt : DataType)
      → find_session sid db.sessions ≡ some s
      → kind_of rec db.recipients ≡ some to
      → group_points sid dt rec db.disclosures
        ≡ group_score s.profile dt to (group_size sid dt rec db.disclosures)
  unfolding AllPriced group_score
  group_points-group_score fm db reached sid s rec to dt found kind =
      let good = Reached-kept uuid fm (kept-Budgeted fm) no_tables-Budgeted reached in
      let priced = rw (found, kind) at (good.all_priced sid dt rec) in omega (arith, priced)
