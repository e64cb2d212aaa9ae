-- ===== src/Ledger/Outcome.antt =====
-- What a call of `record_core` that returns has done, as a case distinction on the delivery.
use codex_privacy_hud.Prelude.{
  ℕ, true, false, not, ◌&&◌, Option, none, some, List, [], ◌∷◌, ◌==◌, string_key, ◌≡◌, refl, sym,
  ap, ◌∙◌, arith, inl, inr, ◌⊎◌, &&-true,
}
use codex_privacy_hud.Prelude.Results.{returned, and_then-returned, raise_if-returned}
use codex_privacy_hud.Accounting.Records.{OpaqueId, ObservationRecord, EventRecord}
use codex_privacy_hud.Checks.{Formats, check_observation}
use codex_privacy_hud.Ledger.Tables.{
  AccountedSession, ObservationRow, Db, find_session, RecordResult,
}
use codex_privacy_hud.Ledger.Batch.{EventKey, check_batch, same_action_kind}
use codex_privacy_hud.Ledger.Loop.{
  Progress, record_event, record_events, charge, add_disclosure, add_event,
}
use codex_privacy_hud.Ledger.Recording.{
  start_progress, is_frozen, finish, insert_observation, recorded_result, find_delivery, record_new,
  record_delivery, record_in, record_core,
}
use codex_privacy_hud.Ledger.Charges.{returned_inj, charge_cases}

-- The tables that the loop does not write
pub record Frame (p q : Db) : Type 0 where
  pub same_sessions : q.sessions ≡ p.sessions
  pub same_observations : q.observations ≡ p.observations
  pub same_targets : q.targets ≡ p.targets
  pub same_gaps : q.gaps ≡ p.gaps

Frame-refl : (p : Db) → Frame p p
Frame-refl p = record {
  same_sessions = refl;
  same_observations = refl;
  same_targets = refl;
  same_gaps = refl;
}

Frame-trans : {p q r : Db} → Frame p q → Frame q r → Frame p r
Frame-trans a b = record {
  same_sessions = b.same_sessions ∙ a.same_sessions;
  same_observations = b.same_observations ∙ a.same_observations;
  same_targets = b.same_targets ∙ a.same_targets;
  same_gaps = b.same_gaps ∙ a.same_gaps;
}

Frame-≡ : {p q r : Db} → Frame p q → q ≡ r → Frame p r
Frame-≡ a e = rw (← e) a

charge-Frame :
    (s : AccountedSession) (subject_id recipient_id : OpaqueId) (e : EventRecord) (p q : Progress)
    → charge s subject_id recipient_id e p ≡ returned q
    → Frame p.db q.db
unfolding add_disclosure
charge-Frame s subject_id recipient_id e p q h =
    elim (charge_cases s subject_id recipient_id e p q h) [
      | inl same ↦ Frame-≡ (Frame-refl p.db) (ap (λ x. x.db) same)
      | inr c ↦
          Frame-≡
            (record {
              same_sessions = refl;
              same_observations = refl;
              same_targets = refl;
              same_gaps = refl;
            })
            (ap (λ x. x.db) c.added)
    ]

module _ (uuid : ℕ → OpaqueId) where
  record_event-Frame :
      (s : AccountedSession) (observation_id : OpaqueId) (e : EventRecord) (p q : Progress)
      → record_event uuid s observation_id e p ≡ returned q
      → Frame p.db q.db
  unfolding record_event add_event
  record_event-Frame s observation_id e p q h =
      let f = charge-Frame s _ _ e _ q h in
      record {
        same_sessions = f.same_sessions;
        same_observations = f.same_observations;
        same_targets = f.same_targets;
        same_gaps = f.same_gaps;
      }

  pub record_events-Frame :
      (s : AccountedSession) (observation_id : OpaqueId) (es : List EventRecord) (p q : Progress)
      → record_events uuid s observation_id es p ≡ returned q
      → Frame p.db q.db
  unfolding record_events
  record_events-Frame s observation_id [] p q h =
      Frame-≡ (Frame-refl p.db) (ap (λ x. x.db) (returned_inj h))
  record_events-Frame s observation_id (e ∷ es) p q h =
      let (mid, first, rest) = and_then-returned _ _ q h in
      Frame-trans (record_event-Frame s observation_id e p mid first)
        (record_events-Frame s observation_id es mid q rest)

module _ (uuid : ℕ → OpaqueId) (fm : Formats) where
  -- A delivery that was recorded before
  pub record OldDelivery (o : ObservationRecord) (db after : Db) (r : RecordResult) : Type 0 where
    pub session : AccountedSession
    pub found : find_session o.session_id db.sessions ≡ some session
    pub named : (o.session_id == "") ≡ false
    pub well_keyed : fm.is_opaque_id o.delivery_key ≡ true
    pub old : OpaqueId
    pub known : find_delivery session.session_id o.delivery_key db.observations ≡ some old
    pub unchanged : after ≡ db
    pub repeated : r ≡ recorded_result session old db

  -- A delivery that is recorded now
  abbrev pub row_of : ObservationRecord → Db → ObservationRow
  row_of o db = record { observation_id = uuid db.drawn; observed = o }

  pub record NewDelivery (o : ObservationRecord) (es : List EventRecord) (db after : Db)
      (r : RecordResult) : Type 0 where
    pub session : AccountedSession
    pub found : find_session o.session_id db.sessions ≡ some session
    pub named : (o.session_id == "") ≡ false
    pub well_keyed : fm.is_opaque_id o.delivery_key ≡ true
    pub unknown : find_delivery session.session_id o.delivery_key db.observations ≡ none
    pub consistent : check_observation fm o ≡ true
    pub keys : List EventKey
    pub accepted : check_batch fm o session [] es ≡ returned keys
    pub progress : Progress
    pub looped :
        record_events uuid session
          (uuid db.drawn)
          es
          (start_progress (insert_observation (row_of o db) db))
        ≡ returned progress
    pub permitted : is_frozen progress.deltas session ≡ false
    pub made : finish session (row_of o db) progress ≡ (after, r)

  delivery_cases :
      (s : AccountedSession) (k : Option OpaqueId) (o : ObservationRecord) (es : List EventRecord)
      (db after : Db) (r : RecordResult)
      → find_session o.session_id db.sessions ≡ some s
      → find_delivery s.session_id o.delivery_key db.observations ≡ k
      → (o.session_id == "") ≡ false
      → fm.is_opaque_id o.delivery_key ≡ true
      → record_delivery uuid fm k s o es db ≡ returned (after, r)
      → OldDelivery o db after r ⊎ NewDelivery o es db after r
  unfolding record_delivery record_new
  delivery_cases s (some old) o es db after r found known named keyed h =
      let same = returned_inj h in
      inl (record {
        session = s;
        found = found;
        named = named;
        well_keyed = keyed;
        old = old;
        known = known;
        unchanged = sym (ap (λ x. x.0) same);
        repeated = sym (ap (λ x. x.1) same);
      })
  delivery_cases s none o es db after r found unknown named keyed h =
      let (valid, checked) =
        raise_if-returned (not (check_observation fm o && same_action_kind o db.observations)) _ _ _
          h in
      let consistent =
        (&&-true (check_observation fm o) (same_action_kind o db.observations)
          (ground (arith, valid))).0 in
      let (keys, accepted, written) = and_then-returned _ _ _ checked in
      let (progress, looped, scored) = and_then-returned _ _ _ written in
      let (permitted, made) = raise_if-returned (is_frozen progress.deltas s) _ _ _ scored in
      inr (record {
        session = s;
        found = found;
        named = named;
        well_keyed = keyed;
        unknown = unknown;
        consistent = consistent;
        keys = keys;
        accepted = accepted;
        progress = progress;
        looped = looped;
        permitted = permitted;
        made = returned_inj made;
      })

  in_cases :
      (k : Option AccountedSession) (o : ObservationRecord) (es : List EventRecord) (db after : Db)
      (r : RecordResult)
      → find_session o.session_id db.sessions ≡ k
      → (o.session_id == "") ≡ false
      → record_in uuid fm k o es db ≡ returned (after, r)
      → OldDelivery o db after r ⊎ NewDelivery o es db after r
  unfolding record_in
  in_cases none o es db after r found named h = cc
  in_cases (some s) o es db after r found named h =
      let (keyed, rest) = raise_if-returned (not (fm.is_opaque_id o.delivery_key)) _ _ _ h in
      delivery_cases s _ o es db after r found refl named (ground (arith, keyed)) rest

  pub record_core_cases :
      (o : ObservationRecord) (es : List EventRecord) (db after : Db) (r : RecordResult)
      → record_core uuid fm o es db ≡ returned (after, r)
      → OldDelivery o db after r ⊎ NewDelivery o es db after r
  unfolding record_core
  record_core_cases o es db after r h =
      let (named, rest) = raise_if-returned (o.session_id == "") _ _ _ h in
      in_cases _ o es db after r refl named rest
