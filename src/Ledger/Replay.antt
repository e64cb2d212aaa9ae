-- ===== src/Ledger/Replay.antt =====
-- A delivery key of src/privacy_hud/ledger.py is answered the same way every time that it comes.
use codex_privacy_hud.Prelude.{
  ℕ, String, Bool, true, false, none, List, [], ◌∷◌, any, filter, map, member, ◌==◌, string_key,
  nat_key, ◌≡◌, refl, ap, arith, ||-false,
}
use codex_privacy_hud.Accounting.Records.{OpaqueId, ObservationRecord, EventRecord}
use codex_privacy_hud.Checks.{Formats}
use codex_privacy_hud.Ledger.Tables.{AccountedSession, DisclosureRow, Db, RecordResult}
use codex_privacy_hud.Ledger.Batch.{is_event_of}
use codex_privacy_hud.Ledger.Recording.{
  recorded_events, observed_events, is_charged_by, start_progress, insert_observation, add_points,
}
use codex_privacy_hud.Ledger.Outcome.{NewDelivery, row_of}
use codex_privacy_hud.Ledger.Fresh.{Bounded, Unused, Unused-later, Spent-uuid}
use codex_privacy_hud.Ledger.Repeats.{Ongoing}

filter-none :
    {A : Type 0} (p q : A → Bool)
    → ((x : A) → q x ≡ false → p x ≡ false)
    → (xs : List A) → any q xs ≡ false
    → filter p xs ≡ []
unfolding any filter
filter-none p q weaker [] h = refl
filter-none p q weaker (x ∷ xs) h =
    let (one, rest) = ||-false (q x) (any q xs) h in
    rw (weaker x one, filter-none p q weaker xs rest) refl

charged_by-none : (sid : String) (ds : List DisclosureRow) → filter (is_charged_by [] sid) ds ≡ []
unfolding filter member any
charged_by-none sid [] = refl
charged_by-none sid (d ∷ ds) =
    let no_event : is_charged_by [] sid d ≡ false = ground arith in
    rw (no_event, charged_by-none sid ds) refl

module _ (uuid : ℕ → OpaqueId) (distinct : (i j : ℕ) → uuid i ≡ uuid j → i ≡ j) where
  -- What the identifiers of the tables satisfy between calls
  pub record Tidy (db : Db) : Type 0 where
    pub bounded : Bounded db.events db.disclosures
    pub unused : Unused uuid db.drawn db.events

  started :
      (s : AccountedSession) (o : ObservationRecord) (db : Db) (fm : Formats)
      → Tidy db
      → Ongoing uuid s
          (uuid db.drawn)
          (start_progress (insert_observation (row_of uuid fm o db) db))
  unfolding recorded_events observed_events Unused
  started s o db fm t =
      let nothing = charged_by-none s.session_id db.disclosures in
      record {
        listed = ap (map (λ e. e.id)) (
            filter-none (is_event_of s.session_id (uuid db.drawn))
              (λ e. e.observation_id == uuid db.drawn) (λ e h. rw h (ground arith)) db.events
              (t.unused db.drawn (omega arith)));
        observed = ap (map (λ e. e.id)) (
            filter-none (λ e. e.observation_id == uuid db.drawn)
              (λ e. e.observation_id == uuid db.drawn) (λ e h. h) db.events
              (t.unused db.drawn (omega arith)));
        charged = rw nothing refl;
        counted = rw nothing refl;
        bounded = t.bounded;
        unused = Unused-later uuid db.drawn _ db.events (omega arith) t.unused;
        spent = Spent-uuid uuid distinct db.drawn;
      }

abbrev pub as_duplicate : RecordResult → RecordResult
as_duplicate r = record r { duplicate_delivery = true; guard_target_event_id = none }

module _ (uuid : ℕ → OpaqueId) (distinct : (i j : ℕ) → uuid i ≡ uuid j → i ≡ j) (fm : Formats) where
  -- The session's row after its new delivery
  abbrev charged_session :
      (o : ObservationRecord) (es : List EventRecord) (db after : Db) (r : RecordResult)
      → NewDelivery uuid fm o es db after r
      → AccountedSession
  charged_session o es db after r new =
      add_points new.session.profile.floats new.progress.deltas new.session
