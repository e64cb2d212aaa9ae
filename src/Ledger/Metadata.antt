-- ===== src/Ledger/Metadata.antt =====
-- What the guard target of an observation adds in src/privacy_hud/ledger.py to what was recorded without it.
use codex_privacy_hud.Prelude.{
  ℕ, true, not, ◌&&◌, Option, none, some, List, [], ◌∷◌, ◌++◌, is_some, ◌≡◌, refl, inl, inr,
  Bool-cases,
}
use codex_privacy_hud.Prelude.Results.{returned, and_then-returned}
use codex_privacy_hud.Accounting.Records.{OpaqueId, GuardTarget, ObservationRecord, EventRecord}
use codex_privacy_hud.Checks.{Formats}
use codex_privacy_hud.Ledger.Tables.{EventRow, TargetRow, Db, RecordResult}
use codex_privacy_hud.Ledger.Recording.{record_core}
use codex_privacy_hud.Ledger.Targets.{
  accepts_target, is_guard_observation, insert_target, record_found, record_target, settle_target,
  with_target, record_observation,
}
use codex_privacy_hud.Ledger.Charges.{returned_inj}

abbrev pub retargeted : List TargetRow → Db → Db
retargeted targets db = record db { targets = targets }

abbrev pub renamed : Option ℕ → RecordResult → RecordResult
renamed event_id r = record r { guard_target_event_id = event_id }

-- A row that an observation asks for
pub record IsTargetOf (o : ObservationRecord) (t : TargetRow) : Type 0 where
  pub asked : GuardTarget
  pub given : o.guard_target ≡ some asked
  pub of_session : t.session_id ≡ o.session_id
  pub of_target : t.target_id ≡ asked.target_id

-- What the metadata leaves: nothing, or one row that the table accepts
pub data Targeted (fm : Formats) (o : ObservationRecord) (db : Db) (r : RecordResult)
    : Db → RecordResult → Type 0 where
  untouched : Targeted fm o db r db r
  appended :
      (t : TargetRow)
      → accepts_target fm t db ≡ true
      → IsTargetOf o t
      → Targeted fm o db r (retargeted (db.targets ++ t ∷ []) db) (renamed (some t.event_id) r)

insert_Targeted :
    (fm : Formats) (o : ObservationRecord) (t : TargetRow) (db : Db) (r : RecordResult)
    → IsTargetOf o t
    → Targeted fm o db r
        (settle_target (insert_target fm t db) db r).0
        (settle_target (insert_target fm t db) db r).1
unfolding insert_target settle_target
insert_Targeted fm o t db r asked = elim (Bool-cases (accepts_target fm t db)) [
  | inl fits ↦ rw fits (Targeted.appended t fits asked)
  | inr not_fit ↦ rw not_fit Targeted.untouched
]

found_Targeted :
    (fm : Formats) (o : ObservationRecord) (g : GuardTarget) (found : List EventRow) (db : Db)
    (r : RecordResult)
    → o.guard_target ≡ some g
    → Targeted fm o db r
        (settle_target (record_found fm o.session_id g found db) db r).0
        (settle_target (record_found fm o.session_id g found db) db r).1
unfolding record_found settle_target
found_Targeted fm o g [] db r given = Targeted.untouched
found_Targeted fm o g (e ∷ []) db r given =
    insert_Targeted fm o _ db r
      (record { asked = g; given = given; of_session = refl; of_target = refl })
found_Targeted fm o g (e ∷ f ∷ es) db r given = Targeted.untouched

target_Targeted :
    (fm : Formats) (o : ObservationRecord) (r : RecordResult) (g : Option GuardTarget) (db : Db)
    → o.guard_target ≡ g
    → Targeted fm o db r
        (settle_target (record_target fm o r g db) db r).0
        (settle_target (record_target fm o r g db) db r).1
unfolding record_target settle_target
target_Targeted fm o r none db given = Targeted.untouched
target_Targeted fm o r (some g) db given = elim (Bool-cases (is_guard_observation o)) [
  | inl guard ↦ rw guard (found_Targeted fm o g _ db r given)
  | inr other ↦ rw other Targeted.untouched
]

with_target-Targeted :
    (fm : Formats) (o : ObservationRecord) (db : Db) (r : RecordResult)
    → Targeted fm o db r (with_target fm o (db, r)).0 (with_target fm o (db, r)).1
unfolding with_target
with_target-Targeted fm o db r =
    elim (Bool-cases (is_some o.guard_target && not r.duplicate_delivery)) [
      | inl due ↦ rw due (target_Targeted fm o r o.guard_target db refl)
      | inr other ↦ rw other Targeted.untouched
    ]

Targeted-≡ :
    (fm : Formats) (o : ObservationRecord) (db : Db) (r : RecordResult) (made : Db × RecordResult)
    (after : Db) (u : RecordResult)
    → Targeted fm o db r made.0 made.1
    → made ≡ (after, u)
    → Targeted fm o db r after u
Targeted-≡ fm o db r made after u t same = rw same at t

module _ (uuid : ℕ → OpaqueId) (fm : Formats) where
  -- A call that returns, split into the accounting and the metadata
  pub record Recorded (o : ObservationRecord) (es : List EventRecord) (db after : Db)
      (r : RecordResult) : Type 0 where
    pub core_db : Db
    pub core_result : RecordResult
    pub core : record_core uuid fm o es db ≡ returned (core_db, core_result)
    pub metadata : Targeted fm o core_db core_result after r

  pub record_observation_split :
      (o : ObservationRecord) (es : List EventRecord) (db after : Db) (r : RecordResult)
      → record_observation uuid fm o es db ≡ returned (after, r)
      → Recorded o es db after r
  unfolding record_observation
  record_observation_split o es db after r h =
      let (made, core, done) = and_then-returned _ _ _ h in
      let same : with_target fm o made ≡ (after, r) = returned_inj done in
      record {
        core_db = made.0;
        core_result = made.1;
        core = core;
        metadata =
            Targeted-≡ fm o made.0 made.1 _ after r (with_target-Targeted fm o made.0 made.1) same;
      }
