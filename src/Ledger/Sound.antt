-- ===== src/Ledger/Sound.antt =====
-- The index of guard targets of src/privacy_hud/guard_targets.py only knows targets that the table has.
use codex_privacy_hud.Prelude.{
  ℕ, String, Bool, true, not, ◌&&◌, Option, none, some, List, [], ◌∷◌, ◌++◌, any, any-append, ◌==◌,
  string_key, nat_key, is_some, lookup, lookup-upsert, some_inj, ◌≡◌, refl, sym, ap, ◌∙◌, arith,
  inl, inr, ==_refl, Bool-cases,
}
use codex_privacy_hud.Prelude.Results.{returned, and_then-returned}
use codex_privacy_hud.Accounting.Records.{
  OpaqueId, Digest, GuardTarget, ObservationRecord, EventRecord,
}
use codex_privacy_hud.Checks.{Formats}
use codex_privacy_hud.Ledger.Tables.{TargetRow, Db, RecordResult}
use codex_privacy_hud.Ledger.Recording.{finish, recorded_result, record_core}
use codex_privacy_hud.Ledger.Targets.{is_target}
use codex_privacy_hud.Ledger.Charges.{returned_inj}
use codex_privacy_hud.Ledger.Outcome.{record_core_cases, record_events-Frame}
use codex_privacy_hud.Ledger.Metadata.{Targeted, record_observation_split}
use codex_privacy_hud.Ledger.Index.{
  GuardTargetIndex, target_of, prepare, remember, receipt, record_guarded,
}

unfoldable pub IsSound : String → GuardTargetIndex → List TargetRow → Type 0
IsSound session_id seen targets =
    (digest : Digest) (target_id : OpaqueId) (event_id : ℕ)
    → lookup digest seen ≡ some (target_id, event_id)
    → any (is_target session_id event_id target_id) targets ≡ true

-- The accounting writes no target and names none.
core_targets :
    (uuid : ℕ → OpaqueId) (fm : Formats) (o : ObservationRecord) (es : List EventRecord)
    (db after : Db) (r : RecordResult)
    → record_core uuid fm o es db ≡ returned (after, r)
    → (after.targets ≡ db.targets) × (r.guard_target_event_id ≡ none)
unfolding recorded_result finish
core_targets uuid fm o es db after r h = elim (record_core_cases uuid fm o es db after r h) [
  | inl old ↦ (ap (λ x. x.targets) old.unchanged, ap (λ x. x.guard_target_event_id) old.repeated)
  | inr new ↦ (
    ap (λ x. x.0.targets) (sym new.made)
        ∙ (record_events-Frame uuid new.session _ es _ new.progress new.looped).same_targets,
    ap (λ x. x.1.guard_target_event_id) (sym new.made),
  )
]

pub IsSound-append :
    (session_id : String) (seen : GuardTargetIndex) (targets : List TargetRow) (t : TargetRow)
    → IsSound session_id seen targets
    → IsSound session_id seen (targets ++ t ∷ [])
unfolding IsSound
IsSound-append session_id seen targets t good digest target_id event_id h =
    rw
      (
        any-append (is_target session_id event_id target_id) targets (t ∷ []),
        good digest target_id event_id h,
      )
      refl

IsSound-remember :
    (session_id : String) (digest : Digest) (g : GuardTarget) (event_id : ℕ)
    (seen : GuardTargetIndex) (targets : List TargetRow)
    → any (is_target session_id event_id g.target_id) targets ≡ true
    → IsSound session_id seen targets
    → IsSound session_id (remember digest g event_id seen) targets
unfolding IsSound remember
IsSound-remember session_id digest g event_id seen targets there good =
    elim (Bool-cases (is_some (lookup digest seen))) [
      | inl known ↦ rw known good
      | inr new ↦ rw new (λ other target_id id h. elim (Bool-cases (digest == other)) [
        | inl same ↦
            let both : (g.target_id, event_id) ≡ (target_id, id) =
              some_inj
                (rw (lookup-upsert digest other (λ _. (g.target_id, event_id)) seen, same) at h) in
            rw (← ap (λ x. x.0) both, ← ap (λ x. x.1) both) there
        | inr apart ↦
            good other target_id id
              (rw (lookup-upsert digest other (λ _. (g.target_id, event_id)) seen, apart) at h)
      ])
    ]

-- What a receipt makes the index remember
IsSound-receipt :
    (session_id : String) (digest : Digest) (g : GuardTarget) (r : RecordResult) (given : Option ℕ)
    (in_transaction : Bool) (seen : GuardTargetIndex) (targets : List TargetRow)
    → ((event_id : ℕ)
        → given ≡ some event_id
        → any (is_target session_id event_id g.target_id) targets ≡ true)
    → IsSound session_id seen targets
    → IsSound session_id (receipt digest g r given in_transaction seen) targets
unfolding receipt
IsSound-receipt session_id digest g r none in_transaction seen targets there good = good
IsSound-receipt session_id digest g r (some event_id) in_transaction seen targets there good =
    elim (Bool-cases (not r.duplicate_delivery && not in_transaction)) [
      | inl due ↦
          rw due
            (IsSound-remember session_id digest g event_id seen targets (there event_id refl) good)
      | inr kept ↦ rw kept good
    ]

-- The row that was appended is the one that the receipt names.
metadata_there :
    (fm : Formats) (o : ObservationRecord) (g : GuardTarget) (db after : Db) (s r : RecordResult)
    → Targeted fm o db s after r
    → o.guard_target ≡ some g
    → s.guard_target_event_id ≡ none
    → (event_id : ℕ) → r.guard_target_event_id ≡ some event_id
    → any (is_target o.session_id event_id g.target_id) after.targets ≡ true
unfolding any
metadata_there fm o g db after s r Targeted.untouched given nothing event_id h = cc
metadata_there fm o g db after s r (Targeted.appended t fits asked) given nothing event_id h =
    let this : t.event_id ≡ event_id = some_inj h in
    let same : asked.asked ≡ g = some_inj (sym asked.given ∙ given) in
    let target : t.target_id ≡ g.target_id = asked.of_target ∙ ap (λ x. x.target_id) same in
    rw
      (
        any-append (is_target o.session_id event_id g.target_id) db.targets (t ∷ []),
        asked.of_session,
        this,
        target,
        ==_refl o.session_id,
        ==_refl event_id,
        ==_refl g.target_id,
      )
      (ground arith)

metadata-IsSound :
    (fm : Formats) (o : ObservationRecord) (session_id : String) (seen : GuardTargetIndex)
    (db after : Db) (s r : RecordResult)
    → Targeted fm o db s after r
    → IsSound session_id seen db.targets
    → IsSound session_id seen after.targets
metadata-IsSound fm o session_id seen db after s r Targeted.untouched good = good
metadata-IsSound fm o session_id seen db after s r (Targeted.appended t fits asked) good =
    IsSound-append session_id seen db.targets t good

pub prepared_known :
    (session_id : String) (seen : GuardTargetIndex) (targets : List TargetRow) (path : Digest)
    (spare : OpaqueId) (rule : String) (id : ℕ) (found : Option (OpaqueId × ℕ))
    → IsSound session_id seen targets
    → lookup path seen ≡ found
    → (target_of found spare rule).same_as_event_id ≡ some id
    → any (is_target session_id id (target_of found spare rule).target_id) targets ≡ true
unfolding IsSound
prepared_known session_id seen targets path spare rule id none good known h = cc
prepared_known session_id seen targets path spare rule id (some p) good known h =
    let this : p.1 ≡ id = some_inj h in rw (← this) (good path p.0 p.1 known)

-- A guarded read whose rows stay
pub record_guarded-IsSound :
    (uuid : ℕ → OpaqueId) (fm : Formats) (digest : Digest) (fresh : OpaqueId) (rule_id : String)
    (o : ObservationRecord) (es : List EventRecord) (in_transaction : Bool)
    (seen later : GuardTargetIndex) (db after : Db) (r : RecordResult)
    → IsSound o.session_id seen db.targets
    → record_guarded uuid fm digest fresh rule_id o es in_transaction seen db
      ≡ returned (later, (after, r))
    → IsSound o.session_id later after.targets
unfolding record_guarded
record_guarded-IsSound uuid fm digest fresh rule_id o es in_transaction seen later db after r good
      h =
    let g = prepare digest fresh rule_id seen in
    let asked : ObservationRecord = record o { guard_target = some g } in
    let (made, recorded, done) = and_then-returned _ _ _ h in
    let same = returned_inj done in
    let split = record_observation_split uuid fm asked es db made.0 made.1 recorded in
    let (kept, unnamed) =
      core_targets uuid fm asked es db split.core_db split.core_result split.core in
    let before : IsSound o.session_id seen split.core_db.targets = rw kept good in
    let now =
      IsSound-receipt o.session_id digest g made.1 made.1.guard_target_event_id in_transaction seen
        made.0.targets
        (metadata_there fm asked g split.core_db made.0 split.core_result made.1 split.metadata refl
          unnamed)
        (metadata-IsSound fm asked o.session_id seen split.core_db made.0 split.core_result made.1
          split.metadata before) in
    rw (← ap (λ x. x.0) same, ← ap (λ x. x.1.0) same) now
