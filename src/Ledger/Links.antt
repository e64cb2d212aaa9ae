-- ===== src/Ledger/Links.antt =====
-- How the rows of guard targets of src/privacy_hud/guard_targets.py and its index refer to each other.
use codex_privacy_hud.Prelude.{
  ℕ, Bool, true, not, ◌&&◌, Option, none, some, List, [], ◌∷◌, ◌++◌, any, any-append, all, ◌==◌,
  string_key, nat_key, ltb, ◌≡◌, refl, ap, &&-true,
}
use codex_privacy_hud.Accounting.Records.{OpaqueId, ObservationRecord, EventRecord}
use codex_privacy_hud.Checks.{Formats}
use codex_privacy_hud.Ledger.Tables.{TargetRow, Db, RecordResult, find_session}
use codex_privacy_hud.Ledger.Recording.{finish}
use codex_privacy_hud.Ledger.Targets.{same_exists, accepts_target, is_target, open_row}
use codex_privacy_hud.Ledger.Outcome.{NewDelivery, record_events-Frame}
use codex_privacy_hud.Ledger.Calls.{Reached, Reached-kept}
use codex_privacy_hud.Ledger.Fresh.{all-append}

same_exists-append :
    (t : TargetRow) (same : Option ℕ) (targets : List TargetRow) (u : TargetRow)
    → same_exists t same targets ≡ true
    → same_exists t same (targets ++ u ∷ []) ≡ true
unfolding same_exists
same_exists-append t none targets u h = refl
same_exists-append t (some same) targets u h =
    let (order, there) =
      &&-true (ltb 0 same && ltb same t.event_id)
        (any (is_target t.session_id same t.target_id) targets) h in
    rw (order, any-append (is_target t.session_id same t.target_id) targets (u ∷ []), there) refl

-- Every row that names an earlier one finds it.
abbrev pub is_linked : List TargetRow → TargetRow → Bool
is_linked targets t = same_exists t t.same_as_event_id targets

all_linked_append :
    (targets : List TargetRow) (u : TargetRow) (rows : List TargetRow)
    → all (is_linked targets) rows ≡ true
    → all (is_linked (targets ++ u ∷ [])) rows ≡ true
unfolding all
all_linked_append targets u [] h = refl
all_linked_append targets u (t ∷ rows) h =
    let (one, rest) = &&-true (is_linked targets t) (all (is_linked targets) rows) h in
    rw
      (same_exists-append t t.same_as_event_id targets u one, all_linked_append targets u rows rest)
      refl

accepted_link :
    (fm : Formats) (t : TargetRow) (db : Db)
    → accepts_target fm t db ≡ true
    → is_linked db.targets t ≡ true
unfolding accepts_target
accepted_link fm t db h =
    let (a, open_now) =
      &&-true
        (fm.is_opaque_id t.target_id
          && fm.is_path_rule t.rule_id
          && not (any (λ u. u.event_id == t.event_id) db.targets)
          && same_exists t t.same_as_event_id db.targets)
        (open_row (find_session t.session_id db.sessions)) h in
    (&&-true
      (fm.is_opaque_id t.target_id
        && fm.is_path_rule t.rule_id
        && not (any (λ u. u.event_id == t.event_id) db.targets))
      (same_exists t t.same_as_event_id db.targets) a).1

unfoldable AllLinked : Db → Type 0
AllLinked db = all (is_linked db.targets) db.targets ≡ true

appended_linked :
    (fm : Formats) (db : Db) (t : TargetRow)
    → accepts_target fm t db ≡ true
    → all (is_linked db.targets) db.targets ≡ true
    → all (is_linked (db.targets ++ t ∷ [])) (db.targets ++ t ∷ []) ≡ true
unfolding all
appended_linked fm db t fits h =
    rw
      (
        all-append (is_linked (db.targets ++ t ∷ [])) db.targets (t ∷ []),
        all_linked_append db.targets t db.targets h,
        same_exists-append t t.same_as_event_id db.targets t (accepted_link fm t db fits),
      )
      refl

recorded_linked :
    (uuid : ℕ → OpaqueId) (fm : Formats) (o : ObservationRecord) (es : List EventRecord)
    (db after : Db) (r : RecordResult)
    → NewDelivery uuid fm o es db after r
    → AllLinked db
    → AllLinked after
unfolding finish AllLinked
recorded_linked uuid fm o es db after r new good =
    let same : new.progress.db.targets ≡ db.targets =
      (record_events-Frame uuid new.session _ es _ new.progress new.looped).same_targets in
    rw (← ap (λ x. x.0) new.made, same) good

-- In all tables that calls lead to, a guard target that says that it is the same as that of an event
-- has a row of that event in the table, of the same session and target and with a smaller number.
pub targets_linked :
    (uuid : ℕ → OpaqueId) (fm : Formats) (db : Db)
    → Reached uuid fm db
    → all (is_linked db.targets) db.targets ≡ true
unfolding AllLinked all
targets_linked uuid fm db =
    Reached-kept uuid fm {P = AllLinked}
      (record {
        kept_inserted = λ name profile x h good. good;
        kept_recorded = recorded_linked uuid fm;
        kept_target = appended_linked fm;
        kept_ended = λ name now x good. good;
        kept_withdrawn = λ name x good. good;
      })
      refl
