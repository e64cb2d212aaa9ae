-- ===== src/Ledger/Transactions.antt =====
-- The index of guard targets beside the transactions of the connection: what is committed, what an
-- open transaction has written, and how `_write_transaction` of src/privacy_hud/ledger.py ends it.
use codex_privacy_hud.Prelude.{
  ℕ, String, Bool, true, false, some, none, List, [], any, string_key, nat_key, lookup,
  if◌then◌else◌, ◌≡◌, refl, sym, ap, ◌∙◌, arith, Option,
}
use codex_privacy_hud.Prelude.Results.{returned, and_then-returned}
use codex_privacy_hud.Accounting.Records.{
  OpaqueId, Digest, GuardTarget, ObservationRecord, EventRecord,
}
use codex_privacy_hud.Checks.{Formats}
use codex_privacy_hud.Ledger.Tables.{Db, RecordResult}
use codex_privacy_hud.Ledger.Targets.{is_target, record_observation}
use codex_privacy_hud.Ledger.Index.{GuardTargetIndex, prepare, receipt, record_guarded, clear}
use codex_privacy_hud.Ledger.Calls.{Call, Call-kept, Kept}
use codex_privacy_hud.Ledger.Outcome.{NewDelivery, record_events-Frame}
use codex_privacy_hud.Ledger.Sound.{IsSound, IsSound-append, record_guarded-IsSound, prepared_known}
use codex_privacy_hud.Ledger.Recording.{finish}
use codex_privacy_hud.Ledger.Charges.{returned_inj}

-- `stored` is committed, `working` is what the connection reads.
pub record Connection : Type 0 where
  pub stored : Db
  pub working : Db
  pub in_transaction : Bool
  pub seen : GuardTargetIndex

-- What a call leaves: outside a transaction of its caller it has committed its own.
abbrev pub settled : Db → GuardTargetIndex → Connection → Connection
settled after seen c = record {
  stored = if c.in_transaction then c.stored else after;
  working = after;
  in_transaction = c.in_transaction;
  seen = seen;
}

receipt_inside :
    (digest : Digest) (g : GuardTarget) (r : RecordResult) (given : Option ℕ)
    (seen : GuardTargetIndex)
    → receipt digest g r given true seen ≡ seen
unfolding receipt
receipt_inside digest g r none seen = refl
receipt_inside digest g r (some event_id) seen = ground arith

-- The accounting writes no target.
recorded_targets :
    (uuid : ℕ → OpaqueId) (fm : Formats) (o : ObservationRecord) (es : List EventRecord)
    (db after : Db) (r : RecordResult)
    → NewDelivery uuid fm o es db after r
    → after.targets ≡ db.targets
unfolding finish
recorded_targets uuid fm o es db after r new =
    ap (λ x. x.0.targets) (sym new.made)
    ∙ (record_events-Frame uuid new.session _ es _ new.progress new.looped).same_targets

module _ (uuid : ℕ → OpaqueId) (fm : Formats) (session_id : String) where
  -- What happens on the connection of the ledger
  pub data Step (c : Connection) : Connection → Type 0 where
    begins : c.in_transaction ≡ false → Step c (record c { in_transaction = true })
    commits :
        c.in_transaction ≡ true → Step c (record c { stored = c.working; in_transaction = false })
    rolls_back :
        c.in_transaction ≡ true → Step c (record c { working = c.stored; in_transaction = false })
    calls : (after : Db) → Call uuid fm c.working after → Step c (settled after c.seen c)
    guards :
        (digest : Digest) (fresh : OpaqueId) (rule_id : String) (o : ObservationRecord)
        (es : List EventRecord) (later : GuardTargetIndex) (after : Db) (r : RecordResult)
        → o.session_id ≡ session_id
        → record_guarded uuid fm digest fresh rule_id o es c.in_transaction c.seen c.working
          ≡ returned (later, (after, r))
        → Step c (settled after later c)
    clears : Step c (record c { seen = clear c.seen })

  pub data Steps (start : Connection) : Connection → Type 0 where
    at_first : Steps start start
    and_by : {c d : Connection} → Steps start c → Step c d → Steps start d

  record Safe (c : Connection) : Type 0 where
    on_disk : IsSound session_id c.seen c.stored.targets
    at_work : IsSound session_id c.seen c.working.targets

  kept-IsSound : (seen : GuardTargetIndex) → Kept uuid fm (λ db. IsSound session_id seen db.targets)
  kept-IsSound seen = record {
    kept_inserted = λ name profile db h good. good;
    kept_recorded =
        λ o es db after r new good. rw (recorded_targets uuid fm o es db after r new) good;
    kept_target = λ db t fits good. IsSound-append session_id seen db.targets t good;
    kept_ended = λ name now db good. good;
    kept_withdrawn = λ name db good. good;
  }

  empty_Safe : (start : Connection) → start.seen ≡ [] → Safe start
  unfolding IsSound lookup
  empty_Safe start empty = record {
    on_disk = λ digest target_id event_id h. cc (rw empty at h);
    at_work = λ digest target_id event_id h. cc (rw empty at h);
  }

  -- An open transaction leaves the index as it is.
  guarded_inside :
      (digest : Digest) (fresh : OpaqueId) (rule_id : String) (o : ObservationRecord)
      (es : List EventRecord) (seen later : GuardTargetIndex) (db after : Db) (r : RecordResult)
      → record_guarded uuid fm digest fresh rule_id o es true seen db ≡ returned (later, (after, r))
      → later ≡ seen
  unfolding record_guarded
  guarded_inside digest fresh rule_id o es seen later db after r h =
      let (made, recorded, done) =
        and_then-returned {A = Db × RecordResult}
          (record_observation uuid fm
            (record o { guard_target = some (prepare digest fresh rule_id seen) }) es db)
          _ (later, (after, r)) h in
      sym (ap (λ x. x.0) (returned_inj done))
      ∙ receipt_inside digest (prepare digest fresh rule_id seen) made.1
          made.1.guard_target_event_id seen

  settled-Safe :
      (c : Connection) (later : GuardTargetIndex) (after : Db) (tx : Bool)
      → c.in_transaction ≡ tx
      → (tx ≡ true → IsSound session_id later c.stored.targets)
      → IsSound session_id later after.targets
      → Safe (settled after later c)
  settled-Safe c later after true h old new = record { on_disk = rw h (old refl); at_work = new }
  settled-Safe c later after false h old new = record { on_disk = rw h new; at_work = new }

  guards-Safe :
      (c : Connection) (digest : Digest) (fresh : OpaqueId) (rule_id : String)
      (o : ObservationRecord) (es : List EventRecord) (later : GuardTargetIndex) (after : Db)
      (r : RecordResult)
      → o.session_id ≡ session_id
      → record_guarded uuid fm digest fresh rule_id o es c.in_transaction c.seen c.working
        ≡ returned (later, (after, r))
      → Safe c
      → Safe (settled after later c)
  guards-Safe c digest fresh rule_id o es later after r ours h good =
      let before : IsSound o.session_id c.seen c.working.targets = rw ours good.at_work in
      let now : IsSound o.session_id later after.targets =
        record_guarded-IsSound uuid fm digest fresh rule_id o es c.in_transaction c.seen later
          c.working after r before h in
      settled-Safe c later after c.in_transaction refl
        (λ inside.
          rw
            (guarded_inside digest fresh rule_id o es c.seen later c.working after r
              (rw inside at h))
            good.on_disk)
        (rw (← ours) now)

  Step-Safe : (c d : Connection) → Step c d → Safe c → Safe d
  unfolding IsSound lookup
  Step-Safe c d (Step.begins h) good = record { on_disk = good.on_disk; at_work = good.at_work }
  Step-Safe c d (Step.commits h) good = record { on_disk = good.at_work; at_work = good.at_work }
  Step-Safe c d (Step.rolls_back h) good = record { on_disk = good.on_disk; at_work = good.on_disk }
  Step-Safe c d (Step.calls after h) good =
      settled-Safe c c.seen after c.in_transaction refl (λ inside. good.on_disk)
        (Call-kept uuid fm (kept-IsSound c.seen) h good.at_work)
  Step-Safe c d (Step.guards digest fresh rule_id o es later after r ours h) good =
      guards-Safe c digest fresh rule_id o es later after r ours h good
  Step-Safe c d Step.clears good = record {
    on_disk = λ digest target_id event_id h. cc;
    at_work = λ digest target_id event_id h. cc;
  }

  Steps-Safe : {start c : Connection} → Steps start c → Safe start → Safe c
  Steps-Safe Steps.at_first good = good
  Steps-Safe (Steps.and_by before s) good = Step-Safe _ _ s (Steps-Safe before good)

  -- From an index that knows nothing, after any steps of the connection (transactions that begin, are committed or
  -- rolled back, calls of the ledger, guarded reads, and the index being cleared): a target that the index
  -- prepares, of any path, repeats no target, or one of a row that is committed and that the connection reads.
  pub prepared_is_stored :
      (start c : Connection)
      → start.seen ≡ []
      → Steps start c
      → (path : Digest) (spare : OpaqueId) (rule_id : String) (id : ℕ)
      → (prepare path spare rule_id c.seen).same_as_event_id ≡ some id
      → (any
            (is_target session_id id (prepare path spare rule_id c.seen).target_id)
            c.stored.targets
          ≡ true)
        × (any
              (is_target session_id id (prepare path spare rule_id c.seen).target_id)
              c.working.targets
            ≡ true)
  unfolding prepare
  prepared_is_stored start c empty steps path spare rule_id id h =
      let good = Steps-Safe steps (empty_Safe start empty) in
      (
        prepared_known session_id c.seen c.stored.targets path spare rule_id id _ good.on_disk refl
            h,
        prepared_known session_id c.seen c.working.targets path spare rule_id id _ good.at_work refl
            h,
      )
