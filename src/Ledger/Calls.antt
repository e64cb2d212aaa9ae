-- ===== src/Ledger/Calls.antt =====
-- The tables that calls of src/privacy_hud/ledger.py lead to, and how a property of all of them is
-- proved: by the steps that the calls are made of.
use codex_privacy_hud.Prelude.{
  ℕ, String, Bool, true, Option, none, some, List, [], ◌∷◌, ◌++◌, string_key, ◌≡◌, refl, ap, inl,
  inr,
}
use codex_privacy_hud.Prelude.Results.{returned, and_then-returned, raise_if-returned}
use codex_privacy_hud.Accounting.Records.{OpaqueId, ObservationRecord, EventRecord}
use codex_privacy_hud.Checks.{Formats}
use codex_privacy_hud.Ledger.Tables.{
  Profile, AccountedSession, TargetRow, Db, find_session, RecordResult,
}
use codex_privacy_hud.Ledger.Recording.{record_core}
use codex_privacy_hud.Ledger.Sessions.{
  new_session, insert_session, activate, start_at, start_accounted_session, ended_tables,
  withdrawn_tables, end_known, end_v2_session, mark_known, mark_accounting_unavailable,
}
use codex_privacy_hud.Ledger.Targets.{accepts_target, record_observation}
use codex_privacy_hud.Ledger.Metadata.{Targeted, retargeted, record_observation_split}
use codex_privacy_hud.Ledger.Charges.{returned_inj}
use codex_privacy_hud.Ledger.Outcome.{NewDelivery, record_core_cases}

abbrev pub no_tables : Db
no_tables = record {
  sessions = [];
  observations = [];
  subjects = [];
  recipients = [];
  events = [];
  disclosures = [];
  targets = [];
  gaps = [];
  drawn = 0;
}

module _ (uuid : ℕ → OpaqueId) (fm : Formats) where
  -- A call that returns, from one state of the tables to the next
  pub data Call (db after : Db) : Type 0 where
    starts :
        (session_id : String) (profile : Profile) (o : ObservationRecord) (is_new : Bool)
        → start_accounted_session uuid fm session_id profile o db ≡ returned (after, is_new)
        → Call db after
    records :
        (o : ObservationRecord) (es : List EventRecord) (r : RecordResult)
        → record_observation uuid fm o es db ≡ returned (after, r)
        → Call db after
    ends :
        (session_id : String) (now : ℕ)
        → end_v2_session session_id now db ≡ returned after
        → Call db after
    marks :
        (session_id : String)
        → mark_accounting_unavailable session_id db ≡ returned after
        → Call db after

  -- The tables after any number of calls
  pub data Later (start : Db) : Db → Type 0 where
    at_first : Later start start
    and_by : {db after : Db} → Later start db → Call db after → Later start after

  abbrev pub Reached : Db → Type 0
  Reached = Later no_tables

  pub Later-trans : {start middle db : Db} → Later start middle → Later middle db → Later start db
  Later-trans before Later.at_first = before
  Later-trans before (Later.and_by after c) = Later.and_by (Later-trans before after) c

  -- What the steps of the calls keep
  pub record Kept {ℓ} (P : Db → Type ℓ) : Type ℓ where
    pub kept_inserted :
        (session_id : String) (profile : Profile) (db : Db)
        → find_session session_id db.sessions ≡ none
        → P db
        → P (insert_session (new_session session_id profile) db)
    pub kept_recorded :
        (o : ObservationRecord) (es : List EventRecord) (db after : Db) (r : RecordResult)
        → NewDelivery uuid fm o es db after r
        → P db
        → P after
    pub kept_target :
        (db : Db) (t : TargetRow)
        → accepts_target fm t db ≡ true
        → P db
        → P (retargeted (db.targets ++ t ∷ []) db)
    pub kept_ended :
        (session_id : String) (now : ℕ) (db : Db) → P db → P (ended_tables session_id now db)
    pub kept_withdrawn : (session_id : String) (db : Db) → P db → P (withdrawn_tables session_id db)

  module _ {ℓ} {P : Db → Type ℓ} (k : Kept P) where
    record_core-kept :
        (o : ObservationRecord) (es : List EventRecord) (db after : Db) (r : RecordResult)
        → record_core uuid fm o es db ≡ returned (after, r)
        → P db
        → P after
    record_core-kept o es db after r h good = elim (record_core_cases uuid fm o es db after r h) [
      | inl old ↦ rw old.unchanged good
      | inr new ↦ k.kept_recorded o es db after r new good
    ]

    metadata-kept :
        {o : ObservationRecord} {db after : Db} {r u : RecordResult}
        → Targeted fm o db r after u
        → P db
        → P after
    metadata-kept Targeted.untouched good = good
    metadata-kept (Targeted.appended t fits asked) good = k.kept_target _ t fits good

    record_observation-kept :
        (o : ObservationRecord) (es : List EventRecord) (db after : Db) (r : RecordResult)
        → record_observation uuid fm o es db ≡ returned (after, r)
        → P db
        → P after
    record_observation-kept o es db after r h good =
        let split = record_observation_split uuid fm o es db after r h in
        metadata-kept split.metadata (record_core-kept o es db _ _ split.core good)

    start_at-kept :
        (found : Option AccountedSession) (session_id : String) (profile : Profile)
        (o : ObservationRecord) (db after : Db) (is_new : Bool)
        → find_session session_id db.sessions ≡ found
        → start_at uuid fm found session_id profile o db ≡ returned (after, is_new)
        → P db
        → P after
    unfolding start_at activate
    start_at-kept (some s) session_id profile o db after is_new found h good =
        let same : db ≡ after = ap (λ x. x.0) (returned_inj h) in rw (← same) good
    start_at-kept none session_id profile o db after is_new found h good =
        let (valid, rest) = raise_if-returned _ _ _ _ h in
        let (made, recorded, done) = and_then-returned _ _ _ rest in
        let same : made.0 ≡ after = ap (λ x. x.0) (returned_inj done) in
        rw (← same) (
          record_core-kept o [] _ made.0 made.1 recorded
            (k.kept_inserted session_id profile db found good))

    end_known-kept :
        (found : Option AccountedSession) (session_id : String) (now : ℕ) (db after : Db)
        → end_known found session_id now db ≡ returned after
        → P db
        → P after
    unfolding end_known
    end_known-kept none session_id now db after h good = cc
    end_known-kept (some s) session_id now db after h good =
        let same : ended_tables session_id now db ≡ after = returned_inj h in
        rw (← same) (k.kept_ended session_id now db good)

    mark_known-kept :
        (found : Option AccountedSession) (session_id : String) (db after : Db)
        → mark_known found session_id db ≡ returned after
        → P db
        → P after
    unfolding mark_known
    mark_known-kept none session_id db after h good = cc
    mark_known-kept (some s) session_id db after h good =
        let same : withdrawn_tables session_id db ≡ after = returned_inj h in
        rw (← same) (k.kept_withdrawn session_id db good)

    pub Call-kept : {db after : Db} → Call db after → P db → P after
    unfolding start_accounted_session end_v2_session mark_accounting_unavailable
    Call-kept (Call.starts sid profile o is_new h) good =
        start_at-kept _ sid profile o _ _ is_new refl (raise_if-returned _ _ _ _ h).1 good
    Call-kept (Call.records o es r h) good = record_observation-kept o es _ _ r h good
    Call-kept (Call.ends sid now h) good = end_known-kept _ sid now _ _ h good
    Call-kept (Call.marks sid h) good = mark_known-kept _ sid _ _ h good

    pub Later-kept : {start db : Db} → Later start db → P start → P db
    Later-kept Later.at_first good = good
    Later-kept (Later.and_by before c) good = Call-kept c (Later-kept before good)

    pub Reached-kept : P no_tables → {db : Db} → Reached db → P db
    Reached-kept base reached = Later-kept reached base
