-- ===== src/Ledger/Tables.antt =====
-- The version-2 tables of src/privacy_hud/ledger_schema.py, as lists in the order of insertion. A
-- session's row carries its frozen scoring profile. Every score is a float that is not negative, a
-- whole number of the smallest float 2^-1074: `curve` stands for the weights and the logarithm of
-- src/privacy_hud/budget.py, and `Floats` for the arithmetic that rounds. `drawn` counts the random
-- identifiers that were drawn. A row has the columns of its table; the CHECK, UNIQUE and FOREIGN KEY
-- clauses and the triggers of the schema are not part of the rows, but for those that an operation
-- below names.
use Prim.Native.Nat.{zero, suc}
use codex_privacy_hud.Prelude.{
  ℕ, ◌+◌, ◌-◌, String, Bool, not, ◌&&◌, Option, none, some, List, [], ◌∷◌, map, ◌==◌, string_key,
  if◌then◌else◌, ltb, leb, is_some, count_where,
}
use codex_privacy_hud.Prelude.Results.{Result, raised, returned}
use codex_privacy_hud.Accounting.Vocabulary.{
  Boundary, DataType, DestinationKind, SubjectKind, ScanGap, data_type_key,
}
use codex_privacy_hud.Accounting.Records.{OpaqueId, Digest, ObservationRecord, EventRecord}

pub data LedgerError : Type 0 where
  unsupported_session invalid_session invalid_observation invalid_event invalid_score : LedgerError
  frozen_accounting : LedgerError

-- The arithmetic of floats, on numbers of the unit: `plus` is the rounded sum of two, `sum` is Python's
-- `sum(deltas, 0.0)`, and `rounded_percent` is `round(100 * score / cap)`.
pub record Floats : Type 0 where
  pub plus : ℕ → ℕ → ℕ
  pub sum : List ℕ → ℕ
  pub rounded_percent : ℕ → ℕ → ℕ

pub record Profile : Type 0 where
  pub budget_cap : ℕ
  pub destination_boundary : DestinationKind → Boundary
  pub curve : DataType → DestinationKind → ℕ → ℕ
  pub storable_limit : ℕ
  pub floats : Floats

-- `group_score` of budget.py, where `curve` is the weight times the logarithm's term, for n > 0
unfoldable pub group_score : Profile → DataType → DestinationKind → ℕ → ℕ
group_score p d to zero = 0
group_score p d to (suc n) = p.curve d to (suc n)

-- `next_disclosure_delta` of budget.py: both scores and the difference are in range. A difference that
-- is negative raises. No other difference is rounded: the smaller score is 0, or the larger one is at
-- most twice as large, and the difference of two such floats is a float.
unfoldable pub next_disclosure_delta :
    Profile → DataType → DestinationKind → ℕ → Result LedgerError ℕ
next_disclosure_delta p d to n =
    let current = group_score p d to n in
    let following = group_score p d to (n + 1) in
    if ltb current p.storable_limit && ltb following p.storable_limit && leb current following
    then returned (following - current)
    else raised LedgerError.invalid_score

pub record AccountedSession : Type 0 where
  pub session_id : String
  pub ended_at : Option ℕ
  pub available : Bool
  pub budget_score : ℕ
  pub profile : Profile

pub record ObservationRow : Type 0 where
  pub observation_id : OpaqueId
  pub observed : ObservationRecord

-- The tables `subjects` and `recipients` have the same columns, but for the kind.
pub record IdentityRow (K : Type 0) : Type 0 where
  pub identity_id : OpaqueId
  pub session_id : String
  pub kind : K
  pub is_resolved : Bool
  pub identity_hash : Option Digest
  pub unresolved_observation_id : Option OpaqueId

-- The columns of `events` that restate the event are the record that was handed in.
pub record EventRow : Type 0 where
  pub id : ℕ
  pub session_id : String
  pub observation_id : OpaqueId
  pub subject_id : OpaqueId
  pub recipient_id : OpaqueId
  pub event : EventRecord

pub record DisclosureRow : Type 0 where
  pub disclosure_id : ℕ
  pub session_id : String
  pub subject_id : OpaqueId
  pub recipient_id : OpaqueId
  pub first_event_id : ℕ
  pub charged_data_type : DataType
  pub group_n : ℕ
  pub budget_delta : ℕ

pub record ScanGapRow : Type 0 where
  pub session_id : String
  pub ts : ℕ
  pub boundary : Boundary
  pub reason : ScanGap

pub record TargetRow : Type 0 where
  pub event_id : ℕ
  pub session_id : String
  pub target_id : OpaqueId
  pub rule_id : String
  pub same_as_event_id : Option ℕ

pub record Db : Type 0 where
  pub sessions : List AccountedSession
  pub observations : List ObservationRow
  pub subjects : List (IdentityRow SubjectKind)
  pub recipients : List (IdentityRow DestinationKind)
  pub events : List EventRow
  pub disclosures : List DisclosureRow
  pub targets : List TargetRow
  pub gaps : List ScanGapRow
  pub drawn : ℕ

-- The session row, and `UPDATE sessions ... WHERE session_id=?`
unfoldable pub find_session : String → List AccountedSession → Option AccountedSession
find_session session_id [] = none
find_session session_id (s ∷ rows) =
    let rest = find_session session_id rows in if s.session_id == session_id then some s else rest

abbrev pub at_session :
    String → (AccountedSession → AccountedSession) → AccountedSession → AccountedSession
at_session session_id f s = if s.session_id == session_id then f s else s

unfoldable pub update_session :
    String → (AccountedSession → AccountedSession) → List AccountedSession → List AccountedSession
update_session session_id f = map (at_session session_id f)

-- Whether a session still takes identities and charges
abbrev pub is_open : AccountedSession → Bool
is_open s = s.available && not (is_some s.ended_at)

-- The disclosures of a pair, and of a group
abbrev pub is_pair : String → OpaqueId → OpaqueId → DisclosureRow → Bool
is_pair session_id subject_id recipient_id d =
    d.session_id == session_id && d.subject_id == subject_id && d.recipient_id == recipient_id

abbrev pub in_group : String → DataType → OpaqueId → DisclosureRow → Bool
in_group session_id data_type recipient_id d =
    d.session_id == session_id && d.charged_data_type == data_type && d.recipient_id == recipient_id

unfoldable pub group_size : String → DataType → OpaqueId → List DisclosureRow → ℕ
group_size session_id data_type recipient_id =
    count_where (in_group session_id data_type recipient_id)

-- What an operation on one observation returns: `RecordResult`
pub record RecordResult : Type 0 where
  pub observation_id : OpaqueId
  pub event_ids : List ℕ
  pub disclosure_ids : List ℕ
  pub budget_delta : ℕ
  pub duplicate_delivery : Bool
  pub guard_target_event_id : Option ℕ
