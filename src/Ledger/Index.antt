-- ===== src/Ledger/Index.antt =====
-- `GuardTargetIndex` of src/privacy_hud/guard_targets.py, and the part of `Engine._observe_v2` of
-- src/privacy_hud/engine.py that records with it. A digest stands for the keyed hash of a path; `fresh` is the random
-- identifier that is drawn.
use codex_privacy_hud.Prelude.{
  ℕ, String, Bool, not, ◌&&◌, Option, none, some, List, [], Dict, lookup, assign, is_some,
  string_key, if◌then◌else◌,
}
use codex_privacy_hud.Prelude.Results.{Result, returned, and_then}
use codex_privacy_hud.Accounting.Records.{
  OpaqueId, Digest, GuardTarget, ObservationRecord, EventRecord,
}
use codex_privacy_hud.Checks.{Formats}
use codex_privacy_hud.Ledger.Tables.{LedgerError, Db, RecordResult}
use codex_privacy_hud.Ledger.Targets.{record_observation}

-- `_seen`: the target's identifier and its first event
abbrev pub GuardTargetIndex : Type 0
GuardTargetIndex = Dict Digest (OpaqueId × ℕ)

abbrev pub target_of : Option (OpaqueId × ℕ) → OpaqueId → String → GuardTarget
target_of none fresh rule_id = record {
  target_id = fresh;
  rule_id = rule_id;
  same_as_event_id = none;
}
target_of (some prior) fresh rule_id = record {
  target_id = prior.0;
  rule_id = rule_id;
  same_as_event_id = some prior.1;
}

unfoldable pub prepare : Digest → OpaqueId → String → GuardTargetIndex → GuardTarget
prepare digest fresh rule_id seen = target_of (lookup digest seen) fresh rule_id

-- `setdefault`
unfoldable pub remember : Digest → GuardTarget → ℕ → GuardTargetIndex → GuardTargetIndex
remember digest target event_id seen =
    if is_some (lookup digest seen) then seen else assign digest (target.target_id, event_id) seen

abbrev pub clear : GuardTargetIndex → GuardTargetIndex
clear seen = []

-- What is remembered of the receipt of a recording: nothing while a transaction is open, whose rows may
-- still be rolled back
unfoldable pub receipt :
    Digest → GuardTarget → RecordResult → Option ℕ → Bool → GuardTargetIndex → GuardTargetIndex
receipt digest target r none in_transaction seen = seen
receipt digest target r (some event_id) in_transaction seen =
    if not r.duplicate_delivery && not in_transaction
    then remember digest target event_id seen
    else seen

-- A denied read, recorded with a target that the index prepares. `in_transaction` says whether the
-- connection is in a transaction when the recording has returned.
unfoldable pub record_guarded :
    (ℕ → OpaqueId)
    → Formats
    → Digest
    → OpaqueId
    → String
    → ObservationRecord
    → List EventRecord
    → Bool
    → GuardTargetIndex
    → Db
    → Result LedgerError (GuardTargetIndex × (Db × RecordResult))
record_guarded uuid fm digest fresh rule_id o es in_transaction seen db =
    let target = prepare digest fresh rule_id seen in
    and_then (record_observation uuid fm (record o { guard_target = some target }) es db) (λ made.
      returned
        ((receipt digest target made.1 made.1.guard_target_event_id in_transaction seen, made)))
