-- ===== src/Accounting/Outcomes/Counts.antt =====
-- `resolve_outcomes` of src/privacy_hud/accounting.py.
pub mod Unresolved
pub mod Stopped
use mathlib.Core.List.{foldl}
use codex_privacy_hud.Prelude.{
  ℕ, ◌≤◌, ◌+◌, String, Bool, true, false, not, ◌&&◌, Option, none, some, List, [], ◌∷◌, ◌++◌, map,
  ◌≡◌, arith, length, if◌then◌else◌, count_where, Dict, or_else, lookup, upsert, member, insert,
  string_key, pair_key,
}
use codex_privacy_hud.Prelude.Grouping.{push, group_into}
use codex_privacy_hud.Accounting.Vocabulary.{Boundary, ActionKind, boundary_key, action_kind_key}
use codex_privacy_hud.Accounting.Evidence.{Evidence, no_evidence, join, meets, executed_bits}
use codex_privacy_hud.Accounting.Records.{OpaqueId, OutcomeObservation, OutcomeEvent, OutcomeCounts}
use codex_privacy_hud.Accounting.Outcomes.{Seen, partition_unresolved}

abbrev pub EventsOf : Type 0
EventsOf = Dict OpaqueId (List OutcomeEvent)

unfoldable pub events_of : List OutcomeEvent → EventsOf
events_of = group_into (λ e. e.observation_id) []

abbrev pub Partitions : Type 0
Partitions = Dict (OpaqueId × Boundary) (List OutcomeObservation)

abbrev pub partition_key : OutcomeObservation → OpaqueId × Boundary
partition_key o = (o.observed.action_id, o.observed.boundary)

-- The three dictionaries of the loop over the observations.
pub record Actions : Type 0 where
  pub partitions : Partitions
  pub carried : Dict OpaqueId Evidence
  pub kinds : Dict OpaqueId (List ActionKind)

unfoldable pub collect : Actions → OutcomeObservation → Actions
collect d o = record {
  partitions = upsert (partition_key o) (push o) d.partitions;
  carried =
      upsert o.observed.action_id (λ c. join (or_else c no_evidence) o.observed.evidence) d.carried;
  kinds = upsert o.observed.action_id (λ k. insert o.observed.action_kind (or_else k [])) d.kinds;
}

unfoldable pub actions : List OutcomeObservation → Actions
unfolding collect
actions = foldl collect (record { partitions = []; carried = []; kinds = [] })

-- An observation beside its events, as `_partition_unresolved` reads them.
unfoldable pub seen : EventsOf → OutcomeObservation → Seen
seen d o = (o.observed, or_else (lookup o.observation_id d) [])

unfoldable pub group_unresolved : EventsOf → List OutcomeObservation → Bool
group_unresolved d group = partition_unresolved (map (seen d) group)

-- `{action for (action, _boundary), group in partitions.items() if ...}`
unfoldable pub unresolved_from : EventsOf → Partitions → List OpaqueId
unresolved_from d [] = []
unresolved_from d ((k, group) ∷ rest) =
    let others = unresolved_from d rest in
    if group_unresolved d group then insert k.0 others else others

unfoldable pub unresolved : List OutcomeObservation → List OutcomeEvent → List OpaqueId
unresolved observations events =
    unresolved_from (events_of events) (actions observations).partitions

-- `with_bit`
unfoldable pub with_bit : (Evidence → Bool) → Dict OpaqueId Evidence → ℕ
with_bit bit = count_where (λ c. bit c.1)

unfoldable pub stopped_read :
    Dict OpaqueId (List ActionKind) → List OpaqueId → OpaqueId × Evidence → Bool
stopped_read kinds open_actions (action, evidence) =
    member ActionKind.read (or_else (lookup action kinds) [])
    && evidence.deny_enforced
    && not (meets evidence executed_bits)
    && not (member action open_actions)

unfoldable pub resolve_outcomes : List OutcomeObservation → List OutcomeEvent → OutcomeCounts
resolve_outcomes observations events =
    let d = actions observations in
    let left = unresolved observations events in
    record {
      permission_actions = with_bit (λ e. e.permission_issued) d.carried;
      denials_issued = with_bit (λ e. e.deny_issued) d.carried;
      denials_enforced = with_bit (λ e. e.deny_enforced) d.carried;
      reads_stopped = count_where (stopped_read d.kinds left) d.carried;
      rewrite_actions_issued = with_bit (λ e. e.rewrite_issued) d.carried;
      rewrite_actions_enforced = with_bit (λ e. e.rewrite_enforced) d.carried;
      unresolved_actions = length left;
    }
