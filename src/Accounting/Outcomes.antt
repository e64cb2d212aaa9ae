-- ===== src/Accounting/Outcomes.antt =====
-- `_partition_unresolved` of src/privacy_hud/accounting.py. The sets of the loop are lists to which
-- each `add` appends; a test reads them only through membership, inclusion and emptiness.
mod Join
mod Additive
mod Same
pub mod Order
pub mod Conflicts
pub mod Counts
mod Tests
use mathlib.Core.List.{foldl}
use codex_privacy_hud.Prelude.{
  String, Bool, true, false, not, ◌&&◌, ◌||◌, Option, none, some, List, [], ◌∷◌, ◌++◌,
  if◌then◌else◌, ◌==◌, any, filter, member, subset, overlaps, without, is_empty, string_key,
  pair_key,
}
use codex_privacy_hud.Accounting.Vocabulary.{Resolution, resolved, resolution_key, ResolutionScope}
use codex_privacy_hud.Accounting.Evidence.{Evidence, meets, stopped_bits, executed_bits}
use codex_privacy_hud.Accounting.Records.{OutcomeObservation, OutcomeEvent, ObservationRecord}

abbrev pub Pair : Type 0
Pair = String × String

-- `_ZERO_FINDING`
abbrev pub zero_finding : Pair
zero_finding = ("", "")

-- `_pair`
unfoldable pub pair : OutcomeEvent → Option Pair
pair e =
    if not (e.subject_resolution == resolved) || not (e.recipient_resolution == resolved)
    then none
    else some (e.subject_id, e.recipient_id)

-- The local variables of the loop.
pub record Facts : Type 0 where
  pub crossing : List Pair
  pub rewrites : List Pair
  pub denied_pairs : List Pair
  pub executed_pairs : List Pair
  pub crossing_facts : List Pair
  pub stop_facts : List Pair
  pub removal_facts : List Pair
  pub deny_unidentified : Bool
  pub unmatchable : Bool
  pub deny_pending : Bool
  pub rewrite_unidentified : Bool
  pub executed : Bool
  pub crossed : List Pair
  pub stopped : List Pair
  pub removed : List Pair
  pub boundary_stopped : Bool
  pub zero_receipt : Bool

abbrev pub no_facts : Facts
no_facts = record {
  crossing = [];
  rewrites = [];
  denied_pairs = [];
  executed_pairs = [];
  crossing_facts = [];
  stop_facts = [];
  removal_facts = [];
  deny_unidentified = false;
  unmatchable = false;
  deny_pending = false;
  rewrite_unidentified = false;
  executed = false;
  crossed = [];
  stopped = [];
  removed = [];
  boundary_stopped = false;
  zero_receipt = false;
}

-- `if test: s.add(pair)`
abbrev pub add_if : Bool → Pair → List Pair → List Pair
add_if test p s = if test then s ++ p ∷ [] else s

-- The first loop over the events of an observation.
unfoldable pub note_facts_at : Option Pair → OutcomeEvent → Facts → Facts
note_facts_at none e f = f
note_facts_at (some p) e f = record f {
  executed_pairs = add_if (meets e.evidence executed_bits) p f.executed_pairs;
  crossing_facts = add_if e.evidence.crossing_confirmed p f.crossing_facts;
  stop_facts = add_if (meets e.evidence stopped_bits) p f.stop_facts;
  removal_facts = add_if e.evidence.rewrite_enforced p f.removal_facts;
}

unfoldable pub note_facts : Facts → OutcomeEvent → Facts
unfolding note_facts_at
note_facts f e = note_facts_at (pair e) e f

-- The loops of the obligations: a crossing, a denial and a removal outcome.
unfoldable pub oblige_crossing_at : Option Pair → Facts → Facts
oblige_crossing_at none f = record f { unmatchable = true }
oblige_crossing_at (some p) f = record f { crossing = f.crossing ++ p ∷ [] }

unfoldable pub oblige_crossing : Facts → OutcomeEvent → Facts
unfolding oblige_crossing_at
oblige_crossing f e = oblige_crossing_at (pair e) f

unfoldable pub oblige_denial_at : Option Pair → Facts → Facts
oblige_denial_at none f = record f { deny_unidentified = true }
oblige_denial_at (some p) f = record f { denied_pairs = f.denied_pairs ++ p ∷ [] }

unfoldable pub oblige_denial : Facts → OutcomeEvent → Facts
unfolding oblige_denial_at
oblige_denial f e = oblige_denial_at (pair e) f

unfoldable pub oblige_removal_at : Option Pair → Facts → Facts
oblige_removal_at none f = record f { unmatchable = true }
oblige_removal_at (some p) f = record f { rewrites = f.rewrites ++ p ∷ [] }

unfoldable pub oblige_removal : Facts → OutcomeEvent → Facts
unfolding oblige_removal_at
oblige_removal f e = oblige_removal_at (pair e) f

-- The loop of the scope "pairs".
unfoldable pub receive_at : Option Pair → OutcomeEvent → Facts → Facts
receive_at none e f = f
receive_at (some p) e f = record f {
  crossed = add_if e.evidence.crossing_confirmed p f.crossed;
  stopped = add_if (meets e.evidence stopped_bits) p f.stopped;
  removed = add_if e.evidence.rewrite_enforced p f.removed;
}

unfoldable pub receive : Facts → OutcomeEvent → Facts
unfolding receive_at
receive f e = receive_at (pair e) e f

unfoldable pub begin_denial : List OutcomeEvent → Facts → Facts
begin_denial es f = record f {
  deny_pending = true;
  deny_unidentified = f.deny_unidentified || is_empty es;
}

unfoldable pub begin_rewrite : List OutcomeEvent → Facts → Facts
begin_rewrite named f = record f { rewrite_unidentified = f.rewrite_unidentified || is_empty named }

unfoldable pub note_execution : ObservationRecord → Facts → Facts
note_execution o f = if meets o.evidence executed_bits then record f { executed = true } else f

unfoldable pub note_crossing : ObservationRecord → List OutcomeEvent → Facts → Facts
note_crossing o [] f =
    if o.potential_crossing then record f { crossing = f.crossing ++ zero_finding ∷ [] } else f
note_crossing o (e ∷ es) f = if o.potential_crossing then foldl oblige_crossing f (e ∷ es) else f

unfoldable pub note_denial : ObservationRecord → List OutcomeEvent → Facts → Facts
unfolding begin_denial
note_denial o es f =
    if o.evidence.deny_issued then foldl oblige_denial (begin_denial es f) es else f

-- `[e for e in events if Evidence.REWRITE_ISSUED in e.evidence]`
unfoldable pub named_in : List OutcomeEvent → List OutcomeEvent
named_in es = filter (λ e. e.evidence.rewrite_issued) es

unfoldable pub note_rewrite : ObservationRecord → List OutcomeEvent → Facts → Facts
unfolding begin_rewrite named_in
note_rewrite o es f =
    if o.evidence.rewrite_issued
    then foldl oblige_removal (begin_rewrite (named_in es) f) (named_in es)
    else f

unfoldable pub note_scope : ResolutionScope → ObservationRecord → List OutcomeEvent → Facts → Facts
note_scope ResolutionScope.none o es f = f
note_scope ResolutionScope.pairs o es f = foldl receive f es
note_scope ResolutionScope.boundary o es f = record f {
  boundary_stopped = f.boundary_stopped || meets o.evidence stopped_bits;
  zero_receipt = f.zero_receipt || (o.evidence.crossing_confirmed && is_empty es);
}

-- An observation beside its events, `events_of.get(observation.observation_id, [])`.
abbrev pub Seen : Type 0
Seen = ObservationRecord × List OutcomeEvent

-- The body of the loop over the observations.
unfoldable pub note : Facts → Seen → Facts
unfolding note_facts note_execution note_crossing note_denial note_rewrite note_scope
    oblige_crossing oblige_denial oblige_removal receive
note f (o, es) = note_scope o.resolution_scope o es (
    note_rewrite o es
      (note_denial o es (note_crossing o es (note_execution o (foldl note_facts f es)))))

-- What stands after the loop, a test for each early return.
unfoldable pub conflicts : Facts → Bool
conflicts f = overlaps f.executed_pairs f.stop_facts || overlaps f.crossing_facts f.removal_facts

unfoldable pub crossing_open : Facts → Pair → Bool
crossing_open f p =
    if p == zero_finding
    then not (f.boundary_stopped || f.zero_receipt)
    else not (f.boundary_stopped || member p (f.crossed ++ (f.stopped ++ f.removed)))

unfoldable pub denial_pairs : Facts → List Pair
denial_pairs f = without zero_finding (f.crossing ++ f.denied_pairs)

unfoldable pub pair_stopped : Facts → Bool
pair_stopped f =
    not (is_empty (denial_pairs f))
    && not f.deny_unidentified
    && not (member zero_finding f.crossing)
    && subset (denial_pairs f) f.stopped

unfoldable pub removal_open : Facts → Pair → Bool
removal_open f p = not (f.boundary_stopped || member p f.removed)

unfoldable pub verdict : Facts → Bool
verdict f =
    if conflicts f
    then true
    else if f.boundary_stopped && f.executed
    then true
    else if f.unmatchable && not f.boundary_stopped
    then true
    else if any (crossing_open f) f.crossing
    then true
    else if f.deny_pending && (f.executed || not (f.boundary_stopped || pair_stopped f))
    then true
    else if any (removal_open f) f.rewrites
    then true
    else f.rewrite_unidentified && not f.boundary_stopped

unfoldable pub partition_unresolved : List Seen → Bool
partition_unresolved group = verdict (foldl note no_facts group)
