-- ===== src/Accounting/Outcomes/Conflicts.antt =====
-- Receipts that contradict one another leave the partition unresolved, whatever else is known.
use mathlib.Core.List.{foldl, Mem}
use codex_privacy_hud.Prelude.{
  ◌==◌, Bool, true, false, ◌≡◌, refl, ◌∙◌, ap, sym, ◌||◌, List, [], ◌∷◌, ◌++◌, Option, none, some,
  if◌then◌else◌, any, any-append, member, overlaps, overlaps_of_member, ==_refl, string_key,
  pair_key,
}
use codex_privacy_hud.Prelude.SameSet.{any-mem}
use codex_privacy_hud.Accounting.Vocabulary.{ResolutionScope}
use codex_privacy_hud.Accounting.Evidence.{meets, executed_bits, stopped_bits}
use codex_privacy_hud.Accounting.Records.{OutcomeEvent, ObservationRecord}
use codex_privacy_hud.Accounting.Outcomes.{
  Facts, Pair, Seen, pair, no_facts, note_facts, note_execution, note_crossing, note_denial,
  note_rewrite, note_scope, note, oblige_crossing, oblige_crossing_at, oblige_denial,
  oblige_denial_at, oblige_removal, oblige_removal_at, receive, receive_at, begin_denial,
  begin_rewrite, named_in, zero_finding, conflicts, verdict, partition_unresolved,
}
use codex_privacy_hud.Accounting.Outcomes.Join.{join}
use codex_privacy_hud.Accounting.Outcomes.Additive.{
  IsAdditive, foldl-IsAdditive, note-IsAdditive, note_facts_step-IsAdditive,
}
use codex_privacy_hud.Accounting.Outcomes.Order.{facts_of, join_none}

-- What only the first loop writes.
abbrev receipts : Facts → List Pair × List Pair
receipts f = (f.executed_pairs, f.stop_facts)

abbrev Keeps : (Facts → Facts) → Type 0
Keeps step = (f : Facts) → receipts (step f) ≡ receipts f

foldl-Keeps {ℓ} :
    {A : Type ℓ} (step : Facts → A → Facts)
    → ((a : A) → Keeps (λ f. step f a))
    → (l : List A) → Keeps (λ f. foldl step f l)
foldl-Keeps step h [] f = refl
foldl-Keeps step h (a ∷ l) f = foldl-Keeps step h l (step f a) ∙ h a f

if-Keeps : (b : Bool) (step : Facts → Facts) → Keeps step → Keeps (λ f. if b then step f else f)
if-Keeps true step h f = h f
if-Keeps false step h f = refl

oblige_crossing-Keeps : (q : Option Pair) → Keeps (oblige_crossing_at q)
unfolding oblige_crossing_at
oblige_crossing-Keeps none f = refl
oblige_crossing-Keeps (some p) f = refl

oblige_denial-Keeps : (q : Option Pair) → Keeps (oblige_denial_at q)
unfolding oblige_denial_at
oblige_denial-Keeps none f = refl
oblige_denial-Keeps (some p) f = refl

oblige_removal-Keeps : (q : Option Pair) → Keeps (oblige_removal_at q)
unfolding oblige_removal_at
oblige_removal-Keeps none f = refl
oblige_removal-Keeps (some p) f = refl

receive-Keeps : (q : Option Pair) (e : OutcomeEvent) → Keeps (receive_at q e)
unfolding receive_at
receive-Keeps none e f = refl
receive-Keeps (some p) e f = refl

module _ (o : ObservationRecord) where
  note_execution-Keeps : Keeps (note_execution o)
  unfolding note_execution
  note_execution-Keeps =
      if-Keeps (meets o.evidence executed_bits) (λ f. record f { executed = true }) (λ f. refl)

  note_crossing-Keeps : (es : List OutcomeEvent) → Keeps (note_crossing o es)
  unfolding note_crossing oblige_crossing
  note_crossing-Keeps [] =
      if-Keeps o.potential_crossing (λ f. record f { crossing = f.crossing ++ zero_finding ∷ [] })
        (λ f. refl)
  note_crossing-Keeps (e ∷ es) =
      if-Keeps o.potential_crossing (λ f. foldl oblige_crossing f (e ∷ es))
        (foldl-Keeps oblige_crossing (λ x. oblige_crossing-Keeps (pair x)) (e ∷ es))

  note_denial-Keeps : (es : List OutcomeEvent) → Keeps (note_denial o es)
  unfolding note_denial oblige_denial
  note_denial-Keeps es =
      if-Keeps o.evidence.deny_issued (λ f. foldl oblige_denial (begin_denial es f) es)
        (λ f. foldl-Keeps oblige_denial (λ x. oblige_denial-Keeps (pair x)) es (begin_denial es f))

  note_rewrite-Keeps : (es : List OutcomeEvent) → Keeps (note_rewrite o es)
  unfolding note_rewrite oblige_removal
  note_rewrite-Keeps es =
      let named = named_in es in
      if-Keeps o.evidence.rewrite_issued (λ f. foldl oblige_removal (begin_rewrite named f) named)
        (λ f.
          foldl-Keeps oblige_removal (λ x. oblige_removal-Keeps (pair x)) named
            (begin_rewrite named f))

  note_scope-Keeps : (s : ResolutionScope) (es : List OutcomeEvent) → Keeps (note_scope s o es)
  unfolding note_scope receive
  note_scope-Keeps ResolutionScope.none es f = refl
  note_scope-Keeps ResolutionScope.pairs es f =
      foldl-Keeps receive (λ x. receive-Keeps (pair x) x) es f
  note_scope-Keeps ResolutionScope.boundary es f = refl

  -- Past the first loop, an observation changes neither set.
  receipts-note :
      (f : Facts) (es : List OutcomeEvent)
      → receipts (note f (o, es)) ≡ receipts (foldl note_facts f es)
  unfolding note
  receipts-note f es =
      note_scope-Keeps o.resolution_scope es _
      ∙ note_rewrite-Keeps es _
      ∙ note_denial-Keeps es _
      ∙ note_crossing-Keeps es _
      ∙ note_execution-Keeps _

-- The event is among those of some observation of the group.
pub record IsSeen (g : List Seen) (e : OutcomeEvent) : Type 0 where
  pub by : Seen
  pub in_group : Mem by g
  pub in_events : Mem e by.1

-- An element that one step finds is found by the loop.
module _ {ℓ} {A : Type ℓ} (step : Facts → A → Facts)
    (additive : (a : A) → IsAdditive (λ f. step f a)) (field : Facts → List Pair)
    (field-join : (f g : Facts) → field (join f g) ≡ field f ++ field g)
    (field-none : field no_facts ≡ []) (q : Pair → Bool) where
  any-foldl :
      (l : List A)
      → any q (field (foldl step no_facts l)) ≡ any (λ a. any q (field (step no_facts a))) l
  unfolding any
  any-foldl [] = ap (any q) field-none
  any-foldl (a ∷ l) =
      ap (λ f. any q (field (foldl step f l))) (sym (join_none (step no_facts a)))
      ∙ ap (λ f. any q (field f)) (foldl-IsAdditive step additive l (step no_facts a) no_facts)
      ∙ ap (any q) (field-join (step no_facts a) (foldl step no_facts l))
      ∙ any-append q (field (step no_facts a)) (field (foldl step no_facts l))
      ∙ ap (λ b. any q (field (step no_facts a)) || b) (any-foldl l)

module _ (p : Pair) (e : OutcomeEvent) (named : pair e ≡ some p) where
  member-executed :
      meets e.evidence executed_bits ≡ true → member p (note_facts no_facts e).executed_pairs ≡ true
  unfolding note_facts member
  member-executed h = rw (named, note_facts, h, ==_refl p)

  member-stopped :
      meets e.evidence stopped_bits ≡ true → member p (note_facts no_facts e).stop_facts ≡ true
  unfolding note_facts member
  member-stopped h = rw (named, note_facts, h, ==_refl p)

-- What an event of the group says is among the facts of the group.
module _ (g : List Seen) {e : OutcomeEvent} (seen : IsSeen g e) (q : Pair → Bool) where
  lift_executed :
      any q (note_facts no_facts e).executed_pairs ≡ true → any q (facts_of g).executed_pairs ≡ true
  unfolding facts_of
  lift_executed h =
      let (o, es) = seen.by in
      let here : any q (foldl note_facts no_facts es).executed_pairs ≡ true =
        any-foldl note_facts note_facts_step-IsAdditive (λ f. f.executed_pairs) (λ f k. refl) refl q
          es
        ∙ any-mem _ e es seen.in_events h in
      any-foldl note note-IsAdditive (λ f. f.executed_pairs) (λ f k. refl) refl q g
      ∙ any-mem _ seen.by g seen.in_group (ap (λ r. any q r.0) (receipts-note o no_facts es) ∙ here)

  lift_stopped :
      any q (note_facts no_facts e).stop_facts ≡ true → any q (facts_of g).stop_facts ≡ true
  unfolding facts_of
  lift_stopped h =
      let (o, es) = seen.by in
      let here : any q (foldl note_facts no_facts es).stop_facts ≡ true =
        any-foldl note_facts note_facts_step-IsAdditive (λ f. f.stop_facts) (λ f k. refl) refl q es
        ∙ any-mem _ e es seen.in_events h in
      any-foldl note note-IsAdditive (λ f. f.stop_facts) (λ f k. refl) refl q g
      ∙ any-mem _ seen.by g seen.in_group (ap (λ r. any q r.1) (receipts-note o no_facts es) ∙ here)

verdict_of_conflict : (f : Facts) → conflicts f ≡ true → verdict f ≡ true
unfolding verdict
verdict_of_conflict f h = rw h

-- If one event of the group says that a resolved pair was executed or crossed, and one says that
-- the same pair was stopped (denied with effect, or rejected before it crossed), then the partition
-- is unresolved, whatever else the group holds and in whatever order.
pub partition_unresolved_of_conflict :
    (g : List Seen) (e e' : OutcomeEvent) (p : Pair)
    → IsSeen g e
    → IsSeen g e'
    → pair e ≡ some p
    → pair e' ≡ some p
    → meets e.evidence executed_bits ≡ true
    → meets e'.evidence stopped_bits ≡ true
    → partition_unresolved g ≡ true
unfolding partition_unresolved facts_of conflicts member
partition_unresolved_of_conflict g e e' p s s' n n' x x' =
    let f = facts_of g in
    verdict_of_conflict f (
      ap (λ b. b || overlaps f.crossing_facts f.removal_facts)
        (overlaps_of_member p f.executed_pairs f.stop_facts
          (lift_executed g s (λ y. p == y) (member-executed p e n x))
          (lift_stopped g s' (λ y. p == y) (member-stopped p e' n' x'))))
