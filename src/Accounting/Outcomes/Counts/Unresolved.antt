-- ===== src/Accounting/Outcomes/Counts/Unresolved.antt =====
-- Which actions `resolve_outcomes` counts as unresolved.
use mathlib.Core.Logic.{◌↔◌}
use mathlib.Core.Path.{fun_ext}
use mathlib.Core.List.{foldl}
use codex_privacy_hud.Prelude.{
  Bool, true, false, ◌&&◌, List, [], ◌∷◌, map, ◌≡◌, refl, ap, ◌∙◌, sym, arith, &&-true, any, filter,
  or_else, lookup, member, member-insert, string_key, pair_key, ◌==◌, ==→eq, ==_refl, Unique,
  any_of_lookup, lookup_of_any, Bool-cases, Option-cases, inl, inr,
}
use codex_privacy_hud.Prelude.Grouping.{group_into, group_into-Unique, lookup-group_into}
use codex_privacy_hud.Accounting.Vocabulary.{Boundary, boundary_key}
use codex_privacy_hud.Accounting.Records.{OpaqueId, OutcomeObservation, OutcomeEvent}
use codex_privacy_hud.Accounting.Outcomes.{partition_unresolved}
use codex_privacy_hud.Accounting.Outcomes.Order.{verdict-no_facts}
use codex_privacy_hud.Accounting.Outcomes.Counts.{
  EventsOf, Partitions, Actions, events_of, partition_key, collect, actions, seen, group_unresolved,
  unresolved_from, unresolved,
}

-- The observations of one action at one boundary, in order.
pub group_of : OpaqueId → Boundary → List OutcomeObservation → List OutcomeObservation
group_of a b observations = filter (λ o. partition_key o == (a, b)) observations

-- The events of one observation.
pub events_at : OpaqueId → List OutcomeEvent → List OutcomeEvent
events_at i events = filter (λ e. e.observation_id == i) events

partitions-collect :
    (d : Actions) (os : List OutcomeObservation)
    → (foldl collect d os).partitions ≡ group_into partition_key d.partitions os
unfolding collect
partitions-collect d [] = refl
partitions-collect d (o ∷ os) = partitions-collect (collect d o) os

member-unresolved_from :
    (d : EventsOf) (a : OpaqueId) (p : Partitions)
    → member a (unresolved_from d p) ≡ any (λ e. a == e.0.0 && group_unresolved d e.1) p
unfolding unresolved_from any member
member-unresolved_from d a [] = refl
member-unresolved_from d a ((k, group) ∷ p) = elim (Bool-cases (group_unresolved d group)) [
  | inl h ↦
      rw (h, member-insert a k.0 (unresolved_from d p))
        (ground (arith, member-unresolved_from d a p))
  | inr h ↦ rw h (ground (arith, member-unresolved_from d a p))
]

-- What the verdict on an action at a boundary is asked of: its observations, each with its events.
pub boundary_open : OpaqueId → Boundary → List OutcomeObservation → List OutcomeEvent → Bool
boundary_open a b os es =
    partition_unresolved (map (λ o. (o.observed, events_at o.observation_id es)) (group_of a b os))

none_unresolved : (d : EventsOf) → group_unresolved d [] ≡ false
unfolding group_unresolved partition_unresolved
none_unresolved d = verdict-no_facts

module _ (os : List OutcomeObservation) (es : List OutcomeEvent) where
  seen-events_at :
      (o : OutcomeObservation) → seen (events_of es) o ≡ (o.observed, events_at o.observation_id es)
  unfolding seen events_of events_at lookup
  seen-events_at o =
      ap (λ l. (o.observed, l)) (lookup-group_into (λ e. e.observation_id) o.observation_id [] es)

  group_unresolved-boundary_open :
      (a : OpaqueId) (b : Boundary)
      → group_unresolved (events_of es) (group_of a b os) ≡ boundary_open a b os es
  unfolding group_unresolved boundary_open
  group_unresolved-boundary_open a b =
      ap (λ f. partition_unresolved (map f (group_of a b os))) (fun_ext seen-events_at)

  parts : Partitions
  parts = (actions os).partitions

  parts-group_into : parts ≡ group_into partition_key [] os
  unfolding parts actions
  parts-group_into = partitions-collect _ os

  parts-Unique : Unique parts
  parts-Unique = rw parts-group_into (group_into-Unique partition_key [] os tt)

  parts-group_of :
      (a : OpaqueId) (b : Boundary) → or_else (lookup (a, b) parts) [] ≡ group_of a b os
  unfolding group_of lookup
  parts-group_of a b =
      ap (λ p. or_else (lookup (a, b) p) []) parts-group_into
      ∙ lookup-group_into partition_key (a, b) [] os

  open_of_member :
      (a : OpaqueId)
      → member a (unresolved os es) ≡ true
      → (b : Boundary) × (boundary_open a b os es ≡ true)
  unfolding unresolved parts
  open_of_member a h =
      let (k, group, found, holds) =
        lookup_of_any _ parts parts-Unique
          (sym (member-unresolved_from (events_of es) a parts) ∙ h) in
      let (same, left) = &&-true (a == k.0) (group_unresolved (events_of es) group) holds in
      let at_key : group ≡ group_of k.0 k.1 os =
        ap (λ o. or_else o []) (sym found) ∙ parts-group_of k.0 k.1 in
      (
        k.1,
        ap (λ x. boundary_open x k.1 os es) (==→eq a k.0 same)
            ∙ sym (group_unresolved-boundary_open k.0 k.1)
            ∙ ap (group_unresolved (events_of es)) (sym at_key)
            ∙ left,
      )

  member_of_open :
      (a : OpaqueId) (b : Boundary)
      → boundary_open a b os es ≡ true
      → member a (unresolved os es) ≡ true
  unfolding unresolved parts
  member_of_open a b h =
      let left : group_unresolved (events_of es) (group_of a b os) ≡ true =
        group_unresolved-boundary_open a b ∙ h in
      member-unresolved_from (events_of es) a parts ∙ elim (Option-cases (lookup (a, b) parts)) [
        | inl missing ↦
            let nothing : group_of a b os ≡ [] =
              sym (parts-group_of a b) ∙ ap (λ o. or_else o []) missing in
            cc (
              sym left
              ∙ ap (group_unresolved (events_of es)) nothing
              ∙ none_unresolved (events_of es))
        | inr (group, found) ↦
            let at_key : group ≡ group_of a b os =
              ap (λ o. or_else o []) (sym found) ∙ parts-group_of a b in
            any_of_lookup (λ e. a == e.0.0 && group_unresolved (events_of es) e.1) (a, b) group
              parts found (rw (==_refl a) (ap (group_unresolved (events_of es)) at_key ∙ left))
      ]

-- An action is counted as unresolved exactly when at one of the boundaries the verdict on its
-- observations, each read with its own events, is that something is unresolved.
pub unresolved_iff :
    (os : List OutcomeObservation) (es : List OutcomeEvent) (a : OpaqueId)
    → (member a (unresolved os es) ≡ true) ↔ ((b : Boundary) × (boundary_open a b os es ≡ true))
unresolved_iff os es a = (open_of_member os es a, λ w. member_of_open os es a w.0 w.1)
