-- ===== src/Accounting/Outcomes/Counts/Stopped.antt =====
-- The stopped reads that `resolve_outcomes` of src/privacy_hud/accounting.py counts from its dictionaries, against the
-- observations themselves.
use mathlib.Core.List.{foldl}
use codex_privacy_hud.Prelude.{
  Bool, false, not, ◌&&◌, ◌||◌, Option, none, some, List, [], ◌∷◌, map, any, count_where,
  Comparable, ◌==◌, ==→eq, ==_refl, ==_sym_false, string_key, Dict, or_else, lookup, upsert,
  lookup-upsert, Unique, upsert-Unique, member, insert, member-insert, ◌≡◌, refl, sym, ap, ◌∙◌,
  arith, Bool-cases, inl, inr,
}
use codex_privacy_hud.Accounting.Vocabulary.{ActionKind, action_kind_key}
use codex_privacy_hud.Accounting.Evidence.{Evidence, no_evidence, join, meets, executed_bits}
use codex_privacy_hud.Accounting.Records.{OpaqueId, OutcomeObservation, OutcomeEvent}
use codex_privacy_hud.Accounting.Outcomes.Counts.{
  Actions, actions, collect, unresolved, stopped_read, resolve_outcomes,
}

module _ {ℓ} {K V X : Type ℓ} ⦃e : Comparable K⦄ (key : X → K) (f : X → Option V → V) where
  abbrev gather : Dict K V → List X → Dict K V
  gather = foldl (λ d x. upsert (key x) (f x) d)

  gather-Unique : (d : Dict K V) (xs : List X) → Unique d → Unique (gather d xs)
  gather-Unique d [] u = u
  gather-Unique d (x ∷ xs) u =
      gather-Unique (upsert (key x) (f x) d) xs (upsert-Unique (key x) (f x) d u)

  module _ (g : V → Bool) (z : V) (p : X → Bool)
      (step : (x : X) (o : Option V) → g (f x o) ≡ (g (or_else o z) || p x)) where
    gather_once :
        (k : K) (d : Dict K V) (x : X)
        → g (or_else (lookup k (upsert (key x) (f x) d)) z)
          ≡ (g (or_else (lookup k d) z) || key x == k && p x)
    gather_once k d x = rw lookup-upsert (elim (Bool-cases (key x == k)) [
      | inl same ↦ rw same (
          step x (lookup (key x) d)
          ∙ ap (λ j. g (or_else (lookup j d) z) || p x) (==→eq (key x) k same))
      | inr other ↦ rw other (ground arith)
    ])

    -- A test of what is gathered under a key, against the items themselves
    any-gather :
        (k : K) (d : Dict K V) (xs : List X)
        → g (or_else (lookup k (gather d xs)) z)
          ≡ (g (or_else (lookup k d) z) || any (λ x. key x == k && p x) xs)
    unfolding any
    any-gather k d [] = ground arith
    any-gather k d (x ∷ xs) =
        any-gather k (upsert (key x) (f x) d) xs
        ∙ ap (λ b. b || any (λ y. key y == k && p y) xs) (gather_once k d x)
        ∙ ground arith

module _ {ℓ} {K V : Type ℓ} ⦃e : Comparable K⦄ where
  -- A count of entries is a count of keys.
  count_where-keys :
      (p : K × V → Bool) (q : K → Bool) (d : Dict K V)
      → Unique d
      → ((k : K) (v : V) → lookup k d ≡ some v → p (k, v) ≡ q k)
      → count_where p d ≡ count_where q (map (λ c. c.0) d)
  unfolding count_where lookup
  count_where-keys p q [] u h = refl
  count_where-keys p q ((j, v) ∷ d) u h =
      let here : p (j, v) ≡ q j = h j v (rw (==_refl j) refl) in
      let rest : count_where p d ≡ count_where q (map (λ c. c.0) d) =
        count_where-keys p q d u.1 (λ k w found. elim (Bool-cases (j == k)) [
          | inl same ↦
              let missing : lookup k d ≡ none = ap (λ i. lookup i d) (sym (==→eq j k same)) ∙ u.0 in
              cc
          | inr other ↦ h k w (rw other found)
        ]) in
      rw (here, rest) refl

-- The actions, in the order in which they were first observed
pub acted : List OutcomeObservation → List OpaqueId
acted = foldl (λ s o. insert o.observed.action_id s) []

-- A stopped read, by its observations: one is a read, one carries an enforced denial, none was seen to run or to
-- cross, and the action is not unresolved.
pub was_stopped : List OutcomeObservation → List OutcomeEvent → OpaqueId → Bool
was_stopped os es a =
    any (λ o. o.observed.action_id == a && ActionKind.read == o.observed.action_kind) os
    && any (λ o. o.observed.action_id == a && o.observed.evidence.deny_enforced) os
    && not (any (λ o. o.observed.action_id == a && meets o.observed.evidence executed_bits) os)
    && not (member a (unresolved os es))

keys-upsert :
    (k : OpaqueId) (f : Option Evidence → Evidence) (d : Dict OpaqueId Evidence)
    → map (λ c. c.0) (upsert k f d) ≡ insert k (map (λ c. c.0) d)
unfolding upsert insert member any
keys-upsert k f [] = refl
keys-upsert k f ((j, v) ∷ d) = elim (Bool-cases (j == k)) [
  | inl same ↦ rw (same, ==→eq j k same, ==_refl k) refl
  | inr other ↦
      rw (other, ==_sym_false j k other, keys-upsert k f d)
        (elim (Bool-cases (member k (map (λ c. c.0) d))) [
          | inl old ↦ rw old refl
          | inr new ↦ rw new refl
        ])
]

carry : OutcomeObservation → Option Evidence → Evidence
carry o c = join (or_else c no_evidence) o.observed.evidence

carried-gather :
    (d : Actions) (os : List OutcomeObservation)
    → (foldl collect d os).carried ≡ gather (λ o. o.observed.action_id) carry d.carried os
unfolding collect carry
carried-gather d [] = refl
carried-gather d (o ∷ os) = carried-gather (collect d o) os

kinds-gather :
    (d : Actions) (os : List OutcomeObservation)
    → (foldl collect d os).kinds
      ≡ gather
          (λ o. o.observed.action_id)
          (λ o k. insert o.observed.action_kind (or_else k []))
          d.kinds
          os
unfolding collect
kinds-gather d [] = refl
kinds-gather d (o ∷ os) = kinds-gather (collect d o) os

keys-gather :
    (d : Dict OpaqueId Evidence) (os : List OutcomeObservation)
    → map (λ c. c.0) (gather (λ o. o.observed.action_id) carry d os)
      ≡ foldl (λ s o. insert o.observed.action_id s) (map (λ c. c.0) d) os
keys-gather d [] = refl
keys-gather d (o ∷ os) =
    keys-gather (upsert o.observed.action_id (carry o) d) os
    ∙ ap (λ s. foldl (λ s o. insert o.observed.action_id s) s os)
        (keys-upsert o.observed.action_id (carry o) d)

meets_executed :
    (x : Evidence) → meets x executed_bits ≡ (x.execution_observed || x.crossing_confirmed)
meets_executed x = ground arith

meets-join :
    (x y : Evidence)
    → meets (join x y) executed_bits ≡ (meets x executed_bits || meets y executed_bits)
meets-join x y = meets_executed (join x y) ∙ ground (arith, meets_executed x, meets_executed y)

module _ (os : List OutcomeObservation) (es : List OutcomeEvent) where
  bit_of_action :
      (bit : Evidence → Bool)
      → ((x y : Evidence) → bit (join x y) ≡ (bit x || bit y))
      → bit no_evidence ≡ false
      → (a : OpaqueId)
      → bit (or_else (lookup a (actions os).carried) no_evidence)
        ≡ any (λ o. o.observed.action_id == a && bit o.observed.evidence) os
  unfolding actions carry lookup
  bit_of_action bit joins empty a =
      ap (λ d. bit (or_else (lookup a d) no_evidence)) (carried-gather _ os)
      ∙ any-gather (λ o. o.observed.action_id) carry bit no_evidence (λ o. bit o.observed.evidence)
          (λ o c. joins (or_else c no_evidence) o.observed.evidence) a [] os
      ∙ rw empty refl

  kind_of_action :
      (k : ActionKind) (a : OpaqueId)
      → member k (or_else (lookup a (actions os).kinds) [])
        ≡ any (λ o. o.observed.action_id == a && k == o.observed.action_kind) os
  unfolding actions lookup any member
  kind_of_action k a =
      ap (λ d. member k (or_else (lookup a d) [])) (kinds-gather _ os)
      ∙ any-gather (λ o. o.observed.action_id) (λ o s. insert o.observed.action_kind (or_else s []))
          (member k) [] (λ o. k == o.observed.action_kind)
          (λ o s. member-insert k o.observed.action_kind (or_else s []) ∙ ground arith) a [] os

  stopped_read-was_stopped :
      (a : OpaqueId) (c : Evidence)
      → lookup a (actions os).carried ≡ some c
      → stopped_read (actions os).kinds (unresolved os es) (a, c) ≡ was_stopped os es a
  unfolding stopped_read was_stopped
  stopped_read-was_stopped a c found =
      let denied = bit_of_action (λ x. x.deny_enforced) (λ x y. refl) refl a in
      let ran = bit_of_action (λ x. meets x executed_bits) meets-join refl a in
      let this : or_else (lookup a (actions os).carried) no_evidence ≡ c =
        ap (λ x. or_else x no_evidence) found in
      let denied_here : c.deny_enforced
          ≡ any (λ o. o.observed.action_id == a && o.observed.evidence.deny_enforced) os =
        ap (λ x. x.deny_enforced) (sym this) ∙ denied in
      let ran_here : meets c executed_bits
          ≡ any (λ o. o.observed.action_id == a && meets o.observed.evidence executed_bits) os =
        ap (λ x. meets x executed_bits) (sym this) ∙ ran in
      rw (kind_of_action ActionKind.read a, ← denied_here, ← ran_here) refl

-- The stopped reads that are counted are the actions of which one observation is a read, one carries an
-- enforced denial, none was seen to run or to cross, and which are not unresolved; each action counts once.
pub reads_stopped_iff :
    (os : List OutcomeObservation) (es : List OutcomeEvent)
    → (resolve_outcomes os es).reads_stopped ≡ count_where (was_stopped os es) (acted os)
unfolding resolve_outcomes acted actions
reads_stopped_iff os es =
    count_where-keys (stopped_read (actions os).kinds (unresolved os es)) (was_stopped os es)
      (actions os).carried
      (rw (carried-gather _ os) (gather-Unique (λ o. o.observed.action_id) carry [] os tt))
      (stopped_read-was_stopped os es)
    ∙ ap (λ d. count_where (was_stopped os es) (map (λ c. c.0) d)) (carried-gather _ os)
    ∙ ap (count_where (was_stopped os es)) (keys-gather [] os)
