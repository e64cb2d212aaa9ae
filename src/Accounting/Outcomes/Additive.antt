-- ===== src/Accounting/Outcomes/Additive.antt =====
-- The loop adds to what it has found, and reads nothing of it.
use mathlib.Core.List.{foldl, append_assoc}
use codex_privacy_hud.Prelude.{
  Bool, true, false, ◌≡◌, refl, ◌||◌, List, [], ◌∷◌, ◌++◌, arith, ||_assoc, Option, none, some,
  if◌then◌else◌,
}
use codex_privacy_hud.Accounting.Vocabulary.{ResolutionScope}
use codex_privacy_hud.Accounting.Evidence.{meets, executed_bits}
use codex_privacy_hud.Accounting.Records.{OutcomeEvent, ObservationRecord}
use codex_privacy_hud.Accounting.Outcomes.{
  Facts, Pair, Seen, pair, add_if, note_facts, oblige_crossing, oblige_denial, oblige_removal,
  receive, note_facts_at, oblige_crossing_at, oblige_denial_at, oblige_removal_at, receive_at,
  begin_denial, begin_rewrite, named_in, zero_finding, note_execution, note_crossing, note_denial,
  note_rewrite, note_scope, note,
}
use codex_privacy_hud.Accounting.Outcomes.Join.{join}

abbrev pub IsAdditive : (Facts → Facts) → Type 0
IsAdditive step = (f g : Facts) → step (join f g) ≡ join f (step g)

add_if-append : (t : Bool) (p : Pair) (s u : List Pair) → add_if t p (s ++ u) ≡ s ++ add_if t p u
add_if-append true p s u = append_assoc s u (p ∷ [])
add_if-append false p s u = refl

||_true : (a : Bool) → (a || true) ≡ true
||_true a = ground arith

oblige_crossing-IsAdditive : (q : Option Pair) → IsAdditive (oblige_crossing_at q)
unfolding oblige_crossing_at
oblige_crossing-IsAdditive none f g = simp ||_true
oblige_crossing-IsAdditive (some p) f g = simp append_assoc

oblige_denial-IsAdditive : (q : Option Pair) → IsAdditive (oblige_denial_at q)
unfolding oblige_denial_at
oblige_denial-IsAdditive none f g = simp ||_true
oblige_denial-IsAdditive (some p) f g = simp append_assoc

oblige_removal-IsAdditive : (q : Option Pair) → IsAdditive (oblige_removal_at q)
unfolding oblige_removal_at
oblige_removal-IsAdditive none f g = simp ||_true
oblige_removal-IsAdditive (some p) f g = simp append_assoc

note_facts-IsAdditive : (q : Option Pair) (e : OutcomeEvent) → IsAdditive (note_facts_at q e)
unfolding note_facts_at
note_facts-IsAdditive none e f g = refl
note_facts-IsAdditive (some p) e f g = simp add_if-append

receive-IsAdditive : (q : Option Pair) (e : OutcomeEvent) → IsAdditive (receive_at q e)
unfolding receive_at
receive-IsAdditive none e f g = refl
receive-IsAdditive (some p) e f g = simp add_if-append

begin_denial-IsAdditive : (es : List OutcomeEvent) → IsAdditive (begin_denial es)
unfolding begin_denial
begin_denial-IsAdditive es f g = simp (||_assoc, ||_true)

begin_rewrite-IsAdditive : (es : List OutcomeEvent) → IsAdditive (begin_rewrite es)
unfolding begin_rewrite
begin_rewrite-IsAdditive es f g = simp ||_assoc

pub note_facts_step-IsAdditive : (e : OutcomeEvent) → IsAdditive (λ f. note_facts f e)
unfolding note_facts
note_facts_step-IsAdditive e = note_facts-IsAdditive (pair e) e

-- How the parts of the loop are put together.
pub foldl-IsAdditive {ℓ} :
    {A : Type ℓ} (step : Facts → A → Facts)
    → ((a : A) → IsAdditive (λ f. step f a))
    → (l : List A) → IsAdditive (λ f. foldl step f l)
foldl-IsAdditive step h [] f g = refl
foldl-IsAdditive step h (a ∷ l) f g = rw (h a f g) (foldl-IsAdditive step h l f (step g a))

if-IsAdditive :
    (b : Bool) (step : Facts → Facts) → IsAdditive step → IsAdditive (λ f. if b then step f else f)
if-IsAdditive true step h f g = h f g
if-IsAdditive false step h f g = refl

then-IsAdditive : (s t : Facts → Facts) → IsAdditive s → IsAdditive t → IsAdditive (λ f. t (s f))
then-IsAdditive s t hs ht f g = rw (hs f g) (ht f (s g))

module _ (o : ObservationRecord) where
  note_execution-IsAdditive : IsAdditive (note_execution o)
  unfolding note_execution
  note_execution-IsAdditive =
      if-IsAdditive (meets o.evidence executed_bits) (λ f. record f { executed = true })
        (λ f g. simp ||_true)

  note_crossing-IsAdditive : (es : List OutcomeEvent) → IsAdditive (note_crossing o es)
  unfolding note_crossing oblige_crossing
  note_crossing-IsAdditive [] =
      if-IsAdditive o.potential_crossing
        (λ f. record f { crossing = f.crossing ++ zero_finding ∷ [] }) (λ f g. simp append_assoc)
  note_crossing-IsAdditive (e ∷ es) =
      if-IsAdditive o.potential_crossing (λ f. foldl oblige_crossing f (e ∷ es))
        (foldl-IsAdditive oblige_crossing (λ x. oblige_crossing-IsAdditive (pair x)) (e ∷ es))

  note_denial-IsAdditive : (es : List OutcomeEvent) → IsAdditive (note_denial o es)
  unfolding note_denial oblige_denial
  note_denial-IsAdditive es =
      if-IsAdditive o.evidence.deny_issued (λ f. foldl oblige_denial (begin_denial es f) es)
        (then-IsAdditive (begin_denial es) (λ f. foldl oblige_denial f es)
          (begin_denial-IsAdditive es)
          (foldl-IsAdditive oblige_denial (λ x. oblige_denial-IsAdditive (pair x)) es))

  note_rewrite-IsAdditive : (es : List OutcomeEvent) → IsAdditive (note_rewrite o es)
  unfolding note_rewrite oblige_removal
  note_rewrite-IsAdditive es =
      let named = named_in es in
      if-IsAdditive o.evidence.rewrite_issued
        (λ f. foldl oblige_removal (begin_rewrite named f) named)
        (then-IsAdditive (begin_rewrite named) (λ f. foldl oblige_removal f named)
          (begin_rewrite-IsAdditive named)
          (foldl-IsAdditive oblige_removal (λ x. oblige_removal-IsAdditive (pair x)) named))

  note_scope-IsAdditive :
      (s : ResolutionScope) (es : List OutcomeEvent) → IsAdditive (note_scope s o es)
  unfolding note_scope receive
  note_scope-IsAdditive ResolutionScope.none es f g = refl
  note_scope-IsAdditive ResolutionScope.pairs es f g =
      foldl-IsAdditive receive (λ x. receive-IsAdditive (pair x) x) es f g
  note_scope-IsAdditive ResolutionScope.boundary es f g = simp ||_assoc

-- An observation adds the same facts whatever was found before it.
pub note-IsAdditive : (s : Seen) → IsAdditive (λ f. note f s)
unfolding note note_facts
note-IsAdditive (o, es) =
    then-IsAdditive (λ f. foldl note_facts f es)
      (λ f.
        note_scope o.resolution_scope o es
          (note_rewrite o es (note_denial o es (note_crossing o es (note_execution o f)))))
      (foldl-IsAdditive note_facts (λ x. note_facts-IsAdditive (pair x) x) es)
      (then-IsAdditive (note_execution o)
        (λ f.
          note_scope o.resolution_scope o es
            (note_rewrite o es (note_denial o es (note_crossing o es f))))
        (note_execution-IsAdditive o)
        (then-IsAdditive (note_crossing o es)
          (λ f. note_scope o.resolution_scope o es (note_rewrite o es (note_denial o es f)))
          (note_crossing-IsAdditive o es)
          (then-IsAdditive (note_denial o es)
            (λ f. note_scope o.resolution_scope o es (note_rewrite o es f))
            (note_denial-IsAdditive o es)
            (then-IsAdditive (note_rewrite o es) (note_scope o.resolution_scope o es)
              (note_rewrite-IsAdditive o es) (note_scope-IsAdditive o o.resolution_scope es)))))
