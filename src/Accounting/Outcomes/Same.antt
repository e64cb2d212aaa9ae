-- ===== src/Accounting/Outcomes/Same.antt =====
-- Facts that the tests of the verdict cannot tell apart have one verdict.
use mathlib.Core.Path.{fun_ext, ap₂}
use codex_privacy_hud.Prelude.{
  Bool, ◌≡◌, refl, ◌∙◌, ap, ◌||◌, ||_comm, any, string_key, pair_key, List,
}
use codex_privacy_hud.Prelude.SameSet.{
  SameSet, SameSet-append, SameSet-append_comm, SameSet-without, member-SameSet, overlaps-SameSet,
  subset-SameSet, is_empty-SameSet,
}
use codex_privacy_hud.Accounting.Outcomes.{
  Facts, Pair, zero_finding, conflicts, crossing_open, removal_open, denial_pairs, pair_stopped,
  verdict,
}
use codex_privacy_hud.Accounting.Outcomes.Join.{join}

pub record SameFacts (f g : Facts) : Type 0 where
  pub crossing : SameSet f.crossing g.crossing
  pub rewrites : SameSet f.rewrites g.rewrites
  pub denied_pairs : SameSet f.denied_pairs g.denied_pairs
  pub executed_pairs : SameSet f.executed_pairs g.executed_pairs
  pub crossing_facts : SameSet f.crossing_facts g.crossing_facts
  pub stop_facts : SameSet f.stop_facts g.stop_facts
  pub removal_facts : SameSet f.removal_facts g.removal_facts
  pub deny_unidentified : f.deny_unidentified ≡ g.deny_unidentified
  pub unmatchable : f.unmatchable ≡ g.unmatchable
  pub deny_pending : f.deny_pending ≡ g.deny_pending
  pub rewrite_unidentified : f.rewrite_unidentified ≡ g.rewrite_unidentified
  pub executed : f.executed ≡ g.executed
  pub crossed : SameSet f.crossed g.crossed
  pub stopped : SameSet f.stopped g.stopped
  pub removed : SameSet f.removed g.removed
  pub boundary_stopped : f.boundary_stopped ≡ g.boundary_stopped
  pub zero_receipt : f.zero_receipt ≡ g.zero_receipt

pub SameFacts-join_comm : (f g : Facts) → SameFacts (join f g) (join g f)
SameFacts-join_comm f g = record {
  crossing = SameSet-append_comm f.crossing g.crossing;
  rewrites = SameSet-append_comm f.rewrites g.rewrites;
  denied_pairs = SameSet-append_comm f.denied_pairs g.denied_pairs;
  executed_pairs = SameSet-append_comm f.executed_pairs g.executed_pairs;
  crossing_facts = SameSet-append_comm f.crossing_facts g.crossing_facts;
  stop_facts = SameSet-append_comm f.stop_facts g.stop_facts;
  removal_facts = SameSet-append_comm f.removal_facts g.removal_facts;
  deny_unidentified = ||_comm f.deny_unidentified g.deny_unidentified;
  unmatchable = ||_comm f.unmatchable g.unmatchable;
  deny_pending = ||_comm f.deny_pending g.deny_pending;
  rewrite_unidentified = ||_comm f.rewrite_unidentified g.rewrite_unidentified;
  executed = ||_comm f.executed g.executed;
  crossed = SameSet-append_comm f.crossed g.crossed;
  stopped = SameSet-append_comm f.stopped g.stopped;
  removed = SameSet-append_comm f.removed g.removed;
  boundary_stopped = ||_comm f.boundary_stopped g.boundary_stopped;
  zero_receipt = ||_comm f.zero_receipt g.zero_receipt;
}

pub SameFacts-join :
    {f g h k : Facts} → SameFacts f g → SameFacts h k → SameFacts (join f h) (join g k)
SameFacts-join s t = record {
  crossing = SameSet-append s.crossing t.crossing;
  rewrites = SameSet-append s.rewrites t.rewrites;
  denied_pairs = SameSet-append s.denied_pairs t.denied_pairs;
  executed_pairs = SameSet-append s.executed_pairs t.executed_pairs;
  crossing_facts = SameSet-append s.crossing_facts t.crossing_facts;
  stop_facts = SameSet-append s.stop_facts t.stop_facts;
  removal_facts = SameSet-append s.removal_facts t.removal_facts;
  deny_unidentified = ap₂ ◌||◌ s.deny_unidentified t.deny_unidentified;
  unmatchable = ap₂ ◌||◌ s.unmatchable t.unmatchable;
  deny_pending = ap₂ ◌||◌ s.deny_pending t.deny_pending;
  rewrite_unidentified = ap₂ ◌||◌ s.rewrite_unidentified t.rewrite_unidentified;
  executed = ap₂ ◌||◌ s.executed t.executed;
  crossed = SameSet-append s.crossed t.crossed;
  stopped = SameSet-append s.stopped t.stopped;
  removed = SameSet-append s.removed t.removed;
  boundary_stopped = ap₂ ◌||◌ s.boundary_stopped t.boundary_stopped;
  zero_receipt = ap₂ ◌||◌ s.zero_receipt t.zero_receipt;
}

pub SameFacts-trans : {f g h : Facts} → SameFacts f g → SameFacts g h → SameFacts f h
SameFacts-trans s t = record {
  crossing = record { at = λ q. s.crossing.at q ∙ t.crossing.at q };
  rewrites = record { at = λ q. s.rewrites.at q ∙ t.rewrites.at q };
  denied_pairs = record { at = λ q. s.denied_pairs.at q ∙ t.denied_pairs.at q };
  executed_pairs = record { at = λ q. s.executed_pairs.at q ∙ t.executed_pairs.at q };
  crossing_facts = record { at = λ q. s.crossing_facts.at q ∙ t.crossing_facts.at q };
  stop_facts = record { at = λ q. s.stop_facts.at q ∙ t.stop_facts.at q };
  removal_facts = record { at = λ q. s.removal_facts.at q ∙ t.removal_facts.at q };
  deny_unidentified = s.deny_unidentified ∙ t.deny_unidentified;
  unmatchable = s.unmatchable ∙ t.unmatchable;
  deny_pending = s.deny_pending ∙ t.deny_pending;
  rewrite_unidentified = s.rewrite_unidentified ∙ t.rewrite_unidentified;
  executed = s.executed ∙ t.executed;
  crossed = record { at = λ q. s.crossed.at q ∙ t.crossed.at q };
  stopped = record { at = λ q. s.stopped.at q ∙ t.stopped.at q };
  removed = record { at = λ q. s.removed.at q ∙ t.removed.at q };
  boundary_stopped = s.boundary_stopped ∙ t.boundary_stopped;
  zero_receipt = s.zero_receipt ∙ t.zero_receipt;
}

pub SameFacts-refl : (f : Facts) → SameFacts f f
SameFacts-refl f = record {
  crossing = record { at = λ q. refl };
  rewrites = record { at = λ q. refl };
  denied_pairs = record { at = λ q. refl };
  executed_pairs = record { at = λ q. refl };
  crossing_facts = record { at = λ q. refl };
  stop_facts = record { at = λ q. refl };
  removal_facts = record { at = λ q. refl };
  deny_unidentified = refl;
  unmatchable = refl;
  deny_pending = refl;
  rewrite_unidentified = refl;
  executed = refl;
  crossed = record { at = λ q. refl };
  stopped = record { at = λ q. refl };
  removed = record { at = λ q. refl };
  boundary_stopped = refl;
  zero_receipt = refl;
}

any-SameSet {ℓ} :
    {A : Type ℓ} {p q : A → Bool} {s t : List A}
    → SameSet s t
    → ((a : A) → p a ≡ q a)
    → any p s ≡ any q t
any-SameSet {p} {t} h e = h.at p ∙ ap (λ r. any r t) (fun_ext e)

module _ {f g : Facts} (s : SameFacts f g) where
  conflicts-SameFacts : conflicts f ≡ conflicts g
  unfolding conflicts
  conflicts-SameFacts =
      ap₂ ◌||◌ (overlaps-SameSet s.executed_pairs s.stop_facts)
        (overlaps-SameSet s.crossing_facts s.removal_facts)

  crossing_open-SameFacts : (p : Pair) → crossing_open f p ≡ crossing_open g p
  unfolding crossing_open
  crossing_open-SameFacts p = cc (
    s.boundary_stopped,
    s.zero_receipt,
    member-SameSet p (SameSet-append s.crossed (SameSet-append s.stopped s.removed)),
  )

  removal_open-SameFacts : (p : Pair) → removal_open f p ≡ removal_open g p
  unfolding removal_open
  removal_open-SameFacts p = cc (s.boundary_stopped, member-SameSet p s.removed)

  SameSet-denial_pairs : SameSet (denial_pairs f) (denial_pairs g)
  unfolding denial_pairs
  SameSet-denial_pairs = SameSet-without zero_finding (SameSet-append s.crossing s.denied_pairs)

  pair_stopped-SameFacts : pair_stopped f ≡ pair_stopped g
  unfolding pair_stopped
  pair_stopped-SameFacts = cc (
    s.deny_unidentified,
    is_empty-SameSet SameSet-denial_pairs,
    member-SameSet zero_finding s.crossing,
    subset-SameSet SameSet-denial_pairs s.stopped,
  )

  pub verdict-SameFacts : verdict f ≡ verdict g
  unfolding verdict
  verdict-SameFacts = cc (
    conflicts-SameFacts,
    s.boundary_stopped,
    s.executed,
    s.unmatchable,
    s.deny_pending,
    s.rewrite_unidentified,
    pair_stopped-SameFacts,
    any-SameSet s.crossing crossing_open-SameFacts,
    any-SameSet s.rewrites removal_open-SameFacts,
  )
