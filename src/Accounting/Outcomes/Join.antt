-- ===== src/Accounting/Outcomes/Join.antt =====
-- Facts put together, and facts that the tests of `verdict` cannot tell apart.

use codex_privacy_hud.Prelude.{Bool, ◌≡◌, ◌||◌, List, ◌++◌, any}
use codex_privacy_hud.Accounting.Outcomes.{Facts}

abbrev pub join : Facts → Facts → Facts
join f g = record {
  crossing = f.crossing ++ g.crossing;
  rewrites = f.rewrites ++ g.rewrites;
  denied_pairs = f.denied_pairs ++ g.denied_pairs;
  executed_pairs = f.executed_pairs ++ g.executed_pairs;
  crossing_facts = f.crossing_facts ++ g.crossing_facts;
  stop_facts = f.stop_facts ++ g.stop_facts;
  removal_facts = f.removal_facts ++ g.removal_facts;
  deny_unidentified = f.deny_unidentified || g.deny_unidentified;
  unmatchable = f.unmatchable || g.unmatchable;
  deny_pending = f.deny_pending || g.deny_pending;
  rewrite_unidentified = f.rewrite_unidentified || g.rewrite_unidentified;
  executed = f.executed || g.executed;
  crossed = f.crossed ++ g.crossed;
  stopped = f.stopped ++ g.stopped;
  removed = f.removed ++ g.removed;
  boundary_stopped = f.boundary_stopped || g.boundary_stopped;
  zero_receipt = f.zero_receipt || g.zero_receipt;
}

-- The same elements, whatever the order and the number of times.
abbrev pub SameSet {ℓ} : {A : Type ℓ} → List A → List A → Type ℓ
SameSet {A} s t = (q : A → Bool) → any q s ≡ any q t
