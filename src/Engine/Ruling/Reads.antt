-- ===== src/Engine/Ruling/Reads.antt =====
-- The origins that rulings remember.
use mathlib.Core.List.{foldl}
use mathlib.Core.Option.{map as option_map}
use codex_privacy_hud.Prelude.{
  ℕ, Option, none, some, List, [], ◌∷◌, ◌==◌, string_key, Dict, or_else, lookup, lookup-upsert, ◌≡◌,
  ap, ◌∙◌, Bool-cases, inl, inr, some_inj, ==→eq,
}
use codex_privacy_hud.Accounting.Records.{Digest}
use codex_privacy_hud.Consent.{TokenRow}
use codex_privacy_hud.Engine.{
  Wiring, Observation, ScanResult, Finding, Engine, Origin, Action, Guard, Ruled, ruled,
  remember_at, remember_origins, set_default, rule_with, rule_egress, is_open_egress, observe,
}

set_default-kept :
    (k j : Digest) (o new : Origin) (d : Dict Digest Origin)
    → lookup k d ≡ some o
    → lookup k (set_default j new d) ≡ some o
set_default-kept k j o new d h = elim (Bool-cases (j == k)) [
  | inl same ↦
      lookup-upsert j k (λ known. or_else known new) d
      ∙ rw same (ap (λ x. some (or_else x new)) (ap (λ x. lookup x d) (==→eq j k same) ∙ h))
  | inr other ↦ lookup-upsert j k (λ known. or_else known new) d ∙ rw other h
]

foldl-kept :
    (w : Wiring) (k : Digest) (o new : Origin) (fs : List Finding) (d : Dict Digest Origin)
    → lookup k d ≡ some o
    → lookup k (foldl (λ d f. set_default (w.value_hash w.salt f.value) new d) d fs) ≡ some o
foldl-kept w k o new [] d h = h
foldl-kept w k o new (f ∷ fs) d h =
    foldl-kept w k o new fs (set_default (w.value_hash w.salt f.value) new d)
      (set_default-kept k (w.value_hash w.salt f.value) o new d h)

at-kept :
    (w : Wiring) (from : Option Origin) (fs : List Finding) (k : Digest) (o : Origin)
    (d : Dict Digest Origin)
    → lookup k d ≡ some o
    → lookup k (remember_at from w fs d) ≡ some o
unfolding remember_at
at-kept w none fs k o d h = h
at-kept w (some new) fs k o d h = foldl-kept w k o new fs d h

remember-kept :
    (w : Wiring) (obs : Observation) (fs : List Finding) (k : Digest) (o : Origin)
    (d : Dict Digest Origin)
    → lookup k d ≡ some o
    → lookup k (remember_origins w obs fs d) ≡ some o
unfolding remember_origins
remember-kept w obs fs k o d h = elim (Bool-cases (obs.hook_event == "PreToolUse")) [
  | inl pre ↦ rw pre h
  | inr ran ↦ rw ran (at-kept w obs.origin fs k o d h)
]

ruled-origins :
    (e : Engine) (g : Guard) (origins : Dict Digest Origin) (blocked : Option Origin)
    (x : Option (List TokenRow × Action)) (r : Ruled)
    → option_map (ruled e g origins blocked) x ≡ some r
    → origins ≡ r.engine.origins
unfolding ruled
ruled-origins e g origins blocked none r h = cc
ruled-origins e g origins blocked (some x) r h = ap (λ y. y.engine.origins) (some_inj h)

observe-origins :
    (w : Wiring) (obs : Observation) (scan : ScanResult) (now : ℕ) (e : Engine) (r : Ruled)
    → observe w obs scan now e ≡ some r
    → remember_origins w obs scan.findings e.origins ≡ r.engine.origins
unfolding observe rule_egress rule_with
observe-origins w obs scan now e r h = elim (Bool-cases (is_open_egress obs scan)) [
  | inl going ↦
      ruled-origins e _ (remember_origins w obs scan.findings e.origins) _ _ r (rw going at h)
  | inr staying ↦
      ruled-origins e _ (remember_origins w obs scan.findings e.origins) _ _ r (rw staying at h)
]

-- The origin that is remembered of a value stays the one under which the value first entered the session: no
-- ruling changes it.
pub origins_kept :
    (w : Wiring) (obs : Observation) (scan : ScanResult) (now : ℕ) (e : Engine) (r : Ruled)
    (k : Digest) (o : Origin)
    → observe w obs scan now e ≡ some r
    → lookup k e.origins ≡ some o
    → lookup k r.engine.origins ≡ some o
origins_kept w obs scan now e r k o h known =
    rw (← observe-origins w obs scan now e r h)
      (remember-kept w obs scan.findings k o e.origins known)
