-- ===== src/Engine/Ruling/Causes.antt =====
-- Why a call is allowed, rewritten or denied, and what becomes of the origins.

use codex_privacy_hud.Prelude.{
  ℕ, String, true, false, Option, none, some, List, [], ◌∷◌, any, ◌==◌, ==→eq, string_key, or_else,
  lookup, is_empty, ◌≡◌, ◌≢◌, refl, sym, ap, ◌∙◌, arith, Bool-cases, inl, inr, ◌⊎◌, some_inj,
}
use codex_privacy_hud.Policy.{PolicyRow}
use codex_privacy_hud.Consent.{TokenRow, consume_token}
use codex_privacy_hud.Engine.{
  Wiring, Observation, ScanResult, Finding, Engine, Origin, Action, Guard, Ruled, base_action,
  hard_blocked, egress_action, token_action, call_input, by_token, default_ruling, hard_block,
  is_open_egress, observe,
}
use codex_privacy_hud.Engine.Ruling.{
  policy_action, action_of, second, observe-action, hard_block_calm, open_egress_base, ruled_of,
}

-- The outcome of `consume_token` for the call that is observed.
abbrev pub consent : Wiring → Observation → ℕ → Engine → Option String
consent w obs now e =
    (consume_token (obs.session_id, (or_else obs.tool_name "", w.args_hash (call_input obs))) now
      e.tokens).1

allow_of_token : (o : Option String) → token_action o ≡ Action.allow → o ≡ some "allow_once"
unfolding token_action
allow_of_token none h = cc
allow_of_token (some mode) h = elim (Bool-cases (mode == "allow_once")) [
  | inl once ↦ ap some (==→eq mode "allow_once" once)
  | inr other ↦ elim (Bool-cases (mode == "minimize")) [
    | inl rewrites ↦ cc (rw (other, rewrites) at h)
    | inr neither ↦ cc (rw (other, neither) at h)
  ]
]

default_allow :
    (w : Wiring) (obs : Observation) (now : ℕ) (e : Engine) (d : String)
    → (d ≡ "block") ⊎ (d ≡ "mask")
    → second (default_ruling w obs now e.tokens (some d)) ≡ some Action.allow
    → consent w obs now e ≡ some "allow_once"
unfolding default_ruling by_token
default_allow w obs now e d (inl block) h =
    allow_of_token (consent w obs now e) (some_inj (rw block at h))
default_allow w obs now e d (inr mask) h = cc (rw mask at h)

hard_allow :
    (w : Wiring) (obs : Observation) (scan : ScanResult) (now : ℕ) (e : Engine) (a : Action)
    (d : String)
    → obs.direction ≡ "egress"
    → hard_blocked scan.findings ≡ true
    → lookup scan.dest_kind w.policy_defaults ≡ some d
    → (d ≡ "block") ⊎ (d ≡ "mask")
    → second (hard_block w obs scan now e.tokens a) ≡ some Action.allow
    → consent w obs now e ≡ some "allow_once"
unfolding hard_block default_ruling by_token
hard_allow w obs scan now e Action.allow d going hard found kinds h =
    default_allow w obs now e d kinds (rw (going, hard, found) at h)
hard_allow w obs scan now e Action.rewrite d going hard found kinds h = cc
hard_allow w obs scan now e Action.deny d going hard found kinds h = cc

-- A credential leaves unchanged only with consent: an outbound call with a hard-blocked finding,
-- to a destination whose default is to block or to mask, is allowed only if `consume_token` finds a
-- live token of mode "allow_once" for this session, tool and arguments; whatever rules the user
-- wrote.
pub allowed_was_consented :
    (w : Wiring) (obs : Observation) (scan : ScanResult) (now : ℕ) (e : Engine) (r : Ruled)
    (d : String)
    → obs.direction ≡ "egress"
    → hard_blocked scan.findings ≡ true
    → lookup scan.dest_kind w.policy_defaults ≡ some d
    → (d ≡ "block") ⊎ (d ≡ "mask")
    → observe w obs scan now e ≡ some r
    → r.action ≡ Action.allow
    → consent w obs now e ≡ some "allow_once"
allowed_was_consented w obs scan now e r d going hard found kinds h allowed =
    hard_allow w obs scan now e (policy_action w obs scan e) d going hard found kinds
      (sym (observe-action w obs scan now e) ∙ ap action_of h ∙ ap some allowed)

egress_hard :
    (obs : Observation) (scan : ScanResult) (b : Option Origin) (p : List PolicyRow)
    → hard_blocked scan.findings ≡ true
    → egress_action obs scan b p Action.allow ≢ Action.rewrite
unfolding egress_action
egress_hard obs scan (some o) p hard h = cc
egress_hard obs scan none p hard h = ground arith

base_not_rewrite : (scan : ScanResult) (g : Guard) → base_action scan g ≢ Action.rewrite
unfolding base_action
base_not_rewrite scan g h = ground arith

policy_hard :
    (w : Wiring) (obs : Observation) (scan : ScanResult) (e : Engine)
    → hard_blocked scan.findings ≡ true
    → policy_action w obs scan e ≢ Action.rewrite
unfolding policy_action
policy_hard w obs scan e hard h = elim (Bool-cases (is_open_egress obs scan)) [
  | inl going ↦
      egress_hard obs scan _ e.policy hard
        (rw (going, open_egress_base w obs scan e.read_notice_shown going) at h)
  | inr staying ↦ base_not_rewrite scan _ (rw staying at h)
]

hard_deny :
    (w : Wiring) (obs : Observation) (scan : ScanResult) (now : ℕ) (e : Engine) (a : Action)
    → a ≢ Action.rewrite
    → obs.direction ≡ "egress"
    → hard_blocked scan.findings ≡ true
    → lookup scan.dest_kind w.policy_defaults ≡ some "block"
    → consent w obs now e ≡ none
    → second (hard_block w obs scan now e.tokens a) ≡ some Action.deny
unfolding hard_block default_ruling by_token token_action
hard_deny w obs scan now e Action.allow ne going hard found spent =
    rw (going, hard, found, spent) refl
hard_deny w obs scan now e Action.rewrite ne going hard found spent = absurd (ne refl)
hard_deny w obs scan now e Action.deny ne going hard found spent = refl

-- An outbound call with a hard-blocked finding, to a destination whose default is to block, is ruled on
-- and denied when there is no token to spend on it, whatever rules the user wrote.
pub unconsented_is_denied :
    (w : Wiring) (obs : Observation) (scan : ScanResult) (now : ℕ) (e : Engine)
    → obs.direction ≡ "egress"
    → hard_blocked scan.findings ≡ true
    → lookup scan.dest_kind w.policy_defaults ≡ some "block"
    → consent w obs now e ≡ none
    → (r : Ruled) × (observe w obs scan now e ≡ some r) × (r.action ≡ Action.deny)
unconsented_is_denied w obs scan now e going hard found spent =
    ruled_of (observe w obs scan now e) Action.deny (
      observe-action w obs scan now e
      ∙ hard_deny w obs scan now e (policy_action w obs scan e) (policy_hard w obs scan e hard)
          going hard found spent)

-- A rewrite always has something to rewrite.
finding_of_hard : (fs : List Finding) → hard_blocked fs ≡ true → is_empty fs ≡ false
unfolding hard_blocked any
finding_of_hard [] h = cc
finding_of_hard (f ∷ fs) h = refl

allow_not_rewrite : some Action.allow ≢ some Action.rewrite
allow_not_rewrite h = cc

hard_rewrite :
    (w : Wiring) (obs : Observation) (scan : ScanResult) (now : ℕ) (tokens : List TokenRow)
    (a : Action)
    → (a ≡ Action.rewrite → is_empty scan.findings ≡ false)
    → second (hard_block w obs scan now tokens a) ≡ some Action.rewrite
    → is_empty scan.findings ≡ false
unfolding hard_block
hard_rewrite w obs scan now tokens Action.allow k h =
    elim (Bool-cases (hard_blocked scan.findings)) [
      | inl hard ↦ finding_of_hard scan.findings hard
      | inr calm ↦
          absurd
            (allow_not_rewrite (sym (ap second (hard_block_calm w obs scan now tokens calm)) ∙ h))
    ]
hard_rewrite w obs scan now tokens Action.rewrite k h = k refl
hard_rewrite w obs scan now tokens Action.deny k h = cc

egress_rewrite :
    (obs : Observation) (scan : ScanResult) (b : Option Origin) (p : List PolicyRow)
    → egress_action obs scan b p Action.allow ≡ Action.rewrite
    → is_empty scan.findings ≡ false
unfolding egress_action
egress_rewrite obs scan (some o) p h = cc
egress_rewrite obs scan none p h = elim (Bool-cases (is_empty scan.findings)) [
  | inl nothing ↦ cc (rw nothing at h)
  | inr some_found ↦ some_found
]

policy_rewrite :
    (w : Wiring) (obs : Observation) (scan : ScanResult) (e : Engine)
    → policy_action w obs scan e ≡ Action.rewrite
    → is_empty scan.findings ≡ false
unfolding policy_action
policy_rewrite w obs scan e h = elim (Bool-cases (is_open_egress obs scan)) [
  | inl going ↦
      egress_rewrite obs scan _ e.policy
        (rw (going, open_egress_base w obs scan e.read_notice_shown going) at h)
  | inr staying ↦ absurd (base_not_rewrite scan _ (rw staying at h))
]

-- A call that is ruled to be rewritten has at least one finding, whichever of the three rewriting
-- branches ruled.
pub rewrite_has_finding :
    (w : Wiring) (obs : Observation) (scan : ScanResult) (now : ℕ) (e : Engine) (r : Ruled)
    → observe w obs scan now e ≡ some r
    → r.action ≡ Action.rewrite
    → is_empty scan.findings ≡ false
rewrite_has_finding w obs scan now e r h rewrites =
    hard_rewrite w obs scan now e.tokens (policy_action w obs scan e) (policy_rewrite w obs scan e)
      (sym (observe-action w obs scan now e) ∙ ap action_of h ∙ ap some rewrites)
