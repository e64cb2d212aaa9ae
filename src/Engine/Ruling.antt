-- ===== src/Engine/Ruling.antt =====
-- How the policy rules move the ruling of `Engine.observe`.
pub mod Causes
pub mod Reads
use mathlib.Core.Option.{map as option_map}
use codex_privacy_hud.Prelude.{
  ℕ, ◌≤◌, String, Bool, true, false, not, ◌&&◌, ◌||◌, Option, none, some, List, [], ◌∷◌, map, any,
  if◌then◌else◌, ◌==◌, ==_refl, ==→eq, string_key, Dict, or_else, lookup, member, overlaps,
  is_empty, is_some, ◌≡◌, refl, sym, ap, ◌∙◌, arith, Bool-cases, Option-cases, inl, inr, ◌⊎◌,
  some_inj, false_at, ||_true, member_self, &&-true,
}
use codex_privacy_hud.Accounting.Records.{Digest}
use codex_privacy_hud.Policy.{PolicyRow, policy_selectors, add_policy, session_scope}
use codex_privacy_hud.Policy.Scoped.{policy_selectors-add_policy}
use codex_privacy_hud.Consent.{TokenRow, consume_token}
use codex_privacy_hud.Engine.{
  Wiring, Observation, ScanResult, Finding, Engine, Origin, Action, Guard, Ruled, ruled, read_guard,
  remember_origins, base_action, is_blocked, origin_rule_type, blocked_at, blocked_origin, masks,
  hard_blocked, egress_action, token_action, call_input, by_token, default_ruling, hard_block,
  rule_with, rule_egress, is_open_egress, observe, is_sensitive_path, origin_value,
}

abbrev pub rank : Action → ℕ
rank Action.allow = 0
rank Action.rewrite = 1
rank Action.deny = 2

-- The action that `observe` has when it comes to the hard block.
pub policy_action : Wiring → Observation → ScanResult → Engine → Action
policy_action w obs scan e =
    let base = base_action scan (read_guard w obs e.read_notice_shown) in
    if is_open_egress obs scan
    then egress_action obs scan
        (blocked_origin w obs.session_id (remember_origins w obs scan.findings e.origins) e.policy
          scan.findings)
        e.policy base
    else base

abbrev pub action_of : Option Ruled → Option Action
action_of = option_map (λ r. r.action)

abbrev pub second : Option (List TokenRow × Action) → Option Action
second = option_map (λ r. r.1)

ruled-action :
    (e : Engine) (g : Guard) (origins : Dict Digest Origin) (blocked : Option Origin)
    (o : Option (List TokenRow × Action))
    → action_of (option_map (ruled e g origins blocked) o) ≡ second o
unfolding ruled
ruled-action e g origins blocked none = refl
ruled-action e g origins blocked (some r) = refl

rule_with-action :
    (w : Wiring) (obs : Observation) (scan : ScanResult) (now : ℕ) (e : Engine) (g : Guard)
    (origins : Dict Digest Origin) (blocked : Option Origin) (action : Action)
    → action_of (rule_with w obs scan now e g origins blocked action)
      ≡ second (hard_block w obs scan now e.tokens action)
unfolding rule_with
rule_with-action w obs scan now e g origins blocked action = ruled-action e g origins blocked _

pub observe-action :
    (w : Wiring) (obs : Observation) (scan : ScanResult) (now : ℕ) (e : Engine)
    → action_of (observe w obs scan now e)
      ≡ second (hard_block w obs scan now e.tokens (policy_action w obs scan e))
unfolding observe policy_action rule_egress
observe-action w obs scan now e = elim (Bool-cases (is_open_egress obs scan)) [
  | inl going ↦ rw going (rule_with-action w obs scan now e _ _ _ _)
  | inr staying ↦ rw staying (rule_with-action w obs scan now e _ _ _ _)
]

-- Every selector that the one table has in force, the other has too.
record Grows (p q : List PolicyRow) : Type 0 where
  selects :
      (session_id rule_type x : String)
      → member x (policy_selectors session_id rule_type p) ≡ true
      → member x (policy_selectors session_id rule_type q) ≡ true

any_at :
    (q : String → Bool) (s : List String)
    → any q s ≡ true
    → (a : String) × (member a s ≡ true) × (q a ≡ true)
unfolding any member
any_at q [] h = cc
any_at q (x ∷ s) h = elim (Bool-cases (q x)) [
  | inl here ↦ (x, member_self x s, here)
  | inr later ↦
      let (a, m, holds) = any_at q s (rw later at h) in
      (a, ap (λ b. a == x || b) m ∙ ||_true (a == x), holds)
]

module _ (p q : List PolicyRow) (grows : Grows p q) where
  masks_mono :
      (session_id : String) (fs : List Finding)
      → masks session_id p fs ≡ true
      → masks session_id q fs ≡ true
  unfolding masks overlaps
  masks_mono session_id fs h =
      let types = map (λ f. f.data_type) fs in
      let (a, m, holds) = any_at (λ a. member a types) (policy_selectors session_id "mask" p) h in
      elim (Bool-cases (any (λ a. member a types) (policy_selectors session_id "mask" q))) [
        | inl found ↦ found
        | inr nowhere ↦ cc (
            sym holds
            ∙ false_at (λ a. member a types) a (policy_selectors session_id "mask" q) nowhere
                (grows.selects session_id "mask" a m))
      ]

  blocked_at_mono :
      (session_id : String) (o : Option Origin) (rest rest' : Option Origin)
      → (is_some rest ≡ true → is_some rest' ≡ true)
      → is_some (blocked_at session_id p o rest) ≡ true
      → is_some (blocked_at session_id q o rest') ≡ true
  unfolding blocked_at is_blocked
  blocked_at_mono session_id none rest rest' k h = k h
  blocked_at_mono session_id (some o) rest rest' k h =
      elim (Bool-cases (is_blocked session_id p o)) [
        | inl blocked ↦ rw (grows.selects session_id (origin_rule_type o.kind) o.value blocked) refl
        | inr free ↦ elim (Bool-cases (is_blocked session_id q o)) [
          | inl blocked ↦ rw blocked refl
          | inr also_free ↦ rw also_free (k (rw free at h))
        ]
      ]

  blocked_origin_mono :
      (w : Wiring) (session_id : String) (origins : Dict Digest Origin) (fs : List Finding)
      → is_some (blocked_origin w session_id origins p fs) ≡ true
      → is_some (blocked_origin w session_id origins q fs) ≡ true
  unfolding blocked_origin
  blocked_origin_mono w session_id origins [] h = h
  blocked_origin_mono w session_id origins (f ∷ fs) h =
      blocked_at_mono session_id (lookup (w.value_hash w.salt f.value) origins) _ _
        (blocked_origin_mono w session_id origins fs) h

pub open_egress_base :
    (w : Wiring) (obs : Observation) (scan : ScanResult) (shown : Bool)
    → is_open_egress obs scan ≡ true
    → base_action scan (read_guard w obs shown) ≡ Action.allow
unfolding is_open_egress base_action read_guard
open_egress_base w obs scan shown h =
    let (going, open_net) =
      &&-true (obs.direction == "egress") (not (is_some scan.network_file_rules)) h in
    let plain : is_some scan.network_file_rules ≡ false = ground arith in
    let local : (obs.direction == "local") ≡ false =
      ap (λ d. d == "local") (==→eq obs.direction "egress" going) in
    rw (plain, local) (ground arith)

most : (x : Action) → rank x ≤ 2
most Action.allow = omega arith
most Action.rewrite = omega arith
most Action.deny = omega arith

-- With no hard-blocked finding, the hard block leaves an allowed call allowed.
pub hard_block_calm :
    (w : Wiring) (obs : Observation) (scan : ScanResult) (now : ℕ) (tokens : List TokenRow)
    → hard_blocked scan.findings ≡ false
    → hard_block w obs scan now tokens Action.allow ≡ some (tokens, Action.allow)
unfolding hard_block
hard_block_calm w obs scan now tokens calm = rw calm (ground arith)

-- Each case of the hard block with an action that the policy made no looser.
hard_block_mono :
    (w : Wiring) (obs : Observation) (scan : ScanResult) (now : ℕ) (tokens : List TokenRow)
    (a b x : Action)
    → rank a ≤ rank b
    → (b ≡ Action.rewrite → a ≡ Action.allow → hard_blocked scan.findings ≡ false)
    → second (hard_block w obs scan now tokens a) ≡ some x
    → (y : Action) × (second (hard_block w obs scan now tokens b) ≡ some y) × (rank x ≤ rank y)
unfolding hard_block
hard_block_mono w obs scan now tokens Action.allow Action.allow x le calm h = (x, h, omega arith)
hard_block_mono w obs scan now tokens Action.allow Action.rewrite x le calm h =
    let same : Action.allow ≡ x =
      some_inj (sym (ap second (hard_block_calm w obs scan now tokens (calm refl refl))) ∙ h) in
    (Action.rewrite, refl, rw (← same) (omega arith))
hard_block_mono w obs scan now tokens Action.allow Action.deny x le calm h =
    (Action.deny, refl, most x)
hard_block_mono w obs scan now tokens Action.rewrite Action.allow x le calm h = ground arith
hard_block_mono w obs scan now tokens Action.rewrite Action.rewrite x le calm h =
    (x, h, omega arith)
hard_block_mono w obs scan now tokens Action.rewrite Action.deny x le calm h =
    (Action.deny, refl, most x)
hard_block_mono w obs scan now tokens Action.deny Action.allow x le calm h = ground arith
hard_block_mono w obs scan now tokens Action.deny Action.rewrite x le calm h = ground arith
hard_block_mono w obs scan now tokens Action.deny Action.deny x le calm h = (x, h, omega arith)

abbrev is_maskable : Observation → ScanResult → List PolicyRow → Bool
is_maskable obs scan p =
    not (is_empty scan.findings)
    && not (hard_blocked scan.findings)
    && masks obs.session_id p scan.findings

-- The policy on an allowed call, in two cases.
egress_mono :
    (obs : Observation) (scan : ScanResult) (b b' : Option Origin) (p q : List PolicyRow)
    → (is_some b ≡ true → is_some b' ≡ true)
    → (masks obs.session_id p scan.findings ≡ true → masks obs.session_id q scan.findings ≡ true)
    → (rank (egress_action obs scan b p Action.allow)
        ≤ rank (egress_action obs scan b' q Action.allow))
      × (egress_action obs scan b' q Action.allow ≡ Action.rewrite
          → egress_action obs scan b p Action.allow ≡ Action.allow
          → hard_blocked scan.findings ≡ false)
unfolding egress_action
egress_mono obs scan (some o) (some o') p q k m = (omega arith, λ h. cc)
egress_mono obs scan (some o) none p q k m = cc (k refl)
egress_mono obs scan none (some o') p q k m = (most _, λ h. cc)
egress_mono obs scan none none p q k m = elim (Bool-cases (hard_blocked scan.findings)) [
  | inl hard ↦ rw hard (ground arith)
  | inr calm ↦ (
    elim (Bool-cases (masks obs.session_id p scan.findings)) [
      | inl old ↦ rw (calm, old, m old) (omega arith)
      | inr new ↦ rw (calm, new) (ground arith)
    ],
    λ _ _. calm,
  )
]

policy_action_mono :
    (w : Wiring) (obs : Observation) (scan : ScanResult) (e : Engine) (q : List PolicyRow)
    → Grows e.policy q
    → (rank (policy_action w obs scan e)
        ≤ rank (policy_action w obs scan (record e { policy = q })))
      × (policy_action w obs scan (record e { policy = q }) ≡ Action.rewrite
          → policy_action w obs scan e ≡ Action.allow
          → hard_blocked scan.findings ≡ false)
unfolding policy_action
policy_action_mono w obs scan e q grows =
    let origins = remember_origins w obs scan.findings e.origins in
    let sid = obs.session_id in
    elim (Bool-cases (is_open_egress obs scan)) [
      | inl going ↦
          rw (going, open_egress_base w obs scan e.read_notice_shown going)
            (egress_mono obs scan (blocked_origin w sid origins e.policy scan.findings)
              (blocked_origin w sid origins q scan.findings) e.policy q
              (blocked_origin_mono e.policy q grows w sid origins scan.findings)
              (masks_mono e.policy q grows sid scan.findings))
      | inr staying ↦ rw staying (omega arith, λ h k. cc (sym k ∙ h))
    ]

pub ruled_of :
    (o : Option Ruled) (a : Action)
    → action_of o ≡ some a
    → (r : Ruled) × (o ≡ some r) × (r.action ≡ a)
ruled_of none a h = cc
ruled_of (some r) a h = (r, refl, some_inj h)

Grows-add_policy :
    (session_id rule_type selector : String) (written : ℕ) (p : List PolicyRow)
    → Grows p (add_policy session_id rule_type selector written p)
Grows-add_policy session_id rule_type selector written p = record {
  selects = λ t type x h.
      policy_selectors-add_policy session_id t rule_type type selector x written p ∙ rw h refl;
}

-- A rule that is written, of whatever type and for whatever session, never loosens a ruling: where the engine ruled
-- without it, it rules with it, and the action is the same or a stricter one in the order
-- allow, rewrite, deny.
pub add_policy_tightens :
    (w : Wiring) (obs : Observation) (scan : ScanResult) (now : ℕ) (e : Engine) (r : Ruled)
    (session_id rule_type selector : String) (written : ℕ)
    → observe w obs scan now e ≡ some r
    → (r' : Ruled) × (observe w obs scan now
          (record e { policy = add_policy session_id rule_type selector written e.policy })
        ≡ some r')
      × (rank r.action ≤ rank r'.action)
add_policy_tightens w obs scan now e r session_id rule_type selector written h =
    let q = add_policy session_id rule_type selector written e.policy in
    let e' : Engine = record e { policy = q } in
    let (le, calm) =
      policy_action_mono w obs scan e q
        (Grows-add_policy session_id rule_type selector written e.policy) in
    let (y, ruled', rank_le) =
      hard_block_mono w obs scan now e.tokens (policy_action w obs scan e)
        (policy_action w obs scan e') r.action le calm
        (sym (observe-action w obs scan now e) ∙ ap action_of h) in
    let (r', found, same) =
      ruled_of (observe w obs scan now e') y (observe-action w obs scan now e' ∙ ruled') in
    (r', found, rw same rank_le)
