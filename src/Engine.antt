-- ===== src/Engine.antt =====
-- The ruling of src/privacy_hud/engine.py: `Engine.observe` up to the action, with
-- `_remember_origins`, `_blocked_origin` and the read guard of src/privacy_hud/detect/paths.py.
-- Parameters: `value_hash` and `args_hash` (HMAC and SHA-256 over canonical JSON), the search of a
-- path for one of `PATTERNS` (regular expressions) and the test of a path's suffix. A tool input that
-- is a dict is its canonical JSON text. The engine's identity has not been cleared: `observe` of a
-- cleared engine raises RuntimeError, which is left out.
pub mod Ruling
mod Tests
use mathlib.Core.List.{foldl}
use mathlib.Core.Option.{map as option_map}
use codex_privacy_hud.Prelude.{
  ℕ, String, Bool, true, false, not, ◌&&◌, ◌||◌, Option, none, some, List, [], ◌∷◌, map, any,
  if◌then◌else◌, ◌==◌, string_key, Dict, or_else, lookup, upsert, member, overlaps, is_empty,
  is_some,
}
use codex_privacy_hud.Accounting.Records.{Digest}
use codex_privacy_hud.Policy.{PolicyRow, policy_selectors, hard_blocked_data_types}
use codex_privacy_hud.Consent.{TokenRow, consume_token}

pub data ToolInput : Type 0 where
  fields text : String → ToolInput

pub data OriginKind : Type 0 where
  path command : OriginKind

pub record Origin : Type 0 where
  pub value : String
  pub kind : OriginKind

pub record Finding : Type 0 where
  pub data_type : String
  pub value : String
  pub start : ℕ
  pub end : ℕ

pub record Observation : Type 0 where
  pub session_id : String
  pub hook_event : String
  pub direction : String
  pub text : String
  pub tool_name : Option String
  pub tool_input : Option ToolInput
  pub origin : Option Origin

-- `ScanResult`
pub record ScanResult : Type 0 where
  pub findings : List Finding
  pub dest_kind : String
  pub network_file_rules : Option (List ℕ)

-- What the engine is wired with. `policy_defaults` is the table of the matrix.
pub record Wiring : Type 0 where
  pub salt : String
  pub value_hash : String → String → Digest
  pub args_hash : ToolInput → Digest
  pub matches_pattern : String → Bool
  pub endswith : String → String → Bool
  pub policy_defaults : Dict String String
  pub deny_read : Bool

-- What `observe` reads and writes of the engine and of the ledger.
pub record Engine : Type 0 where
  pub origins : Dict Digest Origin
  pub read_notice_shown : Bool
  pub policy : List PolicyRow
  pub tokens : List TokenRow

pub data Action : Type 0 where
  allow rewrite deny : Action

-- `TEMPLATE_SUFFIXES`
abbrev pub template_suffixes : List String
template_suffixes = ".example" ∷ ".sample" ∷ ".template" ∷ ".dist" ∷ []

unfoldable pub is_sensitive_path : Wiring → String → Bool
unfolding any
is_sensitive_path w file =
    if file == ""
    then false
    else if any (w.endswith file) template_suffixes
    then false
    else w.matches_pattern file

-- `dict.setdefault`
abbrev pub set_default : Digest → Origin → Dict Digest Origin → Dict Digest Origin
set_default k o = upsert k (λ known. or_else known o)

remember_at : Option Origin → Wiring → List Finding → Dict Digest Origin → Dict Digest Origin
remember_at none w findings origins = origins
remember_at (some o) w findings origins =
    foldl (λ d f. set_default (w.value_hash w.salt f.value) o d) origins findings

-- `_remember_origins`
pub remember_origins : Wiring → Observation → List Finding → Dict Digest Origin → Dict Digest Origin
unfolding remember_at
remember_origins w obs findings origins =
    if obs.hook_event == "PreToolUse" then origins else remember_at obs.origin w findings origins

-- `_ORIGIN_RULE_TYPES`
abbrev pub origin_rule_type : OriginKind → String
origin_rule_type OriginKind.path = "block_path"
origin_rule_type OriginKind.command = "block_command"

pub is_blocked : String → List PolicyRow → Origin → Bool
is_blocked session_id policy o =
    member o.value (policy_selectors session_id (origin_rule_type o.kind) policy)

pub blocked_at : String → List PolicyRow → Option Origin → Option Origin → Option Origin
blocked_at session_id policy none rest = rest
blocked_at session_id policy (some o) rest = if is_blocked session_id policy o then some o else rest

-- `_blocked_origin`
pub blocked_origin :
    Wiring → String → Dict Digest Origin → List PolicyRow → List Finding → Option Origin
blocked_origin w session_id origins policy [] = none
blocked_origin w session_id origins policy (f ∷ fs) =
    blocked_at session_id policy (lookup (w.value_hash w.salt f.value) origins)
      (blocked_origin w session_id origins policy fs)

pub hard_blocked : List Finding → Bool
hard_blocked findings = any (λ f. member f.data_type hard_blocked_data_types) findings

-- The read guard: what it denies, and the path that the notice names.
pub record Guard : Type 0 where
  pub read_block : Option String
  pub notice : Option String
  pub notice_shown : Bool

abbrev origin_value : Option Origin → String
origin_value none = ""
origin_value (some o) = o.value

pub read_guard : Wiring → Observation → Bool → Guard
read_guard w obs shown =
    let file = origin_value obs.origin in
    if obs.hook_event == "PreToolUse" && obs.direction == "local" && is_sensitive_path w file
    then if w.deny_read
      then record { read_block = some file; notice = none; notice_shown = shown }
      else if not shown
      then record { read_block = none; notice = some file; notice_shown = true }
      else record { read_block = none; notice = none; notice_shown = shown }
    else record { read_block = none; notice = none; notice_shown = shown }

-- The action before any policy: the network block and the read guard.
pub base_action : ScanResult → Guard → Action
base_action scan g =
    if is_some scan.network_file_rules || is_some g.read_block then Action.deny else Action.allow

masks : String → List PolicyRow → List Finding → Bool
masks session_id policy findings =
    overlaps (policy_selectors session_id "mask" policy) (map (λ f. f.data_type) findings)

-- The policy on what leaves: a blocked origin, then the rules to mask.
pub egress_action : Observation → ScanResult → Option Origin → List PolicyRow → Action → Action
egress_action obs scan (some o) policy action = Action.deny
egress_action obs scan none policy action =
    if not (is_empty scan.findings)
      && not (hard_blocked scan.findings)
      && masks obs.session_id policy scan.findings
    then Action.rewrite
    else action

pub token_action : Option String → Action
token_action none = Action.deny
token_action (some mode) =
    if mode == "allow_once"
    then Action.allow
    else if mode == "minimize"
    then Action.rewrite
    else Action.deny

-- `ti`, the arguments that a token is bound to
abbrev call_input : Observation → ToolInput
call_input obs = or_else obs.tool_input (ToolInput.text obs.text)

-- `consume_token` for the call, where the default is to block
by_token : Wiring → Observation → ℕ → List TokenRow → List TokenRow × Action
by_token w obs now tokens =
    let (left, mode) =
      consume_token (obs.session_id, (or_else obs.tool_name "", w.args_hash (call_input obs))) now
        tokens in
    (left, token_action mode)

-- The matrix's default for a hard-blocked finding. `none` is `UnknownKey`.
default_ruling :
    Wiring → Observation → ℕ → List TokenRow → Option String → Option (List TokenRow × Action)
default_ruling w obs now tokens none = none
default_ruling w obs now tokens (some policy_action) =
    if policy_action == "block"
    then some (by_token w obs now tokens)
    else if policy_action == "mask"
    then some (tokens, Action.rewrite)
    else some (tokens, Action.allow)

pub hard_block :
    Wiring → Observation → ScanResult → ℕ → List TokenRow → Action → Option (List TokenRow × Action)
hard_block w obs scan now tokens Action.allow =
    if obs.direction == "egress" && hard_blocked scan.findings
    then default_ruling w obs now tokens (lookup scan.dest_kind w.policy_defaults)
    else some (tokens, Action.allow)
hard_block w obs scan now tokens Action.rewrite = some (tokens, Action.rewrite)
hard_block w obs scan now tokens Action.deny = some (tokens, Action.deny)

pub record Ruled : Type 0 where
  pub action : Action
  pub blocked : Option Origin
  pub read_block : Option String
  pub notice : Option String
  pub engine : Engine

ruled : Engine → Guard → Dict Digest Origin → Option Origin → List TokenRow × Action → Ruled
ruled e g origins blocked (tokens, action) = record {
  action = action;
  blocked = blocked;
  read_block = g.read_block;
  notice = g.notice;
  engine = record {
    origins = origins;
    read_notice_shown = g.notice_shown;
    policy = e.policy;
    tokens = tokens;
  };
}

pub rule_with :
    Wiring
    → Observation
    → ScanResult
    → ℕ
    → Engine
    → Guard
    → Dict Digest Origin
    → Option Origin
    → Action
    → Option Ruled
unfolding ruled
rule_with w obs scan now e g origins blocked action =
    option_map (ruled e g origins blocked) (hard_block w obs scan now e.tokens action)

pub is_open_egress : Observation → ScanResult → Bool
is_open_egress obs scan = obs.direction == "egress" && not (is_some scan.network_file_rules)

rule_egress :
    Wiring
    → Observation
    → ScanResult
    → ℕ
    → Engine
    → Guard
    → Dict Digest Origin
    → Option Origin
    → Option Ruled
rule_egress w obs scan now e g origins blocked =
    rule_with w obs scan now e g origins blocked
      (egress_action obs scan blocked e.policy (base_action scan g))

-- `observe`, to where the action is known. `none` is `UnknownKey`.
pub observe : Wiring → Observation → ScanResult → ℕ → Engine → Option Ruled
observe w obs scan now e =
    let g = read_guard w obs e.read_notice_shown in
    let origins = remember_origins w obs scan.findings e.origins in
    if is_open_egress obs scan
    then rule_egress w obs scan now e g origins
        (blocked_origin w obs.session_id origins e.policy scan.findings)
    else rule_with w obs scan now e g origins none (base_action scan g)
