-- ===== src/Accounting/Vocabulary/Hooks.antt =====
-- What hooks and the answers to them are called in src/privacy_hud/accounting.py.
use codex_privacy_hud.Prelude.{ℕ, ◌≡◌, refl, nat_eq, if◌then◌else◌, Comparable, key_by}

pub data HookEvent : Type 0 where
  session_start session_end user_prompt_submit pre_tool_use post_tool_use subagent_start : HookEvent
  subagent_stop pre_compact : HookEvent

abbrev pub hook_event_code : HookEvent → ℕ
hook_event_code HookEvent.session_start = 0
hook_event_code HookEvent.session_end = 1
hook_event_code HookEvent.user_prompt_submit = 2
hook_event_code HookEvent.pre_tool_use = 3
hook_event_code HookEvent.post_tool_use = 4
hook_event_code HookEvent.subagent_start = 5
hook_event_code HookEvent.subagent_stop = 6
hook_event_code HookEvent.pre_compact = 7

abbrev pub hook_event_decode : ℕ → HookEvent
hook_event_decode n =
    if nat_eq n 0
    then HookEvent.session_start
    else if nat_eq n 1
    then HookEvent.session_end
    else if nat_eq n 2
    then HookEvent.user_prompt_submit
    else if nat_eq n 3
    then HookEvent.pre_tool_use
    else if nat_eq n 4
    then HookEvent.post_tool_use
    else if nat_eq n 5
    then HookEvent.subagent_start
    else if nat_eq n 6
    then HookEvent.subagent_stop
    else HookEvent.pre_compact

pub hook_event_back : (a : HookEvent) → hook_event_decode (hook_event_code a) ≡ a
hook_event_back HookEvent.session_start = refl
hook_event_back HookEvent.session_end = refl
hook_event_back HookEvent.user_prompt_submit = refl
hook_event_back HookEvent.pre_tool_use = refl
hook_event_back HookEvent.post_tool_use = refl
hook_event_back HookEvent.subagent_start = refl
hook_event_back HookEvent.subagent_stop = refl
hook_event_back HookEvent.pre_compact = refl

instance abbrev pub hook_event_key : Comparable HookEvent
hook_event_key = key_by hook_event_code hook_event_decode hook_event_back

pub data Phase : Type 0 where
  pre post lifecycle : Phase

abbrev pub phase_code : Phase → ℕ
phase_code Phase.pre = 0
phase_code Phase.post = 1
phase_code Phase.lifecycle = 2

abbrev pub phase_decode : ℕ → Phase
phase_decode n =
    if nat_eq n 0 then Phase.pre else if nat_eq n 1 then Phase.post else Phase.lifecycle

pub phase_back : (a : Phase) → phase_decode (phase_code a) ≡ a
phase_back Phase.pre = refl
phase_back Phase.post = refl
phase_back Phase.lifecycle = refl

instance abbrev pub phase_key : Comparable Phase
phase_key = key_by phase_code phase_decode phase_back

pub data ActionKind : Type 0 where
  read tool prompt subagent lifecycle other : ActionKind

abbrev pub action_kind_code : ActionKind → ℕ
action_kind_code ActionKind.read = 0
action_kind_code ActionKind.tool = 1
action_kind_code ActionKind.prompt = 2
action_kind_code ActionKind.subagent = 3
action_kind_code ActionKind.lifecycle = 4
action_kind_code ActionKind.other = 5

abbrev pub action_kind_decode : ℕ → ActionKind
action_kind_decode n =
    if nat_eq n 0
    then ActionKind.read
    else if nat_eq n 1
    then ActionKind.tool
    else if nat_eq n 2
    then ActionKind.prompt
    else if nat_eq n 3
    then ActionKind.subagent
    else if nat_eq n 4
    then ActionKind.lifecycle
    else ActionKind.other

pub action_kind_back : (a : ActionKind) → action_kind_decode (action_kind_code a) ≡ a
action_kind_back ActionKind.read = refl
action_kind_back ActionKind.tool = refl
action_kind_back ActionKind.prompt = refl
action_kind_back ActionKind.subagent = refl
action_kind_back ActionKind.lifecycle = refl
action_kind_back ActionKind.other = refl

instance abbrev pub action_kind_key : Comparable ActionKind
action_kind_key = key_by action_kind_code action_kind_decode action_kind_back

pub data DecisionKind : Type 0 where
  none allow deny rewrite : DecisionKind

abbrev pub decision_kind_code : DecisionKind → ℕ
decision_kind_code DecisionKind.none = 0
decision_kind_code DecisionKind.allow = 1
decision_kind_code DecisionKind.deny = 2
decision_kind_code DecisionKind.rewrite = 3

abbrev pub decision_kind_decode : ℕ → DecisionKind
decision_kind_decode n =
    if nat_eq n 0
    then DecisionKind.none
    else if nat_eq n 1
    then DecisionKind.allow
    else if nat_eq n 2
    then DecisionKind.deny
    else DecisionKind.rewrite

pub decision_kind_back : (a : DecisionKind) → decision_kind_decode (decision_kind_code a) ≡ a
decision_kind_back DecisionKind.none = refl
decision_kind_back DecisionKind.allow = refl
decision_kind_back DecisionKind.deny = refl
decision_kind_back DecisionKind.rewrite = refl

instance abbrev pub decision_kind_key : Comparable DecisionKind
decision_kind_key = key_by decision_kind_code decision_kind_decode decision_kind_back

pub data ResolutionScope : Type 0 where
  none pairs boundary : ResolutionScope

abbrev pub resolution_scope_code : ResolutionScope → ℕ
resolution_scope_code ResolutionScope.none = 0
resolution_scope_code ResolutionScope.pairs = 1
resolution_scope_code ResolutionScope.boundary = 2

abbrev pub resolution_scope_decode : ℕ → ResolutionScope
resolution_scope_decode n =
    if nat_eq n 0
    then ResolutionScope.none
    else if nat_eq n 1
    then ResolutionScope.pairs
    else ResolutionScope.boundary

pub resolution_scope_back :
    (a : ResolutionScope) → resolution_scope_decode (resolution_scope_code a) ≡ a
resolution_scope_back ResolutionScope.none = refl
resolution_scope_back ResolutionScope.pairs = refl
resolution_scope_back ResolutionScope.boundary = refl

instance abbrev pub resolution_scope_key : Comparable ResolutionScope
resolution_scope_key = key_by resolution_scope_code resolution_scope_decode resolution_scope_back

pub data Resolution : Type 0 where
  resolved unresolved : Resolution

abbrev pub resolution_code : Resolution → ℕ
resolution_code Resolution.resolved = 0
resolution_code Resolution.unresolved = 1

abbrev pub resolution_decode : ℕ → Resolution
resolution_decode n = if nat_eq n 0 then Resolution.resolved else Resolution.unresolved

pub resolution_back : (a : Resolution) → resolution_decode (resolution_code a) ≡ a
resolution_back Resolution.resolved = refl
resolution_back Resolution.unresolved = refl

instance abbrev pub resolution_key : Comparable Resolution
resolution_key = key_by resolution_code resolution_decode resolution_back

pub data ScanGap : Type 0 where
  oversize unavailable busy timeout : ScanGap

abbrev pub scan_gap_code : ScanGap → ℕ
scan_gap_code ScanGap.oversize = 0
scan_gap_code ScanGap.unavailable = 1
scan_gap_code ScanGap.busy = 2
scan_gap_code ScanGap.timeout = 3

abbrev pub scan_gap_decode : ℕ → ScanGap
scan_gap_decode n =
    if nat_eq n 0
    then ScanGap.oversize
    else if nat_eq n 1
    then ScanGap.unavailable
    else if nat_eq n 2
    then ScanGap.busy
    else ScanGap.timeout

pub scan_gap_back : (a : ScanGap) → scan_gap_decode (scan_gap_code a) ≡ a
scan_gap_back ScanGap.oversize = refl
scan_gap_back ScanGap.unavailable = refl
scan_gap_back ScanGap.busy = refl
scan_gap_back ScanGap.timeout = refl

instance abbrev pub scan_gap_key : Comparable ScanGap
scan_gap_key = key_by scan_gap_code scan_gap_decode scan_gap_back
