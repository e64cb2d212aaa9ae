-- ===== src/Hooks.antt =====
-- Hook evidence: src/privacy_hud/hook_evidence.py. A payload is the fields that normalization reads,
-- `none` where one is missing or of another type. Parameters, in `Readers`: the shell parser of
-- detect/shell.py, the origin of a command, the names of MCP tools, and the keyed identities. A
-- random identifier is an argument. The checks of the arguments `delivery_key` and `accounting_key`,
-- with which `normalize` of the source begins, are left out: both are taken to be of the right form.
mod Six
pub mod Kinds
pub mod Crossing
mod Tests
use mathlib.Core.Option.{map as option_map}
use codex_privacy_hud.Prelude.{
  String, Bool, true, false, not, ◌&&◌, ◌||◌, Option, none, some, List, [], ◌∷◌, ◌++◌, ◌==◌, member,
  if◌then◌else◌, is_empty, is_some, or_else, string_key,
}
use codex_privacy_hud.Accounting.Vocabulary.{
  Boundary, DestinationKind, EventKind, HookEvent, Phase, ActionKind, ResolutionScope, boundary_key,
}
use codex_privacy_hud.Accounting.Evidence.{
  Evidence, join, meets, only_deny_issued, only_deny_enforced, only_rejected_before_crossing,
  only_rewrite_enforced, only_hook_observed,
}
use codex_privacy_hud.Accounting.Records.{OpaqueId, Digest, RecipientInput}

-- `_PHASE`
pub phase_of : HookEvent → Phase
phase_of HookEvent.session_start = Phase.lifecycle
phase_of HookEvent.session_end = Phase.lifecycle
phase_of HookEvent.user_prompt_submit = Phase.pre
phase_of HookEvent.pre_tool_use = Phase.pre
phase_of HookEvent.post_tool_use = Phase.post
phase_of HookEvent.subagent_start = Phase.lifecycle
phase_of HookEvent.subagent_stop = Phase.lifecycle
phase_of HookEvent.pre_compact = Phase.lifecycle

-- `_DESTINATION_BOUNDARY`
abbrev pub destination_boundary : DestinationKind → Boundary
destination_boundary DestinationKind.local = Boundary.b0
destination_boundary DestinationKind.model_context = Boundary.b1
destination_boundary DestinationKind.subagent = Boundary.b2
destination_boundary DestinationKind.mcp_tool = Boundary.b3
destination_boundary DestinationKind.external_net = Boundary.b4

pub record Payload : Type 0 where
  pub hook_event_name : Option HookEvent
  pub tool_name : Option String
  pub command : Option String
  pub tool_use_id : Option String
  pub turn_id : Option String

pub record Readers : Type 0 where
  pub extract_destinations : String → List String
  pub reads_path : String → Bool
  pub is_mcp_tool : String → Bool
  pub mcp_server_namespace : String → Option String
  pub intended_network_recipient : String → Option String
  pub recipient_identity : String → DestinationKind → String → Digest
  pub action_identity : String → String → Option OpaqueId
  pub turn_identity : String → String → Option OpaqueId

pub record HookEvidence : Type 0 where
  pub delivery_key : OpaqueId
  pub action_id : OpaqueId
  pub turn_id : Option OpaqueId
  pub hook_event : HookEvent
  pub phase : Phase
  pub action_kind : ActionKind
  pub boundary : Boundary
  pub recipient : RecipientInput
  pub evidence : Evidence
  pub resolution_scope : ResolutionScope
  pub potential_crossing : Bool

-- `SHELL_TOOL` and `SUBAGENT_TOOLS` of codex.py
abbrev pub shell_tool : String
shell_tool = "Bash"

abbrev pub subagent_tools : List String
subagent_tools =
    "spawn_agent" ∷ "multi_agent_v1send_input" ∷ "send_message" ∷ "followup_task"
    ∷ "collaborationspawn_agent" ∷ "collaborationsend_message" ∷ "collaborationfollowup_task" ∷ []

-- A test of the tool's name, false where there is none.
abbrev pub named : (String → Bool) → Option String → Bool
named test none = false
named test (some name) = test name

-- `_command`
abbrev command_of : Payload → String
command_of p = or_else p.command ""

-- `extract_destinations(command) != ["local"]`
abbrev is_only_local : List String → Bool
is_only_local [] = false
is_only_local (d ∷ []) = d == "local"
is_only_local (d ∷ e ∷ ds) = false

abbrev pub leaves : Readers → Payload → Bool
leaves r p = not (is_only_local (r.extract_destinations (command_of p)))

-- `_recognized_read`
pub recognized_read : Readers → Payload → Bool
recognized_read r p =
    named (λ n. n == shell_tool) p.tool_name && not (leaves r p) && r.reads_path (command_of p)

-- What `_classify` returns.
abbrev pub Class : Type 0
Class = ActionKind × (DestinationKind × Bool)

classify_post : Readers → Payload → Class
unfolding recognized_read
classify_post r p =
    if named (λ n. member n subagent_tools) p.tool_name
    then (ActionKind.subagent, (DestinationKind.model_context, true))
    else (
      if recognized_read r p then ActionKind.read else ActionKind.tool,
      (DestinationKind.model_context, true),
    )

classify_pre : Readers → Payload → Class
classify_pre r p =
    if named (λ n. member n subagent_tools) p.tool_name
    then (ActionKind.subagent, (DestinationKind.subagent, true))
    else if recognized_read r p
    then (ActionKind.read, (DestinationKind.local, false))
    else if named r.is_mcp_tool p.tool_name
    then (ActionKind.tool, (DestinationKind.mcp_tool, true))
    else if named (λ n. n == shell_tool) p.tool_name && leaves r p
    then (ActionKind.tool, (DestinationKind.external_net, true))
    else (ActionKind.tool, (DestinationKind.local, false))

-- `_classify`
pub classify : Readers → HookEvent → Payload → Class
unfolding classify_post classify_pre
classify r HookEvent.session_start p = (ActionKind.lifecycle, (DestinationKind.local, false))
classify r HookEvent.session_end p = (ActionKind.lifecycle, (DestinationKind.local, false))
classify r HookEvent.pre_compact p = (ActionKind.lifecycle, (DestinationKind.local, false))
classify r HookEvent.subagent_stop p = (ActionKind.subagent, (DestinationKind.subagent, false))
classify r HookEvent.subagent_start p = (ActionKind.subagent, (DestinationKind.subagent, true))
classify r HookEvent.user_prompt_submit p =
    (ActionKind.prompt, (DestinationKind.model_context, true))
classify r HookEvent.post_tool_use p = classify_post r p
classify r HookEvent.pre_tool_use p = classify_pre r p

abbrev namespace_of : Readers → Option String → Option String
namespace_of r none = none
namespace_of r (some name) = r.mcp_server_namespace name

-- The concrete recipient, where it is known exactly.
pub concrete_recipient : Readers → DestinationKind → Payload → Option String
concrete_recipient r DestinationKind.local p = some "local"
concrete_recipient r DestinationKind.model_context p = some "model_context"
concrete_recipient r DestinationKind.subagent p = none
concrete_recipient r DestinationKind.mcp_tool p = namespace_of r p.tool_name
concrete_recipient r DestinationKind.external_net p = r.intended_network_recipient (command_of p)

abbrev identity_at : Readers → DestinationKind → Option String → Option String → Option Digest
identity_at r d none c = none
identity_at r d (some key) none = none
identity_at r d (some key) (some c) = some (r.recipient_identity key d c)

-- `_recipient`. The unresolved token that the descriptor makes is the argument.
pub recipient : Readers → DestinationKind → Payload → Option String → String → RecipientInput
recipient r d p key token =
    let identity = identity_at r d key (concrete_recipient r d p) in
    record {
      destination_kind = d;
      identity_hash = identity;
      unresolved_token = if is_some identity then none else some token;
    }

-- `_correlated`: a missing key, or a host identifier of no use, claims no correlation.
abbrev pub correlated :
    (String → String → Option OpaqueId) → Option String → Option String → Option OpaqueId
correlated identify none host_id = none
correlated identify (some key) none = none
correlated identify (some key) (some host_id) = identify key host_id

abbrev pub is_tool_hook : HookEvent → Bool
is_tool_hook HookEvent.pre_tool_use = true
is_tool_hook HookEvent.post_tool_use = true
is_tool_hook _ = false

-- `CurrentHookAdapter.normalize` once the event is known
pub normalize_event :
    Readers → HookEvent → Payload → OpaqueId → Option String → OpaqueId → String → HookEvidence
normalize_event r event p delivery_key key fresh token =
    let (action_kind, (destination, potential)) = classify r event p in
    let action_id =
      if is_tool_hook event then correlated r.action_identity key p.tool_use_id else none in
    record {
      delivery_key = delivery_key;
      action_id = or_else action_id fresh;
      turn_id = correlated r.turn_identity key p.turn_id;
      hook_event = event;
      phase = phase_of event;
      action_kind = action_kind;
      boundary = destination_boundary destination;
      recipient = recipient r destination p key token;
      evidence = only_hook_observed;
      resolution_scope = ResolutionScope.none;
      potential_crossing = potential;
    }

-- `normalize`. `none` is the error of an event that is not known.
pub normalize :
    Readers → Payload → OpaqueId → Option String → OpaqueId → String → Option HookEvidence
normalize r p delivery_key key fresh token =
    option_map (λ event. normalize_event r event p delivery_key key fresh token) p.hook_event_name

abbrev pub kind_if : Bool → EventKind → List EventKind
kind_if true k = k ∷ []
kind_if false k = []

-- The bits that make an event `prevented`.
abbrev pub prevented_bits : Evidence
prevented_bits =
    join only_deny_issued
      (join only_deny_enforced (join only_rejected_before_crossing only_rewrite_enforced))

pub terminal_kinds : Boundary → Evidence → List EventKind
terminal_kinds b e =
    kind_if (meets e prevented_bits) EventKind.prevented
    ++ kind_if (e.crossing_confirmed && not (b == Boundary.b0)) EventKind.exposed
    ++ kind_if (e.execution_observed && b == Boundary.b0) EventKind.local_access
    ++ kind_if e.persistence_observed EventKind.retention

-- `classify_evidence`
pub classify_evidence : Boundary → Evidence → List EventKind
classify_evidence b e =
    if not (is_empty (terminal_kinds b e))
    then terminal_kinds b e
    else if e.permission_issued
    then EventKind.permitted ∷ []
    else if e.local_detection
    then EventKind.detected ∷ []
    else []
