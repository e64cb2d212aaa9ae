-- ===== src/Hooks/Crossing.antt =====
-- What normalization claims of a hook: nothing but that it was observed.
use mathlib.Core.Option.{map as option_map}
use codex_privacy_hud.Prelude.{
  String, Bool, true, false, not, ◌&&◌, ◌||◌, Option, none, some, ◌==◌, ◌≡◌, refl, arith,
  if◌then◌else◌, some_inj, member, string_key,
}
use codex_privacy_hud.Accounting.Vocabulary.{
  Boundary, DestinationKind, ActionKind, HookEvent, boundary_key, phase_key, resolution_scope_key,
  decision_kind_key,
}
use codex_privacy_hud.Accounting.Records.{OpaqueId, ObservationRecord}
use codex_privacy_hud.Checks.{hook_phase, is_consistent}
use codex_privacy_hud.Hooks.{
  Readers, Payload, HookEvidence, Class, phase_of, destination_boundary, classify, classify_pre,
  classify_post, recipient, normalize, normalize_event, recognized_read, leaves, named, shell_tool,
  subagent_tools,
}

record Crosses (c : Class) : Type 0 where
  holds : (not c.1.1 || not (destination_boundary c.1.0 == Boundary.b0)) ≡ true

Crosses-if : (c : Bool) (a b : Class) → Crosses a → Crosses b → Crosses (if c then a else b)
Crosses-if true a b h k = h
Crosses-if false a b h k = k

abbrev delegates : Payload → Bool
delegates p = named (λ n. member n subagent_tools) p.tool_name

classify-Crosses : (r : Readers) (event : HookEvent) (p : Payload) → Crosses (classify r event p)
unfolding classify classify_pre classify_post
classify-Crosses r HookEvent.session_start p = record { holds = refl }
classify-Crosses r HookEvent.session_end p = record { holds = refl }
classify-Crosses r HookEvent.pre_compact p = record { holds = refl }
classify-Crosses r HookEvent.subagent_stop p = record { holds = refl }
classify-Crosses r HookEvent.subagent_start p = record { holds = refl }
classify-Crosses r HookEvent.user_prompt_submit p = record { holds = refl }
classify-Crosses r HookEvent.post_tool_use p =
    Crosses-if (delegates p) (ActionKind.subagent, (DestinationKind.model_context, true))
      (
        if recognized_read r p then ActionKind.read else ActionKind.tool,
        (DestinationKind.model_context, true),
      )
      (record { holds = refl }) (record { holds = refl })
classify-Crosses r HookEvent.pre_tool_use p =
    let stays : Class = (ActionKind.tool, (DestinationKind.local, false)) in
    let net : Class = (ActionKind.tool, (DestinationKind.external_net, true)) in
    let goes = named (λ n. n == shell_tool) p.tool_name && leaves r p in
    let last = Crosses-if goes net stays (record { holds = refl }) (record { holds = refl }) in
    let mcp : Class = (ActionKind.tool, (DestinationKind.mcp_tool, true)) in
    let third =
      Crosses-if (named r.is_mcp_tool p.tool_name) mcp (if goes then net else stays)
        (record { holds = refl }) last in
    let reads : Class = (ActionKind.read, (DestinationKind.local, false)) in
    let later = Crosses-if (recognized_read r p) reads _ (record { holds = refl }) third in
    Crosses-if (delegates p) (ActionKind.subagent, (DestinationKind.subagent, true)) _
      (record { holds = refl }) later

same_phase : (event : HookEvent) → phase_of event ≡ hook_phase event
unfolding phase_of hook_phase
same_phase HookEvent.session_start = refl
same_phase HookEvent.session_end = refl
same_phase HookEvent.user_prompt_submit = refl
same_phase HookEvent.pre_tool_use = refl
same_phase HookEvent.post_tool_use = refl
same_phase HookEvent.subagent_start = refl
same_phase HookEvent.subagent_stop = refl
same_phase HookEvent.pre_compact = refl

far_of :
    (potential near : Bool) → (not potential || not near) ≡ true → potential ≡ true → near ≡ false
far_of potential near h k = ground arith

module _ (r : Readers) (p : Payload) (delivery_key : OpaqueId) (key : Option String)
    (fresh token : String) where
  event-facts :
      (event : HookEvent)
      → let h = normalize_event r event p delivery_key key fresh token in
        (h.potential_crossing ≡ true → (h.boundary == Boundary.b0) ≡ false)
        × (h.boundary ≡ destination_boundary h.recipient.destination_kind)
        × (h.phase ≡ hook_phase h.hook_event)
        × ((o : ObservationRecord)
            → o.evidence ≡ h.evidence
            → o.resolution_scope ≡ h.resolution_scope
            → is_consistent o ≡ true)
  unfolding normalize_event recipient is_consistent
  event-facts event = (
    far_of (classify r event p).1.1 (destination_boundary (classify r event p).1.0 == Boundary.b0)
        (classify-Crosses r event p).holds,
    refl,
    same_phase event,
    λ o e s. rw (e, s) refl,
  )

  modest_of :
      (event : Option HookEvent) (h : HookEvidence)
      → option_map (λ event. normalize_event r event p delivery_key key fresh token) event ≡ some h
      → (h.potential_crossing ≡ true → (h.boundary == Boundary.b0) ≡ false)
        × (h.boundary ≡ destination_boundary h.recipient.destination_kind)
        × (h.phase ≡ hook_phase h.hook_event)
        × ((o : ObservationRecord)
            → o.evidence ≡ h.evidence
            → o.resolution_scope ≡ h.resolution_scope
            → is_consistent o ≡ true)
  modest_of none h made = cc
  modest_of (some event) h made = rw (← some_inj made) (event-facts event)

  -- The evidence that is normalized from a hook has the phase that the ledger requires of the hook, has the
  -- boundary of its recipient, marks a potential crossing only at a boundary other than the
  -- local one, and claims so little that an observation that carries it passes the ledger's check of
  -- evidence against the decision, whatever the decision.
  pub normalize_is_modest :
      (h : HookEvidence)
      → normalize r p delivery_key key fresh token ≡ some h
      → (h.potential_crossing ≡ true → (h.boundary == Boundary.b0) ≡ false)
        × (h.boundary ≡ destination_boundary h.recipient.destination_kind)
        × (h.phase ≡ hook_phase h.hook_event)
        × ((o : ObservationRecord)
            → o.evidence ≡ h.evidence
            → o.resolution_scope ≡ h.resolution_scope
            → is_consistent o ≡ true)
  unfolding normalize
  normalize_is_modest h made = modest_of p.hook_event_name h made
