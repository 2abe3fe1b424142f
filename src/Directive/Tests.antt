-- ===== src/Directive/Tests.antt =====
-- Directives on concrete inputs (internal/domain/conversation/orchestrator.go).
use agentic_voice_sdr.Base.{◌≡◌, refl, true, ok, err, ◌>>◌, is_blank}
use agentic_voice_sdr.Samples.{event_input, event_directive, talk_input}
use agentic_voice_sdr.Tools.{calendar_create_event, whats_app_send_message}
use agentic_voice_sdr.Decision.{
  valid_decision_input, is_request, new_decision, validate as validate_decision,
}
use agentic_voice_sdr.Policy.{
  ToolPolicyResult, allow, classify_tool_effect, is_contact_tool, evaluate_tool_policy,
  validate_input as validate_policy_input, validate_result,
}
use agentic_voice_sdr.Directive.{
  OrchestratorInput, invalid_orchestrator_input, policy_input, assemble, validate_input,
  validate_policy, validate_context, validate_binding, validate_policy_binding, validate_result_of,
  validate, validate_capability, validate_directive_result, valid_flags, same_policy,
  build_turn_directive,
}
use agentic_voice_sdr.Directive.Build.{build_turn_directive_lem, executable-allowed}

event_built : build_turn_directive event_input ≡ ok event_directive
unfolding build_turn_directive assemble validate_input validate_policy validate_context
    validate_binding validate_policy_binding validate_result_of validate validate_capability
    validate_directive_result valid_flags same_policy valid_decision_input validate_decision
    new_decision evaluate_tool_policy validate_policy_input validate_result classify_tool_effect
    is_contact_tool is_blank
event_built = refl

-- A message to a lead who has opted out, under a policy result that says it is allowed.
abbrev forged : OrchestratorInput
forged = record event_input {
  decision_input = talk_input true;
  requested_tool = whats_app_send_message;
}

forged_refused : build_turn_directive forged ≡ err invalid_orchestrator_input
unfolding build_turn_directive assemble validate_input validate_policy validate_context
    validate_binding validate_policy_binding validate_result_of validate validate_capability
    validate_directive_result valid_flags same_policy valid_decision_input validate_decision
    new_decision evaluate_tool_policy validate_policy_input validate_result classify_tool_effect
    is_contact_tool is_blank
forged_refused = refl

build_turn_directive_lem_example :
    build_turn_directive forged ≡ (validate_input forged >> ok (assemble forged))
build_turn_directive_lem_example = build_turn_directive_lem forged

executable-allowed_example :
    (is_request event_directive.kind ≡ true)
    × (event_directive.capability ≡ calendar_create_event)
    × ((q : ToolPolicyResult) × (evaluate_tool_policy (policy_input event_input) ≡ ok q)
        × (q.status ≡ allow))
executable-allowed_example = executable-allowed event_input event_built refl
