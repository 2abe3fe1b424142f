-- ===== src/Policy/Tests.antt =====
-- The tool policy on concrete inputs (internal/domain/conversation/tool_policy.go).
use agentic_voice_sdr.Base.{◌≡◌, refl, ◌≢◌, ◌↔◌, ◌⊎◌, true, false, ok, is_blank}
use agentic_voice_sdr.Samples.{talk_input, use_tool, allowed}
use agentic_voice_sdr.Tools.{calendar_create_event, whats_app_send_message}
use agentic_voice_sdr.Conversation.{ended}
use agentic_voice_sdr.Decision.{valid_decision_input, validate as validate_decision}
use agentic_voice_sdr.Policy.{
  ToolPolicyInput, unknown, side_effect, allow, deny, contact_opted_out, classify_tool_effect,
  is_contact_tool, evaluate_tool_policy, validate_input,
}
use agentic_voice_sdr.Policy.Safety.{Calls, allow_iff}

abbrev event : ToolPolicyInput
event = record {
  decision_input = talk_input true;
  decision = use_tool;
  requested_tool = calendar_create_event;
  effect = side_effect;
}

event_allowed : evaluate_tool_policy event ≡ ok allowed
unfolding evaluate_tool_policy validate_input valid_decision_input validate_decision
    classify_tool_effect is_contact_tool is_blank
event_allowed = refl

message_denied :
    evaluate_tool_policy (record event { requested_tool = whats_app_send_message })
    ≡ ok (record { status = deny; reason = contact_opted_out })
unfolding evaluate_tool_policy validate_input valid_decision_input validate_decision
    classify_tool_effect is_contact_tool is_blank
message_denied = refl

allow_iff_example : (allowed.status ≡ allow) ↔ (
    (classify_tool_effect calendar_create_event ≢ unknown)
    × ((event.decision_input.signals.opted_out ≡ false)
        ⊎ (is_contact_tool calendar_create_event ≡ false))
    × (event.decision_input.stage ≢ ended)
    × Calls event)
allow_iff_example = allow_iff event event_allowed
