-- ===== src/Policy.antt =====
-- internal/domain/conversation/tool_policy.go: whether a tool may be used for a decision.
pub mod Safety
pub mod Tests
use agentic_voice_sdr.Base.{
  String, Bool, true, false, not, ◌&&◌, ◌||◌, List, [], ◌∷◌, Option, none, some, Result, ok, err,
  ◌>>=◌, ◌>>◌, guard, wrap, if◌then◌else◌, str_eq, is_blank,
}
use agentic_voice_sdr.Tools.{
  calendar_check_availability, calendar_create_event, whats_app_send_message, memory_search,
  memory_store, lead_update, conversation_add_note, callback_schedule,
}
use agentic_voice_sdr.Conversation.{
  ConversationState, ConversationStage, opening, active, closing, ended,
}
use agentic_voice_sdr.Decision.{
  Decision, DecisionInput, NextAction, propose_scheduling, request_capability, new_decision_input,
  valid_decision_input, is_request,
}
use agentic_voice_sdr.Decision

pub data ToolEffect : Type 0 where
  unknown read side_effect : ToolEffect
  other : String → ToolEffect

pub data Error : Type 0 where
  invalid_tool_policy_input invalid_policy_status invalid_policy_reason : Error

pub record ToolPolicyInput : Type 0 where
  pub decision_input : DecisionInput
  pub decision : Decision
  pub requested_tool : String
  pub effect : ToolEffect

pub data PolicyStatus : Type 0 where
  allow deny defer : PolicyStatus
  unset : PolicyStatus
  other : String → PolicyStatus

pub data PolicyReason : Type 0 where
  allowed_by_decision unknown_tool incompatible_action missing_required_state : PolicyReason
  side_effect_not_authorized defer_until_ready contact_opted_out : PolicyReason
  other : String → PolicyReason

pub record ToolPolicyResult : Type 0 where
  pub status : PolicyStatus
  pub reason : PolicyReason

unfoldable pub classify_tool_effect : String → ToolEffect
classify_tool_effect name =
    if str_eq name calendar_check_availability || str_eq name memory_search
    then read
    else (if str_eq name calendar_create_event
          || str_eq name whats_app_send_message
          || str_eq name memory_store
          || str_eq name lead_update
          || str_eq name conversation_add_note
          || str_eq name callback_schedule
        then side_effect
        else unknown)

unfoldable pub is_contact_tool : String → Bool
is_contact_tool name = str_eq name whats_app_send_message || str_eq name callback_schedule

abbrev pub same_effect : ToolEffect → ToolEffect → Bool
same_effect unknown unknown = true
same_effect read read = true
same_effect side_effect side_effect = true
same_effect (ToolEffect.other s) (ToolEffect.other t) = str_eq s t
same_effect _ _ = false

abbrev named_effect : ToolEffect → Bool
named_effect (ToolEffect.other _) = false
named_effect _ = true

unfoldable pub new_tool_policy_input :
    Option ConversationState → Decision → String → Result Error ToolPolicyInput
new_tool_policy_input state d tool = do
  guard (not (is_blank tool)) invalid_tool_policy_input
  wrap invalid_tool_policy_input (Decision.validate d)
  input ← wrap invalid_tool_policy_input (new_decision_input state)
  ok (record {
    decision_input = input;
    decision = d;
    requested_tool = tool;
    effect = classify_tool_effect tool;
  })

-- `ToolPolicyInput.Validate`.
unfoldable pub validate_input : ToolPolicyInput → Result Error (Unit {0})
validate_input i = do
  guard (valid_decision_input i.decision_input) invalid_tool_policy_input
  wrap invalid_tool_policy_input (Decision.validate i.decision)
  guard (not (is_blank i.requested_tool)) invalid_tool_policy_input
  guard (same_effect i.effect (classify_tool_effect i.requested_tool)) invalid_tool_policy_input
  guard (named_effect i.effect) invalid_tool_policy_input

unfoldable pub valid_policy_status : PolicyStatus → Bool
valid_policy_status allow = true
valid_policy_status deny = true
valid_policy_status defer = true
valid_policy_status _ = false

unfoldable pub valid_policy_reason : PolicyReason → Bool
valid_policy_reason (PolicyReason.other _) = false
valid_policy_reason _ = true

-- `ToolPolicyResult.Validate`.
unfoldable pub validate_result : ToolPolicyResult → Result Error (Unit {0})
unfolding valid_policy_status valid_policy_reason
validate_result r = do
  guard (valid_policy_status r.status) invalid_policy_status
  guard (valid_policy_reason r.reason) invalid_policy_reason

abbrev pub is_unknown : ToolEffect → Bool
is_unknown unknown = true
is_unknown _ = false

abbrev pub is_side_effect : ToolEffect → Bool
is_side_effect side_effect = true
is_side_effect _ = false

abbrev pub is_ended : ConversationStage → Bool
is_ended ended = true
is_ended _ = false

abbrev pub is_opening : ConversationStage → Bool
is_opening opening = true
is_opening _ = false

abbrev pub is_scheduling : NextAction → Bool
is_scheduling propose_scheduling = true
is_scheduling _ = false

-- The decision of `EvaluateToolPolicy`, past the validation.
unfoldable pub decide_policy : ToolPolicyInput → ToolPolicyResult
decide_policy i =
    if is_unknown i.effect
    then record { status = deny; reason = unknown_tool }
    else (if i.decision_input.signals.opted_out && is_contact_tool i.requested_tool
        then record { status = deny; reason = contact_opted_out }
        else (if is_ended i.decision_input.stage
            then record { status = defer; reason = missing_required_state }
            else (if is_request i.decision.next_action
                then (if is_side_effect i.effect && is_opening i.decision_input.stage
                    then record { status = defer; reason = missing_required_state }
                    else record { status = allow; reason = allowed_by_decision })
                else (if is_side_effect i.effect
                    then record { status = deny; reason = side_effect_not_authorized }
                    else (if is_scheduling i.decision.next_action
                          && str_eq i.requested_tool calendar_check_availability
                        then record { status = allow; reason = allowed_by_decision }
                        else record { status = defer; reason = defer_until_ready })))))

unfoldable pub evaluate_tool_policy : ToolPolicyInput → Result Error ToolPolicyResult
unfolding decide_policy
evaluate_tool_policy i = validate_input i >> ok (decide_policy i)
