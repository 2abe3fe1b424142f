-- ===== src/Directive.antt =====
-- internal/domain/conversation/orchestrator.go: from a decision and its policy to a turn directive.
-- A pointer to a value is an Option of it.
pub mod Build
pub mod Tests
use agentic_voice_sdr.Base.{
  String, Bool, true, false, not, ◌&&◌, ◌||◌, List, [], ◌∷◌, Option, none, some, Result, ok, err,
  ◌>>=◌, ◌>>◌, guard, wrap, if◌then◌else◌, str_eq, is_blank, is_empty, is_some,
}
use agentic_voice_sdr.Decision.{
  Decision, DecisionInput, NextAction, ReasonCode, request_capability, end_conversation, handoff,
  valid_decision_input, is_request, new_decision,
}
use agentic_voice_sdr.Decision
use agentic_voice_sdr.Policy.{
  ToolPolicyInput, ToolPolicyResult, PolicyStatus, PolicyReason, allow, deny, defer,
  classify_tool_effect, evaluate_tool_policy, validate_result, valid_policy_status,
}

pub data Error : Type 0 where
  invalid_orchestrator_input invalid_turn_directive invalid_tool_result : Error

pub data ToolResultStatus : Type 0 where
  succeeded failed : ToolResultStatus
  other : String → ToolResultStatus

pub record ToolResult : Type 0 where
  pub tool : String
  pub status : ToolResultStatus

pub record OrchestratorInput : Type 0 where
  pub decision_input : DecisionInput
  pub decision : Decision
  pub requested_tool : String
  pub policy : Option ToolPolicyResult
  pub tool_result : Option ToolResult

pub record TurnDirective : Type 0 where
  pub kind : NextAction
  pub reason : ReasonCode
  pub capability : String
  pub capability_status : PolicyStatus
  pub executable : Bool
  pub terminal : Bool
  pub handoff : Bool
  pub tool_result : Option ToolResult

abbrev named_status : ToolResultStatus → Bool
named_status (ToolResultStatus.other _) = false
named_status _ = true

-- `ToolResult.Validate`.
unfoldable pub validate_tool_result : ToolResult → Result Error (Unit {0})
validate_tool_result r = do
  guard (not (is_blank r.tool)) invalid_tool_result
  guard (named_status r.status) invalid_tool_result

abbrev pub is_allow : PolicyStatus → Bool
is_allow allow = true
is_allow _ = false

abbrev same_status : PolicyStatus → PolicyStatus → Bool
same_status allow allow = true
same_status deny deny = true
same_status defer defer = true
same_status PolicyStatus.unset PolicyStatus.unset = true
same_status (PolicyStatus.other s) (PolicyStatus.other t) = str_eq s t
same_status _ _ = false

abbrev same_policy_reason : PolicyReason → PolicyReason → Bool
same_policy_reason PolicyReason.allowed_by_decision PolicyReason.allowed_by_decision = true
same_policy_reason PolicyReason.unknown_tool PolicyReason.unknown_tool = true
same_policy_reason PolicyReason.incompatible_action PolicyReason.incompatible_action = true
same_policy_reason PolicyReason.missing_required_state PolicyReason.missing_required_state = true
same_policy_reason PolicyReason.side_effect_not_authorized PolicyReason.side_effect_not_authorized =
    true
same_policy_reason PolicyReason.defer_until_ready PolicyReason.defer_until_ready = true
same_policy_reason PolicyReason.contact_opted_out PolicyReason.contact_opted_out = true
same_policy_reason (PolicyReason.other s) (PolicyReason.other t) = str_eq s t
same_policy_reason _ _ = false

-- `*input.Policy == canonical`.
unfoldable pub same_policy : ToolPolicyResult → ToolPolicyResult → Bool
same_policy p q = same_status p.status q.status && same_policy_reason p.reason q.reason

abbrev pub policy_input : OrchestratorInput → ToolPolicyInput
policy_input i = record {
  decision_input = i.decision_input;
  decision = i.decision;
  requested_tool = i.requested_tool;
  effect = classify_tool_effect i.requested_tool;
}

-- `validatePolicyBinding`, at the policy result that the input carries.
unfoldable pub validate_policy_binding :
    OrchestratorInput → ToolPolicyResult → Result Error (Unit {0})
validate_policy_binding i p = do
  canonical ← wrap invalid_orchestrator_input (evaluate_tool_policy (policy_input i))
  guard (same_policy p canonical) invalid_orchestrator_input

-- The policy result and the tool result, where they are there.
unfoldable pub validate_policy : Option ToolPolicyResult → Result Error (Unit {0})
validate_policy none = ok tt
validate_policy (some p) = wrap invalid_orchestrator_input (validate_result p)

unfoldable pub validate_binding :
    OrchestratorInput → Option ToolPolicyResult → Result Error (Unit {0})
validate_binding i none = err invalid_orchestrator_input
validate_binding i (some p) = validate_policy_binding i p

-- `input.Policy.Status != PolicyAllow`. With a nil policy the source would read through a nil
-- pointer; the checks before this one leave no such case.
abbrev policy_allows : Option ToolPolicyResult → Bool
policy_allows none = false
policy_allows (some p) = is_allow p.status

unfoldable pub validate_result_of : OrchestratorInput → Option ToolResult → Result Error (Unit {0})
validate_result_of i none = ok tt
validate_result_of i (some r) = do
  wrap invalid_orchestrator_input (validate_tool_result r)
  guard (str_eq r.tool i.requested_tool) invalid_orchestrator_input
  guard (policy_allows i.policy) invalid_orchestrator_input

unfoldable pub validate_context : OrchestratorInput → Result Error (Unit {0})
validate_context i =
    if is_request i.decision.next_action
    then guard (not (is_blank i.requested_tool)) invalid_orchestrator_input
      >> validate_binding i i.policy
    else guard (not (not (is_empty i.requested_tool) || is_some i.tool_result))
        invalid_orchestrator_input

-- `OrchestratorInput.Validate`.
unfoldable pub validate_input : OrchestratorInput → Result Error (Unit {0})
validate_input i = do
  guard (valid_decision_input i.decision_input) invalid_orchestrator_input
  wrap invalid_orchestrator_input (Decision.validate i.decision)
  validate_policy i.policy
  validate_context i
  validate_result_of i i.tool_result

abbrev pub same_bool : Bool → Bool → Bool
same_bool true b = b
same_bool false b = not b

unfoldable pub validate_directive_result :
    TurnDirective → Option ToolResult → Result Error (Unit {0})
validate_directive_result d none = ok tt
validate_directive_result d (some r) = do
  wrap invalid_turn_directive (validate_tool_result r)
  guard (str_eq r.tool d.capability) invalid_turn_directive
  guard (is_allow d.capability_status && d.executable) invalid_turn_directive

abbrev unset_status : PolicyStatus → Bool
unset_status PolicyStatus.unset = true
unset_status _ = false

unfoldable pub validate_capability : TurnDirective → Result Error (Unit {0})
validate_capability d =
    if is_request d.kind
    then (do
      guard (not (is_blank d.capability)) invalid_turn_directive
      guard (valid_policy_status d.capability_status) invalid_turn_directive
      guard (same_bool d.executable (is_allow d.capability_status)) invalid_turn_directive
      validate_directive_result d d.tool_result)
    else guard
        (not (
          not (is_empty d.capability)
          || not (unset_status d.capability_status)
          || d.executable
          || is_some d.tool_result))
        invalid_turn_directive

-- The last switch of `TurnDirective.Validate`, by the directive's kind.
unfoldable pub valid_flags : NextAction → Bool → Bool → Bool
valid_flags end_conversation terminal hands_off = terminal && not hands_off
valid_flags NextAction.handoff terminal hands_off = not terminal && hands_off
valid_flags _ terminal hands_off = not (terminal || hands_off)

-- `TurnDirective.Validate`.
unfoldable pub validate : TurnDirective → Result Error (Unit {0})
validate d = do
  decision ← wrap invalid_turn_directive (new_decision d.kind d.reason)
  validate_capability d
  guard (valid_flags d.kind d.terminal d.handoff) invalid_turn_directive

abbrev pub is_end : NextAction → Bool
is_end end_conversation = true
is_end _ = false

abbrev pub is_handoff : NextAction → Bool
is_handoff NextAction.handoff = true
is_handoff _ = false

abbrev pub status_of : Option ToolPolicyResult → PolicyStatus
status_of none = PolicyStatus.unset
status_of (some p) = p.status

-- The directive that `BuildTurnDirective` fills in, before it is validated.
unfoldable pub assemble : OrchestratorInput → TurnDirective
assemble i =
    let request = is_request i.decision.next_action in
    record {
      kind = i.decision.next_action;
      reason = i.decision.reason;
      capability = if request then i.requested_tool else "";
      capability_status = if request then status_of i.policy else PolicyStatus.unset;
      executable = request && is_allow (status_of i.policy);
      terminal = is_end i.decision.next_action;
      handoff = is_handoff i.decision.next_action;
      tool_result = if request then i.tool_result else none;
    }

unfoldable pub build_turn_directive : OrchestratorInput → Result Error TurnDirective
unfolding assemble
build_turn_directive i = do validate_input i; validate (assemble i); ok (assemble i)
