-- ===== src/Samples.antt =====
-- Data for the tests: a conversation, a decision with its policy, and a directive.
use agentic_voice_sdr.Base.{pos, Bool, true, false, [], ◌∷◌, none, some}
use agentic_voice_sdr.Tools.{calendar_create_event}
use agentic_voice_sdr.Conversation.{Turn, ConversationState, lead, agent, partial, final, active}
use agentic_voice_sdr.Decision.{
  Decision, DecisionInput, request_capability, capability_required, continue_conversation,
  continue_discovery,
}
use agentic_voice_sdr.Policy.{allow, allowed_by_decision, ToolPolicyResult, PolicyStatus}
use agentic_voice_sdr.Directive.{OrchestratorInput, TurnDirective}

abbrev pub greeting : Turn
greeting = record { id = "agent-1"; role = agent; text = "hello"; transcript = final }

abbrev pub question : Turn
question = record { id = "lead-000001"; role = lead; text = "when?"; transcript = final }

abbrev pub half_heard : Turn
half_heard = record { id = "lead-000002"; role = lead; text = "and"; transcript = partial }

-- An active conversation in which the lead has asked, with or without an opt-out.
abbrev pub talk : Bool → ConversationState
talk opted_out = record {
  id = "c1";
  stage = active;
  turns = greeting ∷ question ∷ [];
  signals = record { lead_responded = true; opted_out = opted_out };
}

abbrev pub use_tool : Decision
use_tool = record { next_action = request_capability; reason = capability_required }

abbrev pub go_on : Decision
go_on = record { next_action = continue_conversation; reason = continue_discovery }

abbrev pub talk_input : Bool → DecisionInput
talk_input opted_out = record {
  stage = active;
  signals = record { lead_responded = true; opted_out = opted_out };
  turn_count = pos 2;
  last_turn_role = lead;
  last_transcript_state = final;
}

abbrev pub allowed : ToolPolicyResult
allowed = record { status = allow; reason = allowed_by_decision }

abbrev pub event_input : OrchestratorInput
event_input = record {
  decision_input = talk_input false;
  decision = use_tool;
  requested_tool = calendar_create_event;
  policy = some allowed;
  tool_result = none;
}

abbrev pub event_directive : TurnDirective
event_directive = record {
  kind = request_capability;
  reason = capability_required;
  capability = calendar_create_event;
  capability_status = allow;
  executable = true;
  terminal = false;
  handoff = false;
  tool_result = none;
}

abbrev pub talk_directive : TurnDirective
talk_directive = record {
  kind = continue_conversation;
  reason = continue_discovery;
  capability = "";
  capability_status = PolicyStatus.unset;
  executable = false;
  terminal = false;
  handoff = false;
  tool_result = none;
}
