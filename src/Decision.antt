-- ===== src/Decision.antt =====
-- internal/domain/conversation/advisor.go and decision_provider.go: what a decision is, what it is
-- made from, and the scripted provider of decisions.
pub mod Script
pub mod Tests
use agentic_voice_sdr.Base.{
  ℕ, ℤ, pos, is_negative, is_zero, String, Bool, true, false, not, ◌&&◌, ◌||◌, List, [], ◌∷◌,
  Option, none, some, Result, ok, err, ◌>>=◌, ◌>>◌, guard, wrap, if◌then◌else◌, str_eq, length,
  last?,
}
use agentic_voice_sdr.Conversation.{
  ConversationState, ConversationStage, opening, active, closing, ended, Signals, Turn,
  ParticipantRole, TranscriptState, valid_role, valid_transcript_state,
}
use agentic_voice_sdr.Conversation

pub data Error : Type 0 where
  invalid_decision_input invalid_next_action invalid_reason_code incompatible_decision : Error

pub record DecisionInput : Type 0 where
  pub stage : ConversationStage
  pub signals : Signals
  pub turn_count : ℤ
  pub last_turn_role : ParticipantRole
  pub last_transcript_state : TranscriptState

unfoldable pub valid_decision_stage : ConversationStage → Bool
valid_decision_stage opening = true
valid_decision_stage active = true
valid_decision_stage closing = true
valid_decision_stage ended = true
valid_decision_stage (ConversationStage.other _) = false

abbrev with_last : Option Turn → DecisionInput → DecisionInput
with_last none d = d
with_last (some t) d = record d { last_turn_role = t.role; last_transcript_state = t.transcript }

-- A nil state is none.
unfoldable pub new_decision_input : Option ConversationState → Result Error DecisionInput
unfolding valid_decision_stage
new_decision_input none = err invalid_decision_input
new_decision_input (some s) =
    if not (valid_decision_stage s.stage)
    then err invalid_decision_input
    else ok (
        with_last (last? s.turns) (record {
          stage = s.stage;
          signals = s.signals;
          turn_count = pos (length s.turns);
          last_turn_role = ParticipantRole.unset;
          last_transcript_state = TranscriptState.unset;
        }))

pub data NextAction : Type 0 where
  continue_conversation ask_question propose_scheduling request_capability : NextAction
  follow_up end_conversation handoff : NextAction
  other : String → NextAction

pub data ReasonCode : Type 0 where
  needs_clarification continue_discovery interest_confirmed ready_to_schedule : ReasonCode
  conversation_complete follow_up_required capability_required handoff_required : ReasonCode
  other : String → ReasonCode

pub record Decision : Type 0 where
  pub next_action : NextAction
  pub reason : ReasonCode

unfoldable pub reason_for_action : NextAction → Option ReasonCode
reason_for_action continue_conversation = some continue_discovery
reason_for_action ask_question = some needs_clarification
reason_for_action propose_scheduling = some ready_to_schedule
reason_for_action request_capability = some capability_required
reason_for_action follow_up = some follow_up_required
reason_for_action end_conversation = some conversation_complete
reason_for_action handoff = some handoff_required
reason_for_action (NextAction.other _) = none

unfoldable pub valid_reason_code : ReasonCode → Bool
valid_reason_code (ReasonCode.other _) = false
valid_reason_code _ = true

abbrev pub same_reason : ReasonCode → ReasonCode → Bool
same_reason needs_clarification needs_clarification = true
same_reason continue_discovery continue_discovery = true
same_reason interest_confirmed interest_confirmed = true
same_reason ready_to_schedule ready_to_schedule = true
same_reason conversation_complete conversation_complete = true
same_reason follow_up_required follow_up_required = true
same_reason capability_required capability_required = true
same_reason handoff_required handoff_required = true
same_reason (ReasonCode.other s) (ReasonCode.other t) = str_eq s t
same_reason _ _ = false

-- `action == ActionProposeScheduling && reason == ReasonInterestConfirmed`.
abbrev interest_in_scheduling : NextAction → ReasonCode → Bool
interest_in_scheduling propose_scheduling interest_confirmed = true
interest_in_scheduling _ _ = false

abbrev expects : Option ReasonCode → ReasonCode → Bool
expects none r = false
expects (some e) r = same_reason e r

unfoldable pub reason_compatible_with_action : NextAction → ReasonCode → Bool
unfolding reason_for_action
reason_compatible_with_action a r =
    if interest_in_scheduling a r then true else expects (reason_for_action a) r

abbrev named : Option ReasonCode → Bool
named none = false
named (some _) = true

unfoldable pub validate_next_action : NextAction → Result Error (Unit {0})
unfolding reason_for_action
validate_next_action a = guard (named (reason_for_action a)) invalid_next_action

-- `Decision.Validate`.
unfoldable pub validate : Decision → Result Error (Unit {0})
unfolding validate_next_action valid_reason_code reason_compatible_with_action
validate d = do
  validate_next_action d.next_action
  guard (valid_reason_code d.reason) invalid_reason_code
  guard (reason_compatible_with_action d.next_action d.reason) incompatible_decision

unfoldable pub new_decision : NextAction → ReasonCode → Result Error Decision
new_decision a r = let d : Decision = record { next_action = a; reason = r } in validate d >> ok d

abbrev pub is_request : NextAction → Bool
is_request request_capability = true
is_request _ = false

-- `role == ""` and `state == ""`.
abbrev unset_role : ParticipantRole → Bool
unset_role ParticipantRole.unset = true
unset_role _ = false

abbrev unset_transcript : TranscriptState → Bool
unset_transcript TranscriptState.unset = true
unset_transcript _ = false

-- `DecisionInput.validate` (tool_policy.go).
unfoldable pub valid_decision_input : DecisionInput → Bool
unfolding valid_decision_stage valid_role valid_transcript_state
valid_decision_input d =
    if not (valid_decision_stage d.stage) || is_negative d.turn_count
    then false
    else (if is_zero d.turn_count
        then unset_role d.last_turn_role && unset_transcript d.last_transcript_state
        else valid_role d.last_turn_role && valid_transcript_state d.last_transcript_state)
