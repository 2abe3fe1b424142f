-- ===== src/Gate/Tests.antt =====
-- The response gate on concrete inputs (internal/domain/conversation/response_gate.go).
use agentic_voice_sdr.Base.{◌≡◌, refl, ◌≤◌, false, List, [], ◌∷◌, some, ok, is_blank}
use agentic_voice_sdr.Decision.{new_decision, validate as validate_decision}
use agentic_voice_sdr.Samples.{greeting, question, half_heard, talk, talk_directive}
use agentic_voice_sdr.Conversation.{ConversationState, Turn}
use agentic_voice_sdr.Directive.{
  validate, validate_capability, validate_directive_result, valid_flags,
}
use agentic_voice_sdr.Gate.{
  ResponseKey, ResponseGate, reserved, failed, started, completed, new_response_gate, lookup,
  insert, has_active_cycle, scan, response_source_key, validate_key, claim, reserve, promote,
  starting, completing, authorize_reserved, start, complete,
}
use agentic_voice_sdr.Gate.Source.{LastLead, response_source_key-LastLead}
use agentic_voice_sdr.Gate.Runs.{
  Operation, reserves, promotes, starts, completes, step, run, Effect, step-Effect,
}
use agentic_voice_sdr.Gate.Exclusion.{Exclusive, run-new-Exclusive}
use agentic_voice_sdr.Gate.Lifecycle.{authorizations, authorizes_key, authorizations-le-one}

abbrev key : ResponseKey
key = record { conversation_id = "c1"; source_turn_id = "lead-000001" }

abbrev later_key : ResponseKey
later_key = record { conversation_id = "c1"; source_turn_id = "lead-000003" }

abbrev later : ConversationState
later = record (talk false) {
  turns = greeting ∷ question ∷ half_heard ∷ record question { id = "lead-000003" } ∷ [];
}

-- The first turn is answered; a reservation of the second one is refused until then.
abbrev history : List Operation
history =
    reserves (some (talk false)) "lead-000001"
    ∷ reserves (some later) "lead-000003"
    ∷ promotes key talk_directive
    ∷ starts key
    ∷ promotes key talk_directive
    ∷ completes key
    ∷ reserves (some later) "lead-000003"
    ∷ []

history_cycles :
    (run new_response_gate history).cycles ≡ (key, completed) ∷ (later_key, reserved) ∷ []
unfolding run step new_response_gate lookup insert has_active_cycle scan response_source_key
    validate_key claim reserve promote starting completing authorize_reserved start complete
    validate validate_capability validate_directive_result valid_flags is_blank new_decision
    validate_decision
history_cycles = refl

history-authorizations : authorizations key new_response_gate history ≡ 1
unfolding authorizations authorizes_key run step new_response_gate lookup insert has_active_cycle
    scan response_source_key validate_key claim reserve promote starting completing
    authorize_reserved start complete validate validate_capability validate_directive_result
    valid_flags is_blank new_decision validate_decision
history-authorizations = refl

run-new-Exclusive_example : Exclusive (run new_response_gate history)
run-new-Exclusive_example = run-new-Exclusive history

authorizations-le-one_example : authorizations key new_response_gate history ≤ 1
authorizations-le-one_example = authorizations-le-one key new_response_gate history

abbrev settled : ResponseGate
settled = record { cycles = (key, failed) ∷ (later_key, started) ∷ [] }

step-Effect_example : Effect settled (step settled (completes later_key))
step-Effect_example = step-Effect settled (completes later_key)

key_source : response_source_key (some (talk false)) "lead-000001" ≡ ok key
unfolding response_source_key scan
key_source = refl

response_source_key-LastLead_example :
    (key ≡ record { conversation_id = "c1"; source_turn_id = "lead-000001" })
    × ((t : Turn) × (t.id ≡ "lead-000001") × LastLead t (greeting ∷ question ∷ []))
response_source_key-LastLead_example =
    response_source_key-LastLead (talk false) "lead-000001" key_source
