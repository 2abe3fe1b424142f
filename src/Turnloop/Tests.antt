-- ===== src/Turnloop/Tests.antt =====
-- A call of `Begin` on concrete inputs (internal/turnloop/coordinator.go).
use agentic_voice_sdr.Base.{
  ℕ, String, ◌≡◌, refl, ◌⊎◌, false, List, [], ◌∷◌, none, some, Result, ok, err, is_ok, is_blank,
  background,
}
use agentic_voice_sdr.Decision.{new_decision, validate as validate_decision}
use agentic_voice_sdr.Samples.{talk, talk_directive}
use agentic_voice_sdr.Directive.{
  TurnDirective, validate, validate_capability, validate_directive_result, valid_flags,
}
use agentic_voice_sdr.Gate.{
  ResponseKey, ResponseReservation, reserve, new_response_gate, started, failed, lookup, insert,
  has_active_cycle, scan, response_source_key, validate_key, claim, promote, starting, failing,
  authorize_reserved, start, fail, reserved,
}
use agentic_voice_sdr.Gate.Runs.{Operation, run, starts}
use agentic_voice_sdr.Gate.Source.{LastLead}
use agentic_voice_sdr.Conversation.{Turn}
use agentic_voice_sdr.Conversation.Turns.{find}
use agentic_voice_sdr.Conversation.Runs.{Unique}
use agentic_voice_sdr.Turnruntime.{TurnInput}
use agentic_voice_sdr.Turnloop.{
  Outcome, begin_ready, process_reserved, authorize_processed, start_authorized, send_started,
  finalized_lead_text, answered, fail_after, Coordinator,
}
use agentic_voice_sdr.Turnloop.Begin.{Leaves}
use agentic_voice_sdr.Turnloop.Settle.{
  EndsSettled, complete, fail as end_failed, begin_ready-EndsSettled,
}
use agentic_voice_sdr.Turnloop.Delivery.{alone, begin_ready-delivers}
use agentic_voice_sdr.Turnloop.Ownership.{begin_ready-Leaves}

abbrev process : TurnInput Unit → Result Unit TurnDirective
process i = ok talk_directive

abbrev send_to : String → TurnDirective → Result Unit (Unit {0})
send_to text d = ok tt

abbrev refusing : String → TurnDirective → Result Unit (Unit {0})
refusing text d = err tt

abbrev quiet : ℕ → List Operation
quiet n = []

abbrev key : ResponseKey
key = record { conversation_id = "c1"; source_turn_id = "lead-000001" }

abbrev answered_call : Outcome Unit Unit
answered_call =
    begin_ready process send_to new_response_gate quiet background (talk false) "lead-000001" none

abbrev refused_call : Outcome Unit Unit
refused_call =
    begin_ready process refusing new_response_gate quiet background (talk false) "lead-000001" none

is_answered : (answered_call.result ≡ ok key) × (answered_call.gate.cycles ≡ (key, started) ∷ [])
unfolding begin_ready process_reserved authorize_processed start_authorized send_started
    finalized_lead_text answered fail_after run lookup insert has_active_cycle scan
    response_source_key validate_key claim promote starting failing reserve authorize_reserved start
    fail new_response_gate validate validate_capability validate_directive_result valid_flags
    is_blank new_decision validate_decision
is_answered = (refl, refl)

is_settled : refused_call.gate.cycles ≡ (key, failed) ∷ []
unfolding begin_ready process_reserved authorize_processed start_authorized send_started
    finalized_lead_text answered fail_after run lookup insert has_active_cycle scan
    response_source_key validate_key claim promote starting failing reserve authorize_reserved start
    fail new_response_gate validate validate_capability validate_directive_result valid_flags
    is_blank new_decision validate_decision
is_settled = refl

begin_ready-Leaves_example :
    ((refused_call.gate ≡ new_response_gate)
      × (refused_call.sent ≡ [])
      × (is_ok refused_call.result ≡ false))
    ⊎ ((r : ResponseReservation) × ((reserve new_response_gate (some (talk false)) "lead-000001").1
          ≡ ok r)
        × Leaves (talk false) "lead-000001" r.key refused_call)
begin_ready-Leaves_example =
    begin_ready-Leaves process refusing new_response_gate quiet background (talk false)
      "lead-000001" none

key_reserved :
    (reserve new_response_gate (some (talk false)) "lead-000001").1
    ≡ ok (record { key = key; state = reserved })
unfolding reserve claim lookup insert has_active_cycle scan response_source_key new_response_gate
key_reserved = refl

talk_valid : validate talk_directive ≡ ok tt
unfolding validate validate_capability validate_directive_result valid_flags new_decision
    validate_decision
talk_valid = refl

talk-Unique : Unique (talk false).turns
unfolding find
talk-Unique = (refl, (refl, tt))

id_named : is_blank "lead-000001" ≡ false
unfolding is_blank
id_named = refl

abbrev alone_call : Outcome Unit Unit
alone_call =
    begin_ready process send_to new_response_gate alone background (talk false) "lead-000001" none

begin_ready-delivers_example :
    (t : Turn) × (t.id ≡ "lead-000001")
    × LastLead t (talk false).turns
    × (alone_call.result ≡ ok key)
    × (alone_call.sent ≡ (t.text, talk_directive) ∷ [])
    × (lookup key alone_call.gate.cycles ≡ some started)
begin_ready-delivers_example =
    begin_ready-delivers process send_to new_response_gate background (talk false) "lead-000001"
      none talk-Unique id_named (λ n. refl) key_reserved refl talk_valid (λ text. refl)

-- The coordinator once the response of `alone_call` has been sent, and another caller has tried to
-- start it again.
abbrev later_coordinator : Coordinator Unit Unit Unit
later_coordinator = record {
  processor = some process;
  responder = some send_to;
  gate = some (run alone_call.gate (starts key ∷ []));
}

alone_result : alone_call.result ≡ ok key
alone_result =
    let (t, same, last, result, sent, at) =
      begin_ready-delivers process send_to new_response_gate background (talk false) "lead-000001"
        none talk-Unique id_named (λ n. refl) key_reserved refl talk_valid (λ text. refl) in
    result

begin_ready-EndsSettled_example :
    EndsSettled key (complete (some later_coordinator) key)
    × EndsSettled key (end_failed (some later_coordinator) key)
begin_ready-EndsSettled_example =
    begin_ready-EndsSettled process send_to new_response_gate alone background (talk false)
      "lead-000001" none (starts key ∷ []) later_coordinator alone_result refl
