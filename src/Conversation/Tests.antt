-- ===== src/Conversation/Tests.antt =====
-- The conversation on concrete inputs (internal/domain/conversation/conversation.go).
use agentic_voice_sdr.Base.{◌≡◌, refl, false, List, [], ◌∷◌, some, ok, err, is_blank}
use agentic_voice_sdr.Samples.{greeting, question, half_heard, talk}
use agentic_voice_sdr.Conversation.{
  ConversationState, opening, active, new_conversation_state, valid_turn, place, record_turn,
  transition, invalid_turn,
}
use agentic_voice_sdr.Conversation.Turns.{find}
use agentic_voice_sdr.Conversation.Runs.{
  Operation, records, moves, run, step, find-run_final, Unique, run-new-Unique,
}

abbrev fresh : ConversationState
fresh = record {
  id = "c1";
  stage = opening;
  turns = [];
  signals = record { lead_responded = false; opted_out = false };
}

fresh_lem : new_conversation_state "c1" ≡ ok fresh
unfolding new_conversation_state is_blank
fresh_lem = refl

abbrev history : List Operation
history =
    records greeting ∷ moves active ∷ records half_heard ∷ records question ∷ records question ∷ []

history_turns : (run fresh history).turns ≡ greeting ∷ half_heard ∷ question ∷ []
unfolding run step record_turn place valid_turn transition is_blank
history_turns = refl

blank_id : (record_turn fresh (record question { id = " " })).1 ≡ err invalid_turn
unfolding record_turn valid_turn is_blank
blank_id = refl

find-run_final_example : find "lead-000001" (run (talk false) history).turns ≡ some question
unfolding find
find-run_final_example = find-run_final (talk false) history "lead-000001" question refl refl

run-new-Unique_example : Unique (run fresh history).turns
run-new-Unique_example = run-new-Unique "c1" history fresh_lem
