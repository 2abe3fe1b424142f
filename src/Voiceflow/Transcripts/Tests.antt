-- ===== src/Voiceflow/Transcripts/Tests.antt =====
-- Final transcripts on concrete inputs (internal/voiceflow/transcript_handler.go).
use agentic_voice_sdr.Base.{
  ◌≡◌, refl, false, none, some, ok, arith, any, str_eq, background, is_blank, trim_space,
}
use agentic_voice_sdr.Samples.{talk, talk_directive}
use agentic_voice_sdr.Conversation.{
  lead, final, valid_turn, new_turn, place, record_turn, update_signals,
}
use agentic_voice_sdr.Decision.{new_decision, validate as validate_decision}
use agentic_voice_sdr.Directive.{
  validate, validate_capability, validate_directive_result, valid_flags,
}
use agentic_voice_sdr.Gate.{
  ResponseKey, reserve, new_response_gate, lookup, insert, has_active_cycle, scan,
  response_source_key, validate_key, claim, promote, starting, authorize_reserved, start,
}
use agentic_voice_sdr.Gate.Runs.{run}
use agentic_voice_sdr.Turnloop.{
  begin, begin_ready, process_reserved, authorize_processed, start_authorized, send_started,
  finalized_lead_text, answered,
}
use agentic_voice_sdr.Turnloop.Delivery.{alone}
use agentic_voice_sdr.Base.Text.{byte_length, digit, put_digits}
use agentic_voice_sdr.Voiceflow.Transcripts.{
  FinalTranscriptHandler, six, lead_id, lead_suffix, value, counted, seed_lead_sequence, begun,
  recorded, handle_final_text,
}
use agentic_voice_sdr.Voiceflow.Transcripts.Sequence.{lead_id_fresh}
use agentic_voice_sdr.Voiceflow.Transcripts.Turns.{Binds, handle_final_text-Binds}

second : lead_id 2 ≡ "lead-000002"
unfolding lead_id put_digits six digit
second = refl

seven_digits : lead_id 1234567 ≡ "lead-1234567"
unfolding lead_id put_digits six digit
seven_digits = refl

seeded : seed_lead_sequence 0 (talk false).turns ≡ 1
unfolding seed_lead_sequence counted lead_suffix byte_length value
seeded = refl

lead_id_fresh_example : any (λ t. str_eq t.id (lead_id 2)) (talk false).turns ≡ false
lead_id_fresh_example = lead_id_fresh (talk false).turns 0 2 (omega (arith, seeded)) (omega arith)

abbrev handler : FinalTranscriptHandler Unit Unit Unit
handler = record {
  state = talk false;
  coordinator = record {
    processor = some (λ i. ok talk_directive);
    responder = some (λ text d. ok tt);
    gate = some new_response_gate;
  };
  capability = none;
  next_lead = 1;
}

abbrev key : ResponseKey
key = record { conversation_id = "c1"; source_turn_id = lead_id 2 }

key_bound : (handle_final_text alone (some background) handler " and now ").1 ≡ some key
unfolding handle_final_text recorded begun new_turn valid_turn record_turn place update_signals
    trim_space is_blank begin begin_ready process_reserved authorize_processed start_authorized
    send_started finalized_lead_text answered run reserve claim authorize_reserved start promote
    starting lookup insert has_active_cycle scan response_source_key validate_key new_response_gate
    validate validate_capability validate_directive_result valid_flags new_decision
    validate_decision lead_id put_digits six digit
key_bound = refl

handle_final_text-Binds_example :
    Binds alone
      (some background)
      (record handler { next_lead = 2 })
      (record { id = lead_id 2; role = lead; text = trim_space " and now "; transcript = final })
      key
      (handle_final_text alone (some background) handler " and now ")
handle_final_text-Binds_example =
    handle_final_text-Binds alone (some background) handler " and now " key_bound
