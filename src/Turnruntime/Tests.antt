-- ===== src/Turnruntime/Tests.antt =====
-- Turns on concrete inputs (internal/turnruntime/runtime.go).
use agentic_voice_sdr.Base.{◌≡◌, refl, true, false, [], some, ok, any, background, str_eq, ◌||◌}
use agentic_voice_sdr.Tools.{callback_schedule, calendar_create_event, whats_app_send_message}
use agentic_voice_sdr.Samples.{talk, use_tool}
use agentic_voice_sdr.Directive.{succeeded}
use agentic_voice_sdr.Turnruntime.{CapabilityContext, TurnRuntime, process_turn}
use agentic_voice_sdr.Turnruntime.Safety.{Did, process_turn-Did, opted_out-no_contact}

abbrev runtime : TurnRuntime Unit Unit
runtime = record {
  provider = some (λ i. ok use_tool);
  dispatcher = some (λ q. ok (record { tool = q.tool; status = succeeded }));
}

abbrev wish : CapabilityContext Unit
wish = record { requested_tool = calendar_create_event; arguments = some []; correlation_id = "x" }

abbrev message : CapabilityContext Unit
message = record wish { requested_tool = whats_app_send_message }

process_turn-Did_example : Did (talk false) (
    process_turn
      (some runtime)
      (some background)
      (record { state = some (talk false); capability = some wish }))
process_turn-Did_example =
    process_turn-Did (some runtime) (some background) (talk false) (some wish)

opted_out-no_contact_example :
    any
      (λ q. str_eq q.tool whats_app_send_message || str_eq q.tool callback_schedule)
      (process_turn
        (some runtime)
        (some background)
        (record { state = some (talk true); capability = some message })).0
    ≡ false
opted_out-no_contact_example =
    opted_out-no_contact (some runtime) (some background) (talk true) (some message) refl
