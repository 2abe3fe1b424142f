-- ===== src/Toolruntime/Tests.antt =====
-- The dispatcher on concrete inputs (internal/toolruntime/dispatcher.go).
use agentic_voice_sdr.Base.{
  ◌≡◌, refl, ◌⊎◌, false, [], ◌∷◌, none, some, ok, is_ok, is_blank, background,
}
use agentic_voice_sdr.Decision.{new_decision, validate as validate_decision}
use agentic_voice_sdr.Policy.{valid_policy_status}
use agentic_voice_sdr.Samples.{event_directive}
use agentic_voice_sdr.Tools.{calendar_create_event}
use agentic_voice_sdr.Directive.{
  ToolResult, succeeded, validate as validate_directive, validate_capability,
  validate_directive_result, valid_flags, validate_tool_result,
}
use agentic_voice_sdr.Toolruntime.{
  Executor, ExecutorRegistry, ToolExecutionRequest, Dispatcher, validate, accept, select, dispatch,
  find, resolve, known_definition,
}
use agentic_voice_sdr.Toolruntime.Dispatch.{Executable, dispatch_lem}

abbrev done : ToolResult
done = record { tool = calendar_create_event; status = succeeded }

abbrev create : Executor Unit
create q = ok done

abbrev registry : ExecutorRegistry Unit
registry = record { executors = (calendar_create_event, create) ∷ [] }

abbrev dispatcher : Dispatcher Unit
dispatcher = record { definitions = some (λ name. none); executors = some registry }

abbrev order : ToolExecutionRequest Unit
order = record {
  tool = calendar_create_event;
  arguments = some [];
  correlation_id = "x";
  directive = event_directive;
}

order_executed : dispatch (some dispatcher) (some background) order ≡ (order ∷ [], ok done)
unfolding dispatch validate accept select find resolve known_definition validate_directive
    validate_capability validate_directive_result valid_flags validate_tool_result is_blank
    new_decision validate_decision valid_policy_status
order_executed = refl

dispatch_lem_example :
    (((dispatch (some dispatcher) (some background) order).0 ≡ [])
      × (is_ok (dispatch (some dispatcher) (some background) order).1 ≡ false))
    ⊎ (((dispatch (some dispatcher) (some background) order).0 ≡ order ∷ [])
        × Executable order
        × ((r : ToolResult)
            → (dispatch (some dispatcher) (some background) order).1 ≡ ok r
            → (r.tool ≡ order.tool) × (validate_tool_result r ≡ ok tt)))
dispatch_lem_example = dispatch_lem (some dispatcher) (some background) order
