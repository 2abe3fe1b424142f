-- ===== src/Decision/Tests.antt =====
-- Decisions and the scripted provider on concrete inputs (internal/domain/conversation/advisor.go).
use agentic_voice_sdr.Base.{◌≡◌, ◌↔◌, List, [], ◌∷◌, ok}
use agentic_voice_sdr.Samples.{use_tool, go_on}
use agentic_voice_sdr.Decision.{Decision, validate, propose_scheduling, interest_confirmed}
use agentic_voice_sdr.Decision.Script.{Allowed, validate-Allowed, ScriptedDecisionProvider}

abbrev interest : Decision
interest = record { next_action = propose_scheduling; reason = interest_confirmed }

validate-Allowed_example :
    (validate interest ≡ ok tt) ↔ Allowed propose_scheduling interest_confirmed
validate-Allowed_example = validate-Allowed interest

abbrev script : List Decision
script = go_on ∷ use_tool ∷ []

abbrev scripted : ScriptedDecisionProvider
scripted = record { decisions = script; next = 0 }
