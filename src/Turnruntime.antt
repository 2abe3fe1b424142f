-- ===== src/Turnruntime.antt =====
-- internal/turnruntime/runtime.go: one turn, from a decision over the policy to a directive.
-- The provider of decisions and the dispatcher are parameters; a call of the dispatcher is written
-- down. `ctx.Err()` is read at two places: at the start (0) and before the dispatch (1).
pub mod Plans
pub mod Safety
pub mod Tests
use agentic_voice_sdr.Base.{
  ℕ, String, Bool, true, false, not, ◌&&◌, ◌||◌, List, [], ◌∷◌, Option, none, some, Result, ok, err,
  ◌>>=◌, ◌>>◌, guard, wrap, if◌then◌else◌, str_eq, is_blank, is_some, Context, CtxError,
}
use agentic_voice_sdr.Conversation.{ConversationState}
use agentic_voice_sdr.Decision.{
  Decision, DecisionInput, new_decision_input, is_request, validate as validate_decision,
}
use agentic_voice_sdr.Policy.{ToolPolicyResult, new_tool_policy_input, evaluate_tool_policy}
use agentic_voice_sdr.Directive.{
  TurnDirective, ToolResult, OrchestratorInput, build_turn_directive, Error as DirectiveError,
}
use agentic_voice_sdr.Toolruntime.{ToolExecutionRequest, Error as DispatchError}
use agentic_voice_sdr.Toolruntime

pub data Error (P : Type 0) : Type 0 where
  invalid_turn_runtime capability_context_required unexpected_capability_context : Error P
  tool_dispatch_failed : Error P
  provider : P → Error P
  directive : DirectiveError → Error P
  context : CtxError → Error P

pub record CapabilityContext (V : Type 0) : Type 0 where
  pub requested_tool : String
  pub arguments : Option (List (String × V))
  pub correlation_id : String

pub record TurnInput (V : Type 0) : Type 0 where
  pub state : Option ConversationState
  pub capability : Option (CapabilityContext V)

-- The two dependencies; either may be nil.
pub record TurnRuntime (P V : Type 0) : Type 0 where
  pub provider : Option (DecisionInput → Result P Decision)
  pub dispatcher : Option (ToolExecutionRequest V → Result DispatchError ToolResult)

-- What is to be done for a decision: the directive is finished, or a request is to be dispatched and
-- the directive to be built from the input with the tool's result.
pub data Plan (V : Type 0) : Type 0 where
  answer : TurnDirective → Plan V
  call : ToolExecutionRequest V → OrchestratorInput → Plan V

abbrev pub unwrap {ℓ} : {D E : Type 0} {A : Type ℓ} → (D → E) → Result D A → Result E A
unwrap f (ok a) = ok a
unwrap f (err d) = err (f d)

abbrev pub ctx_check : {P : Type 0} → Context → ℕ → Result (Error P) (Unit {0})
ctx_check ctx n = elim (ctx.err_at n) [ none ↦ ok tt | some e ↦ err (context e) ]

module _ {V : Type 0} where
  abbrev pub base_input :
      DecisionInput → Decision → CapabilityContext V → ToolPolicyResult → OrchestratorInput
  base_input i d c p = record {
    decision_input = i;
    decision = d;
    requested_tool = c.requested_tool;
    policy = some p;
    tool_result = none;
  }

  abbrev pub request : CapabilityContext V → TurnDirective → ToolExecutionRequest V
  request c pre = record {
    tool = c.requested_tool;
    arguments = c.arguments;
    correlation_id = c.correlation_id;
    directive = pre;
  }

module _ {P : Type 0} where
  abbrev pub dispatch_error : DispatchError → Error P
  dispatch_error (DispatchError.context c) = context c
  dispatch_error _ = tool_dispatch_failed

  -- The dispatch of a request, and the directive with its result.
  unfoldable pub finish :
      OrchestratorInput → Result DispatchError ToolResult → Result (Error P) TurnDirective
  finish i a = do
    r ← unwrap dispatch_error a
    unwrap directive (build_turn_directive (record i { tool_result = some r }))

-- The guards of `ProcessTurn` on nil values and a context that is over, as the parts that are there.
abbrev pub Parts : Type 0 → Type 0 → Type 0
Parts P V =
    (DecisionInput → Result P Decision)
    × (ToolExecutionRequest V → Result DispatchError ToolResult)
    × ConversationState
    × Context

module _ {P V : Type 0} where
  -- `CapabilityContext.Validate`.
  unfoldable pub validate_capability :
      Option (CapabilityContext V) → Result (Error P) (CapabilityContext V)
  validate_capability none = err capability_context_required
  validate_capability (some c) =
      guard (not (is_blank c.requested_tool) && is_some c.arguments) capability_context_required
      >> ok c

  -- The directive before the execution, and whether it is to be executed.
  unfoldable pub plan_execution :
      CapabilityContext V → OrchestratorInput → Result (Error P) (Plan V)
  plan_execution c i = do
    pre ← wrap invalid_turn_runtime (build_turn_directive i)
    ok (if not pre.executable then answer pre else call (request c pre) i)

  unfoldable pub plan_capability :
      ConversationState
      → DecisionInput
      → Decision
      → Option (CapabilityContext V)
      → Result (Error P) (Plan V)
  plan_capability s i d capability = do
    c ← validate_capability capability
    q ← wrap invalid_turn_runtime (new_tool_policy_input (some s) d c.requested_tool)
    p ← wrap invalid_turn_runtime (evaluate_tool_policy q)
    plan_execution c (base_input i d c p)

  unfoldable pub plan_other :
      DecisionInput → Decision → Option (CapabilityContext V) → Result (Error P) (Plan V)
  plan_other i d (some c) = err unexpected_capability_context
  plan_other i d none = do
    t ← unwrap directive (
        build_turn_directive (record {
          decision_input = i;
          decision = d;
          requested_tool = "";
          policy = none;
          tool_result = none;
        }))
    ok (answer t)

  unfoldable pub plan_turn :
      (DecisionInput → Result P Decision)
      → ConversationState
      → Option (CapabilityContext V)
      → Result (Error P) (Plan V)
  plan_turn decide s capability = do
    i ← wrap invalid_turn_runtime (new_decision_input (some s))
    d ← unwrap provider (decide i)
    wrap invalid_turn_runtime (validate_decision d)
    if is_request d.next_action then plan_capability s i d capability else plan_other i d capability

  unfoldable pub carry_out :
      (ToolExecutionRequest V → Result DispatchError ToolResult)
      → Context
      → Plan V
      → List (ToolExecutionRequest V) × Result (Error P) TurnDirective
  carry_out dispatch ctx (answer t) = ([], ok t)
  carry_out dispatch ctx (call q i) = elim (ctx.err_at 1) [
    | some e ↦ ([], err (context e))
    | none ↦ (q ∷ [], finish i (dispatch q))
  ]

  abbrev pub planned :
      (ToolExecutionRequest V → Result DispatchError ToolResult)
      → Context
      → Result (Error P) (Plan V)
      → List (ToolExecutionRequest V) × Result (Error P) TurnDirective
  planned dispatch ctx (err e) = ([], err e)
  planned dispatch ctx (ok p) = carry_out dispatch ctx p

  unfoldable pub parts :
      Option (TurnRuntime P V) → Option Context → TurnInput V → Result (Error P) (Parts P V)
  parts none ctx input = err invalid_turn_runtime
  parts (some r) ctx input = elim r.provider [
    | none ↦ err invalid_turn_runtime
    | some decide ↦ elim r.dispatcher [
      | none ↦ err invalid_turn_runtime
      | some dispatch ↦ elim input.state [
        | none ↦ err invalid_turn_runtime
        | some s ↦ elim ctx [
          | none ↦ err invalid_turn_runtime
          | some c ↦ ctx_check c 0 >> ok (decide, dispatch, s, c)
        ]
      ]
    ]
  ]

  -- `ProcessTurn`: the requests that are dispatched, and the directive.
  unfoldable pub process_turn :
      Option (TurnRuntime P V)
      → Option Context
      → TurnInput V
      → List (ToolExecutionRequest V) × Result (Error P) TurnDirective
  process_turn r ctx input = elim (parts r ctx input) [
    | err e ↦ ([], err e)
    | ok (decide, dispatch, s, c) ↦ planned dispatch c (plan_turn decide s input.capability)
  ]
