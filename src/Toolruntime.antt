-- ===== src/Toolruntime.antt =====
-- internal/toolruntime/dispatcher.go: the boundary between a directive and a tool's executor.
-- Executors and the values of arguments are parameters; a call of an executor is written down.
pub mod Dispatch
pub mod Registry
pub mod Tests
use agentic_voice_sdr.Base.{
  ℕ, String, Bool, true, false, not, ◌&&◌, ◌||◌, List, [], ◌∷◌, Option, none, some, Result, ok, err,
  ◌>>=◌, ◌>>◌, guard, wrap, if◌then◌else◌, str_eq, is_blank, is_some, Context, CtxError,
}
use agentic_voice_sdr.Decision.{is_request}
use agentic_voice_sdr.Directive.{
  TurnDirective, ToolResult, is_allow, validate_tool_result, validate as validate_directive,
}

pub data Error : Type 0 where
  invalid_tool_execution_request unknown_tool tool_not_executable tool_executor_not_found : Error
  tool_execution_failed invalid_tool_execution_result duplicate_tool_executor : Error
  context : CtxError → Error

-- What an executor's error is to `errors.Is`: a canceled or expired context, or another one.
pub data ExecuteError : Type 0 where
  context : CtxError → ExecuteError
  other : String → ExecuteError

-- What a registry of definitions answers for a name that it does not return.
pub data GetError : Type 0 where
  unknown : GetError
  other : String → GetError

unfoldable pub known_definition : (String → Option GetError) → String → Result Error (Unit {0})
known_definition get name = elim (get name) [
  | none ↦ ok tt
  | some unknown ↦ err unknown_tool
  | some (GetError.other s) ↦ err invalid_tool_execution_request
]

pub record ToolExecutionRequest (V : Type 0) : Type 0 where
  pub tool : String
  pub arguments : Option (List (String × V))
  pub correlation_id : String
  pub directive : TurnDirective

module _ {V : Type 0} where
  -- `ToolExecutionRequest.Validate`.
  unfoldable pub validate : ToolExecutionRequest V → Result Error (Unit {0})
  validate r = do
    wrap invalid_tool_execution_request (validate_directive r.directive)
    guard (is_request r.directive.kind) invalid_tool_execution_request
    guard (not (is_blank r.tool || not (str_eq r.tool r.directive.capability)))
        invalid_tool_execution_request
    guard (is_allow r.directive.capability_status && r.directive.executable) tool_not_executable
    guard (not (is_some r.directive.tool_result)) tool_not_executable
    guard (is_some r.arguments) invalid_tool_execution_request

-- An executor; nil is none where a registry is filled.
abbrev pub Executor : Type 0 → Type 0
Executor V = ToolExecutionRequest V → Result ExecuteError ToolResult

pub record ExecutorRegistry (V : Type 0) : Type 0 where
  pub executors : List (String × Executor V)

module _ {V : Type 0} where
  unfoldable pub find : String → List (String × Executor V) → Option (Executor V)
  find name [] = none
  find name ((n, e) ∷ m) = if str_eq n name then some e else find name m

  -- `registry.executors[name] = executor`.
  unfoldable pub put : String → Executor V → List (String × Executor V) → List (String × Executor V)
  put name x [] = (name, x) ∷ []
  put name x ((n, e) ∷ m) = if str_eq n name then (name, x) ∷ m else (n, e) ∷ put name x m

  -- The loop of `NewExecutorRegistry` over the map's entries.
  unfoldable pub fill :
      List (String × Option (Executor V)) → List (String × Executor V) → List (String × Executor V)
  fill [] m = m
  fill ((n, none) ∷ r) m = fill r m
  fill ((n, some e) ∷ r) m = fill r (if is_blank n then m else put n e m)

  unfoldable pub new_executor_registry : List (String × Option (Executor V)) → ExecutorRegistry V
  unfolding fill
  new_executor_registry initial = record { executors = fill initial [] }

  unfoldable pub register :
      ExecutorRegistry V
      → String
      → Option (Executor V)
      → ExecutorRegistry V × Result Error (Unit {0})
  register g name none = (g, err invalid_tool_execution_request)
  register g name (some e) =
      if is_blank name
      then (g, err invalid_tool_execution_request)
      else (if is_some (find name g.executors)
          then (g, err duplicate_tool_executor)
          else (record { executors = put name e g.executors }, ok tt))

  unfoldable pub resolve : ExecutorRegistry V → String → Option (Executor V)
  resolve g name = find name g.executors

  -- What `Dispatch` makes of an executor's answer.
  unfoldable pub accept :
      ToolExecutionRequest V → Result ExecuteError ToolResult → Result Error ToolResult
  accept q (err (ExecuteError.context c)) = err (context c)
  accept q (err (ExecuteError.other s)) = err tool_execution_failed
  accept q (ok r) = do
    wrap invalid_tool_execution_result (validate_tool_result r)
    guard (str_eq r.tool q.tool) invalid_tool_execution_result
    ok r

-- The dispatcher's registries; either may be nil.
pub record Dispatcher (V : Type 0) : Type 0 where
  pub definitions : Option (String → Option GetError)
  pub executors : Option (ExecutorRegistry V)

module _ {V : Type 0} where
  -- The executor for a request, past the checks: which one is called, or why none is.
  unfoldable pub select : Option (Dispatcher V) → ToolExecutionRequest V → Result Error (Executor V)
  select none q = err invalid_tool_execution_request
  select (some d) q = elim d.definitions [
    | none ↦ err invalid_tool_execution_request
    | some get ↦ elim d.executors [
      | none ↦ err invalid_tool_execution_request
      | some g ↦
          known_definition get q.tool
          >> (elim (resolve g q.tool) [ none ↦ err tool_executor_not_found | some e ↦ ok e ])
    ]
  ]

  -- `Dispatch`: the requests that are handed to an executor, and the result.
  unfoldable pub dispatch :
      Option (Dispatcher V)
      → Option Context
      → ToolExecutionRequest V
      → List (ToolExecutionRequest V) × Result Error ToolResult
  dispatch d none q = ([], err invalid_tool_execution_request)
  dispatch d (some ctx) q = elim (validate q >> select d q) [
    | err e ↦ ([], err e)
    | ok execute ↦ (q ∷ [], accept q (execute q))
  ]
