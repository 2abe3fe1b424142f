-- ===== src/Toolruntime/Dispatch.antt =====
-- What is executed, and what comes back (internal/toolruntime/dispatcher.go).
use agentic_voice_sdr.Base.{
  >>-eq-ok, Result-cases, ◌>>◌, eq_iff, ◌≡◌, refl, ◌⊎◌, inl, inr, true, false, [], ◌∷◌, Option,
  none, some, Result, ok, err, arith, is_some, is_ok, Context,
}
use agentic_voice_sdr.Toolruntime.{
  accept, select, ExecuteError, ToolExecutionRequest, Dispatcher, validate, dispatch,
}
use agentic_voice_sdr.Directive.{ToolResult, validate_tool_result, validate as validate_directive}
use agentic_voice_sdr.Policy.{allow}

module _ {V : Type 0} where
  -- What may be handed to an executor.
  pub record Executable (q : ToolExecutionRequest V) : Type 0 where
    pub valid : validate_directive q.directive ≡ ok tt
    pub authorized : q.tool ≡ q.directive.capability
    pub allowed : q.directive.capability_status ≡ allow
    pub executable : q.directive.executable ≡ true
    pub fresh : q.directive.tool_result ≡ none
    pub has_arguments : is_some q.arguments ≡ true

  validate-Executable : (q : ToolExecutionRequest V) → validate q ≡ ok tt → Executable q
  unfolding validate
  validate-Executable q h = record {
    valid = ground arith;
    authorized = ground (arith, eq_iff q.tool q.directive.capability);
    allowed = ground arith;
    executable = ground arith;
    fresh = ground arith;
    has_arguments = ground arith;
  }

  accept_lem :
      (q : ToolExecutionRequest V) (a : Result ExecuteError ToolResult) (r : ToolResult)
      → accept q a ≡ ok r
      → (r.tool ≡ q.tool) × (validate_tool_result r ≡ ok tt)
  unfolding accept
  accept_lem q (err (ExecuteError.context c)) r h = cc
  accept_lem q (err (ExecuteError.other s)) r h = cc
  accept_lem q (ok a) r h = (ground (arith, eq_iff a.tool q.tool), ground arith)

  -- A dispatch calls an executor at most once. If it calls one, then with the request itself, which
  -- is for the tool that its valid, allowed and executable directive names, not yet answered, and
  -- with arguments; and if it returns a result, an executor was called and the result is a valid one
  -- for the tool that was asked for.
  pub dispatch_lem :
      (d : Option (Dispatcher V)) (ctx : Option Context) (q : ToolExecutionRequest V)
      → (((dispatch d ctx q).0 ≡ []) × (is_ok (dispatch d ctx q).1 ≡ false))
        ⊎ (((dispatch d ctx q).0 ≡ q ∷ [])
            × Executable q
            × ((r : ToolResult)
                → (dispatch d ctx q).1 ≡ ok r
                → (r.tool ≡ q.tool) × (validate_tool_result r ≡ ok tt)))
  unfolding dispatch
  dispatch_lem d none q = inl (refl, refl)
  dispatch_lem d (some ctx) q = elim (Result-cases (validate q >> select d q)) [
    | inl (execute, e) ↦
        rw (e, dispatch)
          (inr (
            refl,
            validate-Executable q (>>-eq-ok (validate q) (select d q) e),
            accept_lem q (execute q),
          ))
    | inr (x, e) ↦ rw (e, dispatch) (inl (refl, refl))
  ]
