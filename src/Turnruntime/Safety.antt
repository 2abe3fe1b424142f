-- ===== src/Turnruntime/Safety.antt =====
-- What a turn executes and what it returns (internal/turnruntime/runtime.go).
use mathlib.Core.Path.{◌∙◌}
use mathlib.Core.Bool.{true≢false}
use agentic_voice_sdr.Turnruntime.Plans.{
  unwrap-eq-ok, build-valid, Authorized, Sound, plan_turn-Sound,
}
use agentic_voice_sdr.Base.{
  any, Result-cases, str_eq, ◌||◌, ok-injective, ◌≡◌, refl, sym, ap, subst, ◌⊎◌, inl, inr, true,
  false, List, [], ◌∷◌, Option, some, Result, ok, err, arith, Context, Option-cases, >>=-eq-ok,
}
use agentic_voice_sdr.Tools.{whats_app_send_message, callback_schedule}
use agentic_voice_sdr.Policy.{is_contact_tool}
use agentic_voice_sdr.Turnruntime.{
  parts, Parts, Error, CapabilityContext, TurnRuntime, Plan, answer, call, unwrap, plan_turn,
  finish, carry_out, planned, process_turn, dispatch_error,
}
use agentic_voice_sdr.Policy.Safety.{allow_iff}
use agentic_voice_sdr.Conversation.{ConversationState}
use agentic_voice_sdr.Decision.{DecisionInput, new_decision_input}
use agentic_voice_sdr.Directive.{
  TurnDirective, ToolResult, OrchestratorInput, policy_input, validate as validate_directive,
}
use agentic_voice_sdr.Directive.Build.{executable-allowed}
use agentic_voice_sdr.Toolruntime.{ToolExecutionRequest, Error as DispatchError}

module _ {P : Type 0} where
  finish-valid :
      (i : OrchestratorInput) (a : Result DispatchError ToolResult) {t : TurnDirective}
      → finish {P = P} i a ≡ ok t
      → validate_directive t ≡ ok tt
  unfolding finish
  finish-valid i a {t} h =
      let (r, _, h1) = >>=-eq-ok (unwrap dispatch_error a) _ h in
      build-valid (record i { tool_result = some r }) (unwrap-eq-ok Error.directive _ h1)

module _ {P V : Type 0} where
  -- What a turn did: nothing was dispatched, or one request that is authorized by the state; and the
  -- directive that is returned, if one is, is valid.
  abbrev pub Did :
      ConversationState → List (ToolExecutionRequest V) × Result (Error P) TurnDirective → Type 0
  Did s r =
      ((r.0 ≡ []) ⊎ ((q : ToolExecutionRequest V) × (r.0 ≡ q ∷ []) × Authorized s q))
      × ((t : TurnDirective) → r.1 ≡ ok t → validate_directive t ≡ ok tt)

  carry_out-Did :
      (dispatch : ToolExecutionRequest V → Result DispatchError ToolResult) (ctx : Context)
      (s : ConversationState) (p : Plan V)
      → Sound s p
      → Did s (carry_out dispatch ctx p)
  unfolding carry_out
  carry_out-Did dispatch ctx s (answer t) v =
      (inl refl, λ t' e. subst (λ d. validate_directive d ≡ ok tt) (ok-injective e) v)
  carry_out-Did dispatch ctx s (call q i) v = elim (Option-cases (ctx.err_at 1)) [
    | inl e ↦ rw (e, carry_out) (inr (q, refl, v), λ t f. finish-valid i (dispatch q) f)
    | inr (x, e) ↦ rw (e, carry_out) (inl refl, λ t f. cc)
  ]

  planned-Did :
      (dispatch : ToolExecutionRequest V → Result DispatchError ToolResult) (ctx : Context)
      (s : ConversationState) (m : Result (Error P) (Plan V))
      → ((p : Plan V) → m ≡ ok p → Sound s p)
      → Did s (planned dispatch ctx m)
  planned-Did dispatch ctx s (err e) sound = (inl refl, λ t f. cc)
  planned-Did dispatch ctx s (ok p) sound = carry_out-Did dispatch ctx s p (sound p refl)

  parts_state :
      (r : Option (TurnRuntime P V)) (ctx : Option Context) (s : ConversationState)
      (o : Option (CapabilityContext V)) {x : Parts P V}
      → parts r ctx (record { state = some s; capability = o }) ≡ ok x
      → x.2 ≡ s
  unfolding parts
  parts_state r ctx s o h = ground arith

  -- A turn on a conversation dispatches at most one request, whatever the provider decides and the
  -- dispatcher answers: one for the tool of a directive that is built from the conversation's state,
  -- is executable, and passes the dispatcher's validation. And every directive that a turn returns is
  -- valid.
  pub process_turn-Did :
      (r : Option (TurnRuntime P V)) (ctx : Option Context) (s : ConversationState)
      (o : Option (CapabilityContext V))
      → Did s (process_turn r ctx (record { state = some s; capability = o }))
  unfolding process_turn
  process_turn-Did r ctx s o =
      elim (Result-cases (parts r ctx (record { state = some s; capability = o }))) [
        | inr (x, e) ↦ rw (e, process_turn) (inl refl, λ t f. cc)
        | inl (x, e) ↦
            rw (e, process_turn)
              (planned-Did x.1 x.3 s (plan_turn x.0 x.2 o) (λ p h.
                subst (λ u. Sound u p) (parts_state r ctx s o e) (plan_turn-Sound x.0 x.2 o h)))
      ]

input_signals :
    (s : ConversationState) {i : DecisionInput}
    → new_decision_input (some s) ≡ ok i
    → i.signals ≡ s.signals
unfolding new_decision_input
input_signals s h = ground arith

Authorized-no_contact :
    {V : Type 0} (s : ConversationState) (q : ToolExecutionRequest V)
    → s.signals.opted_out ≡ true
    → Authorized s q
    → is_contact_tool q.tool ≡ false
Authorized-no_contact s q out a =
    let (_, _, (p, evaluated, allowed)) = executable-allowed a.input a.built a.executable in
    let (_, free, _, _) = (allow_iff (policy_input a.input) evaluated).0 allowed in
    let told : a.input.decision_input.signals ≡ s.signals = input_signals s a.from_state in
    subst (λ t. is_contact_tool t ≡ false) a.same_tool
      (elim free [
        | inl open_to ↦ absurd (true≢false (sym out ∙ sym (ap (λ g. g.opted_out) told) ∙ open_to))
        | inr other ↦ other
      ])

module _ {P V : Type 0} where
  contactless :
      (r : Option (TurnRuntime P V)) (ctx : Option Context) (s : ConversationState)
      (o : Option (CapabilityContext V))
      → s.signals.opted_out ≡ true
      → any
          (λ q. is_contact_tool q.tool)
          (process_turn r ctx (record { state = some s; capability = o })).0
        ≡ false
  contactless r ctx s o out = elim (process_turn-Did r ctx s o).0 [
    | inl e ↦ rw e refl
    | inr (q, e, a) ↦ rw (e, Authorized-no_contact s q out a) refl
  ]

  -- After the lead has opted out, a turn dispatches neither a message nor a callback: whatever the
  -- provider decides, the caller requests and the dispatcher answers.
  pub opted_out-no_contact :
      (r : Option (TurnRuntime P V)) (ctx : Option Context) (s : ConversationState)
      (o : Option (CapabilityContext V))
      → s.signals.opted_out ≡ true
      → any
          (λ q. str_eq q.tool whats_app_send_message || str_eq q.tool callback_schedule)
          (process_turn r ctx (record { state = some s; capability = o })).0
        ≡ false
  opted_out-no_contact r ctx s o out = unfold is_contact_tool in contactless r ctx s o out
