-- ===== src/Turnruntime/Plans.antt =====
-- What a planned turn may execute (internal/turnruntime/runtime.go).
use mathlib.Core.Path.{◌∙◌}
use agentic_voice_sdr.Base.{
  ok-injective, Bool-cases, ◌≡◌, refl, sym, ap, subst, inl, inr, true, false, Option, none, some,
  Result, ok, err, wrap, arith, eq_iff, is_blank, is_some, >>=-eq-ok,
}
use agentic_voice_sdr.Directive.{
  is_allow, TurnDirective, OrchestratorInput, build_turn_directive, assemble,
  validate as validate_directive,
}
use agentic_voice_sdr.Conversation.{ConversationState}
use agentic_voice_sdr.Decision.{
  Decision, DecisionInput, new_decision_input, is_request, validate as validate_decision,
}
use agentic_voice_sdr.Policy.{new_tool_policy_input, evaluate_tool_policy}
use agentic_voice_sdr.Directive.Build.{built_parts, executable-allowed, validate-assemble}
use agentic_voice_sdr.Toolruntime.{ToolExecutionRequest, validate}
use agentic_voice_sdr.Turnruntime.{
  Error, CapabilityContext, Plan, answer, call, base_input, request, unwrap, validate_capability,
  plan_execution, plan_capability, plan_other, plan_turn,
}

pub wrap-eq-ok {ℓ} :
    {D E : Type 0} {A : Type ℓ} (e : E) (m : Result D A) {a : A} → wrap e m ≡ ok a → m ≡ ok a
wrap-eq-ok e (ok b) h = cc
wrap-eq-ok e (err d) h = cc

pub unwrap-eq-ok {ℓ} :
    {D E : Type 0} {A : Type ℓ} (f : D → E) (m : Result D A) {a : A} → unwrap f m ≡ ok a → m ≡ ok a
unwrap-eq-ok f (ok b) h = cc
unwrap-eq-ok f (err d) h = cc

-- Every directive that is built is a valid one.
pub build-valid :
    (i : OrchestratorInput) {d : TurnDirective}
    → build_turn_directive i ≡ ok d
    → validate_directive d ≡ ok tt
build-valid i b = let (valid, same) = built_parts i b in rw same (validate-assemble i valid)

-- A request of a turn on a conversation: its directive is built, before any tool result, from a
-- decision on the state as it is, for the request's own tool; and the dispatcher's validation of the
-- request passes.
pub record Authorized {V : Type 0} (s : ConversationState) (q : ToolExecutionRequest V)
    : Type 0 where
  pub input : OrchestratorInput
  pub from_state : new_decision_input (some s) ≡ ok input.decision_input
  pub same_tool : input.requested_tool ≡ q.tool
  pub built : build_turn_directive input ≡ ok q.directive
  pub executable : q.directive.executable ≡ true
  pub validated : validate q ≡ ok tt

abbrev pub Sound : {V : Type 0} → ConversationState → Plan V → Type 0
Sound s (answer t) = validate_directive t ≡ ok tt
Sound s (call q i) = Authorized s q

assembled_allow :
    (i : OrchestratorInput)
    → (assemble i).executable ≡ true
    → is_allow (assemble i).capability_status ≡ true
unfolding assemble
assembled_allow i x = elim (Bool-cases (is_request i.decision.next_action)) [
  | inl r ↦ rw r (ground arith)
  | inr r ↦ ground arith
]

assembled_result : (i : OrchestratorInput) → i.tool_result ≡ none → (assemble i).tool_result ≡ none
unfolding assemble
assembled_result i e = ground arith

module _ {V : Type 0} where
  validate_of_parts :
      (q : ToolExecutionRequest V)
      → validate_directive q.directive ≡ ok tt
      → is_request q.directive.kind ≡ true
      → is_blank q.tool ≡ false
      → q.directive.capability ≡ q.tool
      → is_allow q.directive.capability_status ≡ true
      → q.directive.executable ≡ true
      → q.directive.tool_result ≡ none
      → is_some q.arguments ≡ true
      → validate q ≡ ok tt
  unfolding validate
  validate_of_parts q v r b c a x t g = ground (arith, eq_iff q.tool q.directive.capability)

  -- A built directive that is executable makes a request that the dispatcher accepts.
  request-validate :
      (c : CapabilityContext V) (i : OrchestratorInput) {pre : TurnDirective}
      → build_turn_directive i ≡ ok pre
      → pre.executable ≡ true
      → i.requested_tool ≡ c.requested_tool
      → i.tool_result ≡ none
      → is_blank c.requested_tool ≡ false
      → is_some c.arguments ≡ true
      → validate (request c pre) ≡ ok tt
  request-validate c i {pre} b x same fresh named args =
      let (valid, e) = built_parts i b in
      let (asks, tool, _) = executable-allowed i b x in
      let x' : (assemble i).executable ≡ true = ap (λ d. d.executable) (sym e) ∙ x in
      validate_of_parts (request c pre) (build-valid i b) asks named (tool ∙ same)
        (rw e (assembled_allow i x')) x (rw e (assembled_result i fresh)) args

module _ {P V : Type 0} where
  validate_capability_lem :
      (o : Option (CapabilityContext V)) {c : CapabilityContext V}
      → validate_capability {P = P} o ≡ ok c
      → (is_blank c.requested_tool ≡ false) × (is_some c.arguments ≡ true)
  unfolding validate_capability
  validate_capability_lem none h = cc
  validate_capability_lem (some c) h = (ground arith, ground arith)

  plan_execution-Sound :
      (s : ConversationState) (c : CapabilityContext V) (i : OrchestratorInput) {p : Plan V}
      → new_decision_input (some s) ≡ ok i.decision_input
      → i.requested_tool ≡ c.requested_tool
      → i.tool_result ≡ none
      → is_blank c.requested_tool ≡ false
      → is_some c.arguments ≡ true
      → plan_execution {P = P} c i ≡ ok p
      → Sound s p
  unfolding plan_execution
  plan_execution-Sound s c i {p} from same fresh named args h =
      let (pre, w, rest) =
        >>=-eq-ok (wrap Error.invalid_turn_runtime (build_turn_directive i)) _ h in
      let b = wrap-eq-ok _ (build_turn_directive i) w in
      elim (Bool-cases pre.executable) [
        | inl x ↦ subst (Sound s) (ok-injective (rw x at rest)) (record {
          input = i;
          from_state = from;
          same_tool = same;
          built = b;
          executable = x;
          validated = request-validate c i b x same fresh named args;
        })
        | inr x ↦ subst (Sound s) (ok-injective (rw x at rest)) (build-valid i b)
      ]

  plan_capability-Sound :
      (s : ConversationState) (i : DecisionInput) (d : Decision) (o : Option (CapabilityContext V))
      {p : Plan V}
      → new_decision_input (some s) ≡ ok i
      → plan_capability {P = P} s i d o ≡ ok p
      → Sound s p
  unfolding plan_capability
  plan_capability-Sound s i d o {p} from h =
      let (c, vc, h1) = >>=-eq-ok (validate_capability {P = P} o) _ h in
      let (q, _, h2) =
        >>=-eq-ok
          (wrap Error.invalid_turn_runtime (new_tool_policy_input (some s) d c.requested_tool)) _
          h1 in
      let (r, _, h3) = >>=-eq-ok (wrap Error.invalid_turn_runtime (evaluate_tool_policy q)) _ h2 in
      let (named, args) = validate_capability_lem o vc in
      plan_execution-Sound s c (base_input i d c r) from refl refl named args h3

  plan_other-Sound :
      (s : ConversationState) (i : DecisionInput) (d : Decision) (o : Option (CapabilityContext V))
      {p : Plan V}
      → plan_other {P = P} i d o ≡ ok p
      → Sound s p
  unfolding plan_other
  plan_other-Sound s i d (some c) h = cc
  plan_other-Sound s i d none {p} h =
      let (t, u, h1) = >>=-eq-ok (unwrap Error.directive (build_turn_directive _)) _ h in
      subst (Sound s) (ok-injective h1) (build-valid _ (unwrap-eq-ok Error.directive _ u))

  -- Every plan of a turn is sound.
  pub plan_turn-Sound :
      (decide : DecisionInput → Result P Decision) (s : ConversationState)
      (o : Option (CapabilityContext V)) {p : Plan V}
      → plan_turn decide s o ≡ ok p
      → Sound s p
  unfolding plan_turn
  plan_turn-Sound decide s o {p} h =
      let (i, from, h1) =
        >>=-eq-ok (wrap Error.invalid_turn_runtime (new_decision_input (some s))) _ h in
      let (d, _, h2) = >>=-eq-ok (unwrap Error.provider (decide i)) _ h1 in
      let (_, _, h3) = >>=-eq-ok (wrap Error.invalid_turn_runtime (validate_decision d)) _ h2 in
      elim (Bool-cases (is_request d.next_action)) [
        | inl r ↦
            plan_capability-Sound s i d o (wrap-eq-ok _ (new_decision_input (some s)) from)
              (rw r at h3)
        | inr r ↦ plan_other-Sound s i d o (rw r at h3)
      ]
