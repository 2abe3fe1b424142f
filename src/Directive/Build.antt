-- ===== src/Directive/Build.antt =====
-- What a built directive is (internal/domain/conversation/orchestrator.go).
use mathlib.Core.Path.{subst, ap, ◌∙◌}
use agentic_voice_sdr.Base.{
  Option-cases, ◌≡◌, refl, sym, inl, inr, Bool, true, false, Option, none, some, ok, ◌>>◌, arith,
  is_blank, is_ok, Bool-cases, Result-cases,
}
use agentic_voice_sdr.Policy.{
  evaluate_tool_policy, ToolPolicyResult, allow, validate_result, valid_policy_status,
}
use agentic_voice_sdr.Directive.{
  same_policy, policy_input, validate_policy_binding, ToolResult, OrchestratorInput, TurnDirective,
  validate_policy, validate_binding, validate_result_of, validate_context, validate_input,
  validate_directive_result, validate_capability, valid_flags, validate, assemble,
  build_turn_directive, is_allow, is_end, same_bool, status_of, is_handoff,
}
use agentic_voice_sdr.Decision.{NextAction, end_conversation, is_request, new_decision}

-- A policy result that agrees with the canonical one is it.
flags_assemble : (a : NextAction) → valid_flags a (is_end a) (is_handoff a) ≡ true
unfolding valid_flags
flags_assemble end_conversation = refl
flags_assemble _ = refl

same_bool_self : (b : Bool) → same_bool b b ≡ true
same_bool_self true = refl
same_bool_self false = refl

validate_of_parts :
    (d : TurnDirective)
    → is_ok (new_decision d.kind d.reason) ≡ true
    → validate_capability d ≡ ok tt
    → valid_flags d.kind d.terminal d.handoff ≡ true
    → validate d ≡ ok tt
unfolding validate
validate_of_parts d dec cap flags = ground arith

request_of_parts :
    (d : TurnDirective)
    → is_request d.kind ≡ true
    → is_blank d.capability ≡ false
    → valid_policy_status d.capability_status ≡ true
    → d.executable ≡ is_allow d.capability_status
    → validate_directive_result d d.tool_result ≡ ok tt
    → validate_capability d ≡ ok tt
unfolding validate_capability
request_of_parts d r b v x t = ground (arith, same_bool_self (is_allow d.capability_status))

-- What a validated input for a capability holds.
record IsRequest (i : OrchestratorInput) : Type 0 where
  named : is_blank i.requested_tool ≡ false
  status : valid_policy_status (status_of i.policy) ≡ true
  result : validate_result_of i i.tool_result ≡ ok tt

input-IsRequest :
    (i : OrchestratorInput)
    → validate_input i ≡ ok tt
    → is_request i.decision.next_action ≡ true
    → IsRequest i
unfolding validate_input validate_context validate_binding validate_policy validate_result
input-IsRequest i h r = record {
  named = ground arith;
  status = ground arith;
  result = ground arith;
}

directive_result :
    (i : OrchestratorInput) (o : Option ToolResult)
    → is_request i.decision.next_action ≡ true
    → validate_result_of i o ≡ ok tt
    → validate_directive_result (assemble i) o ≡ ok tt
unfolding validate_result_of validate_directive_result assemble
directive_result i none r h = refl
directive_result i (some t) r h = rw r (ground arith)

request_side :
    (i : OrchestratorInput)
    → validate_input i ≡ ok tt
    → is_request i.decision.next_action ≡ true
    → validate_capability (assemble i) ≡ ok tt
unfolding assemble
request_side i h r =
    let v = input-IsRequest i h r in
    request_of_parts (assemble i) r (rw r v.named) (rw r v.status) (rw r refl) (
      subst (λ o. validate_directive_result (assemble i) o ≡ ok tt) (sym kept)
        (directive_result i i.tool_result r v.result))
  where
    kept : (assemble i).tool_result ≡ i.tool_result
    kept = rw r refl

other_side :
    (i : OrchestratorInput)
    → is_request i.decision.next_action ≡ false
    → validate_capability (assemble i) ≡ ok tt
unfolding validate_capability assemble
other_side i r = rw r refl

capability_assemble :
    (i : OrchestratorInput) → validate_input i ≡ ok tt → validate_capability (assemble i) ≡ ok tt
capability_assemble i h = elim (Bool-cases (is_request i.decision.next_action)) [
  | inl r ↦ request_side i h r
  | inr r ↦ other_side i r
]

decision_assemble :
    (i : OrchestratorInput)
    → validate_input i ≡ ok tt
    → is_ok (new_decision i.decision.next_action i.decision.reason) ≡ true
unfolding validate_input new_decision
decision_assemble i h = ground arith

-- An assembled directive is valid.
pub validate-assemble :
    (i : OrchestratorInput) → validate_input i ≡ ok tt → validate (assemble i) ≡ ok tt
unfolding assemble
validate-assemble i h =
    validate_of_parts (assemble i) (decision_assemble i h) (capability_assemble i h)
      (flags_assemble i.decision.next_action)

-- The check of the finished directive never fails: a directive is built exactly from the inputs that
-- validate, and is then the assembled one.
pub build_turn_directive_lem :
    (i : OrchestratorInput) → build_turn_directive i ≡ (validate_input i >> ok (assemble i))
unfolding build_turn_directive
build_turn_directive_lem i = elim (Result-cases (validate_input i)) [
  | inl (u, e) ↦ rw (e, validate-assemble i e)
  | inr (x, e) ↦ rw e
]

same_policy_allow :
    (p q : ToolPolicyResult) → same_policy p q ≡ true → is_allow p.status ≡ is_allow q.status
unfolding same_policy
same_policy_allow p q h = ground arith

canonical_allow :
    (i : OrchestratorInput) (p : ToolPolicyResult)
    → validate_policy_binding i p ≡ ok tt
    → is_allow p.status ≡ true
    → (q : ToolPolicyResult) × (evaluate_tool_policy (policy_input i) ≡ ok q) × (q.status ≡ allow)
unfolding validate_policy_binding
canonical_allow i p h a = elim (Result-cases (evaluate_tool_policy (policy_input i))) [
  | inl (q, e) ↦ (q, e, ground (arith, same_policy_allow p q))
  | inr (x, e) ↦ ground arith
]

bound_policy :
    (i : OrchestratorInput)
    → validate_input i ≡ ok tt
    → (assemble i).executable ≡ true
    → (p : ToolPolicyResult) × (validate_policy_binding i p ≡ ok tt) × (is_allow p.status ≡ true)
unfolding validate_input validate_context validate_binding assemble
bound_policy i h x = elim (Option-cases i.policy) [
  | inl e ↦ ground arith
  | inr (p, e) ↦ (p, ground arith, ground arith)
]

-- A built directive comes from a valid input, and is the assembled one.
pub built_parts :
    (i : OrchestratorInput) {d : TurnDirective}
    → build_turn_directive i ≡ ok d
    → (validate_input i ≡ ok tt) × (d ≡ assemble i)
built_parts i b = elim (Result-cases (validate_input i)) [
  | inl (u, e) ↦ (e, ground (arith, build_turn_directive_lem i))
  | inr (x, e) ↦ ground (arith, build_turn_directive_lem i)
]

assembled_request :
    (i : OrchestratorInput)
    → (assemble i).executable ≡ true
    → (is_request (assemble i).kind ≡ true) × ((assemble i).capability ≡ i.requested_tool)
unfolding assemble
assembled_request i x = elim (Bool-cases (is_request i.decision.next_action)) [
  | inl r ↦ (r, rw r refl)
  | inr r ↦ ground arith
]

-- A built directive that may be executed asks for the requested tool, and the tool policy, evaluated
-- anew on the decision's own input, allows that tool: the policy result that the caller hands in
-- cannot open what the policy does not.
pub executable-allowed :
    (i : OrchestratorInput) {d : TurnDirective}
    → build_turn_directive i ≡ ok d
    → d.executable ≡ true
    → (is_request d.kind ≡ true)
      × (d.capability ≡ i.requested_tool)
      × ((q : ToolPolicyResult) × (evaluate_tool_policy (policy_input i) ≡ ok q)
          × (q.status ≡ allow))
executable-allowed i {d} b x =
    let (valid, same) = built_parts i b in
    let asked : (assemble i).executable ≡ true = ap (λ e. e.executable) (sym same) ∙ x in
    let parts = assembled_request i asked in
    let (p, bound, allows) = bound_policy i valid asked in
    (rw same parts.0, rw same parts.1, canonical_allow i p bound allows)
