-- ===== src/Policy/Safety.antt =====
-- What the tool policy never allows (internal/domain/conversation/tool_policy.go).
use agentic_voice_sdr.Base.{
  String, ◌≡◌, refl, ◌≢◌, ◌↔◌, ◌⊎◌, inl, inr, true, false, ◌&&◌, ok, arith, str_eq, eq_iff,
}
use agentic_voice_sdr.Tools.{
  calendar_check_availability, whats_app_send_message, memory_search, callback_schedule,
}
use agentic_voice_sdr.Conversation.{opening, ended}
use agentic_voice_sdr.Decision.{propose_scheduling, request_capability, is_request}
use agentic_voice_sdr.Policy.{
  is_unknown, is_opening, is_scheduling, allowed_by_decision, is_side_effect, ToolEffect, read,
  side_effect, unknown, ToolPolicyInput, ToolPolicyResult, allow, classify_tool_effect,
  is_contact_tool, validate_input, same_effect, decide_policy, evaluate_tool_policy,
}

-- Past validation the effect of an input is the one that its tool is classified by.
effect_of_valid :
    (i : ToolPolicyInput)
    → validate_input i ≡ ok tt
    → same_effect i.effect (classify_tool_effect i.requested_tool) ≡ true
unfolding validate_input
effect_of_valid i h = ground arith

read_tool :
    (name : String)
    → classify_tool_effect name ≡ read
    → (name ≡ calendar_check_availability) ⊎ (name ≡ memory_search)
unfolding classify_tool_effect
read_tool name h =
    ground (arith, eq_iff name calendar_check_availability, eq_iff name memory_search)

contact_name :
    (name : String)
    → is_contact_tool name ≡ true
    → (name ≡ whats_app_send_message) ⊎ (name ≡ callback_schedule)
unfolding is_contact_tool
contact_name name h =
    ground (arith, eq_iff name whats_app_send_message, eq_iff name callback_schedule)

contact_effect :
    (name : String) → is_contact_tool name ≡ true → classify_tool_effect name ≡ side_effect
unfolding classify_tool_effect is_contact_tool
contact_effect name h = elim (contact_name name h) [ inl e ↦ rw e | inr e ↦ rw e ]

-- The decision calls for the tool.
abbrev pub Calls : ToolPolicyInput → Type 0
Calls i =
    ((i.decision.next_action ≡ request_capability)
      × (classify_tool_effect i.requested_tool ≡ side_effect → i.decision_input.stage ≢ opening))
    ⊎ ((i.decision.next_action ≡ propose_scheduling)
        × (i.requested_tool ≡ calendar_check_availability))

read_calendar : classify_tool_effect calendar_check_availability ≡ read
unfolding classify_tool_effect
read_calendar = refl

-- An effect that agrees with a named one is that one.
same_effects :
    (e f : ToolEffect)
    → same_effect e f ≡ true
    → (is_unknown e ≡ is_unknown f) × (is_side_effect e ≡ is_side_effect f)
same_effects e f h = ground arith

allow_cases :
    (i : ToolPolicyInput)
    → (decide_policy i).status ≡ allow
    → ((is_request i.decision.next_action ≡ true)
        × ((is_side_effect i.effect && is_opening i.decision_input.stage) ≡ false))
      ⊎ ((is_scheduling i.decision.next_action ≡ true)
          × (str_eq i.requested_tool calendar_check_availability ≡ true))
unfolding decide_policy
allow_cases i a = ground arith

Calls-of_allow :
    (i : ToolPolicyInput)
    → (decide_policy i).status ≡ allow
    → (is_side_effect i.effect ≡ is_side_effect (classify_tool_effect i.requested_tool))
    → Calls i
Calls-of_allow i a same = elim (allow_cases i a) [
  | inl (req, low) ↦ inl (ground arith, λ side early. ground arith)
  | inr (sch, cal) ↦ inr (ground arith, (eq_iff _ _).0 cal)
]

allow-of_Calls :
    (i : ToolPolicyInput)
    → is_unknown i.effect ≡ false
    → (i.decision_input.signals.opted_out && is_contact_tool i.requested_tool) ≡ false
    → i.decision_input.stage ≢ ended
    → (is_side_effect i.effect ≡ is_side_effect (classify_tool_effect i.requested_tool))
    → Calls i
    → (decide_policy i).status ≡ allow
unfolding decide_policy
allow-of_Calls i k o e same (inl (req, late)) = ground (arith)
allow-of_Calls i k o e same (inr (sch, cal)) =
    ground (arith, eq_iff i.requested_tool calendar_check_availability, read_calendar)

-- When the policy allows a tool: exactly when it is a known tool, the lead has not opted out of
-- contact by it, the conversation is not over, and the decision calls for it, by a request for a
-- capability (past the opening, if the tool has a side effect) or by a proposal to schedule (for the
-- calendar's availability alone).
pub allow_iff :
    (i : ToolPolicyInput) {r : ToolPolicyResult}
    → evaluate_tool_policy i ≡ ok r
    → (r.status ≡ allow) ↔ (
        (classify_tool_effect i.requested_tool ≢ unknown)
        × ((i.decision_input.signals.opted_out ≡ false)
            ⊎ (is_contact_tool i.requested_tool ≡ false))
        × (i.decision_input.stage ≢ ended)
        × Calls i)
unfolding evaluate_tool_policy
allow_iff i {r} h = (
  λ a. (
    ground (arith, effect_of_valid i),
    ground (arith, effect_of_valid i),
    ground (arith, effect_of_valid i),
    Calls-of_allow i (ground arith) (
        ground (
          arith,
          effect_of_valid i,
          same_effects i.effect (classify_tool_effect i.requested_tool),
        )),
  ),
  λ b. ground (
    arith,
    effect_of_valid i,
    same_effects i.effect (classify_tool_effect i.requested_tool),
    allow-of_Calls i,
  ),
)

-- After the lead has opted out, no evaluation allows a tool that would contact them.
pub opted_out-not_allowed :
    (i : ToolPolicyInput)
    → i.decision_input.signals.opted_out ≡ true
    → is_contact_tool i.requested_tool ≡ true
    → evaluate_tool_policy i ≢ ok (record { status = allow; reason = allowed_by_decision })
unfolding evaluate_tool_policy decide_policy
opted_out-not_allowed i o c h = ground (arith)
