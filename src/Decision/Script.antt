-- ===== src/Decision/Script.antt =====
-- internal/domain/conversation/decision_provider.go: the first-in first-out provider of decisions;
-- and which decisions are valid (advisor.go), as a relation.
use mathlib.Core.Path.{ap₂, ◌∙◌}
use agentic_voice_sdr.Base.{
  ℕ, zero, suc, ◌+◌, ◌≡◌, refl, ap, ◌↔◌, List, [], ◌∷◌, Option, none, some, Result, ok, err, arith,
  get_elem?, Context, CtxError, IsLive, inl, inr, All, Option-cases,
}
use native.Mathlib.Nat.{zero-add, add-suc, suc-add, add-zero}
use agentic_voice_sdr.Decision.{
  Decision, DecisionInput, validate, NextAction, ReasonCode, continue_conversation, ask_question,
  propose_scheduling, request_capability, follow_up, end_conversation, handoff, needs_clarification,
  continue_discovery, interest_confirmed, ready_to_schedule, conversation_complete,
  follow_up_required, capability_required, handoff_required,
}

-- The pairs of an action and a reason that the product allows.
pub data Allowed : NextAction → ReasonCode → Type 0 where
  discover : Allowed continue_conversation continue_discovery
  clarify : Allowed ask_question needs_clarification
  schedule : Allowed propose_scheduling ready_to_schedule
  schedule_interest : Allowed propose_scheduling interest_confirmed
  use_capability : Allowed request_capability capability_required
  follow : Allowed follow_up follow_up_required
  finish : Allowed end_conversation conversation_complete
  hand_over : Allowed handoff handoff_required

ruleset allowed =
    (discover, clarify, schedule, schedule_interest, use_capability, follow, finish, hand_over)

validate-of_Allowed :
    {a : NextAction} {r : ReasonCode}
    → Allowed a r
    → validate (record { next_action = a; reason = r }) ≡ ok tt
unfolding validate
validate-of_Allowed discover = refl
validate-of_Allowed _ = refl

Allowed-of_validate :
    (a : NextAction) (r : ReasonCode)
    → validate (record { next_action = a; reason = r }) ≡ ok tt
    → Allowed a r
unfolding validate
Allowed-of_validate a r h = grind (arith, allowed)

-- A decision is valid exactly when its action and its reason are one of the eight allowed pairs.
pub validate-Allowed : (d : Decision) → (validate d ≡ ok tt) ↔ Allowed d.next_action d.reason
validate-Allowed d = (Allowed-of_validate d.next_action d.reason, validate-of_Allowed)

pub data ScriptError : Type 0 where
  invalid_decision_script : ℕ → ScriptError
  decision_script_exhausted invalid_decision_provider_context : ScriptError
  context : CtxError → ScriptError

pub record ScriptedDecisionProvider : Type 0 where
  pub decisions : List Decision
  pub next : ℕ

-- The index of the first decision that is not valid.
unfoldable pub first_invalid : ℕ → List Decision → Option ℕ
first_invalid i [] = none
first_invalid i (d ∷ ds) =
    let rest = first_invalid (suc i) ds in elim (validate d) [ ok u ↦ rest | err e ↦ some i ]

unfoldable pub new_scripted_decision_provider :
    List Decision → Result ScriptError ScriptedDecisionProvider
unfolding first_invalid
new_scripted_decision_provider script = elim (first_invalid 0 script) [
  | some i ↦ err (invalid_decision_script i)
  | none ↦ ok (record { decisions = script; next = 0 })
]

-- The head of the script from the next decision on, which is taken.
abbrev take_next :
    ScriptedDecisionProvider
    → Option Decision
    → ScriptedDecisionProvider × Result ScriptError Decision
take_next p none = (p, err decision_script_exhausted)
take_next p (some d) = (record p { next = suc p.next }, ok d)

-- The input is not read. The context is asked before and after the lock is taken.
unfoldable pub decide :
    ScriptedDecisionProvider
    → Option Context
    → DecisionInput
    → ScriptedDecisionProvider × Result ScriptError Decision
decide p none input = (p, err invalid_decision_provider_context)
decide p (some ctx) input = elim (ctx.err_at 0) [
  | some e ↦ (p, err (context e))
  | none ↦ elim (ctx.err_at 1) [
    | some e ↦ (p, err (context e))
    | none ↦ take_next p (get_elem? p.decisions p.next)
  ]
]

-- The provider after n calls.
unfoldable pub after :
    ℕ → ScriptedDecisionProvider → Context → DecisionInput → ScriptedDecisionProvider
after zero p ctx input = p
after (suc n) p ctx input = after n (decide p (some ctx) input).0 ctx input

abbrev pub answer : Option Decision → Result ScriptError Decision
answer none = err decision_script_exhausted
answer (some d) = ok d

get-past_end {ℓ} :
    {A : Type ℓ} (xs : List A) (n : ℕ) → get_elem? xs n ≡ none → get_elem? xs (suc n) ≡ none
get-past_end [] n h = refl
get-past_end (x ∷ xs) zero h = cc
get-past_end (x ∷ xs) (suc n) h = get-past_end xs n h

get-beyond {ℓ} :
    {A : Type ℓ} (xs : List A) (n k : ℕ) → get_elem? xs k ≡ none → get_elem? xs (n + k) ≡ none
get-beyond xs zero k h = rw zero-add h
get-beyond xs (suc n) k h = rw suc-add (get-past_end xs (n + k) (get-beyond xs n k h))

-- One call, on a context that is not canceled.
decide-live :
    (p : ScriptedDecisionProvider) (ctx : Context) (input : DecisionInput)
    → IsLive ctx
    → decide p (some ctx) input ≡ take_next p (get_elem? p.decisions p.next)
unfolding decide
decide-live p ctx input live = ground (arith, live 0, live 1)

decide-after :
    (n : ℕ) (p : ScriptedDecisionProvider) (ctx : Context) (input : DecisionInput)
    → IsLive ctx
    → (decide (after n p ctx input) (some ctx) input).1
      ≡ answer (get_elem? p.decisions (n + p.next))
unfolding after
decide-after zero p ctx input live = rw (zero-add, decide-live p ctx input live) (ground arith)
decide-after (suc n) p ctx input live =
    rw (decide-live p ctx input live) (elim (Option-cases (get_elem? p.decisions p.next)) [
      | inl e ↦
          rw (e, decide-after n p ctx input live, get-beyond p.decisions n p.next e)
            (rw (get-beyond p.decisions (suc n) p.next e))
      | inr (d, e) ↦
          rw (e, decide-after n (record p { next = suc p.next }) ctx input live)
            (rw (add-suc, suc-add))
    ])

valid_of_first :
    (i : ℕ) (ds : List Decision) → first_invalid i ds ≡ none → All (λ d. validate d ≡ ok tt) ds
unfolding first_invalid
valid_of_first i [] h = tt
valid_of_first i (d ∷ ds) h = ground (arith, valid_of_first (suc i) ds)

started :
    (script : List Decision) {p : ScriptedDecisionProvider}
    → new_scripted_decision_provider script ≡ ok p
    → (p.decisions ≡ script) × (p.next ≡ 0)
unfolding new_scripted_decision_provider
started script h = ground arith

-- A provider that the constructor accepts holds valid decisions only; on contexts that are not
-- canceled its calls return the script, one decision each in order, and then that it is exhausted,
-- whatever the inputs are.
pub decide-script :
    (script : List Decision) {p : ScriptedDecisionProvider} (ctx : Context) (input : DecisionInput)
    → new_scripted_decision_provider script ≡ ok p
    → IsLive ctx
    → All (λ d. validate d ≡ ok tt) script
      × ((n : ℕ) → (decide (after n p ctx input) (some ctx) input).1 ≡ answer (get_elem? script n))
unfolding new_scripted_decision_provider
decide-script script {p} ctx input h live =
    (ground (arith, valid_of_first 0 script), λ n. from_start n)
  where
    from_start :
        (n : ℕ) → (decide (after n p ctx input) (some ctx) input).1 ≡ answer (get_elem? script n)
    from_start n =
        decide-after n p ctx input live
        ∙ ap answer (ap₂ get_elem? (started script h).0 (rw (started script h).1 (add-zero n)))
