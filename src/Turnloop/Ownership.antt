-- ===== src/Turnloop/Ownership.antt =====
-- A turn is answered by its owner or settled (internal/turnloop/coordinator.go).
use agentic_voice_sdr.Base.{
  ℕ, String, ◌≡◌, refl, ◌⊎◌, inl, inr, false, List, [], Option, none, some, Result, ok, err, arith,
  is_blank, is_ok, Context, Result-cases, Bool-cases, Option-cases,
}
use agentic_voice_sdr.Conversation.{ConversationState}
use agentic_voice_sdr.Directive.{TurnDirective}
use agentic_voice_sdr.Turnruntime.{TurnInput, CapabilityContext}
use agentic_voice_sdr.Gate.{
  ResponseGate, ResponseKey, ResponseReservation, ResponseState, Error as GateError, reserve,
  validate_key, lookup, response_source_key, claim, reserved,
}
use agentic_voice_sdr.Gate.Cycles.{lookup-insert, same_key_iff}
use agentic_voice_sdr.Gate.Runs.{Operation}
use agentic_voice_sdr.Turnloop.{begin_ready}
use agentic_voice_sdr.Turnloop.Begin.{Held, run-Held, Leaves, process_reserved-Leaves}

pub source_named :
    (s : ConversationState) (id : String) {k : ResponseKey}
    → response_source_key (some s) id ≡ ok k
    → validate_key k ≡ ok tt
unfolding response_source_key validate_key
source_named s id h = ground arith

claim-Held :
    (g : ResponseGate) (k : ResponseKey) (o : Option ResponseState) {r : ResponseReservation}
    → validate_key k ≡ ok tt
    → (claim g k o).1 ≡ ok r
    → Held r.key (claim g k o).0
unfolding claim
claim-Held g k (some s) v h = cc
claim-Held g k none v h = ground (arith, lookup-insert k k reserved g.cycles, same_key_iff k k)

pub reserve-Held :
    (g : ResponseGate) (s : ConversationState) (id : String) {r : ResponseReservation}
    → (reserve g (some s) id).1 ≡ ok r
    → Held r.key (reserve g (some s) id).0
unfolding reserve
reserve-Held g s id h = elim (Result-cases (response_source_key (some s) id)) [
  | inl (k, e) ↦
      rw (e, reserve)
        (claim-Held g k (lookup k g.cycles) (source_named s id e) (rw (e, reserve) at h))
  | inr (x, e) ↦ ground arith
]

claim_refused :
    (g : ResponseGate) (k : ResponseKey) (o : Option ResponseState) {e : GateError}
    → (claim g k o).1 ≡ err e
    → (claim g k o).0 ≡ g
unfolding claim
claim_refused g k (some s) h = refl
claim_refused g k none h = ground arith

reserve_refused :
    (g : ResponseGate) (s : ConversationState) (id : String) {e : GateError}
    → (reserve g (some s) id).1 ≡ err e
    → (reserve g (some s) id).0 ≡ g
unfolding reserve
reserve_refused g s id h = elim (Result-cases (response_source_key (some s) id)) [
  | inl (k, e) ↦ rw (e, reserve) (claim_refused g k (lookup k g.cycles) (rw (e, reserve) at h))
  | inr (x, e) ↦ rw (e, reserve) refl
]

-- A call of `Begin` either changes nothing in the gate, sends nothing and returns an error; or it has
-- reserved the response. Then, whatever the processor and the responder answer and whatever other
-- callers do to the gate meanwhile: after an error the response is completed or failed, never left
-- reserved, authorized or started; and after a success exactly one message was sent, the text of the
-- finalized lead turn with a valid directive, the returned key is the reserved one, and the response
-- is started, or has been completed or failed by another caller since.
pub begin_ready-Leaves :
    {P S V : Type 0} (processor : TurnInput V → Result P TurnDirective)
    (respond : String → TurnDirective → Result S (Unit {0})) (g : ResponseGate)
    (others : ℕ → List Operation) (ctx : Context) (s : ConversationState) (id : String)
    (c : Option (CapabilityContext V))
    → let o = begin_ready processor respond g others ctx s id c in
      ((o.gate ≡ g) × (o.sent ≡ []) × (is_ok o.result ≡ false))
      ⊎ ((r : ResponseReservation) × ((reserve g (some s) id).1 ≡ ok r) × Leaves s id r.key o)
unfolding begin_ready
begin_ready-Leaves processor respond g others ctx s id c = elim (Bool-cases (is_blank id)) [
  | inl b ↦ rw (b, begin_ready) (inl (refl, refl, refl))
  | inr b ↦
      rw (b, begin_ready)
        (elim (Option-cases (ctx.err_at 0)) [
          | inr (x, e) ↦ rw e (inl (refl, refl, refl))
          | inl e ↦ rw e (elim (Result-cases (reserve g (some s) id).1) [
            | inr (x, f) ↦ rw f (inl (reserve_refused g s id f, refl, refl))
            | inl (r, f) ↦ rw f (
                inr (
                  r,
                  refl,
                  process_reserved-Leaves s id r.key respond others ctx _ _
                      (run-Held r.key _ (others 0) (reserve-Held g s id f)),
                ))
          ])
        ])
]
