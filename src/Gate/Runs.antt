-- ===== src/Gate/Runs.antt =====
-- Every history of the gate (internal/domain/conversation/response_gate.go).
use agentic_voice_sdr.Base.{
  String, ◌≡◌, refl, ◌⊎◌, inl, inr, false, List, [], ◌∷◌, Option, none, some, Result, ok,
  Bool-cases, Result-cases, err,
}
use agentic_voice_sdr.Conversation.{ConversationState}
use agentic_voice_sdr.Directive.{TurnDirective, validate as validate_directive}
use agentic_voice_sdr.Gate.{
  Error, ResponseKey, ResponseState, ResponseGate, reserved, authorized, started, completed, failed,
  lookup, insert, has_active_cycle, claim, admit, promote, move, reserve, authorize,
  authorize_reserved, start, complete, fail, completing, failing, validate_key, starting, granted,
  response_source_key,
}

pub data Operation : Type 0 where
  reserves : Option ConversationState → String → Operation
  authorizes : Option ConversationState → String → TurnDirective → Operation
  promotes : ResponseKey → TurnDirective → Operation
  starts completes fails : ResponseKey → Operation

unfoldable pub step : ResponseGate → Operation → ResponseGate
step g (reserves s id) = (reserve g s id).0
step g (authorizes s id d) = (authorize g s id d).0
step g (promotes k d) = (authorize_reserved g k d).0
step g (starts k) = (start g k).0
step g (completes k) = (complete g k).0
step g (fails k) = (fail g k).0

unfoldable pub run : ResponseGate → List Operation → ResponseGate
run g [] = g
run g (o ∷ os) = run (step g o) os

-- What one operation does to the map: nothing, the claim of a new key in a conversation with no
-- other active cycle, or the move of a cycle along the diagram.
pub data Edge : ResponseState → ResponseState → Type 0 where
  grant : Edge reserved authorized
  begin : Edge authorized started
  finish : Edge started completed
  drop_reserved : Edge reserved failed
  drop_authorized : Edge authorized failed
  drop_started : Edge started failed

pub data Effect (g : ResponseGate) (h : ResponseGate) : Type 0 where
  keep : h ≡ g → Effect g h
  open_cycle :
      (k : ResponseKey) (s : ResponseState)
      → lookup k g.cycles ≡ none
      → has_active_cycle k.conversation_id k g.cycles ≡ false
      → (s ≡ reserved) ⊎ (s ≡ authorized)
      → h ≡ record { cycles = insert k s g.cycles }
      → Effect g h
  advance :
      (k : ResponseKey) (s t : ResponseState)
      → lookup k g.cycles ≡ some s
      → Edge s t
      → h ≡ record { cycles = insert k t g.cycles }
      → Effect g h

claim-Effect :
    (g : ResponseGate) (k : ResponseKey) (o : Option ResponseState)
    → lookup k g.cycles ≡ o
    → Effect g (claim g k o).0
unfolding claim
claim-Effect g k (some s) e = keep refl
claim-Effect g k none e = elim (Bool-cases (has_active_cycle k.conversation_id k g.cycles)) [
  | inl busy ↦ rw busy (keep refl)
  | inr free ↦ rw free (open_cycle k reserved e free (inl refl) refl)
]

admit-Effect :
    (g : ResponseGate) (k : ResponseKey) (o : Option ResponseState)
    → lookup k g.cycles ≡ o
    → Effect g (admit g k o).0
unfolding admit
admit-Effect g k (some s) e = keep refl
admit-Effect g k none e = elim (Bool-cases (has_active_cycle k.conversation_id k g.cycles)) [
  | inl busy ↦ rw busy (keep refl)
  | inr free ↦ rw free (open_cycle k authorized e free (inr refl) refl)
]

-- The switch of an operation follows the diagram.
abbrev Follows : (Option ResponseState → Result Error ResponseState) → Type 0
Follows f =
    (s : Option ResponseState) (t : ResponseState)
    → f s ≡ ok t
    → (r : ResponseState) × (s ≡ some r) × Edge r t

move-Effect :
    (f : Option ResponseState → Result Error ResponseState)
    → Follows f
    → (g : ResponseGate) (k : ResponseKey) → Effect g (move g k (f (lookup k g.cycles))).0
move-Effect f follows g k = elim (Result-cases (f (lookup k g.cycles))) [
  | inl (t, e) ↦ rw e (moved (follows (lookup k g.cycles) t e))
  | inr (x, e) ↦ rw e (keep refl)
]
  where
    moved :
        {t : ResponseState}
        → (r : ResponseState) × (lookup k g.cycles ≡ some r) × Edge r t
        → Effect g (record { cycles = insert k t g.cycles })
    moved {t} (r, at, edge) = advance k r t at edge refl

promote-Follows : Follows promote
unfolding promote
promote-Follows none t h = cc
promote-Follows (some reserved) authorized h = (reserved, refl, grant)
promote-Follows (some _) t h = cc

starting-Follows : Follows starting
unfolding starting
starting-Follows none t h = cc
starting-Follows (some authorized) started h = (authorized, refl, begin)
starting-Follows (some _) t h = cc

completing-Follows : Follows completing
unfolding completing
completing-Follows none t h = cc
completing-Follows (some started) completed h = (started, refl, finish)
completing-Follows (some _) t h = cc

failing-Follows : Follows failing
unfolding failing
failing-Follows none t h = cc
failing-Follows (some reserved) failed h = (reserved, refl, drop_reserved)
failing-Follows (some authorized) failed h = (authorized, refl, drop_authorized)
failing-Follows (some started) failed h = (started, refl, drop_started)
failing-Follows (some _) t h = cc

granted-gate :
    (k : ResponseKey) (r : ResponseGate × Result Error (Unit {0})) → (granted k r).0 ≡ r.0
granted-gate k (g, ok u) = refl
granted-gate k (g, err e) = refl

reserve-Effect :
    (g : ResponseGate) (s : Option ConversationState) (id : String) → Effect g (reserve g s id).0
unfolding reserve
reserve-Effect g s id = elim (Result-cases (response_source_key s id)) [
  | inl (k, e) ↦ rw (e, reserve) (claim-Effect g k (lookup k g.cycles) refl)
  | inr (x, e) ↦ rw (e, reserve) (keep refl)
]

authorize-Effect :
    (g : ResponseGate) (s : Option ConversationState) (id : String) (d : TurnDirective)
    → Effect g (authorize g s id d).0
unfolding authorize
authorize-Effect g s id d = elim (Result-cases (response_source_key s id)) [
  | inl (k, e) ↦
      rw (e, authorize)
        (elim (Result-cases (validate_directive d)) [
          | inl (u, v) ↦ rw v (admit-Effect g k (lookup k g.cycles) refl)
          | inr (x, v) ↦ rw v (keep refl)
        ])
  | inr (x, e) ↦ rw (e, authorize) (keep refl)
]

authorize_reserved-Effect :
    (g : ResponseGate) (k : ResponseKey) (d : TurnDirective) → Effect g (authorize_reserved g k d).0
unfolding authorize_reserved
authorize_reserved-Effect g k d = elim (Result-cases (validate_key k)) [
  | inl (u, e) ↦
      rw (e, authorize_reserved)
        (elim (Result-cases (validate_directive d)) [
          | inl (w, v) ↦
              rw (v, granted-gate k (move g k (promote (lookup k g.cycles))))
                (move-Effect promote promote-Follows g k)
          | inr (x, v) ↦ rw v (keep refl)
        ])
  | inr (x, e) ↦ rw (e, authorize_reserved) (keep refl)
]

-- An operation that checks its key and then follows a switch.
checked-Effect :
    (f : Option ResponseState → Result Error ResponseState)
    → Follows f
    → (g : ResponseGate) (k : ResponseKey) (h : ResponseGate × Result Error (Unit {0}))
    → (validate_key k ≡ ok tt → h ≡ move g k (f (lookup k g.cycles)))
    → ((e : Error) → validate_key k ≡ err e → h ≡ (g, err e))
    → Effect g h.0
checked-Effect f follows g k h valid invalid = elim (Result-cases (validate_key k)) [
  | inl (u, e) ↦ rw (valid e) (move-Effect f follows g k)
  | inr (x, e) ↦ rw (invalid x e) (keep refl)
]

-- Every operation of the gate, on every branch, keeps the gate, opens one cycle, or moves one.
pub step-Effect : (g : ResponseGate) (o : Operation) → Effect g (step g o)
unfolding step start complete fail
step-Effect g (reserves s id) = reserve-Effect g s id
step-Effect g (authorizes s id d) = authorize-Effect g s id d
step-Effect g (promotes k d) = authorize_reserved-Effect g k d
step-Effect g (starts k) =
    checked-Effect starting starting-Follows g k (start g k) (λ e. rw (e, start))
      (λ x e. rw (e, start))
step-Effect g (completes k) =
    checked-Effect completing completing-Follows g k (complete g k) (λ e. rw (e, complete))
      (λ x e. rw (e, complete))
step-Effect g (fails k) =
    checked-Effect failing failing-Follows g k (fail g k) (λ e. rw (e, fail)) (λ x e. rw (e, fail))
