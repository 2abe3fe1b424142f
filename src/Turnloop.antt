-- ===== src/Turnloop.antt =====
-- internal/turnloop/coordinator.go: the ownership of the response to one finalized turn.
-- The turn processor and the responder are parameters. The gate is shared: between its own steps a
-- coordinator finds what other callers did to the gate meanwhile, `others n` after its n-th step. The
-- conversation state is the caller's own and does not change during the call.
pub mod Begin
pub mod Ownership
pub mod Settle
pub mod Delivery
pub mod Tests
use agentic_voice_sdr.Base.{
  ℕ, String, Bool, true, false, not, ◌&&◌, ◌||◌, List, [], ◌∷◌, Option, none, some, Result, ok, err,
  if◌then◌else◌, str_eq, is_blank, is_some, Context, CtxError,
}
use agentic_voice_sdr.Conversation.{ConversationState, Turn, is_lead, is_final}
use agentic_voice_sdr.Directive.{TurnDirective}
use agentic_voice_sdr.Turnruntime.{TurnInput, CapabilityContext}
use agentic_voice_sdr.Gate.{
  ResponseGate, ResponseKey, Error as GateError, reserve, authorize_reserved, start, complete, fail,
}
use agentic_voice_sdr.Gate.Runs.{Operation, run}

pub data Error (P S : Type 0) : Type 0 where
  invalid_coordinator invalid_coordinator_input : Error P S
  context : CtxError → Error P S
  gate : GateError → Error P S
  process : P → Error P S
  send : S → Error P S

-- Whoever is nil is none.
pub record Coordinator (P S V : Type 0) : Type 0 where
  pub processor : Option (TurnInput V → Result P TurnDirective)
  pub responder : Option (String → TurnDirective → Result S (Unit {0}))
  pub gate : Option ResponseGate

unfoldable pub new :
    {P S V : Type 0}
    → Option (TurnInput V → Result P TurnDirective)
    → Option (String → TurnDirective → Result S (Unit {0}))
    → Option ResponseGate
    → Result (Error P S) (Coordinator P S V)
new processor responder g =
    if not (is_some processor) || not (is_some responder) || not (is_some g)
    then err invalid_coordinator
    else ok (record { processor = processor; responder = responder; gate = g })

-- The text of the first turn with the id, and whether it is a final one of the lead.
unfoldable pub finalized_lead_text : List Turn → String → Option (String × Bool)
finalized_lead_text [] id = none
finalized_lead_text (t ∷ ts) id =
    if str_eq t.id id
    then some (t.text, is_lead t.role && is_final t.transcript)
    else finalized_lead_text ts id

-- The gate at the end of a call, what was sent to the responder, and the call's result.
pub record Outcome (P S : Type 0) : Type 0 where
  pub gate : ResponseGate
  pub sent : List (String × TurnDirective)
  pub result : Result (Error P S) ResponseKey

module _ {P S : Type 0} where
  -- `failAfterReservation`, and the return of the error.
  unfoldable pub fail_after :
      ResponseGate → ResponseKey → List (String × TurnDirective) → Error P S → Outcome P S
  fail_after g k sent e = record { gate = (fail g k).0; sent = sent; result = err e }

  -- The rest of `Begin` once the answer of the responder is there.
  unfoldable pub answered :
      ResponseGate → ResponseKey → String → TurnDirective → Result S (Unit {0}) → Outcome P S
  answered g k text d (err e) = fail_after g k ((text, d) ∷ []) (send e)
  answered g k text d (ok u) = record { gate = g; sent = (text, d) ∷ []; result = ok k }

  module _ (respond : String → TurnDirective → Result S (Unit {0})) (others : ℕ → List Operation)
      (s : ConversationState) (id : String) (k : ResponseKey) where
    -- From the text on, the response being started.
    unfoldable pub send_started :
        ResponseGate → TurnDirective → Option (String × Bool) → Outcome P S
    send_started g d none = fail_after g k [] invalid_coordinator_input
    send_started g d (some (text, false)) = fail_after g k [] invalid_coordinator_input
    send_started g d (some (text, true)) = answered (run g (others 3)) k text d (respond text d)

    unfoldable pub start_authorized : ResponseGate → TurnDirective → Outcome P S
    start_authorized g d = elim (start g k).1 [
      | err e ↦ fail_after (run (start g k).0 (others 2)) k [] (gate e)
      | ok u ↦ send_started (run (start g k).0 (others 2)) d (finalized_lead_text s.turns id)
    ]

    unfoldable pub authorize_processed : ResponseGate → TurnDirective → Outcome P S
    authorize_processed g d = elim (authorize_reserved g k d).1 [
      | err e ↦ fail_after (run (authorize_reserved g k d).0 (others 1)) k [] (gate e)
      | ok a ↦ start_authorized (run (authorize_reserved g k d).0 (others 1)) d
    ]

    -- From the processor's answer on, the response being reserved; the context is read again.
    unfoldable pub process_reserved : Context → ResponseGate → Result P TurnDirective → Outcome P S
    process_reserved ctx g (err e) = fail_after g k [] (process e)
    process_reserved ctx g (ok d) = elim (ctx.err_at 1) [
      | some e ↦ fail_after g k [] (context e)
      | none ↦ authorize_processed g d
    ]

  abbrev pub refuse : ResponseGate → Error P S → Outcome P S
  refuse g e = record { gate = g; sent = []; result = err e }

module _ {P S V : Type 0} where
  -- `Begin` on a coordinator and arguments that are not nil.
  unfoldable pub begin_ready :
      (TurnInput V → Result P TurnDirective)
      → (String → TurnDirective → Result S (Unit {0}))
      → ResponseGate
      → (ℕ → List Operation)
      → Context
      → ConversationState
      → String
      → Option (CapabilityContext V)
      → Outcome P S
  begin_ready processor respond g others ctx s id c =
      if is_blank id then refuse g invalid_coordinator_input else (elim (ctx.err_at 0) [
        | some e ↦ refuse g (context e)
        | none ↦ elim (reserve g (some s) id).1 [
          | err e ↦ refuse (reserve g (some s) id).0 (gate e)
          | ok r ↦
              process_reserved respond others s id r.key ctx
                (run (reserve g (some s) id).0 (others 0))
                (processor (record { state = some s; capability = c }))
        ]
      ])

  -- `Begin`; a coordinator with no gate leaves none.
  unfoldable pub begin :
      Option (Coordinator P S V)
      → (ℕ → List Operation)
      → Option Context
      → Option ConversationState
      → String
      → Option (CapabilityContext V)
      → Result (Error P S) (Outcome P S)
  begin none others ctx s id c = err invalid_coordinator
  begin (some m) others ctx s id c = elim m.processor [
    | none ↦ err invalid_coordinator
    | some processor ↦ elim m.responder [
      | none ↦ err invalid_coordinator
      | some respond ↦ elim m.gate [
        | none ↦ err invalid_coordinator
        | some g ↦ elim ctx [
          | none ↦ err invalid_coordinator_input
          | some x ↦ elim s [
            | none ↦ err invalid_coordinator_input
            | some t ↦ ok (begin_ready processor respond g others x t id c)
          ]
        ]
      ]
    ]
  ]
