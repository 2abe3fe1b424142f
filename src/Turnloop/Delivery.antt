-- ===== src/Turnloop/Delivery.antt =====
-- A turn that nothing stands in the way of is answered (internal/turnloop/coordinator.go).
use agentic_voice_sdr.Base.{
  ℕ, String, ◌≡◌, refl, inl, inr, true, false, List, [], ◌∷◌, Option, none, some, Result, ok, arith,
  is_blank, Context, IsLive, Result-cases, str_eq, eq_iff, ◌++◌, sym, subst,
}
use agentic_voice_sdr.Conversation.{ConversationState, Turn}
use agentic_voice_sdr.Conversation.Turns.{find}
use agentic_voice_sdr.Conversation.Runs.{Unique}
use agentic_voice_sdr.Gate.Source.{LastLead, final_lead, response_source_key-LastLead}
use agentic_voice_sdr.Directive.{TurnDirective, validate as validate_directive}
use agentic_voice_sdr.Turnruntime.{TurnInput, CapabilityContext}
use agentic_voice_sdr.Gate.{
  ResponseGate, ResponseKey, ResponseReservation, ResponseState, reserve, claim, authorize_reserved,
  start, promote, starting, validate_key, lookup, insert, response_source_key, reserved, authorized,
  started,
}
use agentic_voice_sdr.Gate.Cycles.{lookup-insert, same_key_iff}
use agentic_voice_sdr.Gate.Runs.{Operation, run}
use agentic_voice_sdr.Turnloop.{
  Outcome, begin_ready, process_reserved, authorize_processed, start_authorized, send_started,
  answered, finalized_lead_text,
}
use agentic_voice_sdr.Turnloop.Ownership.{source_named}

-- A key that is valid and stands in the state.
abbrev At : ResponseKey → ResponseState → ResponseGate → Type 0
At k s g = (validate_key k ≡ ok tt) × (lookup k g.cycles ≡ some s)

put-At :
    (k : ResponseKey) (s : ResponseState) (g : ResponseGate)
    → validate_key k ≡ ok tt
    → At k s (record { cycles = insert k s g.cycles })
put-At k s g v = (v, ground (arith, lookup-insert k k s g.cycles, same_key_iff k k))

claim-At :
    (g : ResponseGate) (k : ResponseKey) (o : Option ResponseState) {r : ResponseReservation}
    → validate_key k ≡ ok tt
    → (claim g k o).1 ≡ ok r
    → At r.key reserved (claim g k o).0
unfolding claim
claim-At g k (some s) v h = cc
claim-At g k none v h =
    (ground arith, ground (arith, lookup-insert k k reserved g.cycles, same_key_iff k k))

reserve-At :
    (g : ResponseGate) (s : ConversationState) (id : String) {r : ResponseReservation}
    → (reserve g (some s) id).1 ≡ ok r
    → At r.key reserved (reserve g (some s) id).0
unfolding reserve
reserve-At g s id h = elim (Result-cases (response_source_key (some s) id)) [
  | inl (k, e) ↦
      rw (e, reserve)
        (claim-At g k (lookup k g.cycles) (source_named s id e) (rw (e, reserve) at h))
  | inr (x, e) ↦ ground arith
]

authorize_reserved-At :
    (g : ResponseGate) (k : ResponseKey) (d : TurnDirective)
    → At k reserved g
    → validate_directive d ≡ ok tt
    → authorize_reserved g k d ≡ (
      record { cycles = insert k authorized g.cycles },
      ok (record { key = k; state = authorized }),
    )
unfolding authorize_reserved promote
authorize_reserved-At g k d (v, at) valid = rw (v, valid, at, authorize_reserved) refl

start-At :
    (g : ResponseGate) (k : ResponseKey)
    → At k authorized g
    → start g k ≡ (record { cycles = insert k started g.cycles }, ok tt)
unfolding start starting
start-At g k (v, at) = rw (v, at, start) refl

abbrev pub alone : ℕ → List Operation
alone n = []

-- What is left once the response has been sent.
abbrev delivered :
    {P S : Type 0} → ResponseKey → ResponseGate → String → TurnDirective → Outcome P S
delivered k g text d = record {
  gate = record { cycles = insert k started g.cycles };
  sent = (text, d) ∷ [];
  result = ok k;
}

module _ {P S : Type 0} (respond : String → TurnDirective → Result S (Unit {0}))
    (s : ConversationState) (id : String) {d : TurnDirective} {text : String} where
  start_authorized-At :
      (k : ResponseKey) (g : ResponseGate)
      → At k authorized g
      → finalized_lead_text s.turns id ≡ some (text, true)
      → respond text d ≡ ok tt
      → start_authorized {P = P} respond alone s id k g d ≡ delivered k g text d
  unfolding start_authorized send_started answered run
  start_authorized-At k g here asked taken =
      rw
        (
          start-At g k here,
          start_authorized,
          asked,
          send_started,
          taken,
          answered,
          start-At g k here,
        )
        refl

  process_reserved-At :
      (ctx : Context) (k : ResponseKey) (g : ResponseGate)
      → At k reserved g
      → ctx.err_at 1 ≡ none
      → validate_directive d ≡ ok tt
      → finalized_lead_text s.turns id ≡ some (text, true)
      → respond text d ≡ ok tt
      → process_reserved {P = P} respond alone s id k ctx g (ok d)
        ≡ delivered k (record { cycles = insert k authorized g.cycles }) text d
  unfolding process_reserved authorize_processed run
  process_reserved-At ctx k g here live valid asked taken =
      rw
        (
          live,
          process_reserved,
          authorize_reserved-At g k d here valid,
          authorize_processed,
          authorize_reserved-At g k d here valid,
        )
        (start_authorized-At k (record { cycles = insert k authorized g.cycles })
          (put-At k authorized g here.0) asked taken)

begin_ready-answers :
    {P S V : Type 0} (processor : TurnInput V → Result P TurnDirective)
    (respond : String → TurnDirective → Result S (Unit {0})) (g : ResponseGate) (ctx : Context)
    (s : ConversationState) (id : String) (c : Option (CapabilityContext V))
    {r : ResponseReservation} {d : TurnDirective} {text : String}
    → is_blank id ≡ false
    → IsLive ctx
    → (reserve g (some s) id).1 ≡ ok r
    → processor (record { state = some s; capability = c }) ≡ ok d
    → validate_directive d ≡ ok tt
    → finalized_lead_text s.turns id ≡ some (text, true)
    → respond text d ≡ ok tt
    → let o = begin_ready processor respond g alone ctx s id c in
      (o.result ≡ ok r.key)
      × (o.sent ≡ (text, d) ∷ [])
      × (lookup r.key o.gate.cycles ≡ some started)
unfolding begin_ready run
begin_ready-answers {P} {S} processor respond g ctx s id c {r} {d} {text} named live granted decided
      valid asked taken =
    let own = reserve-At g s id granted in
    let h : ResponseGate = record {
      cycles = insert r.key authorized (reserve g (some s) id).0.cycles;
    } in
    rw
      (
        named,
        live 0,
        granted,
        decided,
        process_reserved-At {P = P} respond s id ctx r.key (reserve g (some s) id).0 own (live 1)
            valid asked taken,
      )
      (refl, refl, (put-At r.key started h own.0).1)

other_id :
    (before after : List Turn) (x t : Turn)
    → find x.id (before ++ (t ∷ after)) ≡ none
    → str_eq x.id t.id ≡ false
unfolding find
other_id [] after x t h = ground (arith, eq_iff x.id t.id, eq_iff t.id x.id)
other_id (y ∷ before) after x t h = other_id before after x t (ground arith)

-- Where ids are unique, the text of a final turn of the lead is found by its id.
finalized_lead_text-Unique :
    (before after : List Turn) (t : Turn)
    → final_lead t ≡ true
    → Unique (before ++ (t ∷ after))
    → finalized_lead_text (before ++ (t ∷ after)) t.id ≡ some (t.text, true)
unfolding finalized_lead_text
finalized_lead_text-Unique [] after t lead u = ground (arith, eq_iff t.id t.id)
finalized_lead_text-Unique (x ∷ before) after t lead (fresh, u) =
    rw (other_id before after x t fresh) (finalized_lead_text-Unique before after t lead u)

reserve-source :
    (g : ResponseGate) (s : ConversationState) (id : String) {r : ResponseReservation}
    → (reserve g (some s) id).1 ≡ ok r
    → (t : Turn) × (t.id ≡ id) × LastLead t s.turns
unfolding reserve
reserve-source g s id h = elim (Result-cases (response_source_key (some s) id)) [
  | inl (k, e) ↦ (response_source_key-LastLead s id e).1
  | inr (x, e) ↦ absurd (ground arith)
]

-- The owner of a turn delivers. In a conversation whose turns have different ids, with an id that is not blank, a
-- reservation that is granted, a context that stays live, no other caller on the gate during the
-- call, a processor that answers with a valid directive, and a responder that takes it with any text,
-- `Begin` returns the key of the reservation, has sent the text of the last final turn of the lead, which has
-- that id, with the directive once, and leaves the response started.
pub begin_ready-delivers :
    {P S V : Type 0} (processor : TurnInput V → Result P TurnDirective)
    (respond : String → TurnDirective → Result S (Unit {0})) (g : ResponseGate) (ctx : Context)
    (s : ConversationState) (id : String) (c : Option (CapabilityContext V))
    {r : ResponseReservation} {d : TurnDirective}
    → Unique s.turns
    → is_blank id ≡ false
    → IsLive ctx
    → (reserve g (some s) id).1 ≡ ok r
    → processor (record { state = some s; capability = c }) ≡ ok d
    → validate_directive d ≡ ok tt
    → ((text : String) → respond text d ≡ ok tt)
    → let o = begin_ready processor respond g alone ctx s id c in
      (t : Turn) × (t.id ≡ id)
      × LastLead t s.turns
      × (o.result ≡ ok r.key)
      × (o.sent ≡ (t.text, d) ∷ [])
      × (lookup r.key o.gate.cycles ≡ some started)
begin_ready-delivers processor respond g ctx s id c {r} {d} unique named live granted decided valid
      takes =
    let (t, same, (before, after, split, lead, last)) = reserve-source g s id granted in
    let found =
      subst (λ ts. finalized_lead_text ts t.id ≡ some (t.text, true)) (sym split)
        (finalized_lead_text-Unique before after t lead (subst Unique split unique)) in
    let asked = subst (λ i. finalized_lead_text s.turns i ≡ some (t.text, true)) same found in
    let (result, sent, at) =
      begin_ready-answers processor respond g ctx s id c named live granted decided valid asked
        (takes t.text) in
    (t, same, (before, after, split, lead, last), result, sent, at)
