-- ===== src/Voiceflow/Transcripts/Turns.antt =====
-- A final transcript is recorded before it is answered (internal/voiceflow/transcript_handler.go).
use agentic_voice_sdr.Base.{
  ℕ, suc, ◌%◌, String, ◌≡◌, refl, ap, ◌∙◌, inl, inr, true, List, Option, none, some, Result, ok,
  err, arith, is_empty, trim_space, is_ok, Context, Bool-cases, Option-cases, Result-cases,
}
use agentic_voice_sdr.Conversation.{
  ConversationState, Turn, lead, final, new_turn, valid_turn, record_turn,
}
use agentic_voice_sdr.Directive.{TurnDirective}
use agentic_voice_sdr.Turnruntime.{CapabilityContext, TurnInput}
use agentic_voice_sdr.Gate.{
  ResponseGate, ResponseKey, ResponseReservation, ResponseState, response_source_key, reserve,
  claim, lookup,
}
use agentic_voice_sdr.Gate.Source.{response_source_key-LastLead}
use agentic_voice_sdr.Gate.Runs.{Operation}
use agentic_voice_sdr.Turnloop.{Coordinator, Outcome, begin, begin_ready, Error}
use agentic_voice_sdr.Turnloop.Ownership.{begin_ready-Leaves}
use agentic_voice_sdr.Voiceflow.Transcripts.{
  FinalTranscriptHandler, Handled, lead_id, begun, recorded, handle_final_text,
}

abbrev pub key_of : ConversationState → String → ResponseKey
key_of s id = record { conversation_id = s.id; source_turn_id = id }

claim-key :
    (g : ResponseGate) (k : ResponseKey) (o : Option ResponseState) {r : ResponseReservation}
    → (claim g k o).1 ≡ ok r
    → r.key ≡ k
unfolding claim
claim-key g k (some s) h = cc
claim-key g k none h = ground arith

reserve-key :
    (g : ResponseGate) (s : ConversationState) (id : String) {r : ResponseReservation}
    → (reserve g (some s) id).1 ≡ ok r
    → r.key ≡ key_of s id
unfolding reserve
reserve-key g s id h = elim (Result-cases (response_source_key (some s) id)) [
  | inl (k, e) ↦
      claim-key g k (lookup k g.cycles) (rw (e, reserve) at h)
      ∙ (response_source_key-LastLead s id e).0
  | inr (x, e) ↦ absurd (ground arith)
]

module _ {P S V : Type 0} where
  begin-key :
      (m : Coordinator P S V) (others : ℕ → List Operation) (ctx : Option Context)
      (s : ConversationState) (id : String) (c : Option (CapabilityContext V)) {o : Outcome P S}
      {k : ResponseKey}
      → begin (some m) others ctx (some s) id c ≡ ok o
      → o.result ≡ ok k
      → k ≡ key_of s id
  unfolding begin
  begin-key m others ctx s id c {o} {k} h done = elim (Option-cases m.processor) [
    | inl a ↦ absurd (ground arith)
    | inr (process, a) ↦ elim (Option-cases m.responder) [
      | inl b ↦ absurd (ground arith)
      | inr (respond, b) ↦ elim (Option-cases m.gate) [
        | inl d ↦ absurd (ground arith)
        | inr (g, d) ↦ elim (Option-cases ctx) [
          | inl e ↦ absurd (ground arith)
          | inr (x, e) ↦ ready process respond g x (ground arith)
        ]
      ]
    ]
  ]
    where
      ready :
          (process : TurnInput V → Result P TurnDirective)
          (respond : String → TurnDirective → Result S (Unit {0})) (g : ResponseGate) (x : Context)
          → begin_ready process respond g others x s id c ≡ o
          → k ≡ key_of s id
      ready process respond g x same = elim (begin_ready-Leaves process respond g others x s id c) [
        | inl (_, _, bad) ↦ absurd (ground arith)
        | inr (r, granted, left) ↦
            let (_, _, own, _, _, _, _) = left.on_success k (ap (λ u. u.result) same ∙ done) in
            own ∙ reserve-key g s id granted
      ]

  begun-binds :
      (h : FinalTranscriptHandler P S V) (m : Result (Error P S) (Outcome P S)) {k : ResponseKey}
      → (begun h m).1 ≡ some k
      → (o : Outcome P S) × (m ≡ ok o) × (o.result ≡ ok k)
  unfolding begun
  begun-binds h (err e) bound = cc
  begun-binds h (ok o) {k} bound = (o, refl, ground arith)

  begun-keeps :
      (h : FinalTranscriptHandler P S V) (m : Result (Error P S) (Outcome P S))
      → ((begun h m).0.state ≡ h.state) × ((begun h m).0.next_lead ≡ h.next_lead)
  unfolding begun
  begun-keeps h (err e) = (refl, refl)
  begun-keeps h (ok o) = elim (Result-cases o.result) [
    | inl (k, e) ↦ rw e (refl, refl)
    | inr (x, e) ↦ rw e (refl, refl)
  ]

record_turn-id : (s : ConversationState) (t : Turn) → (record_turn s t).0.id ≡ s.id
unfolding record_turn
record_turn-id s t = ground arith

module _ {P S V : Type 0} (others : ℕ → List Operation) (ctx : Option Context) where
  -- The turn is recorded, the key is its own, and the number is kept.
  abbrev pub Binds : FinalTranscriptHandler P S V → Turn → ResponseKey → Handled P S V → Type 0
  Binds h t k r =
      (k ≡ key_of h.state t.id)
      × (is_ok (record_turn h.state t).1 ≡ true)
      × (r.0.state ≡ (record_turn h.state t).0)
      × (r.0.next_lead ≡ h.next_lead)

  recorded-Binds :
      (h : FinalTranscriptHandler P S V) (t : Turn) {k : ResponseKey}
      → (recorded others ctx h t).1 ≡ some k
      → Binds h t k (recorded others ctx h t)
  unfolding recorded
  recorded-Binds h t {k} bound = elim (Result-cases (record_turn h.state t).1) [
    | inr (x, e) ↦ absurd (ground arith)
    | inl (event, e) ↦
        let h' = record h { state = (record_turn h.state t).0 } in
        let m =
          begin (some h.coordinator) others ctx (some (record_turn h.state t).0) t.id
            h.capability in
        let (o, called, done) = begun-binds h' m (rw (e, recorded) at bound) in
        let own =
          begin-key h.coordinator others ctx (record_turn h.state t).0 t.id h.capability called
            done in
        rw (e, recorded)
          (
            own
                ∙ ap (λ i. record { conversation_id = i; source_turn_id = t.id })
                    (record_turn-id h.state t),
            refl,
            (begun-keeps h' m).0,
            (begun-keeps h' m).1,
          )
  ]

  -- If a final text makes the handler bind a key, the turn with the trimmed text and the next number
  -- has been recorded as a final one of the lead, the key is that of the turn in the conversation, the
  -- handler has the number, and its conversation is the one with the turn in it.
  pub handle_final_text-Binds :
      (h : FinalTranscriptHandler P S V) (raw : String) {k : ResponseKey}
      → (handle_final_text others ctx h raw).1 ≡ some k
      → let next = suc h.next_lead % 18446744073709551616 in
        Binds
          (record h { next_lead = next })
          (record { id = lead_id next; role = lead; text = trim_space raw; transcript = final })
          k
          (handle_final_text others ctx h raw)
  unfolding handle_final_text new_turn
  handle_final_text-Binds h raw {k} bound =
      let next = suc h.next_lead % 18446744073709551616 in
      let t : Turn = record {
        id = lead_id next;
        role = lead;
        text = trim_space raw;
        transcript = final;
      } in
      elim (Bool-cases (is_empty (trim_space raw))) [
        | inl blank ↦ absurd (ground arith)
        | inr spoken ↦ elim (Bool-cases (valid_turn t)) [
          | inr invalid ↦ absurd (ground arith)
          | inl valid ↦
              rw (spoken, valid)
                (recorded-Binds (record h { next_lead = next }) t (rw (spoken, valid) at bound))
        ]
      ]
