-- ===== src/Voiceflow/Transcripts.antt =====
-- internal/voiceflow/transcript_handler.go: a final transcript of the lead becomes a turn that is begun.
-- What the handler does to others is in the result: the events that are passed on, and the key that the
-- life cycle is bound to. The coordinator is the one of Turnloop, with the other callers of its gate.
pub mod Sequence
pub mod Turns
pub mod Tests
use Prim.Native.Char.{Char, code, len_utf8}
use agentic_voice_sdr.Base.Text.{byte_length, digit, put_digits}
use agentic_voice_sdr.Base.{
  ℕ, zero, suc, ◌+◌, ◌-◌, ◌*◌, ◌/◌, ◌%◌, String, Bool, true, false, not, ◌&&◌, ◌||◌, List, [], ◌∷◌,
  Option, none, some, Result, ok, err, if◌then◌else◌, ◌==◌, ltb, leb, is_empty, trim_space, is_some,
  Context,
}
use agentic_voice_sdr.Conversation.{
  ConversationState, Turn, lead, final, new_turn, record_turn, Error as ConversationError,
}
use agentic_voice_sdr.Turnruntime.{CapabilityContext}
use agentic_voice_sdr.Gate.{ResponseKey}
use agentic_voice_sdr.Gate.Runs.{Operation}
use agentic_voice_sdr.Turnloop.{Coordinator, Outcome, begin, Error as TurnloopError}

unfoldable pub six : ℕ → String
six n = String.◌∷◌ (digit (n / 100000 % 10)) (
    String.◌∷◌ (digit (n / 10000 % 10)) (
      String.◌∷◌ (digit (n / 1000 % 10)) (
        String.◌∷◌ (digit (n / 100 % 10))
          (String.◌∷◌ (digit (n / 10 % 10)) (String.◌∷◌ (digit (n % 10)) String.[])))))

-- `fmt.Sprintf("lead-%06d", n)`.
unfoldable pub lead_id : ℕ → String
lead_id n = String.◌∷◌ "l" (
    String.◌∷◌ "e"
      (String.◌∷◌ "a" (String.◌∷◌ "d" (String.◌∷◌ "-" (put_digits 20 (n / 1000000) (six n))))))

abbrev expect : ℕ → String → Option String
expect n String.[] = none
expect n (String.◌∷◌ c s) = if code c == n then some s else none

-- `strings.HasPrefix(id, "lead-")` and `strings.TrimPrefix`.
unfoldable pub lead_suffix : String → Option String
lead_suffix id = after 45 (after 100 (after 97 (after 101 (expect 108 id))))
  where
    after : ℕ → Option String → Option String
    after n none = none
    after n (some s) = expect n s

-- The loop over the suffix.
unfoldable pub value : ℕ → String → ℕ
value acc String.[] = acc
value acc (String.◌∷◌ c s) =
    let rest = value (acc * 10 + (code c - 48)) s in
    if ltb (code c) 48 || ltb 57 (code c) then 0 else rest

-- What one turn's id counts for; 0 changes nothing.
unfoldable pub counted : String → ℕ
counted id = elim (lead_suffix id) [
  | none ↦ 0
  | some s ↦ if byte_length s == 6 then value 0 s else 0
]

-- `seedLeadSequence`, the largest so far being given.
unfoldable pub seed_lead_sequence : ℕ → List Turn → ℕ
seed_lead_sequence largest [] = largest
seed_lead_sequence largest (t ∷ ts) =
    seed_lead_sequence (if ltb largest (counted t.id) then counted t.id else largest) ts

pub data HandlerError (P S : Type 0) : Type 0 where
  invalid_handler : HandlerError P S
  conversation : ConversationError → HandlerError P S
  turnloop : TurnloopError P S → HandlerError P S

-- What the handler changes; its capability and what it passes other events on to do not change.
pub record FinalTranscriptHandler (P S V : Type 0) : Type 0 where
  pub state : ConversationState
  pub coordinator : Coordinator P S V
  pub capability : Option (CapabilityContext V)
  pub next_lead : ℕ

-- The handler after an event, the key that the life cycle is bound to, and the result.
abbrev pub Handled : Type 0 → Type 0 → Type 0 → Type 0
Handled P S V =
    FinalTranscriptHandler P S V × Option ResponseKey × Result (HandlerError P S) (Unit {0})

module _ {P S V : Type 0} where
  unfoldable pub new_final_transcript_handler :
      Option ConversationState
      → Option (Coordinator P S V)
      → Option (CapabilityContext V)
      → Result (HandlerError P S) (FinalTranscriptHandler P S V)
  new_final_transcript_handler (some s) (some c) capability = ok (record {
    state = s;
    coordinator = c;
    capability = capability;
    next_lead = seed_lead_sequence 0 s.turns;
  })
  new_final_transcript_handler _ _ capability = err invalid_handler

  -- `handleFinalText` from the answer of `Begin` on.
  unfoldable pub begun :
      FinalTranscriptHandler P S V → Result (TurnloopError P S) (Outcome P S) → Handled P S V
  begun h (err e) = (h, none, err (turnloop e))
  begun h (ok o) =
      let h' = record h { coordinator = record h.coordinator { gate = some o.gate } } in
      elim o.result [ err e ↦ (h', none, err (turnloop e)) | ok k ↦ (h', some k, ok tt) ]

  module _ (others : ℕ → List Operation) (ctx : Option Context) where
    -- From the turn on.
    unfoldable pub recorded : FinalTranscriptHandler P S V → Turn → Handled P S V
    recorded h t = elim (record_turn h.state t).1 [
      | err e ↦ (record h { state = (record_turn h.state t).0 }, none, err (conversation e))
      | ok event ↦
          begun (record h { state = (record_turn h.state t).0 })
            (begin (some h.coordinator) others ctx (some (record_turn h.state t).0) t.id
              h.capability)
    ]

    unfoldable pub handle_final_text : FinalTranscriptHandler P S V → String → Handled P S V
    handle_final_text h raw =
        if is_empty (trim_space raw)
        then (h, none, ok tt)
        else (elim (new_turn (lead_id (suc h.next_lead % 18446744073709551616)) lead
            (trim_space raw) final) [
              | err e ↦ (
                record h { next_lead = suc h.next_lead % 18446744073709551616 },
                none,
                err (conversation e),
              )
              | ok t ↦ recorded (record h { next_lead = suc h.next_lead % 18446744073709551616 }) t
            ])

    -- `HandleTranscript` of an event with the state and the text; a nil handler is none.
    unfoldable pub handle_transcript :
        Option (FinalTranscriptHandler P S V)
        → Bool
        → String
        → Option (FinalTranscriptHandler P S V)
          × Option ResponseKey
          × Result (HandlerError P S) (Unit {0})
    handle_transcript none is_final_text text = (none, none, err invalid_handler)
    handle_transcript (some h) false text = (some h, none, ok tt)
    handle_transcript (some h) true text =
        let (h', k, r) = handle_final_text h text in (some h', k, r)
