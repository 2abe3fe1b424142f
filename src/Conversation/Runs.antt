-- ===== src/Conversation/Runs.antt =====
-- Every operation of a conversation, and what holds after any sequence of them
-- (internal/domain/conversation/conversation.go).
use agentic_voice_sdr.Base.{
  String, ◌≡◌, refl, Bool, true, false, ◌&&◌, ◌||◌, List, [], ◌∷◌, ◌++◌, none, some, ok, arith,
  str_eq, eq_iff, any,
}
use agentic_voice_sdr.Conversation.{
  Turn, ConversationState, ConversationStage, Signal, is_lead, is_final, record_turn, record_signal,
  transition, new_conversation_state,
}
use agentic_voice_sdr.Conversation.Turns.{
  find, replace, place_lem, find-append, find-record_turn, record_turn-is_ok,
}

pub data Operation : Type 0 where
  records : Turn → Operation
  signals : Signal → Operation
  moves : ConversationStage → Operation

unfoldable pub step : ConversationState → Operation → ConversationState
step s (records t) = (record_turn s t).0
step s (signals g) = (record_signal s g).0
step s (moves to) = (transition s to).0

unfoldable pub run : ConversationState → List Operation → ConversationState
run s [] = s
run s (o ∷ os) = run (step s o) os

-- Finalized turns.

find-step_final :
    (s : ConversationState) (o : Operation) (j : String) (e : Turn)
    → find j s.turns ≡ some e
    → is_final e.transcript ≡ true
    → find j (step s o).turns ≡ some e
unfolding step record_signal transition
find-step_final s (records t) j e h f =
    ground (arith, find-record_turn s t j, record_turn-is_ok s t, eq_iff t.id j)
find-step_final s (signals g) j e h f = ground arith
find-step_final s (moves to) j e h f = ground arith

-- A turn whose transcript is final stands unchanged under its id after any operations.
pub find-run_final :
    (s : ConversationState) (os : List Operation) (j : String) (e : Turn)
    → find j s.turns ≡ some e
    → is_final e.transcript ≡ true
    → find j (run s os).turns ≡ some e
unfolding run
find-run_final s [] j e h f = h
find-run_final s (o ∷ os) j e h f = find-run_final (step s o) os j e (find-step_final s o j e h f) f

-- No two turns with one id.

abbrev pub Unique : List Turn → Type 0
Unique [] = Unit
Unique (e ∷ es) = (find e.id es ≡ none) × Unique es

append-Unique :
    (t : Turn) (ts : List Turn) → find t.id ts ≡ none → Unique ts → Unique (ts ++ (t ∷ []))
unfolding find
append-Unique t [] h u = (refl, tt)
append-Unique t (e ∷ es) h u =
    ground (arith, eq_iff t.id e.id, eq_iff e.id t.id, find-append e.id t es, append-Unique t es)

find-replace_ne :
    (j : String) (t : Turn) (ts : List Turn)
    → str_eq t.id j ≡ false
    → find j (replace t ts) ≡ find j ts
unfolding find replace
find-replace_ne j t [] h = refl
find-replace_ne j t (e ∷ es) h =
    ground (arith, eq_iff t.id j, eq_iff e.id j, eq_iff e.id t.id, find-replace_ne j t es h)

replace-Unique : (t : Turn) (ts : List Turn) → Unique ts → Unique (replace t ts)
unfolding replace
replace-Unique t [] u = tt
replace-Unique t (e ∷ es) u =
    ground (
      arith,
      eq_iff e.id t.id,
      eq_iff t.id e.id,
      find-replace_ne e.id t es,
      replace-Unique t es u.1,
    )

step-Unique : (s : ConversationState) (o : Operation) → Unique s.turns → Unique (step s o).turns
unfolding step record_turn record_signal transition
step-Unique s (records t) u =
    ground (arith, place_lem t s.turns, append-Unique t s.turns, replace-Unique t s.turns u)
step-Unique s (signals g) u = ground arith
step-Unique s (moves to) u = ground arith

run-Unique :
    (s : ConversationState) (os : List Operation) → Unique s.turns → Unique (run s os).turns
unfolding run
run-Unique s [] u = u
run-Unique s (o ∷ os) u = run-Unique (step s o) os (step-Unique s o u)

-- Whoever drives a new conversation, no two of its turns have the same id.
pub run-new-Unique :
    (id : String) {s : ConversationState} (os : List Operation)
    → new_conversation_state id ≡ ok s
    → Unique (run s os).turns
unfolding new_conversation_state
run-new-Unique id {s} os h = run-Unique s os (ground arith)

-- The signal that the lead has responded.

abbrev pub final_lead : Turn → Bool
final_lead t = is_lead t.role && is_final t.transcript

abbrev pub Signalled : ConversationState → Type 0
Signalled s = any final_lead s.turns ≡ true → s.signals.lead_responded ≡ true

any-append :
    (p : Turn → Bool) (t : Turn) (ts : List Turn)
    → any p (ts ++ (t ∷ [])) ≡ true
    → (p t || any p ts) ≡ true
any-append p t [] h = h
any-append p t (e ∷ es) h = ground (arith, any-append p t es)

any-replace :
    (p : Turn → Bool) (t : Turn) (ts : List Turn)
    → any p (replace t ts) ≡ true
    → (p t || any p ts) ≡ true
unfolding replace
any-replace p t [] h = cc
any-replace p t (e ∷ es) h = ground (arith, any-replace p t es)

step-Signalled : (s : ConversationState) (o : Operation) → Signalled s → Signalled (step s o)
unfolding step record_turn record_signal transition
step-Signalled s (records t) v =
    ground (
      arith,
      place_lem t s.turns,
      any-append final_lead t s.turns,
      any-replace final_lead t s.turns,
    )
step-Signalled s (signals g) v = ground arith
step-Signalled s (moves to) v = ground arith

run-Signalled : (s : ConversationState) (os : List Operation) → Signalled s → Signalled (run s os)
unfolding run
run-Signalled s [] v = v
run-Signalled s (o ∷ os) v = run-Signalled (step s o) os (step-Signalled s o v)

-- In a conversation that was made new, after any operations, the signal is set whenever the lead has
-- a finalized turn.
pub run-new-Signalled :
    (id : String) {s : ConversationState} (os : List Operation)
    → new_conversation_state id ≡ ok s
    → any final_lead (run s os).turns ≡ true
    → (run s os).signals.lead_responded ≡ true
unfolding new_conversation_state
run-new-Signalled id {s} os h = run-Signalled s os (ground arith)
