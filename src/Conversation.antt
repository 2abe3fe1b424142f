-- ===== src/Conversation.antt =====
-- internal/domain/conversation/conversation.go: turns, signals and stages of one conversation.
-- A type that the source makes of text is a data type of its named values, the empty text (`unset`)
-- where code tests for it, and any other text (`other`).
pub mod Turns
pub mod Runs
pub mod Tests
use agentic_voice_sdr.Base.{
  String, Bool, true, false, not, ◌&&◌, ◌||◌, List, [], ◌∷◌, Option, none, some, Result, ok, err,
  if◌then◌else◌, str_eq, is_blank,
}

pub data ParticipantRole : Type 0 where
  lead agent system : ParticipantRole
  unset : ParticipantRole
  other : String → ParticipantRole

pub data TranscriptState : Type 0 where
  partial final : TranscriptState
  unset : TranscriptState
  other : String → TranscriptState

pub data ConversationStage : Type 0 where
  opening active closing ended : ConversationStage
  other : String → ConversationStage

pub data Signal : Type 0 where
  lead_responded opted_out : Signal
  other : String → Signal

pub record Signals : Type 0 where
  pub lead_responded : Bool
  pub opted_out : Bool

pub record Turn : Type 0 where
  pub id : String
  pub role : ParticipantRole
  pub text : String
  pub transcript : TranscriptState

-- The sentinels, and the error types that carry data; of a message text nothing is kept.
pub data Error : Type 0 where
  invalid_conversation_id invalid_turn turn_conflict invalid_signal : Error
  finalized_turn : String → Error
  invalid_stage_transition : ConversationStage → ConversationStage → Error

pub record TurnEvent : Type 0 where
  pub turn : Turn
  pub replaced : Bool

pub record StageTransition : Type 0 where
  pub from : ConversationStage
  pub to : ConversationStage

pub record ConversationState : Type 0 where
  pub id : String
  pub stage : ConversationStage
  pub turns : List Turn
  pub signals : Signals

-- `role == RoleLead`, `state == TranscriptFinal`, and equality of two roles.
abbrev pub is_lead : ParticipantRole → Bool
is_lead lead = true
is_lead _ = false

abbrev pub is_final : TranscriptState → Bool
is_final final = true
is_final _ = false

abbrev pub same_role : ParticipantRole → ParticipantRole → Bool
same_role lead lead = true
same_role agent agent = true
same_role system system = true
same_role unset unset = true
same_role (other s) (other t) = str_eq s t
same_role _ _ = false

unfoldable pub valid_role : ParticipantRole → Bool
valid_role lead = true
valid_role agent = true
valid_role system = true
valid_role _ = false

unfoldable pub valid_transcript_state : TranscriptState → Bool
valid_transcript_state partial = true
valid_transcript_state final = true
valid_transcript_state _ = false

-- `Turn.validate`; true where it returns nil.
unfoldable pub valid_turn : Turn → Bool
unfolding valid_role valid_transcript_state
valid_turn t = not (
    is_blank t.id
    || is_blank t.text
    || not (valid_role t.role)
    || not (valid_transcript_state t.transcript))

unfoldable pub new_turn : String → ParticipantRole → String → TranscriptState → Result Error Turn
unfolding valid_turn
new_turn id role text transcript =
    let t : Turn = record { id = id; role = role; text = text; transcript = transcript } in
    if valid_turn t then ok t else err invalid_turn

unfoldable pub new_conversation_state : String → Result Error ConversationState
new_conversation_state id =
    if is_blank id
    then err invalid_conversation_id
    else ok (record {
      id = id;
      stage = opening;
      turns = [];
      signals = record { lead_responded = false; opted_out = false };
    })

unfoldable pub update_signals : Signals → Turn → Signals
update_signals s t =
    if is_lead t.role && is_final t.transcript then record s { lead_responded = true } else s

-- The loop of `RecordTurn`: the first turn with the id is replaced, unless its role differs or it
-- is final; with no such turn the new one is appended.
abbrev pub keep : Turn → Result Error (List Turn × Bool) → Result Error (List Turn × Bool)
keep e (ok (ts, replaced)) = ok (e ∷ ts, replaced)
keep e (err x) = err x

unfoldable pub place : Turn → List Turn → Result Error (List Turn × Bool)
place t [] = ok (t ∷ [], false)
place t (e ∷ es) =
    let rest = keep e (place t es) in
    if not (str_eq e.id t.id)
    then rest
    else (if not (same_role e.role t.role)
        then err turn_conflict
        else (if is_final e.transcript then err (finalized_turn t.id) else ok (t ∷ es, true)))

unfoldable pub record_turn : ConversationState → Turn → ConversationState × Result Error TurnEvent
unfolding update_signals
record_turn s t = if not (valid_turn t) then (s, err invalid_turn) else (elim (place t s.turns) [
  | ok (ts, replaced) ↦ (
    record s { turns = ts; signals = update_signals s.signals t },
    ok (record { turn = t; replaced = replaced }),
  )
  | err x ↦ (s, err x)
])

-- `signal_of` is the switch of `RecordSignal`; none is its default.
unfoldable pub signal_of : Signal → Signals → Option Signals
signal_of lead_responded s = some (record s { lead_responded = true })
signal_of opted_out s = some (record s { opted_out = true })
signal_of (other _) s = none

unfoldable pub record_signal :
    ConversationState → Signal → ConversationState × Result Error (Unit {0})
unfolding signal_of
record_signal s g = elim (signal_of g s.signals) [
  | some signals ↦ (record s { signals = signals }, ok tt)
  | none ↦ (s, err invalid_signal)
]

unfoldable pub valid_stage_transition : ConversationStage → ConversationStage → Bool
valid_stage_transition opening active = true
valid_stage_transition opening ended = true
valid_stage_transition active closing = true
valid_stage_transition active ended = true
valid_stage_transition closing ended = true
valid_stage_transition _ _ = false

unfoldable pub transition :
    ConversationState → ConversationStage → ConversationState × Result Error StageTransition
unfolding valid_stage_transition
transition s to =
    if valid_stage_transition s.stage to
    then (record s { stage = to }, ok (record { from = s.stage; to = to }))
    else (s, err (invalid_stage_transition s.stage to))
