-- ===== src/Bridge.antt =====
-- internal/telephony/bridge/split_bridge.go: the loop that owns the responder's events, runSplitResponses.
-- What the loop asks of others is an action; what they answer during one event comes with the event. A
-- lease is a value of its own; to be authorized is part of what the life cycle answers.
pub mod Leases
pub mod Tests
use agentic_voice_sdr.Base.{
  ℕ, String, Bool, true, false, not, List, [], ◌∷◌, ◌++◌, Option, none, some, Result, ok, err,
  if◌then◌else◌, str_eq, CtxError,
}

pub data Event : Type 0 where
  audio : String → List ℕ → Event
  output_transcription tool_call turn_complete interrupted api_error closed : Event
  other : String → Event

pub data Reason : Type 0 where
  format_incompatible response_interrupted provider_api receive_failed session_closed : Reason
  audio_output_failed : Reason

-- Why the loop returns, other than at the end of the session.
pub data Error (E : Type 0) : Type 0 where
  incompatible_format : String → Error E
  context : CtxError → Error E
  external : E → Error E

pub data Disposition (L : Type 0) : Type 0 where
  idle denied : Disposition L
  owned : L → Disposition L

pub data Action (L : Type 0) : Type 0 where
  owns : L → Action L
  writes : List ℕ → Action L
  completes : L → Action L
  fails : L → Reason → Action L
  fails_active : Reason → Action L
  hands_on : Event → Action L

-- What the others answer during one event: the lease that is active with whether it is authorized,
-- and an error, if there is one, of the audio output, of a completion and of the event handler.
pub record Answers (E L : Type 0) : Type 0 where
  pub active : Option (L × Bool)
  pub write : Option E
  pub complete : Option E
  pub handle : Option E

-- A call of `Receive`: an event, or an error with what the context says.
pub data Received (E L : Type 0) : Type 0 where
  event : Event → Answers E L → Received E L
  failed : E → Option CtxError → Received E L

-- What one event leads to: the loop goes on with a disposition, ends the session, or returns an error.
pub data Outcome (E L : Type 0) : Type 0 where
  goes_on : Disposition L → Outcome E L
  ends : Outcome E L
  returns : Error E → Outcome E L

module _ {L : Type 0} where
  abbrev pub owned_by : Option (L × Bool) → Disposition L
  owned_by none = denied
  owned_by (some (l, true)) = owned l
  owned_by (some (l, false)) = denied

  abbrev pub taken : Disposition L → List (Action L)
  taken (owned l) = owns l ∷ []
  taken _ = []

  -- `begin`, with whether there is a life cycle: the actions and the disposition.
  unfoldable pub begin : Bool → Disposition L → Option (L × Bool) → List (Action L) × Disposition L
  begin lifecycle idle active =
      if lifecycle then (taken (owned_by active), owned_by active) else ([], denied)
  begin lifecycle d active = ([], d)

  -- `fail`; the result of the lease's own Fail is dropped, and the turn is idle after it.
  unfoldable pub fail : Disposition L → Reason → List (Action L)
  fail (owned l) reason = fails l reason ∷ []
  fail _ reason = []

  unfoldable pub fail_session : Bool → Disposition L → Reason → List (Action L)
  fail_session lifecycle (owned l) reason = fails l reason ∷ []
  fail_session lifecycle _ reason = if lifecycle then fails_active reason ∷ [] else []

module _ {E L : Type 0} (lifecycle handler : Bool) where
  -- The end of the round: the event handler, and the end of the session.
  unfoldable pub hand_on : Event → Answers E L → Disposition L → List (Action L) × Outcome E L
  hand_on e a d =
      if handler
      then (elim a.handle [
        | some x ↦ (hands_on e ∷ [], returns (external x))
        | none ↦ (hands_on e ∷ [], after e)
      ])
      else ([], after e)
    where
      after : Event → Outcome E L
      after closed = ends
      after _ = goes_on d

  -- The rest of the round for audio, the turn being begun.
  unfoldable pub play : Event → Answers E L → List ℕ → Disposition L → List (Action L) × Outcome E L
  play e a (b ∷ bs) (owned l) = elim a.write [
    | some x ↦ (writes (b ∷ bs) ∷ fail (owned l) audio_output_failed, returns (external x))
    | none ↦ let (acts, o) = hand_on e a (owned l) in (writes (b ∷ bs) ∷ acts, o)
  ]
  play e a p d = hand_on e a d

  unfoldable pub complete_turn : Event → Answers E L → Disposition L → List (Action L) × Outcome E L
  complete_turn e a (owned l) = elim a.complete [
    | some x ↦ (completes l ∷ [], returns (external x))
    | none ↦ let (acts, o) = hand_on e a idle in (completes l ∷ acts, o)
  ]
  complete_turn e a d = hand_on e a idle

  abbrev pub then_hand_on :
      List (Action L) → Event → Answers E L → Disposition L → List (Action L) × Outcome E L
  then_hand_on acts e a d = let (more, o) = hand_on e a d in (acts ++ more, o)

  -- The switch of the loop.
  unfoldable pub round : Disposition L → Event → Answers E L → List (Action L) × Outcome E L
  round d (audio mime p) a =
      if not (str_eq mime "audio/pcm;rate=24000")
      then (fail d format_incompatible, returns (incompatible_format mime))
      else (let (acts, d') = begin lifecycle d a.active in
          let (more, o) = play (audio mime p) a p d' in (acts ++ more, o))
  round d output_transcription a =
      let (acts, d') = begin lifecycle d a.active in then_hand_on acts output_transcription a d'
  round d tool_call a =
      let (acts, d') = begin lifecycle d a.active in then_hand_on acts tool_call a d'
  round d turn_complete a = complete_turn turn_complete a d
  round d interrupted a = then_hand_on (fail d response_interrupted) interrupted a idle
  round d api_error a = then_hand_on (fail_session lifecycle d provider_api) api_error a idle
  round d closed a = then_hand_on (fail_session lifecycle d session_closed) closed a idle
  round d (other kind) a = hand_on (other kind) a d

  -- The loop over what is received: all actions, and why it has returned, if it has.
  unfoldable pub run_split_responses :
      Disposition L → List (Received E L) → List (Action L) × Option (Outcome E L)
  run_split_responses d [] = ([], none)
  run_split_responses d (failed x (some over) ∷ rs) = ([], some (returns (context over)))
  run_split_responses d (failed x none ∷ rs) =
      (fail_session lifecycle d receive_failed, some (returns (external x)))
  run_split_responses d (event e a ∷ rs) =
      let (acts, o) = round d e a in
      elim o [
        | goes_on d' ↦ let rest = run_split_responses d' rs in (acts ++ rest.0, rest.1)
        | ends ↦ (acts, some ends)
        | returns x ↦ (acts, some (returns x))
      ]
