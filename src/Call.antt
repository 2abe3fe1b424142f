-- ===== src/Call.antt =====
-- internal/domain/call/session.go: the life of a call as a state machine.
-- The clock is an argument of each transition: the time that `s.clock()` returns there.
pub mod Reach
pub mod Tests
use agentic_voice_sdr.Base.{ℕ, Bool, true, false, Result, ok, err, if◌then◌else◌}

pub data State : Type 0 where
  created dialing ringing connected conversing ending : State
  completed no_answer busy voicemail failed canceled : State

pub record StateTransition : Type 0 where
  pub from : State
  pub to : State
  pub occurred_at : ℕ

pub record InvalidTransitionError : Type 0 where
  pub from : State
  pub to : State

pub record CallSession : Type 0 where
  pub state : State

unfoldable pub new_call_session : CallSession
new_call_session = record { state = created }

-- One clause for each `to ==` of the source's switch.
unfoldable pub valid_transition : State → State → Bool
valid_transition created dialing = true
valid_transition created canceled = true
valid_transition created failed = true
valid_transition dialing ringing = true
valid_transition dialing no_answer = true
valid_transition dialing busy = true
valid_transition dialing failed = true
valid_transition dialing canceled = true
valid_transition ringing connected = true
valid_transition ringing no_answer = true
valid_transition ringing busy = true
valid_transition ringing voicemail = true
valid_transition ringing failed = true
valid_transition ringing canceled = true
valid_transition connected conversing = true
valid_transition connected ending = true
valid_transition connected failed = true
valid_transition connected canceled = true
valid_transition conversing ending = true
valid_transition conversing failed = true
valid_transition conversing canceled = true
valid_transition ending completed = true
valid_transition ending failed = true
valid_transition _ _ = false

unfoldable pub transition :
    CallSession → State → ℕ → CallSession × Result InvalidTransitionError StateTransition
unfolding valid_transition
transition s to now =
    if valid_transition s.state to
    then (record s { state = to }, ok (record { from = s.state; to = to; occurred_at = now }))
    else (s, err (record { from = s.state; to = to }))
