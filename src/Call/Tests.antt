-- ===== src/Call/Tests.antt =====
-- The call session on concrete histories (internal/domain/call/session.go).
use agentic_voice_sdr.Base.{ℕ, ◌≤◌, ◌≡◌, refl, List, [], ◌∷◌}
use agentic_voice_sdr.Call.{
  State, dialing, ringing, connected, ending, completed, failed, CallSession, new_call_session,
  transition,
}
use agentic_voice_sdr.Call.Reach.{run, accepted, accepted-le-six}

abbrev answered : List (State × ℕ)
answered =
    (dialing, 1)
    ∷ (connected, 2)
    ∷ (ringing, 3)
    ∷ (connected, 4)
    ∷ (ending, 9)
    ∷ (completed, 10)
    ∷ []

answered_completes : (run new_call_session answered).state ≡ completed
unfolding run transition new_call_session
answered_completes = refl

accepted-le-six_example : accepted new_call_session answered ≤ 6
accepted-le-six_example = accepted-le-six new_call_session answered

abbrev lost : CallSession
lost = record { state = failed }
