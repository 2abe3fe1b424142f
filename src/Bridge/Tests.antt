-- ===== src/Bridge/Tests.antt =====
-- The loop of responses on concrete inputs (internal/telephony/bridge/split_bridge.go).
use agentic_voice_sdr.Base.{ℕ, ◌≡◌, refl, true, false, List, [], ◌∷◌, Option, none, some}
use agentic_voice_sdr.Bridge.{
  Received, event, Answers, audio, interrupted, closed, owns, writes, fails, idle, ends,
  fails_active, response_interrupted, session_closed, begin, fail, fail_session, hand_on, play,
  round, run_split_responses, owned,
}
use agentic_voice_sdr.Bridge.Leases.{Follows, owner, run_split_responses-Follows}

abbrev answers : Answers ℕ ℕ
answers = record { active = some (7, true); write = none; complete = none; handle = none }

-- Two pieces of audio, an interruption, audio that nobody owns any more, and the end.
abbrev session : List (Received ℕ ℕ)
session =
    event (audio "audio/pcm;rate=24000" (1 ∷ [])) answers
    ∷ event (audio "audio/pcm;rate=24000" (2 ∷ [])) answers
    ∷ event interrupted answers
    ∷ event (audio "audio/pcm;rate=24000" (3 ∷ [])) (record answers { active = none })
    ∷ event closed answers
    ∷ []

session_lem : run_split_responses true false idle session ≡ (
  owns 7
      ∷ writes (1 ∷ [])
      ∷ writes (2 ∷ [])
      ∷ fails 7 response_interrupted
      ∷ fails_active session_closed
      ∷ [],
  some ends,
)
unfolding run_split_responses round begin play hand_on fail fail_session
session_lem = refl

run_split_responses-Follows_example :
    (o : Option ℕ) × Follows (owner (owned 7)) (run_split_responses true true (owned 7) session).0 o
run_split_responses-Follows_example = run_split_responses-Follows true true (owned 7) session
