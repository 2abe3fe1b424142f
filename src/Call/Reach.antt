-- ===== src/Call/Reach.antt =====
-- What holds of a call over every sequence of attempted transitions (internal/domain/call/session.go).
use agentic_voice_sdr.Base.{ℕ, suc, ◌+◌, ◌≤◌, ◌≡◌, refl, List, [], ◌∷◌, arith, is_ok, if◌then◌else◌}
use agentic_voice_sdr.Call.{
  State, created, dialing, ringing, connected, conversing, ending, completed, no_answer, busy,
  voicemail, failed, canceled, CallSession, transition, new_call_session,
}

-- The attempts of a caller, each with the time at which it is made. A refused one changes nothing.
unfoldable pub run : CallSession → List (State × ℕ) → CallSession
run s [] = s
run s ((to, now) ∷ rest) = run (transition s to now).0 rest

-- How many of the attempts were accepted.
unfoldable pub accepted : CallSession → List (State × ℕ) → ℕ
accepted s [] = 0
accepted s ((to, now) ∷ rest) =
    let n = accepted (transition s to now).0 rest in
    if is_ok (transition s to now).1 then suc n else n

-- How far a state is from the start: every accepted transition goes up.
abbrev pub rank : State → ℕ
rank created = 0
rank dialing = 1
rank ringing = 2
rank connected = 3
rank conversing = 4
rank ending = 5
rank completed = 6
rank no_answer = 6
rank busy = 6
rank voicemail = 6
rank failed = 6
rank canceled = 6

abbrev pub IsTerminal : State → Type 0
IsTerminal s = rank s ≡ 6

-- A session never goes back to an earlier state, and an accepted transition goes strictly forward.
transition-rank :
    (s : CallSession) (to : State) (now : ℕ)
    → rank s.state + (if is_ok (transition s to now).1 then 1 else 0)
      ≤ rank (transition s to now).0.state
unfolding transition
transition-rank s to now = ground arith

accepted-rank :
    (s : CallSession) (es : List (State × ℕ)) → rank s.state + accepted s es ≤ rank (run s es).state
unfolding run accepted
accepted-rank s [] = omega arith
accepted-rank s ((to, now) ∷ rest) =
    ground (arith, transition-rank s to now, accepted-rank (transition s to now).0 rest)

rank_le : (s : State) → rank s ≤ 6
rank_le created = omega arith
rank_le _ = omega arith

-- From any session, no sequence of attempted transitions, at any times, has more than six accepted
-- ones.
pub accepted-le-six : (s : CallSession) (es : List (State × ℕ)) → accepted s es ≤ 6
accepted-le-six s es = omega (arith, accepted-rank s es, rank_le (run s es).state)

transition-IsTerminal :
    (s : CallSession) (to : State) (now : ℕ) → IsTerminal s.state → (transition s to now).0 ≡ s
unfolding transition
transition-IsTerminal s to now h = ground arith

-- Once a session is in one of the six final states, no sequence of attempted transitions changes it.
pub run-IsTerminal : (s : CallSession) (es : List (State × ℕ)) → IsTerminal s.state → run s es ≡ s
unfolding run
run-IsTerminal s [] h = refl
run-IsTerminal s ((to, now) ∷ rest) h =
    let same = transition-IsTerminal s to now h in ground (arith, same, run-IsTerminal s rest h)

-- The least number of transitions from `created` to a state.
abbrev pub distance : State → ℕ
distance created = 0
distance dialing = 1
distance ringing = 2
distance connected = 3
distance conversing = 4
distance ending = 4
distance completed = 5
distance no_answer = 2
distance busy = 2
distance voicemail = 3
distance failed = 1
distance canceled = 1

transition-distance :
    (s : CallSession) (to : State) (now : ℕ)
    → distance (transition s to now).0.state
      ≤ distance s.state + (if is_ok (transition s to now).1 then 1 else 0)
unfolding transition
transition-distance s to now = ground arith

distance-run :
    (s : CallSession) (es : List (State × ℕ))
    → distance (run s es).state ≤ distance s.state + accepted s es
unfolding run accepted
distance-run s [] = omega arith
distance-run s ((to, now) ∷ rest) =
    ground (arith, transition-distance s to now, distance-run (transition s to now).0 rest)

-- A new session reaches a state only by as many accepted transitions as the diagram is deep there:
-- a completed call, say, has been dialed, has rung, was connected and was ended.
pub distance-le-accepted :
    (es : List (State × ℕ))
    → distance (run new_call_session es).state ≤ accepted new_call_session es
unfolding new_call_session
distance-le-accepted es = omega (arith, distance-run new_call_session es)
