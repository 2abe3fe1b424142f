-- ===== src/Bridge/Leases.antt =====
-- Audio is written only under a lease (internal/telephony/bridge/split_bridge.go).
use agentic_voice_sdr.Base.{
  ℕ, ◌≡◌, ◌⊎◌, refl, subst, inl, inr, Bool, true, false, List, [], ◌∷◌, ◌++◌, Option, none, some,
  arith, str_eq, Bool-cases, Option-cases,
}
use agentic_voice_sdr.Bridge.{
  Event, audio, output_transcription, tool_call, turn_complete, interrupted, api_error, closed,
  other, Reason, Error, format_incompatible, response_interrupted, provider_api, receive_failed,
  session_closed, Disposition, idle, denied, owned, Action, owns, writes, completes, fails,
  fails_active, hands_on, Answers, Received, event, failed, Outcome, goes_on, ends, returns,
  owned_by, taken, begin, fail, fail_session, hand_on, play, complete_turn, round,
  run_split_responses,
}

-- The actions of a loop, from the lease that it owns to the one that it owns after them: audio goes
-- out under a lease alone; one lease is ended, by its completion or its failure, before another is
-- taken, and nothing ends it again; an active response is failed without a lease only.
pub data Follows {L : Type 0} : Option L → List (Action L) → Option L → Type 0 where
  stop : {o : Option L} → Follows o [] o
  take :
      {l : L} {rest : List (Action L)} {o : Option L}
      → Follows (some l) rest o
      → Follows none (owns l ∷ rest) o
  write :
      {l : L} {p : List ℕ} {rest : List (Action L)} {o : Option L}
      → Follows (some l) rest o
      → Follows (some l) (writes p ∷ rest) o
  complete :
      {l : L} {rest : List (Action L)} {o : Option L}
      → Follows none rest o
      → Follows (some l) (completes l ∷ rest) o
  fail_lease :
      {l : L} {r : Reason} {rest : List (Action L)} {o : Option L}
      → Follows none rest o
      → Follows (some l) (fails l r ∷ rest) o
  fail_any :
      {r : Reason} {rest : List (Action L)} {o : Option L}
      → Follows none rest o
      → Follows none (fails_active r ∷ rest) o
  hand :
      {e : Event} {q : Option L} {rest : List (Action L)} {o : Option L}
      → Follows q rest o
      → Follows q (hands_on e ∷ rest) o

module _ {L : Type 0} where
  append-Follows :
      {o p q : Option L} {xs ys : List (Action L)}
      → Follows o xs p
      → Follows p ys q
      → Follows o (xs ++ ys) q
  append-Follows stop g = g
  append-Follows (take f) g = take (append-Follows f g)
  append-Follows (write f) g = write (append-Follows f g)
  append-Follows (complete f) g = complete (append-Follows f g)
  append-Follows (fail_lease f) g = fail_lease (append-Follows f g)
  append-Follows (fail_any f) g = fail_any (append-Follows f g)
  append-Follows (hand f) g = hand (append-Follows f g)

  abbrev pub owner : Disposition L → Option L
  owner idle = none
  owner denied = none
  owner (owned l) = some l

  taken-Follows : (d : Disposition L) → Follows none (taken d) (owner d)
  taken-Follows idle = stop
  taken-Follows denied = stop
  taken-Follows (owned l) = take stop

  begin-Follows :
      (lifecycle : Bool) (d : Disposition L) (a : Option (L × Bool))
      → Follows (owner d) (begin lifecycle d a).0 (owner (begin lifecycle d a).1)
  unfolding begin
  begin-Follows true idle a = taken-Follows (owned_by a)
  begin-Follows false idle a = stop
  begin-Follows lifecycle denied a = stop
  begin-Follows lifecycle (owned l) a = stop

  fail-Follows : (d : Disposition L) (r : Reason) → Follows (owner d) (fail d r) none
  unfolding fail
  fail-Follows idle r = stop
  fail-Follows denied r = stop
  fail-Follows (owned l) r = fail_lease stop

  fail_session-Follows :
      (lifecycle : Bool) (d : Disposition L) (r : Reason)
      → Follows (owner d) (fail_session lifecycle d r) none
  unfolding fail_session
  fail_session-Follows true idle r = fail_any stop
  fail_session-Follows false idle r = stop
  fail_session-Follows true denied r = fail_any stop
  fail_session-Follows false denied r = stop
  fail_session-Follows lifecycle (owned l) r = fail_lease stop

Outcome-cases :
    {E L : Type 0} (o : Outcome E L)
    → ((d : Disposition L) × (o ≡ goes_on d)) ⊎ ((o ≡ ends) ⊎ ((x : Error E) × (o ≡ returns x)))
Outcome-cases (goes_on d) = inl (d, refl)
Outcome-cases ends = inr (inl refl)
Outcome-cases (returns x) = inr (inr (x, refl))

module _ {E L : Type 0} (lifecycle handler : Bool) where
  -- A round from an owner: to the owner of the disposition that it goes on with, if it goes on.
  abbrev Rounds : Option L → List (Action L) × Outcome E L → Type 0
  Rounds q r =
      (o : Option L) × Follows q r.0 o × ((d : Disposition L) → r.1 ≡ goes_on d → o ≡ owner d)

  hand_on-Rounds :
      (e : Event) (a : Answers E L) (d : Disposition L)
      → Rounds (owner d) (hand_on lifecycle handler e a d)
  unfolding hand_on
  hand_on-Rounds e a d = elim (Bool-cases handler) [
    | inr quiet ↦ rw quiet (owner d, stop, λ f g. ground arith)
    | inl heard ↦ rw heard (elim (Option-cases a.handle) [
      | inl fine ↦ rw fine (owner d, hand stop, λ f g. ground arith)
      | inr (x, bad) ↦ rw bad (owner d, hand stop, λ f g. cc)
    ])
  ]

  -- Actions first, then a round from where they lead.
  after-Rounds :
      {o p : Option L} {acts : List (Action L)} (r : List (Action L) × Outcome E L)
      → Follows o acts p
      → Rounds p r
      → Rounds o (acts ++ r.0, r.1)
  after-Rounds r f (q, g, same) = (q, append-Follows f g, same)

  play-Rounds :
      (e : Event) (a : Answers E L) (p : List ℕ) (d : Disposition L)
      → Rounds (owner d) (play lifecycle handler e a p d)
  unfolding play fail
  play-Rounds e a [] d = hand_on-Rounds e a d
  play-Rounds e a (b ∷ bs) idle = hand_on-Rounds e a idle
  play-Rounds e a (b ∷ bs) denied = hand_on-Rounds e a denied
  play-Rounds e a (b ∷ bs) (owned l) = elim (Option-cases a.write) [
    | inl fine ↦
        rw (fine, play)
          (after-Rounds (hand_on lifecycle handler e a (owned l)) (write stop)
            (hand_on-Rounds e a (owned l)))
    | inr (x, bad) ↦ rw (bad, play) (none, write (fail_lease stop), λ f g. cc)
  ]

  complete_turn-Rounds :
      (e : Event) (a : Answers E L) (d : Disposition L)
      → Rounds (owner d) (complete_turn lifecycle handler e a d)
  unfolding complete_turn
  complete_turn-Rounds e a idle = hand_on-Rounds e a idle
  complete_turn-Rounds e a denied = hand_on-Rounds e a idle
  complete_turn-Rounds e a (owned l) = elim (Option-cases a.complete) [
    | inl fine ↦
        rw (fine, complete_turn)
          (after-Rounds (hand_on lifecycle handler e a idle) (complete stop)
            (hand_on-Rounds e a idle))
    | inr (x, bad) ↦ rw (bad, complete_turn) (none, complete stop, λ f g. cc)
  ]

  round-Rounds :
      (d : Disposition L) (e : Event) (a : Answers E L)
      → Rounds (owner d) (round lifecycle handler d e a)
  unfolding round
  round-Rounds d (audio mime p) a = elim (Bool-cases (str_eq mime "audio/pcm;rate=24000")) [
    | inr bad ↦ rw (bad, round) (none, fail-Follows d format_incompatible, λ f g. cc)
    | inl good ↦
        rw (good, round)
          (after-Rounds (play lifecycle handler (audio mime p) a p (begin lifecycle d a.active).1)
            (begin-Follows lifecycle d a.active)
            (play-Rounds (audio mime p) a p (begin lifecycle d a.active).1))
  ]
  round-Rounds d output_transcription a =
      after-Rounds (hand_on lifecycle handler output_transcription a (begin lifecycle d a.active).1)
        (begin-Follows lifecycle d a.active)
        (hand_on-Rounds output_transcription a (begin lifecycle d a.active).1)
  round-Rounds d tool_call a =
      after-Rounds (hand_on lifecycle handler tool_call a (begin lifecycle d a.active).1)
        (begin-Follows lifecycle d a.active)
        (hand_on-Rounds tool_call a (begin lifecycle d a.active).1)
  round-Rounds d turn_complete a = complete_turn-Rounds turn_complete a d
  round-Rounds d interrupted a =
      after-Rounds (hand_on lifecycle handler interrupted a idle)
        (fail-Follows d response_interrupted) (hand_on-Rounds interrupted a idle)
  round-Rounds d api_error a =
      after-Rounds (hand_on lifecycle handler api_error a idle)
        (fail_session-Follows lifecycle d provider_api) (hand_on-Rounds api_error a idle)
  round-Rounds d closed a =
      after-Rounds (hand_on lifecycle handler closed a idle)
        (fail_session-Follows lifecycle d session_closed) (hand_on-Rounds closed a idle)
  round-Rounds d (other kind) a = hand_on-Rounds (other kind) a d

  -- Whatever the responder sends and the others answer, with a life cycle and an event handler or
  -- without: the loop writes audio only while it owns a lease, and it ends a lease that it owns at most
  -- once and before it takes another.
  pub run_split_responses-Follows :
      (d : Disposition L) (rs : List (Received E L))
      → (o : Option L) × Follows (owner d) (run_split_responses lifecycle handler d rs).0 o
  unfolding run_split_responses
  run_split_responses-Follows d [] = (owner d, stop)
  run_split_responses-Follows d (failed x (some over) ∷ rs) = (owner d, stop)
  run_split_responses-Follows d (failed x none ∷ rs) =
      (none, fail_session-Follows lifecycle d receive_failed)
  run_split_responses-Follows d (event e a ∷ rs) =
      let (q, f, same) = round-Rounds d e a in
      elim (Outcome-cases (round lifecycle handler d e a).1) [
        | inl (d', on) ↦
            let (o, g) = run_split_responses-Follows d' rs in
            rw (on, run_split_responses)
              (
                o,
                append-Follows
                    (subst (Follows (owner d) (round lifecycle handler d e a).0) (same d' on) f) g,
              )
        | inr (inl over) ↦ rw (over, run_split_responses) (q, f)
        | inr (inr (x, back)) ↦ rw (back, run_split_responses) (q, f)
      ]
