-- ===== src/Turnloop/Begin.antt =====
-- What a call of `Begin` leaves behind (internal/turnloop/coordinator.go).
use agentic_voice_sdr.Base.{
  ℕ, ◌≤◌, String, ◌≡◌, refl, inl, inr, Bool, true, false, List, [], ◌∷◌, Option, none, some, Result,
  ok, err, arith, Context, Result-cases, Option-cases,
}
use agentic_voice_sdr.Conversation.{ConversationState}
use agentic_voice_sdr.Directive.{TurnDirective, validate as validate_directive}
use agentic_voice_sdr.Gate.{
  ResponseAuthorization, starting, ResponseGate, ResponseKey, ResponseState, authorize_reserved,
  start, fail, failing, validate_key, lookup, move,
}
use agentic_voice_sdr.Gate.Cycles.{lookup-insert, same_key_iff}
use agentic_voice_sdr.Gate.Runs.{Operation, starts, promotes, step, run}
use agentic_voice_sdr.Gate.Lifecycle.{rank, state_of, step-rank}
use agentic_voice_sdr.Turnloop.{
  Error, Outcome, fail_after, answered, send_started, start_authorized, authorize_processed,
  process_reserved, finalized_lead_text,
}

pub run-rank :
    (k : ResponseKey) (g : ResponseGate) (os : List Operation)
    → rank (state_of k g) ≤ rank (state_of k (run g os))
unfolding run
run-rank k g [] = omega arith
run-rank k g (o ∷ os) = omega (arith, step-rank k g o, run-rank k (step g o) os)

-- A key that a response is held under: valid, and at least reserved.
pub record Held (k : ResponseKey) (g : ResponseGate) : Type 0 where
  pub named : validate_key k ≡ ok tt
  pub claimed : 1 ≤ rank (state_of k g)

pub run-Held :
    (k : ResponseKey) (g : ResponseGate) (os : List Operation) → Held k g → Held k (run g os)
run-Held k g os h = record { named = h.named; claimed = omega (arith, h.claimed, run-rank k g os) }

step-Held : (k : ResponseKey) (g : ResponseGate) (o : Operation) → Held k g → Held k (step g o)
step-Held k g o h = record { named = h.named; claimed = omega (arith, h.claimed, step-rank k g o) }

failing-settles :
    (k : ResponseKey) (g : ResponseGate) (o : Option ResponseState)
    → lookup k g.cycles ≡ o
    → 1 ≤ rank o
    → rank (state_of k (move g k (failing o)).0) ≡ 4
unfolding failing
failing-settles k g none e h = absurd (omega arith)
failing-settles k g (some ResponseState.idle) e h = absurd (omega arith)
failing-settles k g (some _) e h =
    ground (arith, lookup-insert k k ResponseState.failed g.cycles, same_key_iff k k)

-- `Fail` settles a response that is held, whatever state it is in.
pub fail-settles :
    (k : ResponseKey) (g : ResponseGate) → Held k g → rank (state_of k (fail g k).0) ≡ 4
unfolding fail
fail-settles k g h = rw (h.named, fail) (failing-settles k g (lookup k g.cycles) refl h.claimed)

starting-rank :
    (k : ResponseKey) (g : ResponseGate) (o : Option ResponseState) {u : Unit {0}}
    → (move g k (starting o)).1 ≡ ok u
    → 3 ≤ rank (state_of k (move g k (starting o)).0)
unfolding starting
starting-rank k g none h = cc
starting-rank k g (some ResponseState.authorized) h =
    ground (arith, lookup-insert k k ResponseState.started g.cycles, same_key_iff k k)
starting-rank k g (some _) h = cc

-- A started response is at least started.
start-rank :
    (k : ResponseKey) (g : ResponseGate) {u : Unit {0}}
    → (start g k).1 ≡ ok u
    → 3 ≤ rank (state_of k (start g k).0)
unfolding start
start-rank k g h = elim (Result-cases (validate_key k)) [
  | inl (v, e) ↦ rw (e, start) (starting-rank k g (lookup k g.cycles) (rw (e, start) at h))
  | inr (x, e) ↦ ground arith
]

-- An authorized directive is valid.
authorize_reserved-valid :
    (k : ResponseKey) (g : ResponseGate) (d : TurnDirective) {a : ResponseAuthorization}
    → (authorize_reserved g k d).1 ≡ ok a
    → validate_directive d ≡ ok tt
unfolding authorize_reserved
authorize_reserved-valid k g d h = ground arith

-- What one call of `Begin` leaves behind for the key that it has reserved: after an error the
-- response is settled, and else one send was made and the response is started or further.
pub record Leaves {P S : Type 0} (s : ConversationState) (id : String) (k : ResponseKey)
    (o : Outcome P S) : Type 0 where
  pub on_error : (e : Error P S) → o.result ≡ err e → rank (state_of k o.gate) ≡ 4
  pub on_success :
      (j : ResponseKey)
      → o.result ≡ ok j
      → (text : String) × (d : TurnDirective) × (j ≡ k)
        × (o.sent ≡ (text, d) ∷ [])
        × (finalized_lead_text s.turns id ≡ some (text, true))
        × (validate_directive d ≡ ok tt)
        × (3 ≤ rank (state_of k o.gate))

module _ {P S : Type 0} (s : ConversationState) (id : String) (k : ResponseKey) where
  fail_after-Leaves :
      (g : ResponseGate) (sent : List (String × TurnDirective)) (e : Error P S)
      → Held k g
      → Leaves s id k (fail_after g k sent e)
  unfolding fail_after
  fail_after-Leaves g sent e h = record {
    on_error = λ x f. fail-settles k g h;
    on_success = λ j f. cc;
  }

  answered-Leaves :
      (g : ResponseGate) (text : String) (d : TurnDirective) (a : Result S (Unit {0}))
      → Held k g
      → 3 ≤ rank (state_of k g)
      → validate_directive d ≡ ok tt
      → finalized_lead_text s.turns id ≡ some (text, true)
      → Leaves s id k (answered {P = P} {S = S} g k text d a)
  unfolding answered
  answered-Leaves g text d (err e) h up v t = fail_after-Leaves g _ _ h
  answered-Leaves g text d (ok u) h up v t = record {
    on_error = λ x f. cc;
    on_success = λ j f. (text, d, ground arith, refl, t, v, up);
  }

  module _ (respond : String → TurnDirective → Result S (Unit {0}))
      (others : ℕ → List Operation) where
    send_started-Leaves :
        (g : ResponseGate) (d : TurnDirective) (o : Option (String × Bool))
        → Held k g
        → 3 ≤ rank (state_of k g)
        → validate_directive d ≡ ok tt
        → finalized_lead_text s.turns id ≡ o
        → Leaves s id k (send_started {P = P} respond others s id k g d o)
    unfolding send_started
    send_started-Leaves g d none h up v t = fail_after-Leaves g _ _ h
    send_started-Leaves g d (some (text, false)) h up v t = fail_after-Leaves g _ _ h
    send_started-Leaves g d (some (text, true)) h up v t =
        answered-Leaves (run g (others 3)) text d (respond text d) (run-Held k g (others 3) h)
          (omega (arith, run-rank k g (others 3))) v t

    start_authorized-Leaves :
        (g : ResponseGate) (d : TurnDirective)
        → Held k g
        → validate_directive d ≡ ok tt
        → Leaves s id k (start_authorized {P = P} respond others s id k g d)
    unfolding start_authorized
    start_authorized-Leaves g d h v =
        let held =
          run-Held k (start g k).0 (others 2) (unfold step in step-Held k g (starts k) h) in
        elim (Result-cases (start g k).1) [
          | inr (e, f) ↦ rw (f, start_authorized) (fail_after-Leaves _ _ _ held)
          | inl (u, f) ↦
              rw (f, start_authorized)
                (send_started-Leaves _ d _ held
                  (omega (arith, start-rank k g f, run-rank k (start g k).0 (others 2))) v refl)
        ]

    authorize_processed-Leaves :
        (g : ResponseGate) (d : TurnDirective)
        → Held k g
        → Leaves s id k (authorize_processed {P = P} respond others s id k g d)
    unfolding authorize_processed
    authorize_processed-Leaves g d h =
        let held =
          run-Held k (authorize_reserved g k d).0 (others 1)
            (unfold step in step-Held k g (promotes k d) h) in
        elim (Result-cases (authorize_reserved g k d).1) [
          | inr (e, f) ↦ rw (f, authorize_processed) (fail_after-Leaves _ _ _ held)
          | inl (a, f) ↦
              rw (f, authorize_processed)
                (start_authorized-Leaves _ d held (authorize_reserved-valid k g d f))
        ]

    pub process_reserved-Leaves :
        (ctx : Context) (g : ResponseGate) (a : Result P TurnDirective)
        → Held k g
        → Leaves s id k (process_reserved respond others s id k ctx g a)
    unfolding process_reserved
    process_reserved-Leaves ctx g (err e) h = fail_after-Leaves g _ _ h
    process_reserved-Leaves ctx g (ok d) h = elim (Option-cases (ctx.err_at 1)) [
      | inr (x, e) ↦ rw (e, process_reserved) (fail_after-Leaves g _ _ h)
      | inl e ↦ rw (e, process_reserved) (authorize_processed-Leaves g d h)
    ]
