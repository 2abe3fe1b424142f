-- ===== src/Turnloop/Settle.antt =====
-- How a response ends: `Complete` and `Fail` (internal/turnloop/coordinator.go).
use agentic_voice_sdr.Base.{
  ℕ, ◌≤◌, String, ◌≡◌, refl, inl, inr, List, Option, none, some, Result, ok, err, arith, Context,
}
use agentic_voice_sdr.Conversation.{ConversationState}
use agentic_voice_sdr.Directive.{TurnDirective}
use agentic_voice_sdr.Turnruntime.{TurnInput, CapabilityContext}
use agentic_voice_sdr.Gate.{
  ResponseGate, ResponseKey, ResponseState, Error as GateError, complete as gate_complete,
  fail as gate_fail, completing, validate_key, lookup, move,
}
use agentic_voice_sdr.Gate.Cycles.{lookup-insert, same_key_iff}
use agentic_voice_sdr.Gate.Runs.{Operation, run}
use agentic_voice_sdr.Gate.Lifecycle.{rank, state_of}
use agentic_voice_sdr.Turnloop.{Error, invalid_coordinator, gate, Coordinator, begin_ready}
use agentic_voice_sdr.Turnloop.Begin.{run-rank, fail-settles}
use agentic_voice_sdr.Turnloop.Ownership.{reserve-Held, begin_ready-Leaves}

module _ {P S V : Type 0} where
  -- What the gate's operation makes of a coordinator that has the gate.
  abbrev pub forwarded :
      Coordinator P S V
      → ResponseGate × Result GateError (Unit {0})
      → Option (Coordinator P S V) × Result (Error P S) (Unit {0})
  forwarded c (g, ok u) = (some (record c { gate = some g }), ok tt)
  forwarded c (g, err e) = (some (record c { gate = some g }), err (gate e))

  unfoldable pub complete :
      Option (Coordinator P S V)
      → ResponseKey
      → Option (Coordinator P S V) × Result (Error P S) (Unit {0})
  complete none k = (none, err invalid_coordinator)
  complete (some c) k = elim c.gate [
    | none ↦ (some c, err invalid_coordinator)
    | some g ↦ forwarded c (gate_complete g k)
  ]

  unfoldable pub fail :
      Option (Coordinator P S V)
      → ResponseKey
      → Option (Coordinator P S V) × Result (Error P S) (Unit {0})
  fail none k = (none, err invalid_coordinator)
  fail (some c) k = elim c.gate [
    | none ↦ (some c, err invalid_coordinator)
    | some g ↦ forwarded c (gate_fail g k)
  ]

completing-settles :
    (k : ResponseKey) (g : ResponseGate) (o : Option ResponseState)
    → lookup k g.cycles ≡ o
    → 3 ≤ rank o
    → rank (state_of k (move g k (completing o)).0) ≡ 4
unfolding completing
completing-settles k g none e h = absurd (omega arith)
completing-settles k g (some ResponseState.idle) e h = absurd (omega arith)
completing-settles k g (some ResponseState.reserved) e h = absurd (omega arith)
completing-settles k g (some ResponseState.authorized) e h = absurd (omega arith)
completing-settles k g (some ResponseState.started) e h =
    ground (arith, lookup-insert k k ResponseState.completed g.cycles, same_key_iff k k)
completing-settles k g (some _) e h = ground arith

complete-settles :
    (k : ResponseKey) (g : ResponseGate)
    → validate_key k ≡ ok tt
    → 3 ≤ rank (state_of k g)
    → rank (state_of k (gate_complete g k).0) ≡ 4
unfolding gate_complete
complete-settles k g v up =
    rw (v, gate_complete) (completing-settles k g (lookup k g.cycles) refl up)

-- The coordinator is left with a gate at which the response is settled.
abbrev pub EndsSettled :
    {P S V : Type 0}
    → ResponseKey
    → Option (Coordinator P S V) × Result (Error P S) (Unit {0})
    → Type 0
EndsSettled {P} {S} {V} k r =
    (m : Coordinator P S V) × (h : ResponseGate) × (r.0 ≡ some m)
    × (m.gate ≡ some h)
    × (rank (state_of k h) ≡ 4)

module _ {P S V : Type 0} where
  forwarded-EndsSettled :
      (m : Coordinator P S V) (k : ResponseKey) (r : ResponseGate × Result GateError (Unit {0}))
      → rank (state_of k r.0) ≡ 4
      → EndsSettled k (forwarded m r)
  forwarded-EndsSettled m k (g, ok u) h = (record m { gate = some g }, g, refl, refl, h)
  forwarded-EndsSettled m k (g, err e) h = (record m { gate = some g }, g, refl, refl, h)

  -- What has been begun is ended by one call of `Complete` or of `Fail`: after a call of `Begin`
  -- that succeeds and any operations on the gate since, either of them leaves the response settled.
  pub begin_ready-EndsSettled :
      (processor : TurnInput V → Result P TurnDirective)
      (respond : String → TurnDirective → Result S (Unit {0})) (g : ResponseGate)
      (others : ℕ → List Operation) (ctx : Context) (s : ConversationState) (id : String)
      (c : Option (CapabilityContext V)) (later : List Operation) (m : Coordinator P S V)
      {k : ResponseKey}
      → (begin_ready processor respond g others ctx s id c).result ≡ ok k
      → m.gate ≡ some (run (begin_ready processor respond g others ctx s id c).gate later)
      → EndsSettled k (complete (some m) k) × EndsSettled k (fail (some m) k)
  unfolding complete fail
  begin_ready-EndsSettled processor respond g others ctx s id c later m {k} done now =
      elim (begin_ready-Leaves processor respond g others ctx s id c) [
        | inl (_, _, bad) ↦ absurd (ground arith)
        | inr (r, reserved, left) ↦
            let (text, d, same, _, _, _, up) = left.on_success k done in
            let o = begin_ready processor respond g others ctx s id c in
            let named : validate_key k ≡ ok tt = rw same ((reserve-Held g s id reserved).named) in
            let far : 3 ≤ rank (state_of k (run o.gate later)) =
              rw same (omega (arith, up, run-rank r.key o.gate later)) in
            rw now (
              forwarded-EndsSettled m k _ (complete-settles k (run o.gate later) named far),
              forwarded-EndsSettled m k _ (
                  fail-settles k (run o.gate later)
                    (record { named = named; claimed = omega (arith, far) })),
            )
      ]
