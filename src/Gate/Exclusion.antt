-- ===== src/Gate/Exclusion.antt =====
-- At most one active response in a conversation (internal/domain/conversation/response_gate.go).
use agentic_voice_sdr.Base.{◌≡◌, refl, sym, true, List, [], ◌∷◌, if◌then◌else◌, arith, subst}
use agentic_voice_sdr.Gate.{
  ResponseKey, ResponseState, ResponseGate, same_key, lookup, insert, is_active, new_response_gate,
}
use agentic_voice_sdr.Gate.Cycles.{
  same_key_iff, lookup-insert, active_at, has_active_cycle_complete,
}
use agentic_voice_sdr.Gate.Runs.{
  Operation, step, run, Edge, grant, Effect, keep, open_cycle, advance, step-Effect,
}

abbrev pub Exclusive : ResponseGate → Type 0
Exclusive g =
    (k j : ResponseKey)
    → active_at k g.cycles ≡ true
    → active_at j g.cycles ≡ true
    → k.conversation_id ≡ j.conversation_id
    → k ≡ j

active-insert :
    (k j : ResponseKey) (s : ResponseState) (m : List (ResponseKey × ResponseState))
    → active_at j (insert k s m) ≡ (if same_key k j then is_active s else active_at j m)
active-insert k j s m = ground (arith, lookup-insert k j s m)

-- An edge starts in an active state.
Edge-active : {s t : ResponseState} → Edge s t → is_active s ≡ true
Edge-active grant = refl
Edge-active _ = refl

Effect-Exclusive : {g h : ResponseGate} → Effect g h → Exclusive g → Exclusive h
Effect-Exclusive (keep e) x = subst Exclusive (sym e) x
Effect-Exclusive {g} (open_cycle k s new free choice e) x =
    subst Exclusive (sym e) λ i j ai aj same. ground (
      arith,
      active-insert k i s g.cycles,
      active-insert k j s g.cycles,
      same_key_iff k i,
      same_key_iff k j,
      x i j,
      has_active_cycle_complete k i g.cycles free,
      has_active_cycle_complete k j g.cycles free,
    )
Effect-Exclusive {g} (advance k s t at edge e) x = subst Exclusive (sym e) λ i j ai aj same.
    ground (
      arith,
      active-insert k i t g.cycles,
      active-insert k j t g.cycles,
      same_key_iff k i,
      same_key_iff k j,
      x i j,
      x k j,
      x i k,
      Edge-active edge,
    )

run-Exclusive : (g : ResponseGate) (os : List Operation) → Exclusive g → Exclusive (run g os)
unfolding run
run-Exclusive g [] x = x
run-Exclusive g (o ∷ os) x = run-Exclusive (step g o) os (Effect-Exclusive (step-Effect g o) x)

new-Exclusive : Exclusive new_response_gate
unfolding new_response_gate lookup
new-Exclusive k j a b e = cc

-- After any history of a new gate, whatever the callers ask, a conversation has at most one response
-- that is reserved, authorized or started.
pub run-new-Exclusive : (os : List Operation) → Exclusive (run new_response_gate os)
run-new-Exclusive os = run-Exclusive new_response_gate os new-Exclusive
