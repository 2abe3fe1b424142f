-- ===== src/Gate/Lifecycle.antt =====
-- A response goes forward only, and is authorized once (internal/domain/conversation/response_gate.go).
use mathlib.Core.Path.{◌∙◌}
use agentic_voice_sdr.Gate.{
  response_source_key, Error, ResponseKey, ResponseState, ResponseGate, ResponseAuthorization, idle,
  reserved, authorized, started, completed, failed, same_key, lookup, insert, authorize,
  authorize_reserved, admit, promote, move, granted,
}
use agentic_voice_sdr.Base.{
  Result-cases, ℕ, suc, ◌+◌, ◌≤◌, ◌<◌, ◌≡◌, refl, sym, ap, subst, ◌⊎◌, inl, inr, Bool, true, false,
  List, [], ◌∷◌, Option, none, some, if◌then◌else◌, arith, Bool-cases, Result, ok, err, leb,
}
use agentic_voice_sdr.Gate.Cycles.{same_key_iff, lookup-insert}
use agentic_voice_sdr.Gate.Runs.{
  Operation, authorizes, promotes, reserves, starts, completes, fails, step, run, Edge, grant,
  Effect, keep, open_cycle, advance, step-Effect,
}

-- How far the response of a key is.
abbrev pub rank : Option ResponseState → ℕ
rank none = 0
rank (some idle) = 0
rank (some reserved) = 1
rank (some authorized) = 2
rank (some started) = 3
rank (some completed) = 4
rank (some failed) = 4

abbrev pub state_of : ResponseKey → ResponseGate → Option ResponseState
state_of j g = lookup j g.cycles

Edge-rank : {s t : ResponseState} → Edge s t → rank (some s) < rank (some t)
Edge-rank grant = omega arith
Edge-rank _ = omega arith

-- The state stays, or goes up.
abbrev Forward : Option ResponseState → Option ResponseState → Type 0
Forward s t = (t ≡ s) ⊎ (rank s < rank t)

put-Forward :
    (k j : ResponseKey) (t : ResponseState) (g : ResponseGate)
    → rank (lookup k g.cycles) < rank (some t)
    → Forward (lookup j g.cycles) (lookup j (insert k t g.cycles))
put-Forward k j t g up = elim (Bool-cases (same_key k j)) [
  | inl same ↦
      rw (lookup-insert k j t g.cycles, same)
        (inr (subst (λ i. rank (lookup i g.cycles) < rank (some t)) ((same_key_iff k j).0 same) up))
  | inr other ↦ rw (lookup-insert k j t g.cycles, other) (inl refl)
]

Effect-Forward :
    {g h : ResponseGate} (j : ResponseKey) → Effect g h → Forward (state_of j g) (state_of j h)
Effect-Forward j (keep e) = inl (ap (state_of j) e)
Effect-Forward {g} j (open_cycle k s new free choice e) =
    subst (λ h. Forward (state_of j g) (state_of j h)) (sym e) (put-Forward k j s g (ground arith))
Effect-Forward {g} j (advance k s t at edge e) =
    subst (λ h. Forward (state_of j g) (state_of j h)) (sym e)
      (put-Forward k j t g (ground (arith, Edge-rank edge)))

pub step-rank :
    (j : ResponseKey) (g : ResponseGate) (o : Operation)
    → rank (state_of j g) ≤ rank (state_of j (step g o))
step-rank j g o = elim (Effect-Forward j (step-Effect g o)) [
  | inl e ↦ rw e (omega arith)
  | inr up ↦ omega arith
]

pub rank-le : (s : Option ResponseState) → rank s ≤ 4
rank-le none = omega arith
rank-le (some idle) = omega arith
rank-le (some _) = omega arith

-- A response that is completed or failed stays so, whatever operations on the gate follow.
pub run-settled :
    (j : ResponseKey) (g : ResponseGate) (os : List Operation)
    → rank (state_of j g) ≡ 4
    → state_of j (run g os) ≡ state_of j g
unfolding run
run-settled j g [] h = refl
run-settled j g (o ∷ os) h = elim (Effect-Forward j (step-Effect g o)) [
  | inl e ↦ run-settled j (step g o) os (rw e h) ∙ e
  | inr up ↦ absurd (omega (arith, rank-le (state_of j (step g o))))
]

-- Whether the operation returns an authorization of the key.
abbrev authorization_of : ResponseKey → Result Error ResponseAuthorization → Bool
authorization_of j (ok a) = same_key a.key j
authorization_of j (err e) = false

unfoldable pub authorizes_key : ResponseKey → ResponseGate → Operation → Bool
authorizes_key j g (authorizes s id d) = authorization_of j (authorize g s id d).1
authorizes_key j g (promotes k d) = authorization_of j (authorize_reserved g k d).1
authorizes_key j g _ = false

unfoldable pub authorizations : ResponseKey → ResponseGate → List Operation → ℕ
authorizations j g [] = 0
authorizations j g (o ∷ os) =
    let n = authorizations j (step g o) os in if authorizes_key j g o then suc n else n

-- An authorization takes its key from below `authorized` to it.
abbrev Authorizing : ResponseKey → ResponseGate → ResponseGate → Type 0
Authorizing j g h = (rank (state_of j g) < 2) × (rank (state_of j h) ≡ 2)

put_authorized :
    (k j : ResponseKey) (g : ResponseGate)
    → same_key k j ≡ true
    → rank (lookup k g.cycles) < 2
    → Authorizing j g (record { cycles = insert k authorized g.cycles })
put_authorized k j g same low =
    ground (arith, same_key_iff k j, lookup-insert k j authorized g.cycles)

admit-Authorizing :
    (j k : ResponseKey) (g : ResponseGate) (o : Option ResponseState)
    → lookup k g.cycles ≡ o
    → authorization_of j (admit g k o).1 ≡ true
    → Authorizing j g (admit g k o).0
unfolding admit
admit-Authorizing j k g (some s) e h = cc
admit-Authorizing j k g none e h = ground (arith, put_authorized k j g)

promote-Authorizing :
    (j k : ResponseKey) (g : ResponseGate) (o : Option ResponseState)
    → lookup k g.cycles ≡ o
    → authorization_of j (granted k (move g k (promote o))).1 ≡ true
    → Authorizing j g (granted k (move g k (promote o))).0
unfolding promote
promote-Authorizing j k g none e h = cc
promote-Authorizing j k g (some reserved) e h = ground (arith, put_authorized k j g)
promote-Authorizing j k g (some _) e h = cc

step-Authorizing :
    (j : ResponseKey) (g : ResponseGate) (o : Operation)
    → authorizes_key j g o ≡ true
    → Authorizing j g (step g o)
unfolding authorizes_key step authorize authorize_reserved
step-Authorizing j g (authorizes s id d) h = elim (Result-cases (response_source_key s id)) [
  | inl (k, e) ↦ ground (arith, admit-Authorizing j k g (lookup k g.cycles) refl)
  | inr (x, e) ↦ ground arith
]
step-Authorizing j g (promotes k d) h =
    ground (arith, promote-Authorizing j k g (lookup k g.cycles) refl)
step-Authorizing j g (reserves s id) h = cc
step-Authorizing j g (starts k) h = cc
step-Authorizing j g (completes k) h = cc
step-Authorizing j g (fails k) h = cc

authorizations-bound :
    (j : ResponseKey) (g : ResponseGate) (os : List Operation)
    → authorizations j g os + (if leb 2 (rank (state_of j g)) then 1 else 0) ≤ 1
unfolding authorizations
authorizations-bound j g [] = ground arith
authorizations-bound j g (o ∷ os) =
    ground (arith, step-Authorizing j g o, step-rank j g o, authorizations-bound j (step g o) os)

-- In any history of a gate, from any state of it, at most one operation authorizes a given key.
pub authorizations-le-one :
    (j : ResponseKey) (g : ResponseGate) (os : List Operation) → authorizations j g os ≤ 1
authorizations-le-one j g os = omega (arith, authorizations-bound j g os)
