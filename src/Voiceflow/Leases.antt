-- ===== src/Voiceflow/Leases.antt =====
-- What every interleaving keeps (internal/voiceflow/response_lifecycle.go).
use agentic_voice_sdr.Base.{
  ℕ, suc, ◌<◌, ◌≤◌, ◌≡◌, refl, ◌⊎◌, inl, inr, Bool, true, false, List, [], ◌∷◌, none, some, arith,
  All, get_elem?, subst, zero, length,
}
use agentic_voice_sdr.Gate.{ResponseKey}
use agentic_voice_sdr.Gate.Cycles.{same_key_iff}
use agentic_voice_sdr.Voiceflow.{
  ResponseLifecycleAdapter, ResponseTurnLease, no_key, is_no_key, new_response_lifecycle_adapter,
  bind, capture_active, begin_operation, finish_operation, model_audio_authorized,
}
use agentic_voice_sdr.Voiceflow.Callers.{
  World, Step, binds_key, captures, begins, finishes, first, Reach, starts_out, after_step, Later,
  no_step, later_step,
}

-- The generations of the calls go down strictly.
abbrev pub Descending : List ResponseTurnLease → Type 0
Descending [] = Unit
Descending (l ∷ ls) = All (λ m. m.generation < l.generation) ls × Descending ls

-- What an operation in flight and an idle adapter satisfy.
data Phase (w : World) : Type 0 where
  idle :
      w.adapter.in_flight ≡ false
      → w.running ≡ []
      → (is_no_key w.adapter.active ≡ true)
        ⊎ All (λ m. m.generation < w.adapter.generation) w.called
      → Phase w
  busy :
      (l : ResponseTurnLease)
      → w.adapter.in_flight ≡ true
      → w.running ≡ l ∷ []
      → w.adapter.active ≡ l.key
      → w.adapter.generation ≡ l.generation
      → Phase w

record Inv (w : World) : Type 0 where
  counted : w.adapter.generation ≡ w.binds
  named : All (λ l. is_no_key l.key ≡ false) w.leases
  captured : All (λ l. l.generation ≤ w.adapter.generation) w.leases
  past : All (λ m. m.generation ≤ w.adapter.generation) w.called
  order : Descending w.called
  phase : Phase w

All-get_elem? {ℓ κ} :
    {A : Type ℓ} (P : A → Type κ) (xs : List A) (n : ℕ) {x : A}
    → All P xs
    → get_elem? xs n ≡ some x
    → P x
All-get_elem? P [] n h e = cc
All-get_elem? P (y ∷ ys) zero (p, h) e = subst P (ground arith) p
All-get_elem? P (y ∷ ys) (suc n) (p, h) e = All-get_elem? P ys n h e

All-map {ℓ κ μ} :
    {A : Type ℓ} {P : A → Type κ} {Q : A → Type μ} (f : (x : A) → P x → Q x) (xs : List A)
    → All P xs
    → All Q xs
All-map f [] h = tt
All-map f (x ∷ xs) (p, h) = (f x p, All-map f xs h)

bind-Inv :
    (w : World) (k : ResponseKey) {a : ResponseLifecycleAdapter}
    → bind w.adapter k ≡ some a
    → suc w.binds < 18446744073709551616
    → Inv w
    → Inv (record w { adapter = a; binds = suc w.binds })
unfolding bind
bind-Inv w k {a} h small i = record {
  counted = ground (arith, i.counted);
  named = i.named;
  captured = All-map (λ m p. ground (arith, i.counted)) w.leases i.captured;
  past = All-map (λ m p. ground (arith, i.counted)) w.called i.past;
  order = i.order;
  phase =
      idle (ground arith) (bound_idle i.phase)
        (inr (All-map (λ m p. ground (arith, i.counted)) w.called i.past));
}
  where
    bound_idle : Phase w → w.running ≡ []
    bound_idle (idle still none_running spent) = none_running
    bound_idle (busy l flying r e f) = absurd (ground arith)

capture-Inv :
    (w : World) {l : ResponseTurnLease}
    → capture_active w.adapter ≡ some l
    → Inv w
    → Inv (record w { leases = l ∷ w.leases })
unfolding capture_active
capture-Inv w {l} h i = record {
  counted = i.counted;
  named = (ground arith, i.named);
  captured = (ground arith, i.captured);
  past = i.past;
  order = i.order;
  phase = same_phase i.phase;
}
  where
    same_phase : Phase w → Phase (record w { leases = l ∷ w.leases })
    same_phase (idle still r spent) = idle still r spent
    same_phase (busy m flying r e f) = busy m flying r e f

begin-Inv :
    (w : World) {l : ResponseTurnLease} {a : ResponseLifecycleAdapter}
    → is_no_key l.key ≡ false
    → begin_operation w.adapter l ≡ some a
    → Inv w
    → Inv (record w { adapter = a; running = l ∷ w.running; called = l ∷ w.called })
unfolding begin_operation
begin-Inv w {l} {a} named h i = began i.phase
  where
    same : w.adapter.active ≡ l.key
    same = ground (arith, same_key_iff w.adapter.active l.key)

    began : Phase w → Inv (record w { adapter = a; running = l ∷ w.running; called = l ∷ w.called })
    began (busy m flying r e f) = absurd (ground arith)
    began (idle still r (inl none_active)) = absurd (ground (arith, same))
    began (idle still r (inr spent)) = record {
      counted = ground (arith, i.counted);
      named = i.named;
      captured = All-map (λ m p. ground arith) w.leases i.captured;
      past = (ground arith, All-map (λ m p. ground arith) w.called i.past);
      order = (All-map (λ m p. ground arith) w.called spent, i.order);
      phase = busy l (ground arith) (ground arith) (ground (arith, same)) (ground arith);
    }

finish_clears :
    (a : ResponseLifecycleAdapter) (l : ResponseTurnLease)
    → a.active ≡ l.key
    → a.generation ≡ l.generation
    → (finish_operation a l).active ≡ no_key
unfolding finish_operation
finish_clears a l same now = rw ((same_key_iff a.active l.key).1 same) (ground arith)

finish-Inv :
    (w : World) (l : ResponseTurnLease) (others : List ResponseTurnLease)
    → w.running ≡ l ∷ others
    → Inv w
    → Inv (record w { adapter = finish_operation w.adapter l; running = others })
unfolding finish_operation
finish-Inv w l others h i = finished i.phase
  where
    finished : Phase w → Inv (record w { adapter = finish_operation w.adapter l; running = others })
    finished (idle still r spent) = absurd (ground arith)
    finished (busy m flying r e f) = record {
      counted = i.counted;
      named = i.named;
      captured = i.captured;
      past = i.past;
      order = i.order;
      phase =
          idle refl (ground arith)
            (inl (rw (finish_clears w.adapter l (ground arith) (ground arith)) refl));
    }

-- The steps keep the invariant as long as the counter of generations does not wrap around.
Step-Inv : {w v : World} → Step w v → v.binds < 18446744073709551616 → Inv w → Inv v
Step-Inv {w} (binds_key k h) small i = bind-Inv w k h small i
Step-Inv {w} (captures h) small i = capture-Inv w h i
Step-Inv {w} (begins n at h) small i =
    begin-Inv w (All-get_elem? (λ l. is_no_key l.key ≡ false) w.leases n i.named at) h i
Step-Inv {w} (finishes l others h) small i = finish-Inv w l others h i

Step-binds : {w v : World} → Step w v → w.binds ≤ v.binds
Step-binds (binds_key k h) = omega arith
Step-binds (captures h) = omega arith
Step-binds (begins n at h) = omega arith
Step-binds (finishes l others h) = omega arith

first-Inv : (c : Bool) → Inv (first c)
unfolding new_response_lifecycle_adapter
first-Inv c = record {
  counted = refl;
  named = tt;
  captured = tt;
  past = tt;
  order = tt;
  phase = idle refl refl (inl refl);
}

Reach-Inv : {c : Bool} {w : World} → Reach c w → w.binds < 18446744073709551616 → Inv w
Reach-Inv {c} starts_out small = first-Inv c
Reach-Inv (after_step r s) small = Step-Inv s small (Reach-Inv r (omega (arith, Step-binds s)))

-- However the callers interleave, with fewer than 2^64 calls of `Bind`: at most one operation is in
-- flight, and the coordinator is called at most once for what one call of `Bind` has bound, the
-- generations of its calls going up strictly.
pub Reach-Descending :
    {c : Bool} {w : World}
    → Reach c w
    → w.binds < 18446744073709551616
    → (length w.running ≤ 1) × Descending w.called
Reach-Descending {w = w} r small = let i = Reach-Inv r small in (running-le-one i.phase, i.order)
  where
    running-le-one : Phase w → length w.running ≤ 1
    running-le-one (idle still none_running spent) = rw none_running (omega arith)
    running-le-one (busy l flying one e f) = rw one (omega arith)

Later-binds : {w v : World} → Later w v → w.binds ≤ v.binds
Later-binds no_step = omega arith
Later-binds (later_step l s) = omega (arith, Later-binds l, Step-binds s)

Later-Reach : {c : Bool} {w v : World} → Reach c w → Later w v → Reach c v
Later-Reach r no_step = r
Later-Reach r (later_step l s) = after_step (Later-Reach r l) s

older_lease :
    (a : ResponseLifecycleAdapter) (l : ResponseTurnLease)
    → l.generation < a.generation
    → (begin_operation a l ≡ none)
      × (model_audio_authorized a l ≡ false)
      × ((finish_operation a l).active ≡ a.active)
unfolding begin_operation model_audio_authorized finish_operation
older_lease a l old = (ground arith, ground arith, ground arith)

-- A lease that some caller had captured when `Bind` bound a key has no effect from then on,
-- whatever steps follow, with fewer than 2^64 calls of `Bind`: its operation does not begin, it authorizes no
-- audio, and an end of its operation leaves the active response as it is.
pub stale_lease :
    {c : Bool} {w v : World} {a : ResponseLifecycleAdapter} {l : ResponseTurnLease} (n : ℕ)
    (k : ResponseKey)
    → Reach c w
    → get_elem? w.leases n ≡ some l
    → bind w.adapter k ≡ some a
    → Later (record w { adapter = a; binds = suc w.binds }) v
    → v.binds < 18446744073709551616
    → (begin_operation v.adapter l ≡ none)
      × (model_audio_authorized v.adapter l ≡ false)
      × ((finish_operation v.adapter l).active ≡ v.adapter.active)
stale_lease {w = w} {v = v} {l = l} n k reached at bound later small =
    let more = Later-binds later in
    let before = Reach-Inv reached (omega arith) in
    let now = Reach-Inv (Later-Reach (after_step reached (binds_key k bound)) later) small in
    let old =
      All-get_elem? (λ m. m.generation ≤ w.adapter.generation) w.leases n before.captured at in
    older_lease v.adapter l (omega (arith, old, more, before.counted, now.counted))
