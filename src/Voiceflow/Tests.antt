-- ===== src/Voiceflow/Tests.antt =====
-- The response life cycle on concrete inputs (internal/voiceflow/response_lifecycle.go).
use agentic_voice_sdr.Base.{ℕ, ◌≡◌, refl, ◌≤◌, true, false, [], ◌∷◌, none, some, ok, arith, length}
use agentic_voice_sdr.Gate.{ResponseKey}
use agentic_voice_sdr.Voiceflow.{
  ResponseLifecycleAdapter, ResponseTurnLease, no_key, bind, capture_active, begin_operation,
  finish_operation, model_audio_authorized, operate, fail_active, new_response_lifecycle_adapter,
}
use agentic_voice_sdr.Voiceflow.Callers.{
  World, binds_key, captures, begins, Reach, starts_out, after_step, no_step, later_step,
}
use agentic_voice_sdr.Voiceflow.Leases.{Descending, Reach-Descending, stale_lease}

abbrev key : ResponseKey
key = record { conversation_id = "c1"; source_turn_id = "lead-000001" }

abbrev lease : ResponseTurnLease
lease = record { key = key; generation = 1 }

abbrev bound : ResponseLifecycleAdapter
bound = record { has_coordinator = true; active = key; generation = 1; in_flight = false }

abbrev working : ResponseLifecycleAdapter
working = record bound { in_flight = true }

-- One caller has bound a key, captured the lease, and is about to fail the response.
abbrev in_work : World
in_work = record {
  adapter = working;
  leases = lease ∷ [];
  running = lease ∷ [];
  called = lease ∷ [];
  binds = 1;
}

in_work_reached : Reach true in_work
unfolding bind capture_active begin_operation new_response_lifecycle_adapter
in_work_reached =
    after_step
      (after_step (after_step starts_out (binds_key key {a = bound} refl))
        (captures {l = lease} refl))
      (begins 0 {l = lease} {a = working} refl refl)

Reach-Descending_example : (length in_work.running ≤ 1) × Descending in_work.called
Reach-Descending_example = Reach-Descending in_work_reached (omega arith)

waits : bind working key ≡ none
unfolding bind
waits = refl

fails_once :
    fail_active {E = ℕ} (λ k. ok tt) bound ≡ (record bound { active = no_key }, key ∷ [], ok tt)
unfolding fail_active operate capture_active begin_operation finish_operation
fails_once = refl

-- A caller has captured the lease of a bound key, and another key is bound.
abbrev captured : World
captured = record { adapter = bound; leases = lease ∷ []; running = []; called = []; binds = 1 }

captured_reached : Reach true captured
unfolding bind capture_active new_response_lifecycle_adapter
captured_reached =
    after_step (after_step starts_out (binds_key key {a = bound} refl)) (captures {l = lease} refl)

abbrev other_key : ResponseKey
other_key = record { conversation_id = "c1"; source_turn_id = "lead-000002" }

abbrev newer : ResponseLifecycleAdapter
newer = record bound { active = other_key; generation = 2 }

other_bound : bind captured.adapter other_key ≡ some newer
unfolding bind
other_bound = refl

-- Its own lease is captured then, too.
abbrev later_world : World
later_world = record captured {
  adapter = newer;
  leases = record { key = other_key; generation = 2 } ∷ lease ∷ [];
  binds = 2;
}

other_captured : capture_active newer ≡ some (record { key = other_key; generation = 2 })
unfolding capture_active
other_captured = refl

stale_lease_example :
    (begin_operation newer lease ≡ none)
    × (model_audio_authorized newer lease ≡ false)
    × ((finish_operation newer lease).active ≡ other_key)
stale_lease_example =
    stale_lease {v = later_world} 0 other_key captured_reached refl other_bound
      (later_step no_step (captures other_captured)) (omega arith)
