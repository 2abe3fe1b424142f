-- ===== src/Voiceflow/Callers.antt =====
-- The callers of the response life cycle, step by step (internal/voiceflow/response_lifecycle.go).
use agentic_voice_sdr.Base.{ℕ, suc, ◌≡◌, Bool, List, [], ◌∷◌, some, get_elem?}
use agentic_voice_sdr.Gate.{ResponseKey}
use agentic_voice_sdr.Voiceflow.{
  ResponseLifecycleAdapter, ResponseTurnLease, new_response_lifecycle_adapter, bind, capture_active,
  begin_operation, finish_operation,
}

-- The adapter with what its callers have: the leases they have captured, the calls of the coordinator
-- that have not returned, and all calls so far, the newest first. `binds` counts the calls of `Bind`.
pub record World : Type 0 where
  pub adapter : ResponseLifecycleAdapter
  pub leases : List ResponseTurnLease
  pub running : List ResponseTurnLease
  pub called : List ResponseTurnLease
  pub binds : ℕ

-- One piece of a call of some caller. `FailActive` captures as `CaptureActive` does, and then fails.
pub data Step (w : World) : World → Type 0 where
  binds_key :
      (k : ResponseKey) {a : ResponseLifecycleAdapter}
      → bind w.adapter k ≡ some a
      → Step w (record w { adapter = a; binds = suc w.binds })
  captures :
      {l : ResponseTurnLease}
      → capture_active w.adapter ≡ some l
      → Step w (record w { leases = l ∷ w.leases })
  begins :
      (n : ℕ) {l : ResponseTurnLease} {a : ResponseLifecycleAdapter}
      → get_elem? w.leases n ≡ some l
      → begin_operation w.adapter l ≡ some a
      → Step w (record w { adapter = a; running = l ∷ w.running; called = l ∷ w.called })
  finishes :
      (l : ResponseTurnLease) (others : List ResponseTurnLease)
      → w.running ≡ l ∷ others
      → Step w (record w { adapter = finish_operation w.adapter l; running = others })

abbrev pub first : Bool → World
first c = record {
  adapter = new_response_lifecycle_adapter c;
  leases = [];
  running = [];
  called = [];
  binds = 0;
}

pub data Reach (c : Bool) : World → Type 0 where
  starts_out : Reach c (first c)
  after_step : {w v : World} → Reach c w → Step w v → Reach c v

-- The worlds after a world.
pub data Later (w : World) : World → Type 0 where
  no_step : Later w w
  later_step : {v u : World} → Later w v → Step v u → Later w u
