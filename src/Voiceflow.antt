-- ===== src/Voiceflow.antt =====
-- internal/voiceflow/response_lifecycle.go: the response that the audio of the model belongs to.
-- The methods hold the adapter's mutex piecewise: each piece is a function here, and a call of
-- `Complete` or `Fail` is a `begin_operation`, the coordinator's own call, and a `finish_operation`.
-- A coordinator that is nil is false. The counter of generations has 64 bits.
pub mod Callers
pub mod Leases
pub mod Transcripts
pub mod Tests
use agentic_voice_sdr.Base.{
  Result, ok, List, [], ◌∷◌, ℕ, suc, ◌%◌, Bool, true, false, not, ◌&&◌, ◌||◌, Option, none, some,
  if◌then◌else◌, is_empty, ◌==◌,
}
use agentic_voice_sdr.Gate.{ResponseKey, same_key}

pub record ResponseLifecycleAdapter : Type 0 where
  pub has_coordinator : Bool
  pub active : ResponseKey
  pub generation : ℕ
  pub in_flight : Bool

abbrev pub no_key : ResponseKey
no_key = record { conversation_id = ""; source_turn_id = "" }

-- `key == (conversation.ResponseKey{})`.
abbrev pub is_no_key : ResponseKey → Bool
is_no_key k = same_key k no_key

unfoldable pub new_response_lifecycle_adapter : Bool → ResponseLifecycleAdapter
new_response_lifecycle_adapter c = record {
  has_coordinator = c;
  active = no_key;
  generation = 0;
  in_flight = false;
}

-- `Bind`; while an operation is in flight it waits.
unfoldable pub bind : ResponseLifecycleAdapter → ResponseKey → Option ResponseLifecycleAdapter
bind a k =
    if a.in_flight
    then none
    else some (record a { active = k; generation = suc a.generation % 18446744073709551616 })

-- A lease, as `CaptureActive` returns it; its owner is the adapter.
pub record ResponseTurnLease : Type 0 where
  pub key : ResponseKey
  pub generation : ℕ

unfoldable pub capture_active : ResponseLifecycleAdapter → Option ResponseTurnLease
capture_active a =
    if is_no_key a.active then none else some (record { key = a.active; generation = a.generation })

unfoldable pub begin_operation :
    ResponseLifecycleAdapter → ResponseTurnLease → Option ResponseLifecycleAdapter
begin_operation a l =
    if not (same_key a.active l.key)
      || not (a.generation == l.generation)
      || a.in_flight
      || not a.has_coordinator
    then none
    else some (record a { in_flight = true })

unfoldable pub finish_operation :
    ResponseLifecycleAdapter → ResponseTurnLease → ResponseLifecycleAdapter
finish_operation a l = record {
  has_coordinator = a.has_coordinator;
  active = if same_key a.active l.key && (a.generation == l.generation) then no_key else a.active;
  generation = a.generation;
  in_flight = false;
}

unfoldable pub model_audio_authorized : ResponseLifecycleAdapter → ResponseTurnLease → Bool
model_audio_authorized a l = same_key a.active l.key && (a.generation == l.generation)

-- `Complete` or `Fail` of a lease that may be nil, run through: the adapter, the keys that the
-- coordinator is called with, and the result. What the coordinator does is a parameter.
unfoldable pub operate :
    {E : Type 0}
    → (ResponseKey → Result E (Unit {0}))
    → ResponseLifecycleAdapter
    → Option ResponseTurnLease
    → ResponseLifecycleAdapter × List ResponseKey × Result E (Unit {0})
operate call a none = (a, [], ok tt)
operate call a (some l) = elim (begin_operation a l) [
  | none ↦ (a, [], ok tt)
  | some b ↦ (finish_operation b l, l.key ∷ [], call l.key)
]

-- `FailActive`, run through.
unfoldable pub fail_active :
    {E : Type 0}
    → (ResponseKey → Result E (Unit {0}))
    → ResponseLifecycleAdapter
    → ResponseLifecycleAdapter × List ResponseKey × Result E (Unit {0})
unfolding operate capture_active
fail_active call a = operate call a (capture_active a)
