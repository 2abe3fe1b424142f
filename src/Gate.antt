-- ===== src/Gate.antt =====
-- internal/domain/conversation/response_gate.go: who may answer a turn, and how far an answer is.
-- Each operation is one critical section under the gate's mutex, so a history of the gate is a
-- sequence of operations. The map of cycles is an association list; a nil map is the empty one.
pub mod Cycles
pub mod Source
pub mod Runs
pub mod Exclusion
pub mod Lifecycle
pub mod Tests
use agentic_voice_sdr.Base.{
  String, Bool, true, false, not, ◌&&◌, ◌||◌, List, [], ◌∷◌, Option, none, some, Result, ok, err,
  ◌>>◌, guard, if◌then◌else◌, str_eq, is_empty,
}
use agentic_voice_sdr.Conversation.{ConversationState, Turn, is_lead, is_final}
use agentic_voice_sdr.Directive.{TurnDirective}
use agentic_voice_sdr.Directive

pub data Error : Type 0 where
  invalid_response_source stale_response_turn invalid_response_directive : Error
  invalid_response_key : Error
  response_already_authorized response_already_reserved response_cycle_active : Error
  response_not_reserved response_not_authorized response_already_started : Error
  response_not_started response_already_completed response_already_failed : Error

pub record ResponseKey : Type 0 where
  pub conversation_id : String
  pub source_turn_id : String

pub data ResponseState : Type 0 where
  idle reserved authorized started completed failed : ResponseState

pub record ResponseReservation : Type 0 where
  pub key : ResponseKey
  pub state : ResponseState

pub record ResponseAuthorization : Type 0 where
  pub key : ResponseKey
  pub state : ResponseState

pub record ResponseGate : Type 0 where
  pub cycles : List (ResponseKey × ResponseState)

unfoldable pub new_response_gate : ResponseGate
new_response_gate = record { cycles = [] }

abbrev pub same_key : ResponseKey → ResponseKey → Bool
same_key k j =
    str_eq k.conversation_id j.conversation_id && str_eq k.source_turn_id j.source_turn_id

-- `g.cycles[key]` and its assignment.
unfoldable pub lookup : ResponseKey → List (ResponseKey × ResponseState) → Option ResponseState
lookup k [] = none
lookup k ((j, s) ∷ m) = if same_key j k then some s else lookup k m

unfoldable pub insert :
    ResponseKey
    → ResponseState
    → List (ResponseKey × ResponseState)
    → List (ResponseKey × ResponseState)
insert k s [] = (k, s) ∷ []
insert k s ((j, t) ∷ m) = if same_key j k then (k, s) ∷ m else (j, t) ∷ insert k s m

abbrev pub is_active : ResponseState → Bool
is_active reserved = true
is_active authorized = true
is_active started = true
is_active _ = false

unfoldable pub has_active_cycle : String → ResponseKey → List (ResponseKey × ResponseState) → Bool
has_active_cycle conversation excluded [] = false
has_active_cycle conversation excluded ((j, s) ∷ m) =
    (not (same_key j excluded || not (str_eq j.conversation_id conversation)) && is_active s)
    || has_active_cycle conversation excluded m

-- The loop of `responseSourceKey`: the last turn with the id, and the last final turn of the lead.
unfoldable pub scan : String → List Turn → Option Turn → Option Turn → Option Turn × Option Turn
scan id [] source latest = (source, latest)
scan id (t ∷ ts) source latest =
    scan id ts (if str_eq t.id id then some t else source)
      (if is_lead t.role && is_final t.transcript then some t else latest)

abbrev final_lead : Option Turn → Bool
final_lead none = false
final_lead (some t) = is_lead t.role && is_final t.transcript

abbrev pub has_id : String → Option Turn → Bool
has_id id none = false
has_id id (some t) = str_eq t.id id

unfoldable pub response_source_key : Option ConversationState → String → Result Error ResponseKey
response_source_key none id = err invalid_response_source
response_source_key (some s) id = do
  guard (not (is_empty s.id || is_empty id)) invalid_response_source
  let found = scan id s.turns none none
  guard (final_lead found.0) invalid_response_source
  guard (has_id id found.1) stale_response_turn
  ok (record { conversation_id = s.id; source_turn_id = id })

unfoldable pub validate_key : ResponseKey → Result Error (Unit {0})
validate_key k =
    guard (not (is_empty k.conversation_id || is_empty k.source_turn_id)) invalid_response_key

abbrev is_reserved : ResponseState → Bool
is_reserved reserved = true
is_reserved _ = false

-- `Reserve` past the source check.
unfoldable pub claim :
    ResponseGate
    → ResponseKey
    → Option ResponseState
    → ResponseGate × Result Error ResponseReservation
claim g k (some s) =
    (g, err (if is_reserved s then response_already_reserved else response_already_authorized))
claim g k none =
    if has_active_cycle k.conversation_id k g.cycles
    then (g, err response_cycle_active)
    else (record { cycles = insert k reserved g.cycles }, ok (record { key = k; state = reserved }))

unfoldable pub reserve :
    ResponseGate
    → Option ConversationState
    → String
    → ResponseGate × Result Error ResponseReservation
unfolding claim
reserve g state id = elim (response_source_key state id) [
  | err e ↦ (g, err e)
  | ok k ↦ claim g k (lookup k g.cycles)
]

-- `Authorize` past its checks of the source and the directive.
unfoldable pub admit :
    ResponseGate
    → ResponseKey
    → Option ResponseState
    → ResponseGate × Result Error ResponseAuthorization
admit g k (some s) = (g, err response_already_authorized)
admit g k none =
    if has_active_cycle k.conversation_id k g.cycles then (g, err response_cycle_active) else (
      record { cycles = insert k authorized g.cycles },
      ok (record { key = k; state = authorized }),
    )

unfoldable pub authorize :
    ResponseGate
    → Option ConversationState
    → String
    → TurnDirective
    → ResponseGate × Result Error ResponseAuthorization
unfolding admit
authorize g state id d = elim (response_source_key state id) [
  | err e ↦ (g, err e)
  | ok k ↦ elim (Directive.validate d) [
    | err e ↦ (g, err invalid_response_directive)
    | ok u ↦ admit g k (lookup k g.cycles)
  ]
]

-- The switches of the other operations, by what the map holds for the key.
unfoldable pub promote : Option ResponseState → Result Error ResponseState
promote (some reserved) = ok authorized
promote (some authorized) = err response_already_authorized
promote (some started) = err response_already_authorized
promote (some completed) = err response_already_authorized
promote (some failed) = err response_already_authorized
promote _ = err response_not_reserved

unfoldable pub starting : Option ResponseState → Result Error ResponseState
starting (some authorized) = ok started
starting (some started) = err response_already_started
starting (some completed) = err response_already_completed
starting (some failed) = err response_already_failed
starting _ = err response_not_authorized

unfoldable pub completing : Option ResponseState → Result Error ResponseState
completing (some started) = ok completed
completing (some authorized) = err response_not_started
completing (some reserved) = err response_not_started
completing (some completed) = err response_already_completed
completing (some failed) = err response_already_failed
completing _ = err response_not_authorized

unfoldable pub failing : Option ResponseState → Result Error ResponseState
failing (some reserved) = ok failed
failing (some authorized) = ok failed
failing (some started) = ok failed
failing (some failed) = err response_already_failed
failing (some completed) = err response_already_completed
failing _ = err response_not_authorized

abbrev pub move :
    ResponseGate → ResponseKey → Result Error ResponseState → ResponseGate × Result Error (Unit {0})
move g k (ok s) = (record { cycles = insert k s g.cycles }, ok tt)
move g k (err e) = (g, err e)

abbrev pub granted :
    ResponseKey
    → ResponseGate × Result Error (Unit {0})
    → ResponseGate × Result Error ResponseAuthorization
granted k (g, ok u) = (g, ok (record { key = k; state = authorized }))
granted k (g, err e) = (g, err e)

unfoldable pub authorize_reserved :
    ResponseGate → ResponseKey → TurnDirective → ResponseGate × Result Error ResponseAuthorization
authorize_reserved g k d = elim (validate_key k) [
  | err e ↦ (g, err e)
  | ok u ↦ elim (Directive.validate d) [
    | err e ↦ (g, err invalid_response_directive)
    | ok v ↦ granted k (move g k (promote (lookup k g.cycles)))
  ]
]

unfoldable pub start : ResponseGate → ResponseKey → ResponseGate × Result Error (Unit {0})
start g k = elim (validate_key k) [
  | err e ↦ (g, err e)
  | ok u ↦ move g k (starting (lookup k g.cycles))
]

unfoldable pub complete : ResponseGate → ResponseKey → ResponseGate × Result Error (Unit {0})
complete g k = elim (validate_key k) [
  | err e ↦ (g, err e)
  | ok u ↦ move g k (completing (lookup k g.cycles))
]

unfoldable pub fail : ResponseGate → ResponseKey → ResponseGate × Result Error (Unit {0})
fail g k = elim (validate_key k) [
  | err e ↦ (g, err e)
  | ok u ↦ move g k (failing (lookup k g.cycles))
]
