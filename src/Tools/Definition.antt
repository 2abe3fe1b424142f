-- ===== src/Tools/Definition.antt =====
-- internal/domain/tools: definition.go, schema.go and errors.go. A nil slice, map or pointer is none.
-- A definition is a value here, which is what `Clone` makes of it; a map is the list of its entries.
use Prim.Native.Char.{Char, code}
use agentic_voice_sdr.Base.{
  String, Bool, true, false, not, ◌&&◌, ◌||◌, List, [], ◌∷◌, Option, none, some, Result, err, ◌>>◌,
  guard, if◌then◌else◌, ◌==◌, str_eq, is_empty, is_blank, is_space, any, ℤ, is_negative,
  is_positive, less,
}

pub data Error : Type 0 where
  duplicate_tool unknown_tool invalid_definition tool_not_allowed_in_context : Error

pub record SchemaDefinition : Type 0 where
  pub type : String
  pub title : String
  pub description : String
  pub required : List String
  pub properties : Option (List (String × String))

-- Durations are counted in nanoseconds.
pub record RetryPolicyMetadata : Type 0 where
  pub max_retries : ℤ
  pub initial_backoff : ℤ
  pub max_backoff : ℤ

pub record AuditPolicy : Type 0 where
  pub log_payload : Bool
  pub mask_pii : Bool
  pub audit_level : String

pub record ProviderAdapterIdentifier : Type 0 where
  pub provider_name : String
  pub adapter_type : String

pub record ToolDefinition : Type 0 where
  pub name : String
  pub description : String
  pub input_schema : SchemaDefinition
  pub output_schema : SchemaDefinition
  pub allowed_contexts : List String
  pub timeout : ℤ
  pub retry_policy : Option RetryPolicyMetadata
  pub idempotency_strategy : String
  pub audit_policy : AuditPolicy
  pub provider_adapter : ProviderAdapterIdentifier

abbrev pub has_key : String → List (String × String) → Bool
has_key k ps = any (λ p. str_eq p.0 k) ps

-- The loop over the required fields.
unfoldable pub valid_required : Option (List (String × String)) → List String → Bool
valid_required ps [] = true
valid_required ps (r ∷ rs) =
    not (is_empty r) && (elim ps [ none ↦ true | some m ↦ has_key r m ]) && valid_required ps rs

unfoldable pub valid_properties : List (String × String) → Bool
valid_properties [] = true
valid_properties ((k, v) ∷ ps) = not (is_empty k || is_empty v) && valid_properties ps

unfoldable pub validate_schema : SchemaDefinition → Result Error (Unit {0})
validate_schema s = do
  guard (not (is_empty s.type)) invalid_definition
  guard (valid_required s.properties s.required) invalid_definition
  guard (elim s.properties [ none ↦ true | some m ↦ valid_properties m ]) invalid_definition

unfoldable pub validate_retry : RetryPolicyMetadata → Result Error (Unit {0})
validate_retry r =
    guard
      (not (is_negative r.max_retries)
        && (not (is_positive r.max_retries)
            || (is_positive r.initial_backoff && not (less r.max_backoff r.initial_backoff))))
      invalid_definition

unfoldable pub has_space : String → Bool
has_space String.[] = false
has_space (String.◌∷◌ c s) = is_space (code c) || has_space s

abbrev pub push : Char → List String → List String
push c [] = String.◌∷◌ c "" ∷ []
push c (w ∷ ws) = String.◌∷◌ c w ∷ ws

-- `strings.Split(name, ".")`.
unfoldable pub split : String → List String
split String.[] = "" ∷ []
split (String.◌∷◌ c s) = let ws = split s in if code c == 46 then "" ∷ ws else push c ws

abbrev pub two_parts : List String → Bool
two_parts (a ∷ b ∷ []) = not (is_empty a || is_empty b)
two_parts _ = false

unfoldable pub validate_tool_name : String → Result Error (Unit {0})
validate_tool_name name = do
  guard (not (is_empty name)) invalid_definition
  guard (not (has_space name)) invalid_definition
  guard (two_parts (split name)) invalid_definition

abbrev pub no_contexts : List String → Bool
no_contexts [] = true
no_contexts (c ∷ cs) = false

abbrev pub valid_retry_policy : Option RetryPolicyMetadata → Result Error (Unit {0})
valid_retry_policy none = err invalid_definition
valid_retry_policy (some r) = validate_retry r

unfoldable pub validate : ToolDefinition → Result Error (Unit {0})
validate d = do
  validate_tool_name d.name
  guard (not (is_blank d.description)) invalid_definition
  validate_schema d.input_schema
  validate_schema d.output_schema
  guard (not (no_contexts d.allowed_contexts)) invalid_definition
  guard (not (any is_blank d.allowed_contexts)) invalid_definition
  guard (is_positive d.timeout) invalid_definition
  valid_retry_policy d.retry_policy
  guard (not (is_blank d.idempotency_strategy)) invalid_definition
  guard (not (is_blank d.audit_policy.audit_level)) invalid_definition
  guard (not (is_blank d.provider_adapter.provider_name)) invalid_definition
  guard (not (is_blank d.provider_adapter.adapter_type)) invalid_definition
