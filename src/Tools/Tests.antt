-- ===== src/Tools/Tests.antt =====
-- Tool definitions on concrete inputs (internal/domain/tools).
use agentic_voice_sdr.Base.{
  ◌≡◌, refl, true, false, [], ◌∷◌, some, ok, err, pos, str_eq, any, is_blank, is_space,
}
use agentic_voice_sdr.Tools.Definition.{
  SchemaDefinition, ToolDefinition, invalid_definition, validate, validate_schema, valid_required,
  valid_properties, validate_retry, validate_tool_name, has_space, split,
}
use agentic_voice_sdr.Tools.Registry.{
  new_in_memory_registry, entry, register, get, is_allowed_in_context, list, sorted, sorted_insert,
  str_less,
}
use agentic_voice_sdr.Tools.Registry.Lookup.{registered, registered_sound}

abbrev schema : SchemaDefinition
schema = record {
  type = "object";
  title = "";
  description = "";
  required = "when" ∷ [];
  properties = some (("when", "string") ∷ []);
}

abbrev search : ToolDefinition
search = record {
  name = "memory.search";
  description = "find";
  input_schema = schema;
  output_schema = schema;
  allowed_contexts = "call" ∷ [];
  timeout = pos 5;
  retry_policy =
      some (record { max_retries = pos 0; initial_backoff = pos 0; max_backoff = pos 0 });
  idempotency_strategy = "none";
  audit_policy = record { log_payload = false; mask_pii = true; audit_level = "full" };
  provider_adapter = record { provider_name = "p"; adapter_type = "t" };
}

abbrev note : ToolDefinition
note = record search { name = "conversation.add_note" }

search_found : get (registered (search ∷ note ∷ [])) "memory.search" ≡ ok search
unfolding registered get register new_in_memory_registry entry validate validate_schema
    valid_required valid_properties validate_retry validate_tool_name has_space split is_blank
    is_space
search_found = refl

name_refused : validate_tool_name "memory" ≡ err invalid_definition
unfolding validate_tool_name has_space split is_space
name_refused = refl

listed : list (registered (search ∷ note ∷ [])) ≡ note ∷ search ∷ []
unfolding registered register new_in_memory_registry entry validate validate_schema valid_required
    valid_properties validate_retry validate_tool_name has_space split is_blank is_space list sorted
    sorted_insert str_less
listed = refl

registered_sound_example :
    (search.name ≡ "memory.search")
    × (validate search ≡ ok tt)
    × (is_allowed_in_context (registered (search ∷ note ∷ [])) "memory.search" "call"
        ≡ any (λ c. str_eq c "call") search.allowed_contexts)
registered_sound_example = registered_sound (search ∷ note ∷ []) "memory.search" "call" search_found
