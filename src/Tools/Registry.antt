-- ===== src/Tools/Registry.antt =====
-- internal/domain/tools/registry.go: the registry of tool definitions. Its mutex makes each method
-- one step; the map is an association list.
pub mod Lookup
pub mod Listing
use Prim.Native.Nat.{Ordering}
use Prim.Native.String.{compare}
use agentic_voice_sdr.Base.{
  ℕ, String, Bool, true, false, ◌&&◌, List, [], ◌∷◌, Option, none, some, Result, ok, err, ◌>>◌,
  if◌then◌else◌, str_eq, is_some, is_ok, any,
}
use agentic_voice_sdr.Tools.Definition.{
  Error, duplicate_tool, unknown_tool, tool_not_allowed_in_context, ToolDefinition, validate,
}

pub record InMemoryRegistry : Type 0 where
  pub tools : List (String × ToolDefinition)

unfoldable pub new_in_memory_registry : InMemoryRegistry
new_in_memory_registry = record { tools = [] }

unfoldable pub entry : String → List (String × ToolDefinition) → Option ToolDefinition
entry name [] = none
entry name ((n, d) ∷ m) = if str_eq n name then some d else entry name m

-- The entry is new, as `Register` has checked.
unfoldable pub register :
    InMemoryRegistry → ToolDefinition → InMemoryRegistry × Result Error (Unit {0})
register r d = elim (validate d) [
  | err e ↦ (r, err e)
  | ok u ↦
      if is_some (entry d.name r.tools)
      then (r, err duplicate_tool)
      else (record { tools = (d.name, d) ∷ r.tools }, ok tt)
]

unfoldable pub get : InMemoryRegistry → String → Result Error ToolDefinition
get r name = elim (entry name r.tools) [ none ↦ err unknown_tool | some d ↦ ok d ]

-- `a < b` on strings, by their bytes.
unfoldable pub str_less : String → String → Bool
str_less a b = elim (compare a b) [ Ordering.lt ↦ true | _ ↦ false ]

unfoldable pub sorted_insert : ToolDefinition → List ToolDefinition → List ToolDefinition
sorted_insert d [] = d ∷ []
sorted_insert d (e ∷ es) =
    let rest = sorted_insert d es in if str_less e.name d.name then e ∷ rest else d ∷ e ∷ es

unfoldable pub sorted : List (String × ToolDefinition) → List ToolDefinition
sorted [] = []
sorted ((n, d) ∷ m) = sorted_insert d (sorted m)

-- `List`: the definitions by name.
unfoldable pub list : InMemoryRegistry → List ToolDefinition
list r = sorted r.tools

unfoldable pub validate_allowed_in_context :
    InMemoryRegistry → String → String → Result Error (Unit {0})
validate_allowed_in_context r name context = elim (entry name r.tools) [
  | none ↦ err unknown_tool
  | some d ↦
      if any (λ c. str_eq c context) d.allowed_contexts
      then ok tt
      else err tool_not_allowed_in_context
]

unfoldable pub is_allowed_in_context : InMemoryRegistry → String → String → Bool
unfolding validate_allowed_in_context
is_allowed_in_context r name context = is_ok (validate_allowed_in_context r name context)
