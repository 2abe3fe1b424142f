-- ===== src/Tools/Registry/Lookup.antt =====
-- The registry as a map from names (internal/domain/tools/registry.go).
use agentic_voice_sdr.Base.{
  String, ◌≡◌, refl, inl, inr, ◌&&◌, List, [], ◌∷◌, some, ok, if◌then◌else◌, arith, str_eq, eq_iff,
  is_ok, any, Result-cases, Bool-cases, is_some, All,
}
use agentic_voice_sdr.Tools.Definition.{ToolDefinition, validate}
use agentic_voice_sdr.Tools.Registry.{
  InMemoryRegistry, new_in_memory_registry, entry, register, get, is_allowed_in_context,
  validate_allowed_in_context,
}

-- A registration that succeeds makes the definition what its name stands for, and one that is refused
-- changes nothing; no other name is touched.
pub get-register :
    (r : InMemoryRegistry) (d : ToolDefinition) (name : String)
    → get (register r d).0 name
      ≡ (if is_ok (register r d).1 && str_eq d.name name then ok d else get r name)
unfolding register get entry
get-register r d name = ground arith

-- The registry after a list of registrations, whatever each of them returns.
unfoldable pub registered : List ToolDefinition → InMemoryRegistry
registered [] = new_in_memory_registry
registered (d ∷ ds) = (register (registered ds) d).0

-- The entry is for its definition's name, and the definition is valid.
abbrev pub IsSound : String × ToolDefinition → Type 0
IsSound e = (e.0 ≡ e.1.name) × (validate e.1 ≡ ok tt)

register-All :
    (r : InMemoryRegistry) (d : ToolDefinition)
    → All IsSound r.tools
    → All IsSound (register r d).0.tools
unfolding register
register-All r d h = elim (Result-cases (validate d)) [
  | inr (x, e) ↦ rw (e, register) h
  | inl (u, e) ↦
      rw (e, register)
        (elim (Bool-cases (is_some (entry d.name r.tools))) [
          | inl taken ↦ rw taken h
          | inr free ↦ rw free ((refl, e), h)
        ])
]

pub registered-All : (ds : List ToolDefinition) → All IsSound (registered ds).tools
unfolding registered new_in_memory_registry
registered-All [] = tt
registered-All (d ∷ ds) = register-All (registered ds) d (registered-All ds)

entry-IsSound :
    (name : String) (m : List (String × ToolDefinition)) {d : ToolDefinition}
    → All IsSound m
    → entry name m ≡ some d
    → (d.name ≡ name) × (validate d ≡ ok tt)
unfolding entry
entry-IsSound name [] h e = cc
entry-IsSound name ((n, c) ∷ m) ((same, valid), h) e = elim (Bool-cases (str_eq n name)) [
  | inl hit ↦ (ground (arith, eq_iff n name), ground arith)
  | inr miss ↦ entry-IsSound name m h (ground arith)
]

-- Whatever has been registered: a definition that is found under a name has the name and is valid,
-- and where a tool is allowed in a context, the context is one that its definition lists.
pub registered_sound :
    (ds : List ToolDefinition) (name context : String) {d : ToolDefinition}
    → get (registered ds) name ≡ ok d
    → (d.name ≡ name)
      × (validate d ≡ ok tt)
      × (is_allowed_in_context (registered ds) name context
          ≡ any (λ c. str_eq c context) d.allowed_contexts)
unfolding get is_allowed_in_context validate_allowed_in_context
registered_sound ds name context {d} h =
    let found : entry name (registered ds).tools ≡ some d = ground arith in
    let (same, valid) = entry-IsSound name (registered ds).tools (registered-All ds) found in
    (same, valid, ground (arith, found))
