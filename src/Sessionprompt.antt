-- ===== src/Sessionprompt.antt =====
-- internal/sessionprompt/builder.go: the configuration of a session from the active version of the prompt.
-- What the source of snapshots does is a call on a state that others share, and an error of it is known as far
-- as the code asks for it. A configuration is a value, which is what cloneConfig is for; its JSON values are of
-- any type. Every text is valid UTF-8.
pub mod Builds
pub mod Tests
use agentic_voice_sdr.Base.{
  String, Bool, true, false, List, Option, none, some, Result, ok, err, if◌then◌else◌, ltb, ℤ,
  is_blank, Context, CtxError, canceled, deadline_exceeded,
}
use agentic_voice_sdr.Base.Text.{byte_length}
use agentic_voice_sdr.Base.Lines.{◌<>◌, show_int}
use agentic_voice_sdr.Base.Runs.{Run, return, ◌>>=◌}
use agentic_voice_sdr.Agentprompt.{
  PromptVersion, PromptSnapshot, new_prompt_version, Error as PromptError,
}

pub record FunctionDeclaration (J : Type 0) : Type 0 where
  pub name : String
  pub description : String
  pub parameters : Option (List (String × J))

pub record ToolDefinition (J : Type 0) : Type 0 where
  pub function_declarations : List (FunctionDeclaration J)

pub record Config (J : Type 0) : Type 0 where
  pub api_key : String
  pub model : String
  pub endpoint : String
  pub system_instruction : String
  pub tools : List (ToolDefinition J)
  pub response_modalities : List String

-- What `errors.Is` tells of an error of the source.
pub data SourceError : Type 0 where
  no_active_version other : SourceError
  interrupted : CtxError → SourceError

pub data Error : Type 0 where
  invalid_builder invalid_build_context no_active_prompt snapshot_source : Error
  invalid_snapshot instruction_too_large : Error
  context_error source_interrupted : CtxError → Error

abbrev pub SnapshotSource : Type 0 → Type 0
SnapshotSource S = Run S (Result SourceError PromptSnapshot)

pub record Builder (S J : Type 0) : Type 0 where
  pub base : Config J
  pub core : String
  pub source : Option (SnapshotSource S)

unfoldable pub new_builder :
    {S J : Type 0} → Config J → String → Option (SnapshotSource S) → Result Error (Builder S J)
new_builder base core none = err invalid_builder
new_builder base core (some source) =
    if is_blank core
    then err invalid_builder
    else ok (record { base = base; core = core; source = some source })

unfoldable pub compose : String → PromptSnapshot → String
compose core s =
    "[IMMUTABLE SYSTEM CORE]\n"
    <> core
    <> "\n\n[ACTIVE EDITABLE AGENT PROMPT v"
    <> show_int s.version
    <> ": "
    <> s.name
    <> "]\n"
    <> s.content

-- The error of a source that failed; the context is asked again.
abbrev pub source_error : Option CtxError → SourceError → Error
source_error ended no_active_version = no_active_prompt
source_error (some e) other = context_error e
source_error (some e) (interrupted c) = context_error e
source_error none other = snapshot_source
source_error none (interrupted c) = source_interrupted c

module _ {J : Type 0} where
  abbrev pub composed :
      Config J → String → PromptSnapshot → Result Error (Config J × PromptSnapshot)
  composed base instruction s =
      if ltb 65536 (byte_length instruction)
      then err instruction_too_large
      else ok (record base { system_instruction = instruction }, s)

  abbrev pub checked :
      Config J
      → String
      → PromptSnapshot
      → Result PromptError PromptVersion
      → Result Error (Config J × PromptSnapshot)
  checked base core s (err e) = err invalid_snapshot
  checked base core s (ok p) = composed base (compose core s) s

  abbrev pub configured :
      Config J
      → String
      → Option CtxError
      → Result SourceError PromptSnapshot
      → Result Error (Config J × PromptSnapshot)
  configured base core ended (err e) = err (source_error ended e)
  configured base core ended (ok s) =
      checked base core s (new_prompt_version s.version s.name s.content false none none)

module _ {S J : Type 0} where
  abbrev pub resolve :
      Builder S J
      → Context
      → SnapshotSource S
      → Option CtxError
      → Run S (Result Error (Config J × PromptSnapshot))
  resolve b ctx source (some e) = return (err (context_error e))
  resolve b ctx source none = do
    found ← source
    return (configured b.base b.core (ctx.err_at 1) found)

  abbrev pub build_from :
      Builder S J
      → Option Context
      → Option (SnapshotSource S)
      → Run S (Result Error (Config J × PromptSnapshot))
  build_from b ctx none = return (err invalid_builder)
  build_from b none (some source) =
      return (err (if is_blank b.core then invalid_builder else invalid_build_context))
  build_from b (some ctx) (some source) =
      if is_blank b.core then return (err invalid_builder) else resolve b ctx source (ctx.err_at 0)

  -- `Build`, on a builder or nil.
  unfoldable pub build :
      Option (Builder S J) → Option Context → Run S (Result Error (Config J × PromptSnapshot))
  unfolding compose new_prompt_version
  build none ctx = return (err invalid_builder)
  build (some b) ctx = build_from b ctx b.source
