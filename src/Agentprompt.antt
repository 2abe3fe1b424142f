-- ===== src/Agentprompt.antt =====
-- internal/domain/agentprompt/agentprompt.go: the versions of the prompt of the agent.
-- A time is a number, and none where it is zero. The repository is an interface on a state that others share;
-- the context of a call is only handed on and left out. A text is the list of its runes.
pub mod Versions
pub mod Tests
use agentic_voice_sdr.Base.{
  ℕ, suc, String, Bool, true, false, not, ◌&&◌, ◌||◌, List, Option, Result, ok, err, ◌>>=◌, ◌>>◌,
  guard, if◌then◌else◌, ltb, ℤ, is_empty, is_some, trim_space,
}
use agentic_voice_sdr.Base.Int.{is_positive}
use agentic_voice_sdr.Base.Text.{byte_length}
use agentic_voice_sdr.Base.Runs.{Run, return}
use agentic_voice_sdr.Base.Runs

-- The errors of the package, and any other of a repository.
pub data Error : Type 0 where
  invalid_prompt prompt_not_found no_active_prompt storage : Error

pub record PromptDraft : Type 0 where
  pub name : String
  pub content : String

-- `utf8.RuneCountInString`.
unfoldable pub rune_count : String → ℕ
rune_count String.[] = 0
rune_count (String.◌∷◌ c s) = suc (rune_count s)

abbrev pub trimmed : PromptDraft → PromptDraft
trimmed d = record { name = trim_space d.name; content = trim_space d.content }

-- The tests of `Validate`, on the trimmed texts.
abbrev pub check_draft : PromptDraft → Result Error (Unit {0})
check_draft d =
    if is_empty d.name || ltb 120 (rune_count d.name)
    then err invalid_prompt
    else if is_empty d.content || ltb 32768 (byte_length d.content)
    then err invalid_prompt
    else ok tt

-- `PromptDraft.Validate`.
unfoldable pub validate_draft : PromptDraft → Result Error (Unit {0})
unfolding rune_count
validate_draft d = check_draft (trimmed d)

unfoldable pub normalized : PromptDraft → Result Error PromptDraft
unfolding validate_draft
normalized d = do validate_draft (trimmed d); ok (trimmed d)

pub record PromptVersion : Type 0 where
  pub version : ℤ
  pub name : String
  pub content : String
  pub active : Bool
  pub created_at : Option ℕ
  pub activated_at : Option ℕ

unfoldable pub new_prompt_version :
    ℤ → String → String → Bool → Option ℕ → Option ℕ → Result Error PromptVersion
unfolding normalized
new_prompt_version version name content active created_at activated_at = do
  draft ← normalized (record { name = name; content = content })
  guard (is_positive version) invalid_prompt
  guard (not (active && not (is_some activated_at))) invalid_prompt
  ok (record {
    version = version;
    name = draft.name;
    content = draft.content;
    active = active;
    created_at = created_at;
    activated_at = activated_at;
  })

-- `PromptVersion.Validate`.
unfoldable pub validate : PromptVersion → Result Error (Unit {0})
unfolding new_prompt_version
validate p = do
  made ← new_prompt_version p.version p.name p.content p.active p.created_at p.activated_at
  ok tt

pub record PromptSnapshot : Type 0 where
  pub version : ℤ
  pub name : String
  pub content : String

abbrev pub snapshot : PromptVersion → PromptSnapshot
snapshot p = record { version = p.version; name = p.name; content = p.content }

pub record PromptRepository (S : Type 0) : Type 0 where
  pub create_version : PromptDraft → Run S (Result Error PromptVersion)
  pub get_active : Run S (Result Error PromptVersion)
  pub get_version : ℤ → Run S (Result Error PromptVersion)
  pub list_versions : Run S (Result Error (List PromptVersion))
  pub activate_version : ℤ → Run S (Result Error PromptVersion)

-- The methods of `PromptService`.
module _ {S : Type 0} (repository : PromptRepository S) where
  abbrev pub create_normalized : Result Error PromptDraft → Run S (Result Error PromptVersion)
  create_normalized (err e) = return (err e)
  create_normalized (ok d) = repository.create_version d

  unfoldable pub create_version : PromptDraft → Run S (Result Error PromptVersion)
  unfolding normalized
  create_version d = create_normalized (normalized d)

  abbrev pub get_active : Run S (Result Error PromptVersion)
  get_active = repository.get_active

  abbrev pub get_version : ℤ → Run S (Result Error PromptVersion)
  get_version version = repository.get_version version

  abbrev pub list_versions : Run S (Result Error (List PromptVersion))
  list_versions = repository.list_versions

  abbrev pub activate_version : ℤ → Run S (Result Error PromptVersion)
  activate_version version = repository.activate_version version

  abbrev pub frozen : Result Error PromptVersion → Run S (Result Error PromptSnapshot)
  frozen (err e) = return (err e)
  frozen (ok p) = return (ok (snapshot p))

  unfoldable pub snapshot_active : Run S (Result Error PromptSnapshot)
  snapshot_active = Runs.◌>>=◌ get_active frozen
