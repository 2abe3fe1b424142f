-- ===== src/Agentprompt/Tests.antt =====
-- Versions of a prompt on concrete inputs (internal/domain/agentprompt/agentprompt.go).
use agentic_voice_sdr.Base.{true, none, some, ok, err, pos, ◌≡◌, refl, trim_space}
use agentic_voice_sdr.Base.Text.{byte_length}
use agentic_voice_sdr.Agentprompt.{
  PromptVersion, invalid_prompt, rune_count, validate_draft, normalized, new_prompt_version,
  validate,
}
use agentic_voice_sdr.Agentprompt.Versions.{IsVersion, new_prompt_version_lem}

abbrev greeting : PromptVersion
greeting = record {
  version = pos 1;
  name = "Olá";
  content = "Você é um SDR.";
  active = true;
  created_at = some 3;
  activated_at = some 5;
}

accepted :
    new_prompt_version (pos 1) " Olá " "Você é um SDR.\n" true (some 3) (some 5) ≡ ok greeting
unfolding new_prompt_version normalized validate_draft trim_space rune_count byte_length
accepted = refl

not_activated : new_prompt_version (pos 1) "Olá" "x" true (some 3) none ≡ err invalid_prompt
unfolding new_prompt_version normalized validate_draft trim_space rune_count byte_length
not_activated = refl

new_prompt_version_lem_example : IsVersion greeting × (validate greeting ≡ ok tt)
new_prompt_version_lem_example =
    new_prompt_version_lem (pos 1) " Olá " "Você é um SDR.\n" true (some 3) (some 5) accepted
