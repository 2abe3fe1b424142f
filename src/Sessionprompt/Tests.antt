-- ===== src/Sessionprompt/Tests.antt =====
-- The configuration of a session on concrete inputs (internal/sessionprompt/builder.go).
use agentic_voice_sdr.Base.{ℕ, suc, [], some, ok, pos, background}
use agentic_voice_sdr.Base.Lines.{show_int}
use agentic_voice_sdr.Base.Text.{put_digits, digit, byte_length}
use agentic_voice_sdr.Base.{is_blank, trim_space}
use agentic_voice_sdr.Base.Runs.{return, ◌>>=◌}
use agentic_voice_sdr.Agentprompt.{
  PromptSnapshot, new_prompt_version, normalized, validate_draft, rune_count,
}
use agentic_voice_sdr.Sessionprompt.{Config, Builder, compose, build}
use agentic_voice_sdr.Sessionprompt.Builds.{Builds, build-Builds}

abbrev snapshot_one : PromptSnapshot
snapshot_one = record { version = pos 3; name = "Olá"; content = "Agende." }

abbrev config : Config ℕ
config = record {
  api_key = "key";
  model = "live";
  endpoint = "wss";
  system_instruction = "old";
  tools = [];
  response_modalities = [];
}

abbrev builder : Builder ℕ ℕ
builder = record { base = config; core = "Core"; source = some (λ n. (ok snapshot_one, suc n)) }

abbrev instructed : Config ℕ
instructed = record config {
  system_instruction =
      "[IMMUTABLE SYSTEM CORE]\nCore\n\n[ACTIVE EDITABLE AGENT PROMPT v3: Olá]\nAgende.";
}

build-Builds_example : Builds builder (some background) 0 (ok (instructed, snapshot_one)) 1
unfolding build compose new_prompt_version normalized validate_draft rune_count byte_length
    trim_space is_blank show_int put_digits digit return ◌>>=◌
build-Builds_example = build-Builds builder (some background) 0
