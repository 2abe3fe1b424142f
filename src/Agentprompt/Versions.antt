-- ===== src/Agentprompt/Versions.antt =====
-- What a version of a prompt is that internal/domain/agentprompt/agentprompt.go accepts.
use agentic_voice_sdr.Base.{
  String, Bool, true, false, not, ◌&&◌, Option, ok, ltb, ◌≤◌, ◌≡◌, refl, guard, is_empty, is_some,
  trim_space, arith, >>=-eq-ok, ok-injective, subst, ℤ, ℕ, guard-not, guard_test,
}
use agentic_voice_sdr.Base.Int.{is_positive}
use agentic_voice_sdr.Base.Text.{byte_length}
use agentic_voice_sdr.Base.Text.Trim.{trim_space_idem}
use agentic_voice_sdr.Agentprompt.{
  PromptDraft, PromptVersion, rune_count, trimmed, check_draft, validate_draft, normalized,
  new_prompt_version, validate,
}

-- A text without space around it that is not empty.
pub record IsTrimmed (s : String) : Type 0 where
  pub same : trim_space s ≡ s
  pub some_rune : is_empty s ≡ false

-- What a draft is after its normalization.
pub record IsDraft (d : PromptDraft) : Type 0 where
  pub name : IsTrimmed d.name
  pub name_length : rune_count d.name ≤ 120
  pub content : IsTrimmed d.content
  pub content_length : byte_length d.content ≤ 32768

abbrev pub draft_of : PromptVersion → PromptDraft
draft_of p = record { name = p.name; content = p.content }

pub record IsVersion (p : PromptVersion) : Type 0 where
  pub numbered : is_positive p.version ≡ true
  pub draft : IsDraft (draft_of p)
  pub activated : (p.active && not (is_some p.activated_at)) ≡ false

checked-IsDraft :
    (d : PromptDraft)
    → trim_space d.name ≡ d.name
    → trim_space d.content ≡ d.content
    → check_draft d ≡ ok tt
    → IsDraft d
checked-IsDraft d name content h = record {
  name = record { same = name; some_rune = grind arith };
  name_length = grind arith;
  content = record { same = content; some_rune = grind arith };
  content_length = grind arith;
}

normalized-IsDraft : (d : PromptDraft) {e : PromptDraft} → normalized d ≡ ok e → IsDraft e
unfolding normalized validate_draft
normalized-IsDraft d h =
    let (u, checks, same) = >>=-eq-ok (validate_draft (trimmed d)) _ h in
    let again : trimmed (trimmed d) ≡ trimmed d =
      rw (trim_space_idem d.name, trim_space_idem d.content) refl in
    subst IsDraft (ok-injective same) (
      checked-IsDraft (trimmed d) (trim_space_idem d.name) (trim_space_idem d.content)
        (subst (λ x. check_draft x ≡ ok tt) again checks))

normalized_fixed : (d : PromptDraft) → IsDraft d → normalized d ≡ ok d
unfolding normalized validate_draft
normalized_fixed d h =
    let short : ltb 120 (rune_count d.name) ≡ false = ground arith in
    let small : ltb 32768 (byte_length d.content) ≡ false = ground arith in
    rw
      (
        h.name.same, h.name.same, h.content.same, h.content.same, h.name.some_rune,
        h.content.some_rune, short, small,
      )
      refl

new_prompt_version-IsVersion :
    (version : ℤ) (name content : String) (active : Bool) (created_at activated_at : Option ℕ)
    {p : PromptVersion}
    → new_prompt_version version name content active created_at activated_at ≡ ok p
    → IsVersion p
unfolding new_prompt_version
new_prompt_version-IsVersion version name content active created_at activated_at h =
    let (d, drafted, h1) = >>=-eq-ok (normalized _) _ h in
    let (u, numbered, h2) = >>=-eq-ok (guard (is_positive version) _) _ h1 in
    let (w, activated, h3) =
      >>=-eq-ok (guard (not (active && not (is_some activated_at))) _) _ h2 in
    subst IsVersion (ok-injective h3) (record {
      numbered = guard_test _ _ numbered;
      draft = normalized-IsDraft _ drafted;
      activated = guard-not _ _ activated;
    })

IsVersion-validates : (p : PromptVersion) → IsVersion p → validate p ≡ ok tt
unfolding validate new_prompt_version
IsVersion-validates p h = rw (normalized_fixed (draft_of p) h.draft, h.numbered, h.activated) refl

-- A version that NewPromptVersion accepts has a positive number, a name of at most 120 runes and a content of at
-- most 32768 bytes, both not empty and without space around them, and a time of its activation if it is active;
-- and Validate accepts it again.
pub new_prompt_version_lem :
    (version : ℤ) (name content : String) (active : Bool) (created_at activated_at : Option ℕ)
    {p : PromptVersion}
    → new_prompt_version version name content active created_at activated_at ≡ ok p
    → IsVersion p × (validate p ≡ ok tt)
new_prompt_version_lem version name content active created_at activated_at h =
    let is = new_prompt_version-IsVersion version name content active created_at activated_at h in
    (is, IsVersion-validates _ is)
