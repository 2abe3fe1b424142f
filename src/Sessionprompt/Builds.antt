-- ===== src/Sessionprompt/Builds.antt =====
-- What the builder of internal/sessionprompt/builder.go gives.
use agentic_voice_sdr.Base.{
  String, true, false, Option, none, some, Result, ok, err, ltb, ◌≤◌, ◌<◌, ◌≡◌, refl, Context,
  CtxError, ◌⊎◌, inl, inr, arith, Bool-cases, is_blank,
}
use agentic_voice_sdr.Base.Text.{byte_length}
use agentic_voice_sdr.Base.Runs.{Ends, Ends-holds, return-Ends, >>=-Ends, called-Ends}
use agentic_voice_sdr.Agentprompt.{
  PromptVersion, PromptSnapshot, new_prompt_version, Error as PromptError,
}
use agentic_voice_sdr.Agentprompt.Versions.{IsVersion, new_prompt_version_lem}
use agentic_voice_sdr.Sessionprompt.{
  Config, SourceError, SnapshotSource, Error, Builder, compose, composed, checked, configured,
  resolve, build_from, build, invalid_snapshot, instruction_too_large, invalid_builder,
  invalid_build_context, context_error, source_error,
}

-- The snapshot is of a version that is accepted, up to space around its texts.
abbrev pub IsSnapshot : PromptSnapshot → Type 0
IsSnapshot s =
    (p : PromptVersion) × (new_prompt_version s.version s.name s.content false none none ≡ ok p)
    × IsVersion p

-- The configuration that was given with a snapshot.
pub data IsConfigured {J : Type 0} (base : Config J) (core : String) (s : PromptSnapshot)
    : Result Error (Config J × PromptSnapshot) → Type 0 where
  not_accepted :
      {e : PromptError}
      → new_prompt_version s.version s.name s.content false none none ≡ err e
      → IsConfigured base core s (err invalid_snapshot)
  too_large :
      65536 < byte_length (compose core s) → IsConfigured base core s (err instruction_too_large)
  configured_with :
      IsSnapshot s
      → byte_length (compose core s) ≤ 65536
      → IsConfigured base core s (ok (record base { system_instruction = compose core s }, s))

-- A call fails before it asks the source, or asks it once and answers with the snapshot that it got.
pub data Builds {S J : Type 0} (b : Builder S J) (ctx : Option Context) (w : S)
    : Result Error (Config J × PromptSnapshot) → S → Type 0 where
  unusable : (b.source ≡ none) ⊎ (is_blank b.core ≡ true) → Builds b ctx w (err invalid_builder) w
  no_context : ctx ≡ none → Builds b ctx w (err invalid_build_context) w
  ended :
      {c : Context} {e : CtxError}
      → ctx ≡ some c
      → c.err_at 0 ≡ some e
      → Builds b ctx w (err (context_error e)) w
  not_found :
      (c : Context) {e : SourceError} {get : SnapshotSource S} {v : S}
      → ctx ≡ some c
      → b.source ≡ some get
      → get w ≡ (err e, v)
      → Builds b ctx w (err (source_error (c.err_at 1) e)) v
  found :
      {s : PromptSnapshot} {get : SnapshotSource S} {v : S}
      {r : Result Error (Config J × PromptSnapshot)}
      → b.source ≡ some get
      → get w ≡ (ok s, v)
      → IsConfigured b.base b.core s r
      → Builds b ctx w r v

module _ {J : Type 0} (base : Config J) (core : String) where
  composed-IsConfigured :
      (s : PromptSnapshot)
      → IsSnapshot s
      → IsConfigured base core s (composed base (compose core s) s)
  composed-IsConfigured s is = elim (Bool-cases (ltb 65536 (byte_length (compose core s)))) [
    | inl large ↦ rw large (too_large (ground arith))
    | inr fits ↦ rw fits (configured_with is (ground arith))
  ]

  checked-IsConfigured :
      (s : PromptSnapshot) (r : Result PromptError PromptVersion)
      → new_prompt_version s.version s.name s.content false none none ≡ r
      → IsConfigured base core s (checked base core s r)
  checked-IsConfigured s (err e) h = not_accepted h
  checked-IsConfigured s (ok p) h =
      composed-IsConfigured s
        (p, h, (new_prompt_version_lem s.version s.name s.content false none none h).0)

module _ {S J : Type 0} (b : Builder S J) where
  configured-Builds :
      {get : SnapshotSource S} {w : S} (c : Context) (r : Result SourceError PromptSnapshot) (v : S)
      → b.source ≡ some get
      → get w ≡ (r, v)
      → Builds b (some c) w (configured b.base b.core (c.err_at 1) r) v
  configured-Builds c (err e) v from h = not_found c refl from h
  configured-Builds c (ok s) v from h = found from h (checked-IsConfigured b.base b.core s _ refl)

  resolve-Ends :
      (c : Context) (get : SnapshotSource S) (e : Option CtxError) {w : S}
      → b.source ≡ some get
      → c.err_at 0 ≡ e
      → Ends (Builds b (some c) w) (resolve b c get e) w
  resolve-Ends c get (some e) from h = return-Ends _ (ended refl h)
  resolve-Ends c get none from h =
      >>=-Ends (called-Ends (λ r v h. return-Ends _ (configured-Builds c r v from h)))

  build_from-Ends :
      (ctx : Option Context) (source : Option (SnapshotSource S)) {w : S}
      → b.source ≡ source
      → Ends (Builds b ctx w) (build_from b ctx source) w
  build_from-Ends ctx none from = return-Ends _ (unusable (inl from))
  build_from-Ends none (some get) from = elim (Bool-cases (is_blank b.core)) [
    | inl blank ↦ rw blank (return-Ends _ (unusable (inr blank)))
    | inr full ↦ rw full (return-Ends _ (no_context refl))
  ]
  build_from-Ends (some c) (some get) from = elim (Bool-cases (is_blank b.core)) [
    | inl blank ↦ rw blank (return-Ends _ (unusable (inr blank)))
    | inr full ↦ rw full (resolve-Ends c get _ from refl)
  ]

  -- Whatever source and context do, Build fails before it asks the source only without a source, a core or a
  -- context, or in a context that has ended; else it asks once. It then gives the snapshot that the source gave,
  -- and the base configuration with the core and that snapshot as its instruction, if the snapshot is of a
  -- version that is accepted and the instruction has at most 65536 bytes, and an error if not.
  pub build-Builds :
      (ctx : Option Context) (w : S) → let r = build (some b) ctx w in Builds b ctx w r.0 r.1
  unfolding build
  build-Builds ctx w = Ends-holds (build_from-Ends ctx b.source refl)
