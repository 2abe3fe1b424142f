-- ===== src/Sip/Installation/Histories.antt =====
-- Sequences of calls on one trunk (internal/telephony/sip/reconciler.go).
use agentic_voice_sdr.Base.{String, none, ok, err, ◌≡◌, refl, ◌∙◌, subst}
use agentic_voice_sdr.Sip.Reloader.{World, Environment, not_finalized}
use agentic_voice_sdr.Sip.Reloader.Outcome.{
  InSync, Staged, StageOutcome, RollbackOutcome, RemoveOutcome, or_else,
}
use agentic_voice_sdr.Sip.Reloader.Staging.{stage_pjsip_config-StageOutcome}
use agentic_voice_sdr.Sip.Reloader.Removal.{
  rollback_pjsip_config-RollbackOutcome, remove_pjsip_config-RemoveOutcome,
}
use agentic_voice_sdr.Sip.Reloader.Transactions.{
  stage_pjsip_config, rollback_pjsip_config, remove_pjsip_config,
}

staging_outcome :
    (env : Environment) (name conf : String) (w : World)
    → (stage_pjsip_config env name conf w).0 ≡ ok tt
    → Staged env conf w (stage_pjsip_config env name conf w).1
unfolding StageOutcome
staging_outcome env name conf w h =
    subst (λ r. StageOutcome env conf w r (stage_pjsip_config env name conf w).1) h
      (stage_pjsip_config-StageOutcome env name conf w)

rolled_back_outcome :
    (env : Environment) (name : String) (w : World)
    → (rollback_pjsip_config env name w).0 ≡ ok tt
    → RollbackOutcome w (ok tt) (rollback_pjsip_config env name w).1
rolled_back_outcome env name w h =
    subst (λ r. RollbackOutcome w r (rollback_pjsip_config env name w).1) h
      (rollback_pjsip_config-RollbackOutcome env name w)

unfinalized_outcome :
    (env : Environment) (name : String) (w : World)
    → (remove_pjsip_config env name w).0 ≡ err not_finalized
    → RemoveOutcome w (err not_finalized) (remove_pjsip_config env name w).1
unfinalized_outcome env name w h =
    subst (λ r. RemoveOutcome w r (remove_pjsip_config env name w).1) h
      (remove_pjsip_config-RemoveOutcome env name w)

-- Staged and rolled back without an error, a trunk has the configuration that it had before; if it had none, it has
-- that of a backup that was lying there. Asterisk runs it.
pub rollback-stage_pjsip_config :
    (env : Environment) (name conf : String) (w : World)
    → let v = (stage_pjsip_config env name conf w).1 in
      let x = (rollback_pjsip_config env name v).1 in
      (stage_pjsip_config env name conf w).0 ≡ ok tt
      → (rollback_pjsip_config env name v).0 ≡ ok tt
      → (x.target ≡ or_else w.target w.backup) × (x.backup ≡ none) × InSync x
unfolding Staged RollbackOutcome
rollback-stage_pjsip_config env name conf w staged back =
    let (installed, kept, pinned, running) = staging_outcome env name conf w staged in
    let (target, backup, hosts, again) =
      rolled_back_outcome env name (stage_pjsip_config env name conf w).1 back in
    (target ∙ kept, backup, again)

-- A trunk whose removal only failed to remove the backup is disabled; still, when a later configuration of it is staged
-- and rolled back without an error, the configuration that was removed is there again, and Asterisk
-- runs it.
pub remove-rollback-stage_pjsip_config :
    (env : Environment) (name conf : String) (w : World)
    → let u = (remove_pjsip_config env name w).1 in
      let v = (stage_pjsip_config env name conf u).1 in
      let x = (rollback_pjsip_config env name v).1 in
      (remove_pjsip_config env name w).0 ≡ err not_finalized
      → (stage_pjsip_config env name conf u).0 ≡ ok tt
      → (rollback_pjsip_config env name v).0 ≡ ok tt
      → (u.target ≡ none) × (x.target ≡ w.target) × InSync x
unfolding RemoveOutcome
remove-rollback-stage_pjsip_config env name conf w removed staged back =
    let u = (remove_pjsip_config env name w).1 in
    let (gone, stale) = unfinalized_outcome env name w removed in
    let (target, backup, running) = rollback-stage_pjsip_config env name conf u staged back in
    (gone, target ∙ rw (gone, stale) refl, running)
