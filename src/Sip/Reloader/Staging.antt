-- ===== src/Sip/Reloader/Staging.antt =====
-- What staging a trunk comes to, whichever of its operations fail (internal/telephony/sip/reconciler.go).
use agentic_voice_sdr.Base.{
  ℕ, String, Bool, true, false, Option, none, some, ok, err, is_some, refl,
}
use agentic_voice_sdr.Sip.Resolver.{hosts_content, resolver_content}
use agentic_voice_sdr.Base.Runs.{
  Ends, Ends-holds, return-Ends, any-Ends, if-Ends, >>=-Ends, look-Ends,
}
use agentic_voice_sdr.Sip.Reloader.{
  World, Environment, Step, failure, reload_res_pjsip, configs, put_target, put_backup, put_temp,
}
use agentic_voice_sdr.Sip.Reloader.Ends.{
  secure-Ends, write-Ends, remove-Ends, rename_temp-Ends, rename_backup-Ends, reload_resolver-Ends,
  reload_pjsip-Ends,
}
use agentic_voice_sdr.Sip.Reloader.Synced.{restore_resolver-Ends, sync_pinned_resolver-Ends, Leaves}
use agentic_voice_sdr.Sip.Reloader.Transactions.{
  is_malicious, restore_target, undo_rename, undo_insecure, undo_resolver, undo_pjsip, load_staged,
  install_target, keep_previous, stage_pjsip_config, restore_staged,
}
use agentic_voice_sdr.Sip.Reloader.Outcome.{
  InSync, Recovered, or_else, Staged, StageOutcome, place, back_up_target-Ends, restore_target-Ends,
  restore_staged-Ends,
}

module _ (env : Environment) (conf : String) (w : World) where
  undo_rename-Ends :
      (t b : Option String) (n : ℕ)
      → Ends
          (StageOutcome env conf (record w { target = t }))
          (undo_rename env (is_some t))
          (record w { target = t; backup = b; temp = some conf; count = n })
  unfolding StageOutcome Recovered InSync
  undo_rename-Ends none b n = >>=-Ends (
      remove-Ends env put_temp (>>=-Ends (return-Ends _ (return-Ends _ tt)))
        (>>=-Ends (return-Ends _ (return-Ends _ (refl, refl, refl, λ h. h)))))
  undo_rename-Ends (some s) b n = >>=-Ends (
      remove-Ends env put_temp
        (>>=-Ends (remove-Ends env put_backup (return-Ends _ tt) (return-Ends _ tt)))
        (>>=-Ends (
          remove-Ends env put_backup (return-Ends _ tt)
            (return-Ends _ (refl, refl, refl, λ h. h)))))

  undo_insecure-Ends :
      (t b : Option String) (n : ℕ)
      → Ends
          (StageOutcome env conf (record w { target = t }))
          (undo_insecure env (is_some t))
          (record w { target = some conf; backup = or_else t b; temp = none; count = n })
  unfolding StageOutcome Recovered InSync
  undo_insecure-Ends none b n =
      >>=-Ends
        (remove-Ends env put_target (return-Ends _ tt) (return-Ends _ (refl, refl, refl, λ h. h)))
  undo_insecure-Ends (some s) b n = >>=-Ends (
      rename_backup-Ends env (>>=-Ends (secure-Ends env (return-Ends _ tt) (return-Ends _ tt)))
        (>>=-Ends (secure-Ends env (return-Ends _ tt) (return-Ends _ (refl, refl, refl, λ h. h)))))

  undo_resolver-Ends :
      (t b h r ht rt : Option String) (n : ℕ)
      → Ends
          (StageOutcome env conf (record w { target = t }))
          (undo_resolver env
            (restore_target env (is_some t))
            (record { hosts = w.hosts; resolver = w.resolver }))
          (record (place w (some conf) (or_else t b) h r ht rt n) { unbound = none })
  unfolding StageOutcome Recovered InSync
  undo_resolver-Ends t b h r ht rt n = >>=-Ends (
      restore_resolver-Ends env _
        (λ h r n. >>=-Ends (any-Ends (λ a v. >>=-Ends (any-Ends (λ c u. return-Ends _ tt)))))
        (λ n. >>=-Ends (
          reload_resolver-Ends env (>>=-Ends (any-Ends (λ c u. return-Ends _ tt))) (
            >>=-Ends (
              restore_target-Ends env t b refl (λ n. return-Ends _ tt)
                (λ c n. return-Ends _ (refl, refl, refl, λ s. (s.0, refl))))))))

  undo_pjsip-Ends :
      (t b h r ht rt : Option String) (n : ℕ)
      → Ends
          (StageOutcome env conf (record w { target = t }))
          (undo_pjsip env reload_res_pjsip
            (restore_staged env (is_some t))
            (record { hosts = w.hosts; resolver = w.resolver }))
          (record (place w (some conf) (or_else t b) h r ht rt n) {
            unbound = some (h, r);
            pjsip = none;
          })
  unfolding StageOutcome Recovered InSync
  undo_pjsip-Ends t b h r ht rt n = >>=-Ends (
      restore_resolver-Ends env _
        (λ h r n. >>=-Ends (
          any-Ends
            (λ a v. >>=-Ends (any-Ends (λ c u. >>=-Ends (any-Ends (λ d x. return-Ends _ tt)))))))
        (λ n. >>=-Ends (
          reload_resolver-Ends env
            (>>=-Ends (any-Ends (λ c u. >>=-Ends (any-Ends (λ d x. return-Ends _ tt)))))
            (>>=-Ends (
              restore_staged-Ends env t b refl
                (λ y c n. >>=-Ends (any-Ends (λ d x. return-Ends _ tt)))
                (λ c n. >>=-Ends (
                  reload_pjsip-Ends env (return-Ends _ tt)
                    (return-Ends _ (refl, refl, refl, λ s. (refl, refl))))))))))

  load_staged-Ends :
      (t ht rt : Option String) (n : ℕ)
      → let v = place w (some conf) (or_else t w.backup) w.hosts w.resolver ht rt n in
        Ends
          (StageOutcome env conf (record w { target = t }))
          (load_staged env (is_some t) (ok (record { hosts = w.hosts; resolver = w.resolver })))
          (record v {
            hosts = some (hosts_content (configs v));
            resolver = some (resolver_content env.hosts_path w.resolver);
          })
  unfolding StageOutcome Staged InSync
  load_staged-Ends t ht rt n = >>=-Ends (
      reload_resolver-Ends env (undo_resolver-Ends t w.backup _ _ ht rt _) (
        >>=-Ends (
          reload_pjsip-Ends env (undo_pjsip-Ends t w.backup _ _ ht rt _)
            (return-Ends _ (refl, refl, refl, (refl, refl))))))

  resolver_failed-Ends :
      (t h r ht rt : Option String) (step : Step) (also : Bool) (n : ℕ)
      → Leaves w w.hosts w.resolver also h r
      → Ends
          (StageOutcome env conf (record w { target = t }))
          (load_staged env (is_some t) (err (failure step also)))
          (place w (some conf) (or_else t w.backup) h r ht rt n)
  unfolding StageOutcome Recovered InSync
  resolver_failed-Ends t h r ht rt step true n k = >>=-Ends (any-Ends (λ b v. return-Ends _ tt))
  resolver_failed-Ends t h r ht rt step false n k = >>=-Ends (
      restore_target-Ends env t w.backup refl (λ n. return-Ends _ tt)
        (λ c n.
          return-Ends _
            (refl, (k refl).0, (k refl).1, λ s. (s.0, rw ((k refl).0, (k refl).1) s.1))))

  install_target-Ends :
      (t : Option String) (n : ℕ)
      → Ends
          (StageOutcome env conf (record w { target = t }))
          (install_target env (is_some t))
          (record w { target = t; backup = or_else t w.backup; temp = some conf; count = n })
  install_target-Ends t n = >>=-Ends (
      rename_temp-Ends env (undo_rename-Ends t (or_else t w.backup) _) (
        >>=-Ends (
          secure-Ends env (undo_insecure-Ends t w.backup _) (
            >>=-Ends (
              sync_pinned_resolver-Ends env _
                (λ step also h r ht rt n k. resolver_failed-Ends t h r ht rt step also n k)
                (λ ht rt n. load_staged-Ends t ht rt n))))))

  keep_previous-Ends :
      (t : Option String) (n : ℕ)
      → Ends
          (StageOutcome env conf (record w { target = t }))
          (keep_previous env (is_some t))
          (record w { target = t; temp = some conf; count = n })
  unfolding StageOutcome Recovered InSync
  keep_previous-Ends t n = >>=-Ends (
      back_up_target-Ends env t (record w { temp = some conf; count = n })
        (λ left n.
          >>=-Ends (
            remove-Ends env put_temp (return-Ends _ tt) (return-Ends _ (refl, refl, refl, λ s. s))))
        (λ n. install_target-Ends t n))

  stage-Ends : (name : String) → Ends (StageOutcome env conf w) (stage_pjsip_config env name conf) w
  unfolding stage_pjsip_config StageOutcome Recovered InSync
  stage-Ends name = if-Ends (is_malicious name) (return-Ends _ (refl, refl, refl, λ s. s)) (
      >>=-Ends (
        write-Ends env put_temp conf (λ left. return-Ends _ (refl, refl, refl, λ s. s))
          (>>=-Ends (
            secure-Ends env
              (>>=-Ends (
                remove-Ends env put_temp (return-Ends _ tt)
                  (return-Ends _ (refl, refl, refl, λ s. s))))
              (look-Ends _ (keep_previous-Ends w.target _))))))

-- Staging a configuration either installs it, with the configuration that was there, if there was one, in the
-- backup, the pinned hosts brought in step with all configurations, and Asterisk running what the files say; or
-- it fails, and unless the error tells that a cleanup or a rollback failed too, the trunk's
-- file and those of the resolver are what they were, and Asterisk runs what the files say if it did so before.
-- Nothing is said of the backup and the temporary files after a failure. This holds whichever of its
-- operations fail.
pub stage_pjsip_config-StageOutcome :
    (env : Environment) (name conf : String) (w : World)
    → StageOutcome env conf w
        (stage_pjsip_config env name conf w).0
        (stage_pjsip_config env name conf w).1
stage_pjsip_config-StageOutcome env name conf w = Ends-holds (stage-Ends env conf w name)
