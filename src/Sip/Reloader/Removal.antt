-- ===== src/Sip/Reloader/Removal.antt =====
-- What rolling back and removing a trunk come to, whichever of their operations fail (internal/telephony/sip/reconciler.go).
use agentic_voice_sdr.Base.{
  ℕ, String, Bool, true, false, not, Option, none, some, ok, err, if◌then◌else◌, is_some, ◌≡◌, refl,
}
use agentic_voice_sdr.Sip.Resolver.{hosts_content, resolver_content}
use agentic_voice_sdr.Base.Runs.{
  ◌>>=◌, Ends, Ends-holds, return-Ends, any-Ends, if-Ends, >>=-Ends, look-Ends,
}
use agentic_voice_sdr.Sip.Reloader.{
  World, Environment, Step, failure, unhealthy, configs, put_target, put_backup,
}
use agentic_voice_sdr.Sip.Reloader.Ends.{
  secure-Ends, remove-Ends, rename_backup-Ends, reload_resolver-Ends, reload_pjsip-Ends,
  copy_target-Ends,
}
use agentic_voice_sdr.Sip.Reloader.Synced.{restore_resolver-Ends, sync_pinned_resolver-Ends}
use agentic_voice_sdr.Sip.Reloader.Sync.{sync_pinned_resolver}
use agentic_voice_sdr.Sip.Reloader.Restored.{
  put_back-Ends, restore_removed-Ends, check_asterisk_health-Ends,
}
use agentic_voice_sdr.Sip.Reloader.Transactions.{
  is_malicious, undo_resolver, restore_secured, rollback_pjsip_config, undo_removal, finish,
  restore_removed, load_removed, remove_previous, remove_pjsip_config,
}
use agentic_voice_sdr.Sip.Reloader.Outcome.{InSync, RollbackOutcome, RemoveOutcome, or_else}

module _ (env : Environment) (w : World) where
  rollback-Ends : (name : String) → Ends (RollbackOutcome w) (rollback_pjsip_config env name) w
  unfolding rollback_pjsip_config RollbackOutcome InSync
  rollback-Ends name = if-Ends (is_malicious name) (return-Ends _ tt) (
      >>=-Ends (
        put_back-Ends env w
          (λ x c n. >>=-Ends (any-Ends (λ b v. >>=-Ends (any-Ends (λ d u. return-Ends _ tt)))))
          (λ n. >>=-Ends (
            >>=-Ends (
              sync_pinned_resolver-Ends env _
                (λ step also h r ht rt n k.
                  return-Ends _ (>>=-Ends (any-Ends (λ d u. return-Ends _ tt))))
                (λ ht rt n.
                  reload_resolver-Ends env (>>=-Ends (any-Ends (λ d u. return-Ends _ tt))) (
                    >>=-Ends (
                      reload_pjsip-Ends env (return-Ends _ tt)
                        (return-Ends _ (refl, refl, refl, (refl, refl)))))))))))

  undo_removed-Ends :
      (t : Option String) (step : Step) {v : World}
      → v.target ≡ none
      → v.backup ≡ or_else t w.backup
      → Ends
          (RemoveOutcome (record w { target = t }))
          (undo_removal env step (is_some t) (record { hosts = w.hosts; resolver = w.resolver }))
          v
  unfolding RemoveOutcome restore_secured
  undo_removed-Ends none step gone kept = >>=-Ends (
      restore_resolver-Ends env _
        (λ h r n. >>=-Ends (reload_resolver-Ends env (return-Ends _ gone) (return-Ends _ gone)))
        (λ n. >>=-Ends (reload_resolver-Ends env (return-Ends _ gone) (return-Ends _ gone))))
  undo_removed-Ends (some s) step gone kept = >>=-Ends (
      restore_resolver-Ends env _
        (λ h r n. >>=-Ends (
          any-Ends
            (λ b x. >>=-Ends (any-Ends (λ c y. >>=-Ends (any-Ends (λ d z. return-Ends _ tt)))))))
        (λ n. >>=-Ends (
          reload_resolver-Ends env
            (>>=-Ends (any-Ends (λ c y. >>=-Ends (any-Ends (λ d z. return-Ends _ tt)))))
            (>>=-Ends (
              >>=-Ends (
                rename_backup-Ends env
                  (return-Ends _ (>>=-Ends (any-Ends (λ d z. return-Ends _ tt))))
                  (secure-Ends env (>>=-Ends (any-Ends (λ d z. return-Ends _ tt))) (
                    >>=-Ends (reload_pjsip-Ends env (return-Ends _ tt) (return-Ends _ kept))))))))))

  finish-Ends :
      (t h r ht rt : Option String) (n : ℕ)
      → let v = record w {
        target = none;
        backup = or_else t w.backup;
        hosts = h;
        resolver = r;
        hosts_temp = ht;
        resolver_temp = rt;
        count = n;
      } in
        h ≡ some (hosts_content (configs v))
        → Ends
            (RemoveOutcome (record w { target = t }))
            (finish env (is_some t))
            (record v { unbound = some (h, r); pjsip = some (configs v) })
  unfolding RemoveOutcome InSync
  finish-Ends none h r ht rt n pinned = return-Ends _ (refl, refl, pinned, (refl, refl))
  finish-Ends (some s) h r ht rt n pinned = >>=-Ends (
      remove-Ends env put_backup (return-Ends _ (refl, refl))
        (return-Ends _ (refl, refl, pinned, (refl, refl))))

  undo_removed_resolver-Ends :
      (t : Option String) {v : World}
      → v.target ≡ none
      → v.backup ≡ or_else t w.backup
      → Ends
          (RemoveOutcome (record w { target = t }))
          (undo_resolver env
            (restore_removed env (is_some t))
            (record { hosts = w.hosts; resolver = w.resolver }))
          v
  unfolding RemoveOutcome
  undo_removed_resolver-Ends t gone kept = >>=-Ends (
      restore_resolver-Ends env _
        (λ h r n. >>=-Ends (any-Ends (λ a v. >>=-Ends (any-Ends (λ c u. return-Ends _ tt)))))
        (λ n. >>=-Ends (
          reload_resolver-Ends env (>>=-Ends (any-Ends (λ c u. return-Ends _ tt))) (
            >>=-Ends (
              restore_removed-Ends env t w.backup gone kept (λ n. return-Ends _ tt)
                (λ c n. return-Ends _ refl))))))

  healthy-Ends :
      (t ht rt : Option String) (n : ℕ) (b : Bool)
      → let v = record w {
        target = none;
        backup = or_else t w.backup;
        hosts_temp = ht;
        resolver_temp = rt;
        count = n;
      } in
        let x = record v {
          hosts = some (hosts_content (configs v));
          resolver = some (resolver_content env.hosts_path w.resolver);
        } in
        Ends
          (RemoveOutcome (record w { target = t }))
          (if not b
            then undo_removal env unhealthy
                (is_some t)
                (record { hosts = w.hosts; resolver = w.resolver })
            else finish env (is_some t))
          (record x { unbound = some (x.hosts, x.resolver); pjsip = some (configs x) })
  healthy-Ends t ht rt n true = finish-Ends t _ _ ht rt n refl
  healthy-Ends t ht rt n false = undo_removed-Ends t unhealthy refl refl

  load_removed-Ends :
      (t ht rt : Option String) (n : ℕ)
      → let v = record w {
        target = none;
        backup = or_else t w.backup;
        hosts_temp = ht;
        resolver_temp = rt;
        count = n;
      } in
        Ends
          (RemoveOutcome (record w { target = t }))
          (load_removed env (is_some t) (ok (record { hosts = w.hosts; resolver = w.resolver })))
          (record v {
            hosts = some (hosts_content (configs v));
            resolver = some (resolver_content env.hosts_path w.resolver);
          })
  load_removed-Ends t ht rt n = >>=-Ends (
      reload_resolver-Ends env (undo_removed_resolver-Ends t refl refl) (
        >>=-Ends (
          reload_pjsip-Ends env (undo_removed-Ends t _ refl refl)
            (>>=-Ends (check_asterisk_health-Ends env (λ b. healthy-Ends t ht rt _ b))))))

  resolver_refused-Ends :
      (t h r ht rt : Option String) (step : Step) (also : Bool) (n : ℕ)
      → Ends
          (RemoveOutcome (record w { target = t }))
          (load_removed env (is_some t) (err (failure step also)))
          (record w {
            target = none;
            backup = or_else t w.backup;
            hosts = h;
            resolver = r;
            hosts_temp = ht;
            resolver_temp = rt;
            count = n;
          })
  unfolding RemoveOutcome
  resolver_refused-Ends t h r ht rt step true n = >>=-Ends (any-Ends (λ b v. return-Ends _ tt))
  resolver_refused-Ends t h r ht rt step false n = >>=-Ends (
      restore_removed-Ends env t w.backup refl refl (λ n. return-Ends _ tt)
        (λ c n. return-Ends _ refl))

  synced-Ends :
      (t : Option String) (n : ℕ)
      → Ends
          (RemoveOutcome (record w { target = t }))
          (sync_pinned_resolver env >>= load_removed env (is_some t))
          (record w { target = none; backup = or_else t w.backup; count = n })
  synced-Ends t n = >>=-Ends (
      sync_pinned_resolver-Ends env _
        (λ step also h r ht rt n k. resolver_refused-Ends t h r ht rt step also n)
        (λ ht rt n. load_removed-Ends t ht rt n))

  remove_previous-Ends :
      (t : Option String)
      → Ends
          (RemoveOutcome (record w { target = t }))
          (remove_previous env (is_some t))
          (record w { target = t })
  unfolding RemoveOutcome
  remove_previous-Ends none = synced-Ends none w.count
  remove_previous-Ends (some s) = >>=-Ends (
      copy_target-Ends env (λ left n. return-Ends _ refl)
        (λ n. >>=-Ends (
          remove-Ends env put_target
            (>>=-Ends (remove-Ends env put_backup (return-Ends _ tt) (return-Ends _ refl)))
            (synced-Ends (some s) _))))

  remove-name-Ends : (name : String) → Ends (RemoveOutcome w) (remove_pjsip_config env name) w
  unfolding remove_pjsip_config RemoveOutcome
  remove-name-Ends name =
      if-Ends (is_malicious name) (return-Ends _ refl) (look-Ends _ (remove_previous-Ends w.target))

-- A rollback that reports no error puts the backup in the place of the trunk's configuration, or leaves the trunk
-- without one if there is no backup; the pinned hosts are those of all configurations, and Asterisk runs what the files
-- say.
pub rollback_pjsip_config-RollbackOutcome :
    (env : Environment) (name : String) (w : World)
    → RollbackOutcome w (rollback_pjsip_config env name w).0 (rollback_pjsip_config env name w).1
rollback_pjsip_config-RollbackOutcome env name w = Ends-holds (rollback-Ends env w name)

-- A removal that reports no error leaves the trunk without a configuration, the pinned hosts those of
-- the other configurations, and Asterisk running what the files say; one that fails leaves the configuration in its place,
-- unless the error tells that its rollback failed too; and one that only fails to remove the backup
-- at its end leaves the configuration in the backup.
pub remove_pjsip_config-RemoveOutcome :
    (env : Environment) (name : String) (w : World)
    → RemoveOutcome w (remove_pjsip_config env name w).0 (remove_pjsip_config env name w).1
remove_pjsip_config-RemoveOutcome env name w = Ends-holds (remove-name-Ends env w name)
