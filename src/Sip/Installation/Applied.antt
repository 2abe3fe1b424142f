-- ===== src/Sip/Installation/Applied.antt =====
-- The manager and the files of Asterisk agree (internal/telephony/sip/reconciler.go).
use agentic_voice_sdr.Base.{
  String, Bool, true, false, not, ◌||◌, Option, none, some, Result, ok, err, if◌then◌else◌, str_eq,
  ◌≡◌, sym, ◌∙◌, subst, Result-cases, inl, inr,
}
use agentic_voice_sdr.Sip.Config.{TrunkConfig, validate}
use agentic_voice_sdr.Sip.Config
use agentic_voice_sdr.Sip.Pjsip.{generate_pjsip_config}
use agentic_voice_sdr.Sip.Resolver.{hosts_content}
use agentic_voice_sdr.Base.Runs.{
  return, Ends, Ends-holds, return-Ends, if-Ends, >>=-Ends, mono-Ends,
}
use agentic_voice_sdr.Sip.Reloader.{World, Environment, configs}
use agentic_voice_sdr.Sip.Reloader.Outcome.{
  InSync, Staged, StageOutcome, RollbackOutcome, RemoveOutcome, or_else,
}
use agentic_voice_sdr.Sip.Reloader.Staging.{stage_pjsip_config-StageOutcome}
use agentic_voice_sdr.Sip.Reloader.Removal.{
  rollback_pjsip_config-RollbackOutcome, remove_pjsip_config-RemoveOutcome,
}
use agentic_voice_sdr.Sip.Manager.{
  LifecycleStatus, StatusReport, Manager, Cause, ApplyError, invalid, not_disabled, failed,
  rolled_back, Outcome, reach, dial_tls, rollback_transaction, commit, judge, verify_registration,
  verify, stage, enable, enabled_with, transact, apply_trunk, get_pjsip_config,
}
use agentic_voice_sdr.Sip.Manager.Applied.{find-assign, find-drop_entry}
use agentic_voice_sdr.Sip.Installation.Calls.{
  succeeds-Ends, health-Ends, check_transport-Ends, check_endpoint-Ends, check_registration-Ends,
  commit-Ends,
}
use agentic_voice_sdr.Sip.Installation.{succeeds, real_asterisk_reloader, Network, network_dialer}

-- A text is installed, the pinned hosts are in step, and Asterisk runs what the files say.
unfoldable pub Installed : Option String → World → Type 0
unfolding InSync
Installed text x = (x.target ≡ text) × (x.hosts ≡ some (hosts_content (configs x))) × InSync x

unfoldable EnableOutcome : World → Outcome → World → Type 0
unfolding Installed
EnableOutcome w (rep, ok text) x = Installed (some text) x
EnableOutcome w (rep, err (rolled_back cause false)) x = Installed (or_else w.target w.backup) x
EnableOutcome w (rep, err (rolled_back cause true)) x = Unit
EnableOutcome w (rep, err (failed cause)) x = Unit
EnableOutcome w (rep, err (invalid e)) x = Unit
EnableOutcome w (rep, err not_disabled) x = Unit

module _ (env : Environment) (net : Network) (identifies : Bool) (c : TrunkConfig) (w : World) where
  Good : Outcome → World → Type 0
  Good o x = EnableOutcome w o x

  rollback_transaction-Ends :
      (text : String) (rep : StatusReport) (cause : Cause) (status : LifecycleStatus) (v : World)
      → Staged env text w v
      → Ends
          (EnableOutcome w)
          (rollback_transaction
            (network_dialer net identifies)
            (real_asterisk_reloader env)
            c
            rep
            cause
            status)
          v
  unfolding rollback_transaction real_asterisk_reloader EnableOutcome Staged RollbackOutcome
      Installed
  rollback_transaction-Ends text rep cause status v (target, backup, pinned, running) = >>=-Ends (
      succeeds-Ends (RollbackOutcome v) _ (rollback_pjsip_config-RollbackOutcome env c.name v)
        (λ x (before, dropped, hosts, again). return-Ends _ (before ∙ backup, hosts, again))
        (λ e x q. return-Ends _ tt))

  commit_transaction-Ends :
      (text : String) (rep : StatusReport) (v : World)
      → Staged env text w v
      → Ends
          (EnableOutcome w)
          (commit (network_dialer net identifies) (real_asterisk_reloader env) c text rep)
          v
  unfolding commit real_asterisk_reloader EnableOutcome Staged Installed succeeds
  commit_transaction-Ends text rep v (target, backup, pinned, running) = >>=-Ends (
      >>=-Ends (
        commit-Ends env c.name v (λ b n. return-Ends _ (return-Ends _ (target, pinned, running)))
          (λ e n.
            return-Ends _
              (rollback_transaction-Ends text rep _ _ _ (target, backup, pinned, running)))))

  judge-Ends :
      (text : String) (rep : StatusReport) (found : String × Bool × Bool) (v : World)
      → Staged env text w v
      → Ends
          (EnableOutcome w)
          (judge (network_dialer net identifies) (real_asterisk_reloader env) c text rep found)
          v
  judge-Ends text rep (state, healthy, answered) v h =
      if-Ends
        (not answered
          || not healthy
          || not (str_eq state "Registered" || str_eq state "REGISTERED"))
        (rollback_transaction-Ends text _ _ _ v h) (commit_transaction-Ends text _ v h)

  verify_registration-Ends :
      (text : String) (rep : StatusReport) (v : World)
      → Staged env text w v
      → Ends
          (EnableOutcome w)
          (verify_registration
            (network_dialer net identifies)
            (real_asterisk_reloader env)
            c
            text
            rep)
          v
  unfolding verify_registration real_asterisk_reloader Staged
  verify_registration-Ends text rep v h =
      if-Ends c.registration_required
        (>>=-Ends (check_registration-Ends env c.name (λ found. judge-Ends text rep found _ h)))
        (commit_transaction-Ends text _ v h)

  verify-Ends :
      (text : String) (v : World)
      → Staged env text w v
      → Ends
          (EnableOutcome w)
          (verify (network_dialer net identifies) (real_asterisk_reloader env) c text)
          v
  unfolding verify real_asterisk_reloader Staged
  verify-Ends text v h = >>=-Ends (
      health-Ends env (λ a. if-Ends (not a || not a) (rollback_transaction-Ends text _ _ _ _ h) (
        >>=-Ends (
          check_transport-Ends env c.transport (λ p.
            if-Ends (not p.1 || not p.0) (rollback_transaction-Ends text _ _ _ _ h) (
              >>=-Ends (
                check_endpoint-Ends env c.name (λ q.
                  if-Ends (not q.1 || not q.0) (rollback_transaction-Ends text _ _ _ _ h)
                    (verify_registration-Ends text _ _ h)))))))))

  stage-Ends :
      (g : Result Config.Error String)
      → Ends
          (EnableOutcome w)
          (stage (network_dialer net identifies) (real_asterisk_reloader env) c g)
          w
  unfolding stage real_asterisk_reloader EnableOutcome StageOutcome
  stage-Ends (err e) = return-Ends _ tt
  stage-Ends (ok text) = >>=-Ends (
      succeeds-Ends (StageOutcome env text w) _ (stage_pjsip_config-StageOutcome env c.name text w)
        (λ x staged. verify-Ends text x staged) (λ e x q. return-Ends _ tt))

  dial_tls-Ends :
      {P : Bool → World → Type 0} (b : Bool) (address server : String)
      → ((b : Bool) → P b w)
      → Ends P
          (dial_tls
            (network_dialer net identifies)
            (real_asterisk_reloader env)
            (if b then some (λ a s. return (net.accepts_tls a s)) else none)
            address
            server)
          w
  dial_tls-Ends true address server h = return-Ends _ (h _)
  dial_tls-Ends false address server h = return-Ends _ (h _)

  reach-Ends :
      {P : Bool → World → Type 0}
      → ((b : Bool) → P b w)
      → Ends P (reach (network_dialer net identifies) (real_asterisk_reloader env) c) w
  unfolding reach
  reach-Ends h =
      if-Ends (str_eq c.transport "tls") (dial_tls-Ends identifies _ _ h) (return-Ends _ (h _))

  enable-Ends :
      Ends
        (EnableOutcome w)
        (enable (network_dialer net identifies) (real_asterisk_reloader env) c)
        w
  unfolding enable EnableOutcome
  enable-Ends = >>=-Ends (
      return-Ends _ (
        if-Ends (not (net.resolves _)) (return-Ends _ tt) (
          >>=-Ends (
            reach-Ends
              (λ b. if-Ends (not b) (return-Ends _ tt) (stage-Ends (generate_pjsip_config c)))))))

-- Without an error, the text that the manager holds for the trunk, or none if it holds none, is the one that is installed;
-- after a transaction that was rolled back without an error, it is the one that was there before.
unfoldable pub ApplyInstalled :
    TrunkConfig → World → (StatusReport × Option ApplyError) × Manager → World → Type 0
unfolding Installed
ApplyInstalled c w ((rep, none), n) x =
    (v : TrunkConfig) × (validate c ≡ ok v) × Installed (get_pjsip_config n v.name) x
ApplyInstalled c w ((rep, some (rolled_back cause false)), n) x =
    Installed (or_else w.target w.backup) x
ApplyInstalled c w ((rep, some (rolled_back cause true)), n) x = Unit
ApplyInstalled c w ((rep, some (failed cause)), n) x = Unit
ApplyInstalled c w ((rep, some (invalid e)), n) x = Unit
ApplyInstalled c w ((rep, some not_disabled), n) x = Unit

module _ (env : Environment) (net : Network) (identifies : Bool) (m : Manager) (c v : TrunkConfig)
    (w : World) where
  enabled_with-ApplyInstalled :
      (o : Outcome) (x : World)
      → validate c ≡ ok v
      → EnableOutcome w o x
      → ApplyInstalled c w
          (enabled_with (network_dialer net identifies) (real_asterisk_reloader env) m v o)
          x
  unfolding ApplyInstalled EnableOutcome get_pjsip_config
  enabled_with-ApplyInstalled (rep, ok text) x valid h =
      (v, valid, subst (λ t. Installed t x) (sym (find-assign v.name text m.pjsip_configs)) h)
  enabled_with-ApplyInstalled (rep, err (rolled_back cause false)) x valid h = h
  enabled_with-ApplyInstalled (rep, err (rolled_back cause true)) x valid h = tt
  enabled_with-ApplyInstalled (rep, err (failed cause)) x valid h = tt
  enabled_with-ApplyInstalled (rep, err (invalid e)) x valid h = tt
  enabled_with-ApplyInstalled (rep, err not_disabled) x valid h = tt

  transact-Ends :
      (b : Bool)
      → validate c ≡ ok v
      → Ends
          (ApplyInstalled c w)
          (transact (network_dialer net identifies) (real_asterisk_reloader env) m v b)
          w
  unfolding ApplyInstalled RemoveOutcome get_pjsip_config Installed real_asterisk_reloader
  transact-Ends true valid = >>=-Ends (
      mono-Ends (enable-Ends env net identifies v w)
        (λ o x h. return-Ends _ (enabled_with-ApplyInstalled o x valid h)))
  transact-Ends false valid = >>=-Ends (
      succeeds-Ends (RemoveOutcome w) _ (remove_pjsip_config-RemoveOutcome env v.name w)
        (λ x (gone, backup, pinned, running). return-Ends _ (
          v,
          valid,
          subst (λ t. Installed t x) (sym (find-drop_entry v.name m.pjsip_configs))
              (gone, pinned, running),
        ))
        (λ e x q. return-Ends _ tt))

apply-Ends :
    (env : Environment) (net : Network) (identifies : Bool) (m : Manager) (c : TrunkConfig)
    (w : World)
    → Ends
        (ApplyInstalled c w)
        (apply_trunk (network_dialer net identifies) (real_asterisk_reloader env) m c)
        w
unfolding apply_trunk
apply-Ends env net identifies m c w = elim (Result-cases (validate c)) [
  | inr (e, bad) ↦ rw bad (return-Ends _ (unfold ApplyInstalled in tt))
  | inl (v, valid) ↦ rw valid (transact-Ends env net identifies m c v w v.enabled valid)
]

-- With the reloader of Asterisk, the maps of the manager and the files agree: when ApplyTrunk reports no error, the file of the trunk has
-- the text that the manager holds, or is gone if the manager holds none, the pinned hosts are
-- in step with all configurations, and Asterisk runs what the files say. When it reports that a transaction was
-- rolled back without an error, the file is what it was, or what a stale backup had if there was no file, and Asterisk runs that. This holds whichever operations fail.
pub apply_trunk-ApplyInstalled :
    (env : Environment) (net : Network) (identifies : Bool) (m : Manager) (c : TrunkConfig)
    (w : World)
    → ApplyInstalled c w
        (apply_trunk (network_dialer net identifies) (real_asterisk_reloader env) m c w).0
        (apply_trunk (network_dialer net identifies) (real_asterisk_reloader env) m c w).1
apply_trunk-ApplyInstalled env net identifies m c w =
    Ends-holds (apply-Ends env net identifies m c w)
