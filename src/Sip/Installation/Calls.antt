-- ===== src/Sip/Installation/Calls.antt =====
-- How the calls of the manager on the files of Asterisk end (internal/telephony/sip/reconciler.go).
use agentic_voice_sdr.Base.{
  ℕ, String, Bool, true, false, Option, Result, ok, err, is_ok, is_some, Bool-cases, inl, inr,
}
use agentic_voice_sdr.Base.Runs.{
  Run, return, ◌>>=◌, Ends, ends, return-Ends, if-Ends, >>=-Ends, look-Ends,
}
use agentic_voice_sdr.Sip.Reloader.{World, Environment, Error, attempt, tick, put_backup}
use agentic_voice_sdr.Sip.Reloader.Ends.{remove-Ends}
use agentic_voice_sdr.Sip.Reloader.Transactions
use agentic_voice_sdr.Sip.Reloader.Transactions.{
  is_malicious, finish, drop_backup, check_asterisk_health,
}
use agentic_voice_sdr.Sip.Reloader.Restored.{check_asterisk_health-Ends}
use agentic_voice_sdr.Sip.Installation.{
  run_command, check_transport, check_endpoint, check_registration, succeeds, shows, health,
}

pub succeeds-Ends :
    {P : Bool → World → Type 0} (Q : Result Error (Unit {0}) → World → Type 0)
    (m : Run World (Result Error (Unit {0}))) {w : World}
    → Q (m w).0 (m w).1
    → ((v : World) → Q (ok tt) v → P true v)
    → ((e : Error) (v : World) → Q (err e) v → P false v)
    → Ends P (succeeds m) w
unfolding succeeds
succeeds-Ends {P = P} Q m h t f = >>=-Ends (ends (decide _ _ h))
  where
    decide : (r : Result Error (Unit {0})) (v : World) → Q r v → Ends P (return (is_ok r)) v
    decide (ok u) v q = return-Ends _ (t v q)
    decide (err e) v q = return-Ends _ (f e v q)

module _ {P : Bool × Bool → World → Type 0} (env : Environment) {w : World} where
  pub health-Ends : ((b : Bool) → P (b, b) (tick w)) → Ends P (health env) w
  unfolding health
  health-Ends h = >>=-Ends (check_asterisk_health-Ends env (λ b. return-Ends _ (h b)))

  run_command-shows-Ends :
      (a b : String)
      → ((p : Bool × Bool) → P p (tick w))
      → Ends P (run_command env >>= (λ out. return (shows a b out))) w
  unfolding run_command attempt
  run_command-shows-Ends a b h = >>=-Ends (elim (Bool-cases (env.fails w.count)) [
    | inl hit ↦ ends (rw hit (return-Ends _ (h _)))
    | inr miss ↦ ends (rw miss (return-Ends _ (h _)))
  ])

  pub check_transport-Ends :
      (t : String) → ((p : Bool × Bool) → P p (tick w)) → Ends P (check_transport env t) w
  unfolding check_transport
  check_transport-Ends t h = run_command-shows-Ends _ _ h

  pub check_endpoint-Ends :
      (name : String) → ((p : Bool × Bool) → P p (tick w)) → Ends P (check_endpoint env name) w
  unfolding check_endpoint
  check_endpoint-Ends name h = run_command-shows-Ends _ _ h

pub check_registration-Ends :
    {P : String × Bool × Bool → World → Type 0} (env : Environment) (name : String) {w : World}
    → ((p : String × Bool × Bool) → P p (tick w))
    → Ends P (check_registration env name) w
unfolding check_registration run_command attempt
check_registration-Ends env name {w} h = >>=-Ends (elim (Bool-cases (env.fails w.count)) [
  | inl hit ↦ ends (rw hit (return-Ends _ (h _)))
  | inr miss ↦ ends (rw miss (return-Ends _ (h _)))
])

pub commit-Ends :
    {P : Result Error (Unit {0}) → World → Type 0} (env : Environment) (name : String) (w : World)
    → ((c : Option String) (n : ℕ) → P (ok tt) (record w { backup = c; count = n }))
    → ((e : Error) (n : ℕ) → P (err e) (record w { count = n }))
    → Ends P (Transactions.commit_pjsip_config env name) w
unfolding Transactions.commit_pjsip_config
commit-Ends env name w t f = if-Ends (is_malicious name) (return-Ends _ (f _ w.count)) (
    look-Ends _ (
      if-Ends (is_some w.backup)
        (>>=-Ends (remove-Ends env put_backup (return-Ends _ (f _ _)) (return-Ends _ (t _ _))))
        (return-Ends _ (t w.backup w.count))))
