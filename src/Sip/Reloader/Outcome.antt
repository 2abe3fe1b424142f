-- ===== src/Sip/Reloader/Outcome.antt =====
-- What a call on a trunk may come to, and the steps that all of them take (internal/telephony/sip/reconciler.go).
use agentic_voice_sdr.Base.{
  ℕ, suc, String, Bool, true, false, Option, none, some, Result, ok, err, if◌then◌else◌, is_some,
  ◌≡◌, subst, sym,
}
use agentic_voice_sdr.Sip.Resolver.{hosts_content}
use agentic_voice_sdr.Base.Runs.{Ends, return-Ends, >>=-Ends}
use agentic_voice_sdr.Sip.Reloader.{
  World, Environment, Error, failure, not_finalized, configs, put_target,
}
use agentic_voice_sdr.Sip.Reloader.Ends.{
  secure-Ends, remove-Ends, rename_backup-Ends, copy_target-Ends,
}
use agentic_voice_sdr.Sip.Reloader.Transactions.{
  restore_target, back_up_target, restore_secured, restore_staged,
}

-- Asterisk runs what the files say.
unfoldable pub InSync : World → Type 0
InSync w = (w.pjsip ≡ some (configs w)) × (w.unbound ≡ some (w.hosts, w.resolver))

-- The files that Asterisk reads are those of the first world, and it runs them if it did so then.
unfoldable pub Recovered : World → World → Type 0
unfolding InSync
Recovered w v =
    (v.target ≡ w.target) × (v.hosts ≡ w.hosts) × (v.resolver ≡ w.resolver) × (InSync w → InSync v)

abbrev pub or_else : Option String → Option String → Option String
or_else none t = t
or_else (some s) t = some s

-- The configuration is installed and runs, the pinned hosts are those of all configurations, and the
-- configuration that was there is in the backup.
unfoldable pub Staged : Environment → String → World → World → Type 0
unfolding InSync
Staged env conf w v =
    (v.target ≡ some conf)
    × (v.backup ≡ or_else w.target w.backup)
    × (v.hosts ≡ some (hosts_content (configs v)))
    × InSync v

unfoldable pub StageOutcome :
    Environment → String → World → Result Error (Unit {0}) → World → Type 0
unfolding Staged Recovered
StageOutcome env conf w (ok u) v = Staged env conf w v
StageOutcome env conf w (err (failure step true)) v = Unit
StageOutcome env conf w (err (failure step false)) v = Recovered w v
StageOutcome env conf w (err not_finalized) v = ⊥

-- Rolled back, a trunk has the configuration of its backup, or none, and it runs.
unfoldable pub RollbackOutcome : World → Result Error (Unit {0}) → World → Type 0
unfolding InSync
RollbackOutcome w (ok u) v =
    (v.target ≡ w.backup)
    × (v.backup ≡ none)
    × (v.hosts ≡ some (hosts_content (configs v)))
    × InSync v
RollbackOutcome w (err e) v = Unit

-- Removed, a trunk has no configuration; a removal that fails leaves it the one it has, unless its rollback fails as
-- well, or it fails to remove the backup at its end.
unfoldable pub RemoveOutcome : World → Result Error (Unit {0}) → World → Type 0
unfolding InSync
RemoveOutcome w (ok u) v =
    (v.target ≡ none)
    × (v.backup ≡ (if is_some w.target then none else w.backup))
    × (v.hosts ≡ some (hosts_content (configs v)))
    × InSync v
RemoveOutcome w (err (failure step true)) v = Unit
RemoveOutcome w (err (failure step false)) v = v.target ≡ w.target
RemoveOutcome w (err not_finalized) v = (v.target ≡ none) × (v.backup ≡ w.target)

-- The world with other files.
abbrev pub place :
    World
    → Option String
    → Option String
    → Option String
    → Option String
    → Option String
    → Option String
    → ℕ
    → World
place w x b h r ht rt n = record w {
  target = x;
  backup = b;
  temp = none;
  hosts = h;
  resolver = r;
  hosts_temp = ht;
  resolver_temp = rt;
  count = n;
}

-- What holds with the former configuration in its place holds when it came from the backup.
pub renamed :
    (Q : World → Type 0) (w : World) (x : Option String) (n : ℕ)
    → w.backup ≡ x
    → Q (record w { target = x; backup = none; count = n })
    → Q (record w { target = w.backup; backup = none; count = n })
renamed Q w x n e h = subst (λ y. Q (record w { target = y; backup = none; count = n })) (sym e) h

-- The steps that depend on whether there was a configuration, `t`.
module _ {P : Bool → World → Type 0} (env : Environment) where
  pub back_up_target-Ends :
      (t : Option String) (w : World)
      → ((left : Option String) (n : ℕ)
          → P false (record w { target = t; backup = left; count = n }))
      → ((n : ℕ) → P true (record w { target = t; backup = or_else t w.backup; count = n }))
      → Ends P (back_up_target env (is_some t)) (record w { target = t })
  back_up_target-Ends none w f g = return-Ends _ (g _)
  back_up_target-Ends (some s) w f g = copy_target-Ends env f g

  pub restore_target-Ends :
      (t b : Option String) {w : World}
      → w.backup ≡ or_else t b
      → ((n : ℕ) → P false (record w { count = n }))
      → ((c : Option String) (n : ℕ) → P true (record w { target = t; backup = c; count = n }))
      → Ends P (restore_target env (is_some t)) w
  unfolding restore_target
  restore_target-Ends none b e f g = remove-Ends env put_target (f _) (g _ _)
  restore_target-Ends (some s) b {w} e f g =
      rename_backup-Ends env (f _) (renamed (P true) w (some s) _ e (g none (suc w.count)))

  pub restore_staged-Ends :
      (t b : Option String) {w : World}
      → w.backup ≡ or_else t b
      → ((x c : Option String) (n : ℕ) → P false (record w { target = x; backup = c; count = n }))
      → ((c : Option String) (n : ℕ) → P true (record w { target = t; backup = c; count = n }))
      → Ends P (restore_staged env (is_some t)) w
  unfolding restore_secured
  restore_staged-Ends none b {w} e f g = remove-Ends env put_target (f w.target w.backup _) (g _ _)
  restore_staged-Ends (some s) b {w} e f g = >>=-Ends (
      rename_backup-Ends env (return-Ends _ (f w.target w.backup _)) (
        secure-Ends env (f w.backup none _)
          (renamed (P true) w (some s) _ e (g none (suc (suc w.count))))))
