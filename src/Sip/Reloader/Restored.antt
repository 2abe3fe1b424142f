-- ===== src/Sip/Reloader/Restored.antt =====
-- How a configuration is put back (internal/telephony/sip/reconciler.go).
use agentic_voice_sdr.Base.{
  ℕ, suc, String, Bool, true, false, Option, none, some, if◌then◌else◌, is_some, ◌≡◌, subst, sym,
  Bool-cases, inl, inr,
}
use agentic_voice_sdr.Base.Runs.{return, Ends, ends, return-Ends, >>=-Ends, look-Ends}
use agentic_voice_sdr.Sip.Reloader.{World, Environment, tick, attempt, put_target, remove}
use agentic_voice_sdr.Sip.Reloader.Ends.{secure-Ends, remove-Ends, rename_backup-Ends}
use agentic_voice_sdr.Sip.Reloader.Transactions.{
  restore_secured, put_back, check_asterisk_health, restore_removed,
}
use agentic_voice_sdr.Sip.Reloader.Outcome.{renamed, or_else}

module _ {P : Bool → World → Type 0} (env : Environment) where
  put_back_from :
      (b t : Option String) (w : World)
      → ((x c : Option String) (n : ℕ) → P false (record w { target = x; backup = c; count = n }))
      → ((n : ℕ) → P true (record w { target = b; backup = none; count = n }))
      → Ends P
          (if is_some b
            then restore_secured env
            else if is_some t
            then remove env put_target
            else return true)
          (record w { target = t; backup = b })
  unfolding restore_secured
  put_back_from (some s) t w f g = >>=-Ends (
      rename_backup-Ends env (return-Ends _ (f t (some s) _))
        (secure-Ends env (f (some s) none _) (g _)))
  put_back_from none (some s) w f g = remove-Ends env put_target (f (some s) none _) (g _)
  put_back_from none none w f g = return-Ends _ (g _)

  pub put_back-Ends :
      (w : World)
      → ((x c : Option String) (n : ℕ) → P false (record w { target = x; backup = c; count = n }))
      → ((n : ℕ) → P true (record w { target = w.backup; backup = none; count = n }))
      → Ends P (put_back env) w
  put_back-Ends w f g = look-Ends _ (put_back_from w.backup w.target w f g)

  pub restore_removed-Ends :
      (t b : Option String) {w : World}
      → w.target ≡ none
      → w.backup ≡ or_else t b
      → ((n : ℕ) → P false (record w { count = n }))
      → ((c : Option String) (n : ℕ) → P true (record w { target = t; backup = c; count = n }))
      → Ends P (restore_removed env (is_some t)) w
  restore_removed-Ends none b {w} gone e f g =
      return-Ends _ (subst (λ y. P true (record w { target = y })) (sym gone) (g w.backup w.count))
  restore_removed-Ends (some s) b {w} gone e f g =
      rename_backup-Ends env (f _) (renamed (P true) w (some s) _ e (g none (suc w.count)))

  pub check_asterisk_health-Ends :
      {w : World} → ((b : Bool) → P b (tick w)) → Ends P (check_asterisk_health env) w
  unfolding check_asterisk_health attempt
  check_asterisk_health-Ends {w} h = elim (Bool-cases (env.fails w.count)) [
    | inl hit ↦ ends (rw hit (h _))
    | inr miss ↦ ends (rw miss (h _))
  ]
