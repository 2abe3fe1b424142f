-- ===== src/Sip/Reloader/Ends.antt =====
-- How calls on a world of internal/telephony/sip/reconciler.go end: rules for what holds after them, whichever of
-- their operations fail.
use agentic_voice_sdr.Base.{
  ℕ, suc, String, Bool, true, false, Option, none, some, is_some, Bool-cases, inl, inr,
}
use agentic_voice_sdr.Base.Runs.{Ends, ends, return-Ends, >>=-Ends}
use agentic_voice_sdr.Sip.Reloader.{
  World, Environment, configs, tick, attempt, secure, write, remove, rename_temp, rename_backup,
  copy_target, reload_resolver, reload_pjsip,
}

module _ {P : Bool → World → Type 0} (env : Environment) {w : World} where
  pub attempt-Ends :
      (good bad : World → World)
      → P false (tick (bad w))
      → P true (tick (good w))
      → Ends P (attempt env good bad) w
  unfolding attempt
  attempt-Ends good bad f t = elim (Bool-cases (env.fails w.count)) [
    | inl hit ↦ ends (rw hit f)
    | inr miss ↦ ends (rw miss t)
  ]

  pub secure-Ends : P false (tick w) → P true (tick w) → Ends P (secure env) w
  unfolding secure
  secure-Ends f t = attempt-Ends _ _ f t

  pub write-Ends :
      (put : Option String → World → World) (s : String)
      → ((left : Option String) → P false (tick (put left w)))
      → P true (tick (put (some s) w))
      → Ends P (write env put s) w
  unfolding write attempt
  write-Ends put s f t = elim (Bool-cases (env.fails w.count)) [
    | inl hit ↦ ends (rw hit (f (env.left w.count)))
    | inr miss ↦ ends (rw miss t)
  ]

  pub remove-Ends :
      (put : Option String → World → World)
      → P false (tick w)
      → P true (tick (put none w))
      → Ends P (remove env put) w
  unfolding remove
  remove-Ends put f t = attempt-Ends _ _ f t

  pub rename_temp-Ends :
      P false (tick w)
      → P true (tick (record w { target = w.temp; temp = none }))
      → Ends P (rename_temp env) w
  unfolding rename_temp
  rename_temp-Ends f t = attempt-Ends _ _ f t

  pub rename_backup-Ends :
      P false (tick w)
      → P true (tick (record w { target = w.backup; backup = none }))
      → Ends P (rename_backup env) w
  unfolding rename_backup attempt
  rename_backup-Ends f t = elim (Bool-cases (is_some w.backup)) [
    | inl there ↦ elim (Bool-cases (env.fails w.count)) [
      | inl hit ↦ ends (rw (there, hit) f)
      | inr miss ↦ ends (rw (there, miss) t)
    ]
    | inr absent ↦ ends (rw absent f)
  ]

  pub reload_resolver-Ends :
      P false (tick (record w { unbound = none }))
      → P true (tick (record w { unbound = some (w.hosts, w.resolver) }))
      → Ends P (reload_resolver env) w
  unfolding reload_resolver
  reload_resolver-Ends f t = attempt-Ends _ _ f t

  pub reload_pjsip-Ends :
      P false (tick (record w { pjsip = none }))
      → P true (tick (record w { pjsip = some (configs w) }))
      → Ends P (reload_pjsip env) w
  unfolding reload_pjsip
  reload_pjsip-Ends f t = attempt-Ends _ _ f t

pub copy_target-Ends :
    {P : Bool → World → Type 0} (env : Environment) {w : World}
    → ((left : Option String) (n : ℕ) → P false (record w { backup = left; count = n }))
    → ((n : ℕ) → P true (record w { backup = w.target; count = n }))
    → Ends P (copy_target env) w
unfolding copy_target
copy_target-Ends env {w = w} f t = >>=-Ends (
    attempt-Ends env _ _ (return-Ends _ (f (env.left w.count) (suc w.count)))
      (secure-Ends env (f w.target (suc (suc w.count))) (t (suc (suc w.count)))))
