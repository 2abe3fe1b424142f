-- ===== src/Sip/Reloader/Transactions.antt =====
-- internal/telephony/sip/reconciler.go: how a trunk is staged, committed, rolled back and removed.
use agentic_voice_sdr.Base.{
  String, Bool, true, false, not, ◌&&◌, ◌||◌, Result, ok, err, if◌then◌else◌, is_empty, is_some,
}
use agentic_voice_sdr.Base.Runs.{Run, return, ◌>>=◌, look}
use agentic_voice_sdr.Sip.Reloader.{
  World, Environment, Step, malicious_name, write_temp, secure_temp, back_up, install,
  secure_target, reload_unbound, reload_res_pjsip, remove_target, unhealthy, roll_back, Error,
  failure, not_finalized, ResolverSnapshot, Run, return, look, ◌>>=◌, fail, attempt, same, secure,
  put_target, put_backup, put_temp, write, remove, rename_temp, rename_backup, copy_target,
  reload_resolver, reload_pjsip,
}
use agentic_voice_sdr.Base.Lines.{has}
use agentic_voice_sdr.Sip.Resolver.{contains}
use agentic_voice_sdr.Sip.Reloader.Sync.{restore_resolver, sync_pinned_resolver}

-- The test of `getConfigPath`; the path of any other name stays in the directory.
unfoldable pub is_malicious : String → Bool
unfolding has
is_malicious name = is_empty name || has 47 name || has 92 name || contains ".." name

-- `if hasPrev { … } else { … }`: the configuration that was there is put back.
unfoldable pub restore_target : Environment → Bool → Run World Bool
unfolding rename_backup remove
restore_target env prev = if prev then rename_backup env else remove env put_target

abbrev pub discard_temp : Environment → Step → Run World (Result Error (Unit {0}))
discard_temp env step = do cleaned ← remove env put_temp; fail step (not cleaned)

abbrev pub back_up_target : Environment → Bool → Run World Bool
back_up_target env prev = if prev then copy_target env else return true

abbrev pub undo_rename : Environment → Bool → Run World (Result Error (Unit {0}))
undo_rename env prev = do
  cleaned ← remove env put_temp
  dropped ← if prev then remove env put_backup else return true
  fail install (not cleaned || not dropped)

abbrev pub undo_insecure : Environment → Bool → Run World (Result Error (Unit {0}))
undo_insecure env prev =
    if prev
    then (do back ← rename_backup env; safe ← secure env; fail secure_target (not back || not safe))
    else (do removed ← remove env put_target; fail secure_target (not removed))

-- After a reload of the resolver that failed.
abbrev pub undo_resolver :
    Environment → Run World Bool → ResolverSnapshot → Run World (Result Error (Unit {0}))
undo_resolver env restore s = do
  files ← restore_resolver env s
  reloaded ← reload_resolver env
  back ← restore
  fail reload_unbound (not files || not reloaded || not back)

-- The configuration that was there, put back and secured.
unfoldable pub restore_secured : Environment → Run World Bool
unfolding rename_backup secure
restore_secured env = do back ← rename_backup env; if back then secure env else return false

-- After a reload of PJSIP that failed.
abbrev pub undo_pjsip :
    Environment → Step → Run World Bool → ResolverSnapshot → Run World (Result Error (Unit {0}))
undo_pjsip env step restore s = do
  files ← restore_resolver env s
  reloaded ← reload_resolver env
  back ← restore
  loaded ← reload_pjsip env
  fail step (not files || not reloaded || not back || not loaded)

abbrev pub restore_staged : Environment → Bool → Run World Bool
restore_staged env prev = if prev then restore_secured env else remove env put_target

abbrev pub worse : Error → Bool → Error
worse (failure step also) b = failure step (also || b)
worse not_finalized b = not_finalized

abbrev pub load_staged :
    Environment → Bool → Result Error ResolverSnapshot → Run World (Result Error (Unit {0}))
load_staged env prev (err e) = do back ← restore_target env prev; return (err (worse e (not back)))
load_staged env prev (ok s) = do
  reloaded ← reload_resolver env
  if not reloaded then undo_resolver env (restore_target env prev) s else do
    loaded ← reload_pjsip env
    if not loaded
        then undo_pjsip env reload_res_pjsip (restore_staged env prev) s
        else return (ok tt)

abbrev pub install_target : Environment → Bool → Run World (Result Error (Unit {0}))
install_target env prev = do
  renamed ← rename_temp env
  if not renamed then undo_rename env prev else do
    safe ← secure env
    if not safe then undo_insecure env prev else sync_pinned_resolver env >>= load_staged env prev

abbrev pub keep_previous : Environment → Bool → Run World (Result Error (Unit {0}))
keep_previous env prev = do
  kept ← back_up_target env prev
  if not kept then discard_temp env back_up else install_target env prev

-- `StagePJSIPConfig`.
unfoldable pub stage_pjsip_config :
    Environment → String → String → Run World (Result Error (Unit {0}))
unfolding write secure remove copy_target rename_temp rename_backup sync_pinned_resolver
    restore_target restore_resolver restore_secured reload_resolver reload_pjsip is_malicious
stage_pjsip_config env name conf = if is_malicious name then fail malicious_name false else do
  written ← write env put_temp conf
  if not written then fail write_temp false else do
    safe ← secure env
    if not safe
        then discard_temp env secure_temp
        else look (λ w. keep_previous env (is_some w.target))

abbrev pub drop_backup : Environment → Run World (Result Error (Unit {0}))
drop_backup env = do
  removed ← remove env put_backup
  if removed then return (ok tt) else return (err not_finalized)

-- The backup is dropped at the end, if there is one.
abbrev pub finish : Environment → Bool → Run World (Result Error (Unit {0}))
finish env b = if b then drop_backup env else return (ok tt)

-- `CommitPJSIPConfig`.
unfoldable pub commit_pjsip_config : Environment → String → Run World (Result Error (Unit {0}))
unfolding remove is_malicious
commit_pjsip_config env name =
    if is_malicious name
    then fail malicious_name false
    else look (λ w. finish env (is_some w.backup))

-- The files of the resolver and what it has loaded, after the trunk's file was put back.
abbrev pub resolve_again : Environment → Result Error ResolverSnapshot → Run World Bool
resolve_again env (err e) = return false
resolve_again env (ok s) = reload_resolver env

abbrev pub put_back : Environment → Run World Bool
put_back env = look (λ w.
    if is_some w.backup
    then restore_secured env
    else if is_some w.target
    then remove env put_target
    else return true)

-- `RollbackPJSIPConfig`.
unfoldable pub rollback_pjsip_config : Environment → String → Run World (Result Error (Unit {0}))
unfolding restore_secured remove sync_pinned_resolver reload_resolver reload_pjsip is_malicious
rollback_pjsip_config env name = if is_malicious name then fail malicious_name false else do
  back ← put_back env
  resolved ← sync_pinned_resolver env >>= resolve_again env
  loaded ← reload_pjsip env
  if back && resolved && loaded then return (ok tt) else fail roll_back true

-- `CheckAsteriskHealth`.
unfoldable pub check_asterisk_health : Environment → Run World Bool
unfolding attempt
check_asterisk_health env w = asked (attempt env same same w)
  where
    asked : Bool × World → Bool × World
    asked (answered, v) = (
      answered
          && (contains "System uptime" (env.output w.count)
              || contains "Uptime:" (env.output w.count)
              || contains "Asterisk" (env.output w.count)),
      v,
    )

-- What follows a removal whose reload or check failed.
abbrev pub undo_removal :
    Environment → Step → Bool → ResolverSnapshot → Run World (Result Error (Unit {0}))
undo_removal env step prev s =
    if prev
    then undo_pjsip env step (restore_secured env) s
    else (do files ← restore_resolver env s; reloaded ← reload_resolver env; fail step false)

abbrev pub restore_removed : Environment → Bool → Run World Bool
restore_removed env prev = if prev then rename_backup env else return true

abbrev pub load_removed :
    Environment → Bool → Result Error ResolverSnapshot → Run World (Result Error (Unit {0}))
load_removed env prev (err e) = do
  back ← restore_removed env prev
  return (err (worse e (not back)))
load_removed env prev (ok s) = do
  reloaded ← reload_resolver env
  if not reloaded then undo_resolver env (restore_removed env prev) s else do
    loaded ← reload_pjsip env
    if not loaded then undo_removal env reload_res_pjsip prev s else do
      healthy ← check_asterisk_health env
      if not healthy then undo_removal env unhealthy prev s else finish env prev

abbrev pub undo_removal_copy : Environment → Run World (Result Error (Unit {0}))
undo_removal_copy env = do cleaned ← remove env put_backup; fail remove_target (not cleaned)

abbrev pub remove_previous : Environment → Bool → Run World (Result Error (Unit {0}))
remove_previous env prev =
    if not prev then sync_pinned_resolver env >>= load_removed env false else do
      kept ← copy_target env
      if not kept then fail back_up false else do
        removed ← remove env put_target
        if not removed
            then undo_removal_copy env
            else sync_pinned_resolver env >>= load_removed env true

-- `RemovePJSIPConfig`.
unfoldable pub remove_pjsip_config : Environment → String → Run World (Result Error (Unit {0}))
unfolding remove secure copy_target rename_backup sync_pinned_resolver restore_resolver
    restore_secured reload_resolver reload_pjsip is_malicious check_asterisk_health
remove_pjsip_config env name =
    if is_malicious name
    then fail malicious_name false
    else look (λ w. remove_previous env (is_some w.target))
