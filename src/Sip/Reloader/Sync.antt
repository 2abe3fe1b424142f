-- ===== src/Sip/Reloader/Sync.antt =====
-- internal/telephony/sip/reconciler.go: the files of the pinned resolver, kept in step with the configurations.
use agentic_voice_sdr.Base.{
  String, Bool, true, false, not, ◌&&◌, Option, none, some, Result, ok, err, if◌then◌else◌,
}
use agentic_voice_sdr.Base.Runs.{Run, return, ◌>>=◌, look}
use agentic_voice_sdr.Sip.Reloader.{
  World, Environment, read_resolver, unmanaged_file, read_configs, make_directory, write_resolver,
  install_resolver, Error, ResolverSnapshot, Run, return, look, ◌>>=◌, fail, configs, attempt, same,
  secure, put_hosts, put_resolver, put_hosts_temp, put_resolver_temp, write, remove,
}
use agentic_voice_sdr.Sip.Resolver.{resolver_marker, contains, hosts_content, resolver_content}

abbrev pub restore_file :
    Environment → (Option String → World → World) → Option String → Run World Bool
restore_file env put none = remove env put
restore_file env put (some s) = do
  written ← write env put s
  if written then secure env else return false

-- `restoreResolver`, which walks through its two files in any order.
unfoldable pub restore_resolver : Environment → ResolverSnapshot → Run World Bool
unfolding write remove secure
restore_resolver env s = do
  first ← restore_file env put_hosts s.hosts
  if first then restore_file env put_resolver s.resolver else return false

abbrev pub managed : Option String → Bool
managed none = true
managed (some s) = contains resolver_marker s

-- `captureResolver`.
unfoldable pub capture_resolver : Environment → Run World (Result Error ResolverSnapshot)
unfolding attempt
capture_resolver env = do
  read ← attempt env same same
  if not read
      then fail read_resolver false
      else look (λ w.
        if managed w.resolver && managed w.hosts
        then return (ok (record { hosts = w.hosts; resolver = w.resolver }))
        else fail unmanaged_file false)

-- `cleanupTempFiles(tmpPaths...)`.
unfoldable pub cleanup_temp_files : Environment → Run World Bool
unfolding remove
cleanup_temp_files env = do
  first ← remove env put_hosts_temp
  second ← remove env put_resolver_temp
  return (first && second)

-- A file of the resolver, written beside its place and secured.
unfoldable pub stage_resolver_file :
    Environment → (Option String → World → World) → String → Run World Bool
unfolding write secure
stage_resolver_file env put s = do
  written ← write env put s
  if written then secure env else return false

-- Both files of the resolver are renamed into their places.
unfoldable pub install_hosts : Environment → Run World Bool
unfolding attempt
install_hosts env = attempt env (λ w. record w { hosts = w.hosts_temp; hosts_temp = none }) same

unfoldable pub install_resolver_file : Environment → Run World Bool
unfolding attempt
install_resolver_file env =
    attempt env (λ w. record w { resolver = w.resolver_temp; resolver_temp = none }) same

abbrev pub undo_install : Environment → ResolverSnapshot → Run World (Result Error ResolverSnapshot)
undo_install env s = do
  cleaned ← cleanup_temp_files env
  back ← restore_resolver env s
  fail install_resolver (not (cleaned && back))

abbrev pub undo_staging : Environment → Run World (Result Error ResolverSnapshot)
undo_staging env = do cleaned ← cleanup_temp_files env; fail write_resolver (not cleaned)

abbrev pub install_both : Environment → ResolverSnapshot → Run World (Result Error ResolverSnapshot)
install_both env s = do
  first ← install_hosts env
  if not first then undo_install env s else do
    second ← install_resolver_file env
    if not second then undo_install env s else return (ok s)

abbrev pub write_both :
    Environment → String → String → ResolverSnapshot → Run World (Result Error ResolverSnapshot)
write_both env hosts resolver s = do
  first ← stage_resolver_file env put_hosts_temp hosts
  if not first then undo_staging env else do
    second ← stage_resolver_file env put_resolver_temp resolver
    if not second then undo_staging env else install_both env s

abbrev pub synchronize :
    Environment → Result Error ResolverSnapshot → Run World (Result Error ResolverSnapshot)
synchronize env (err e) = return (err e)
synchronize env (ok s) = do
  read ← attempt env same same
  if not read then fail read_configs false else do
    made ← attempt env same same
    if not made
        then fail make_directory false
        else look (λ w.
          write_both env (hosts_content (configs w)) (resolver_content env.hosts_path s.resolver) s)

-- `syncPinnedResolver`.
unfoldable pub sync_pinned_resolver : Environment → Run World (Result Error ResolverSnapshot)
unfolding capture_resolver attempt cleanup_temp_files restore_resolver stage_resolver_file
    install_hosts install_resolver_file
sync_pinned_resolver env = capture_resolver env >>= synchronize env
