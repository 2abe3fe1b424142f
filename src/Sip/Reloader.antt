-- ===== src/Sip/Reloader.antt =====
-- internal/telephony/sip/reconciler.go, RealAsteriskReloader: the installation of a trunk's configuration.
-- A world has the files of one trunk, those of the resolver beside the directory of the
-- configurations, the other configurations in the order of their names, and what Asterisk has loaded.
-- Every operation that may fail is numbered, and an environment tells which of them fail, what a write
-- that fails leaves in its file, and what Asterisk prints. Securing a file is one operation, as is reading the
-- configurations; whether a file exists is always known. What a failed reload leaves in
-- Asterisk is unknown.
pub mod Ends
pub mod Sync
pub mod Synced
pub mod Transactions
pub mod Outcome
pub mod Staging
pub mod Restored
pub mod Removal
pub mod Tests
use agentic_voice_sdr.Base.{
  ℕ, zero, suc, String, Bool, true, false, not, ◌&&◌, ◌||◌, List, [], ◌∷◌, ◌++◌, Option, none, some,
  Result, ok, err, if◌then◌else◌, ◌==◌, is_empty, is_some, ◌≡◌, refl,
}
use agentic_voice_sdr.Base.Runs.{Run, return, ◌>>=◌, look}
use agentic_voice_sdr.Base.Lines.{has}
use agentic_voice_sdr.Sip.Resolver.{resolver_marker, contains, hosts_content, resolver_content}

pub record World : Type 0 where
  pub target : Option String
  pub backup : Option String
  pub temp : Option String
  pub hosts : Option String
  pub resolver : Option String
  pub hosts_temp : Option String
  pub resolver_temp : Option String
  pub before : List String
  pub after : List String
  pub pjsip : Option (List String)
  pub unbound : Option (Option String × Option String)
  pub count : ℕ

pub record Environment : Type 0 where
  pub fails : ℕ → Bool
  pub left : ℕ → Option String
  pub output : ℕ → String
  pub hosts_path : String

pub data Step : Type 0 where
  malicious_name write_temp secure_temp back_up install secure_target : Step
  read_resolver unmanaged_file read_configs make_directory write_resolver install_resolver : Step
  reload_unbound reload_res_pjsip remove_target unhealthy roll_back : Step

-- The step that failed, and whether a cleanup or a rollback after it failed as well; or, at the
-- end of a call, a backup that could not be removed.
pub data Error : Type 0 where
  failure : Step → Bool → Error
  not_finalized : Error

-- `resolverSnapshot`: the contents of the two files, if they exist.
pub record ResolverSnapshot : Type 0 where
  pub hosts : Option String
  pub resolver : Option String

abbrev pub fail : {A : Type 0} → Step → Bool → Run World (Result Error A)
fail step also = return (err (failure step also))

-- The texts of all configurations, `*.conf`.
abbrev pub configs : World → List String
configs w = w.before ++ (present w.target ++ w.after)
  where
    present : Option String → List String
    present none = []
    present (some s) = s ∷ []

abbrev pub tick : World → World
tick w = record w { count = suc w.count }

-- An operation that does the one or, if it fails, the other.
unfoldable pub attempt : Environment → (World → World) → (World → World) → Run World Bool
attempt env good bad w = if env.fails w.count then (false, tick (bad w)) else (true, tick (good w))

abbrev pub same : World → World
same w = w

unfoldable pub secure : Environment → Run World Bool
unfolding attempt
secure env = attempt env same same

-- The files of the trunk and those of the resolver.
abbrev pub put_target : Option String → World → World
put_target s w = record w { target = s }

abbrev pub put_backup : Option String → World → World
put_backup s w = record w { backup = s }

abbrev pub put_temp : Option String → World → World
put_temp s w = record w { temp = s }

abbrev pub put_hosts : Option String → World → World
put_hosts s w = record w { hosts = s }

abbrev pub put_resolver : Option String → World → World
put_resolver s w = record w { resolver = s }

abbrev pub put_hosts_temp : Option String → World → World
put_hosts_temp s w = record w { hosts_temp = s }

abbrev pub put_resolver_temp : Option String → World → World
put_resolver_temp s w = record w { resolver_temp = s }

-- `os.WriteFile`.
unfoldable pub write : Environment → (Option String → World → World) → String → Run World Bool
unfolding attempt
write env put s = attempt env (put (some s)) (λ w. put (env.left w.count) w)

-- `removeFile`.
unfoldable pub remove : Environment → (Option String → World → World) → Run World Bool
unfolding attempt
remove env put = attempt env (put none) same

-- `os.Rename(tmpPath, targetPath)`, of files that exist.
unfoldable pub rename_temp : Environment → Run World Bool
unfolding attempt
rename_temp env = attempt env (λ w. record w { target = w.temp; temp = none }) same

-- `renamePJSIPFile(bakPath, targetPath)`; a backup that is not there cannot be renamed.
unfoldable pub rename_backup : Environment → Run World Bool
unfolding attempt
rename_backup env w =
    if is_some w.backup
    then attempt env (λ w. record w { target = w.backup; backup = none }) same w
    else (false, tick w)

-- `copyFile(targetPath, bakPath)`.
unfoldable pub copy_target : Environment → Run World Bool
unfolding attempt secure
copy_target env = do
  copied ← attempt env (λ w. put_backup w.target w) (λ w. put_backup (env.left w.count) w)
  if copied then secure env else return false

-- `asterisk -rx "module reload …"`.
unfoldable pub reload_resolver : Environment → Run World Bool
unfolding attempt
reload_resolver env =
    attempt env (λ w. record w { unbound = some (w.hosts, w.resolver) })
      (λ w. record w { unbound = none })

unfoldable pub reload_pjsip : Environment → Run World Bool
unfolding attempt
reload_pjsip env =
    attempt env (λ w. record w { pjsip = some (configs w) }) (λ w. record w { pjsip = none })
