-- ===== src/Sip/Ownership.antt =====
-- internal/telephony/sip/reconciler.go: applySecureFilePermissions, which gives a file to the group of Asterisk.
-- The operating system is a record of calls on a state, for each of which true is an error of nil; an owner is
-- none where what the system knows of a file is no `syscall.Stat_t`, and -1 is an id that is not set.
pub mod Secured
pub mod Tests
use agentic_voice_sdr.Base.{
  ℕ, zero, suc, String, Bool, true, false, not, ◌&&◌, ◌||◌, Option, none, some, Result, ok, err,
  if◌then◌else◌, ◌==◌, ℤ, pos, negsuc, str_eq, is_empty,
}
use agentic_voice_sdr.Base.Int.{is_positive}
use agentic_voice_sdr.Base.Lines.{atoi}
use agentic_voice_sdr.Base.Runs.{Run, return, ◌>>=◌}
use Prim.Native.Nat.{◌/◌, ◌%◌}

pub record Owner : Type 0 where
  pub uid : ℕ
  pub gid : ℕ

-- The permissions of a file, its mode's last nine bits, and its owner.
pub record FileInfo : Type 0 where
  pub perm : ℕ
  pub owner : Option Owner

-- `dirStatFn`, `groupLookupFn` and `chownFn`, which stand for calls of the system, and those that none stands for.
-- A group is its id, as text.
pub record System (S : Type 0) : Type 0 where
  pub chmod : String → ℕ → Run S Bool
  pub dir_stat : String → Run S (Option FileInfo)
  pub lookup_group : String → Run S (Option String)
  pub chown : String → ℤ → ℤ → Run S Bool
  pub stat : String → Run S (Option FileInfo)
  -- `filepath.Dir`.
  pub parent : String → String

pub data Error : Type 0 where
  chmod_failed no_group chown_failed stat_failed : Error
  world_accessible group_writable wrong_uid wrong_gid : Error

abbrev pub owner_of : Option FileInfo → Option Owner
owner_of none = none
owner_of (some info) = info.owner

-- An id that is not root's, or the one that was there.
abbrev pub id_or : ℤ → ℕ → ℤ
id_or former zero = former
id_or former (suc n) = pos (suc n)

abbrev pub uid_of : Option Owner → ℤ
uid_of none = negsuc zero
uid_of (some o) = id_or (negsuc zero) o.uid

abbrev pub gid_of : ℤ → Option Owner → ℤ
gid_of former none = former
gid_of former (some o) = id_or former o.gid

abbrev pub is_id : ℤ → ℕ → Bool
is_id (pos n) m = n == m
is_id (negsuc n) m = false

abbrev pub verify_owner : ℤ → ℤ → Option Owner → Result Error (Unit {0})
verify_owner uid gid none = ok tt
verify_owner uid gid (some o) =
    if is_positive uid && not (is_id uid o.uid)
    then err wrong_uid
    else if is_positive gid && not (is_id gid o.gid)
    then err wrong_gid
    else ok tt

-- The last step: the permissions 0007 and 0020 are not there, and the owner is the one that is asked for.
abbrev pub verify : ℤ → ℤ → Option FileInfo → Result Error (Unit {0})
verify uid gid none = err stat_failed
verify uid gid (some info) =
    if not (info.perm % 8 == 0)
    then err world_accessible
    else if not (info.perm / 16 % 2 == 0)
    then err group_writable
    else verify_owner uid gid info.owner

abbrev pub group_or : ℤ → Option ℤ → ℤ
group_or former none = former
group_or former (some gid) = gid

abbrev pub group_id : ℤ → Option String → ℤ
group_id former none = former
group_id former (some text) = group_or former (atoi text)

module _ {S : Type 0} (system : System S) where
  -- The group of the parent directory, if that of the directory is root's.
  abbrev pub parent_group : String → ℤ → Run S ℤ
  parent_group dir gid =
      if is_positive gid || is_empty (system.parent dir) || str_eq (system.parent dir) "/"
      then return gid
      else (do info ← system.dir_stat (system.parent dir); return (gid_of gid (owner_of info)))

  -- Step 2, the user and the group of the directory.
  abbrev pub directory_owner : String → Run S (ℤ × ℤ)
  directory_owner dir = if is_empty dir then return (negsuc zero, negsuc zero) else do
    info ← system.dir_stat dir
    gid ← parent_group dir (gid_of (negsuc zero) (owner_of info))
    return (uid_of (owner_of info), gid)

  -- Step 3.
  abbrev pub asterisk_group : ℤ → Run S ℤ
  asterisk_group gid =
      if is_positive gid
      then return gid
      else (do found ← system.lookup_group "asterisk"; return (group_id gid found))

  -- Step 5.
  abbrev pub hand_over : String → ℤ → ℤ → Run S (Result Error (Unit {0}))
  hand_over path uid gid = do
    given ← system.chown path uid gid
    if not given
        then return (err chown_failed)
        else do info ← system.stat path; return (verify uid gid info)

  abbrev pub own : String → ℤ → ℤ → Run S (Result Error (Unit {0}))
  own path uid gid = if is_positive gid then hand_over path uid gid else return (err no_group)

  -- `applySecureFilePermissions`; 416 is 0640.
  unfoldable pub apply_secure_file_permissions : String → String → Run S (Result Error (Unit {0}))
  apply_secure_file_permissions dir path = do
    changed ← system.chmod path 416
    if not changed
        then return (err chmod_failed)
        else do ids ← directory_owner dir; gid ← asterisk_group ids.1; own path ids.0 gid
