-- ===== src/Sip/Ownership/Tests.antt =====
-- Securing a file on concrete inputs (internal/telephony/sip/reconciler.go).
use agentic_voice_sdr.Base.{ℕ, true, Option, none, some, ok, if◌then◌else◌, ℤ, pos, negsuc, str_eq}
use agentic_voice_sdr.Base.Lines.{atoi}
use agentic_voice_sdr.Base.Runs.{return, ◌>>=◌}
use agentic_voice_sdr.Sip.Ownership.{Owner, FileInfo, System, apply_secure_file_permissions}
use agentic_voice_sdr.Sip.Ownership.Secured.{Secured, apply_secure_file_permissions-Secured}

abbrev id_of : ℤ → ℕ → ℕ
id_of (pos n) former = n
id_of (negsuc n) former = former

abbrev owned_by : ℤ → ℤ → Option Owner → Option Owner
owned_by uid gid none = none
owned_by uid gid (some o) = some (record { uid = id_of uid o.uid; gid = id_of gid o.gid })

-- A system with one file and a directory of root, whose parent is the user asterisk's.
abbrev linux : System FileInfo
linux = record {
  chmod = λ path perm f. (true, record f { perm = perm });
  dir_stat = λ dir f. (
    some (record {
      perm = 493;
      owner = some (
          if str_eq dir "/etc/asterisk"
          then record { uid = 101; gid = 0 }
          else record { uid = 0; gid = 0 });
    }),
    f,
  );
  lookup_group = λ name f. (some "995", f);
  chown = λ path uid gid f. (true, record f { owner = owned_by uid gid f.owner });
  stat = λ path f. (some f, f);
  parent = λ dir. "/etc/asterisk";
}

abbrev new_file : FileInfo
new_file = record { perm = 438; owner = some (record { uid = 7; gid = 7 }) }

abbrev secured_file : FileInfo
secured_file = record { perm = 416; owner = some (record { uid = 7; gid = 995 }) }

apply_secure_file_permissions-Secured_example : Secured linux "acme.conf" (ok tt) secured_file
unfolding apply_secure_file_permissions return ◌>>=◌ atoi
apply_secure_file_permissions-Secured_example =
    apply_secure_file_permissions-Secured linux "acme.conf" "/etc/asterisk/pjsip.d" new_file
