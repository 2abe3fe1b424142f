-- ===== src/Sip/Installation/Tests.antt =====
-- A trunk applied on concrete inputs (internal/telephony/sip/reconciler.go).
use agentic_voice_sdr.Base.{is_blank, trim_space, true, Option, none, ◌≡◌, refl}
use agentic_voice_sdr.Base.Lines.{has, join, split_lines}
use agentic_voice_sdr.Sip.Config.{
  check_auth, check_fields, complete_auth, complete_port, complete_transport, has_injection_chars,
  is_trunk_name, name_rest, check_transport, check_registration, to_lower, validate,
}
use agentic_voice_sdr.Sip.Pjsip.{generate_pjsip_config}
use agentic_voice_sdr.Sip.Reloader.{World}
use agentic_voice_sdr.Sip.Resolver.{hosts_content}
use agentic_voice_sdr.Sip.Config.{check_registration, check_transport}
use agentic_voice_sdr.Sip.Reloader.{
  attempt, copy_target, reload_pjsip, reload_resolver, remove, rename_backup, rename_temp, secure,
  write,
}
use agentic_voice_sdr.Sip.Reloader.Sync.{
  capture_resolver, cleanup_temp_files, install_hosts, install_resolver_file, restore_resolver,
  stage_resolver_file, sync_pinned_resolver,
}
use agentic_voice_sdr.Sip.Reloader.Transactions.{
  is_malicious, restore_secured, restore_target, stage_pjsip_config,
}
use agentic_voice_sdr.Sip.Resolver.{contains}
use agentic_voice_sdr.Sip.Installation
use agentic_voice_sdr.Base.Runs.{look, return, ◌>>=◌}
use agentic_voice_sdr.Sip.Reloader.Transactions.{check_asterisk_health}
use agentic_voice_sdr.Sip.Installation.{
  Network, check_endpoint, network_dialer, real_asterisk_reloader, run_command, succeeds,
}
use agentic_voice_sdr.Sip.Installation.Applied.{ApplyInstalled, apply_trunk-ApplyInstalled}
use agentic_voice_sdr.Sip.Manager.{
  ApplyError, Manager, StatusReport, apply_trunk, commit, enable, new_manager, reach,
  rollback_transaction, stage, verify, verify_registration,
}
use agentic_voice_sdr.Sip.Manager.Applied.{ApplyOutcome, apply_trunk-ApplyOutcome}
use agentic_voice_sdr.Sip.Reloader.Transactions.{commit_pjsip_config}
use agentic_voice_sdr.Sip.Installation.{health}
use agentic_voice_sdr.Sip.Reloader.Tests.{quiet, world}
use agentic_voice_sdr.Sip.Resolver.{resolver_content}
use agentic_voice_sdr.Sip.Tests.{acme}

-- Every host resolves and every address accepts.
abbrev network : Network
network = record {
  resolves = λ host. true;
  accepts = λ network address. true;
  accepts_tls = λ address server. true;
}

abbrev applied : ((StatusReport × Option ApplyError) × Manager) × World
applied =
    apply_trunk (network_dialer network true) (real_asterisk_reloader quiet) new_manager acme world

apply_trunk-ApplyInstalled_example : ApplyInstalled acme world applied.0 applied.1
apply_trunk-ApplyInstalled_example =
    apply_trunk-ApplyInstalled quiet network true new_manager acme world

apply_trunk-ApplyOutcome_example : ApplyOutcome new_manager acme applied.0
apply_trunk-ApplyOutcome_example =
    apply_trunk-ApplyOutcome (network_dialer network true) (real_asterisk_reloader quiet)
      new_manager acme world

-- The trunk is applied.
applied_well : applied.0.0.1 ≡ none
unfolding apply_trunk enable reach stage verify verify_registration commit rollback_transaction
    real_asterisk_reloader succeeds health run_command Installation.check_transport check_endpoint
    Installation.check_registration commit_pjsip_config check_asterisk_health validate check_fields
    complete_port complete_transport check_transport complete_auth check_auth check_registration
    to_lower has_injection_chars is_trunk_name name_rest is_blank generate_pjsip_config
    stage_pjsip_config restore_target restore_secured is_malicious contains has sync_pinned_resolver
    capture_resolver cleanup_temp_files restore_resolver stage_resolver_file install_hosts
    install_resolver_file return ◌>>=◌ look attempt secure write remove rename_temp rename_backup
    copy_target reload_resolver reload_pjsip resolver_content join split_lines trim_space
    hosts_content
applied_well = refl
