-- ===== src/Sip/Reloader/Tests.antt =====
-- The installation of a trunk on concrete inputs (internal/telephony/sip/reconciler.go).
use agentic_voice_sdr.Base.{
  ℕ, any, trim_space, false, List, [], ◌∷◌, none, some, ok, err, ◌≡◌, refl, ◌==◌,
}
use agentic_voice_sdr.Base.Lines.{cut, cut_last, has, join, split_lines}
use agentic_voice_sdr.Sip.Pjsip.{split_host_port, split_parts}
use agentic_voice_sdr.Sip.Reloader.{Environment, World, configs}
use agentic_voice_sdr.Sip.Resolver.{address_host, hosts_content, words}
use agentic_voice_sdr.Sip.Reloader.{
  attempt, copy_target, failure, reload_pjsip, reload_res_pjsip, reload_resolver, remove,
  rename_backup, rename_temp, secure, write,
}
use agentic_voice_sdr.Sip.Reloader.Outcome.{StageOutcome, Staged}
use agentic_voice_sdr.Sip.Reloader.Staging.{stage_pjsip_config-StageOutcome}
use agentic_voice_sdr.Sip.Reloader.Sync.{
  capture_resolver, cleanup_temp_files, install_hosts, install_resolver_file, restore_resolver,
  stage_resolver_file, sync_pinned_resolver,
}
use agentic_voice_sdr.Sip.Reloader.Transactions.{
  is_malicious, restore_secured, restore_target, stage_pjsip_config,
}
use agentic_voice_sdr.Sip.Resolver.{contains}
use agentic_voice_sdr.Base.Runs.{look, return, ◌>>=◌}
use agentic_voice_sdr.Sip.Reloader.{not_finalized}
use agentic_voice_sdr.Sip.Reloader.Outcome.{InSync, RemoveOutcome}
use agentic_voice_sdr.Sip.Reloader.Removal.{remove_pjsip_config-RemoveOutcome}
use agentic_voice_sdr.Sip.Reloader.Transactions.{
  check_asterisk_health, remove_pjsip_config, rollback_pjsip_config,
}
use agentic_voice_sdr.Sip.Installation.Histories.{remove-rollback-stage_pjsip_config}
use agentic_voice_sdr.Sip.Resolver.{resolver_content}

-- A trunk that has a configuration, with another beside it.
abbrev pub world : World
world = record {
  target = some "old";
  backup = none;
  temp = none;
  hosts = none;
  resolver = none;
  hosts_temp = none;
  resolver_temp = none;
  before = "; gru83-pin host=a.com address=10.0.0.1:5060" ∷ [];
  after = [];
  pjsip = none;
  unbound = none;
  count = 0;
}

-- Nothing fails but the operations with these numbers.
abbrev pub environment : List ℕ → Environment
environment failing = record {
  fails = λ n. any (λ k. k == n) failing;
  left = λ n. some "";
  output = λ n. "Asterisk Transport: Endpoint: Registered";
  hosts_path = "/etc/asterisk/.gru83-pinned.hosts";
}

abbrev pub quiet : Environment
quiet = environment []

hosts_test :
    hosts_content (configs world)
    ≡ "; managed by agentic-voice-sdr GRU-83; do not edit\n10.0.0.1 a.com\n"
unfolding hosts_content split_host_port split_parts cut_last has split_lines words cut address_host
    join
hosts_test = refl

-- Everything that a transaction does.
stage_pjsip_config-StageOutcome_example :
    Staged quiet "new" world (stage_pjsip_config quiet "acme" "new" world).1
unfolding StageOutcome stage_pjsip_config restore_target restore_secured is_malicious contains has
    sync_pinned_resolver capture_resolver cleanup_temp_files restore_resolver stage_resolver_file
    install_hosts install_resolver_file return ◌>>=◌ look attempt secure write remove rename_temp
    rename_backup copy_target reload_resolver reload_pjsip resolver_content join split_lines
    trim_space hosts_content
stage_pjsip_config-StageOutcome_example = stage_pjsip_config-StageOutcome quiet "acme" "new" world

-- The reload of PJSIP fails, the operation of number 16: everything is put back.
stage_fails :
    (stage_pjsip_config (environment (16 ∷ [])) "acme" "new" world).0
    ≡ err (failure reload_res_pjsip false)
unfolding stage_pjsip_config restore_target restore_secured is_malicious contains has
    sync_pinned_resolver capture_resolver cleanup_temp_files restore_resolver stage_resolver_file
    install_hosts install_resolver_file return ◌>>=◌ look attempt secure write remove rename_temp
    rename_backup copy_target reload_resolver reload_pjsip resolver_content join split_lines
    trim_space hosts_content
stage_fails = refl

-- The backup of a removal cannot be removed, operation 15.
abbrev leftover : Environment
leftover = environment (15 ∷ [])

-- Removed for good, and removed with its backup left behind.
remove_pjsip_config-RemoveOutcome_example :
    RemoveOutcome world (ok tt) (remove_pjsip_config quiet "acme" world).1
unfolding RemoveOutcome remove_pjsip_config check_asterisk_health restore_target restore_secured
    is_malicious contains has sync_pinned_resolver capture_resolver cleanup_temp_files
    restore_resolver stage_resolver_file install_hosts install_resolver_file return ◌>>=◌ look
    attempt secure write remove rename_temp rename_backup copy_target reload_resolver reload_pjsip
    resolver_content join split_lines trim_space hosts_content
remove_pjsip_config-RemoveOutcome_example = remove_pjsip_config-RemoveOutcome quiet "acme" world

not_removed : (remove_pjsip_config (leftover) "acme" world).0 ≡ err not_finalized
unfolding remove_pjsip_config check_asterisk_health restore_target restore_secured is_malicious
    contains has sync_pinned_resolver capture_resolver cleanup_temp_files restore_resolver
    stage_resolver_file install_hosts install_resolver_file return ◌>>=◌ look attempt secure write
    remove rename_temp rename_backup copy_target reload_resolver reload_pjsip resolver_content join
    split_lines trim_space hosts_content
not_removed = refl

staged_well : (stage_pjsip_config quiet "acme" "new" world).0 ≡ ok tt
unfolding stage_pjsip_config restore_target restore_secured is_malicious contains has
    sync_pinned_resolver capture_resolver cleanup_temp_files restore_resolver stage_resolver_file
    install_hosts install_resolver_file return ◌>>=◌ look attempt secure write remove rename_temp
    rename_backup copy_target reload_resolver reload_pjsip resolver_content join split_lines
    trim_space hosts_content
staged_well = refl

rolled_back_well :
    (rollback_pjsip_config quiet "acme" (stage_pjsip_config quiet "acme" "new" world).1).0 ≡ ok tt
unfolding stage_pjsip_config rollback_pjsip_config restore_target restore_secured is_malicious
    contains has sync_pinned_resolver capture_resolver cleanup_temp_files restore_resolver
    stage_resolver_file install_hosts install_resolver_file return ◌>>=◌ look attempt secure write
    remove rename_temp rename_backup copy_target reload_resolver reload_pjsip resolver_content join
    split_lines trim_space hosts_content
rolled_back_well = refl

abbrev after_removal : World
after_removal = (remove_pjsip_config leftover "acme" world).1

staged_later : (stage_pjsip_config leftover "acme" "new" after_removal).0 ≡ ok tt
unfolding stage_pjsip_config remove_pjsip_config check_asterisk_health restore_target
    restore_secured is_malicious contains has sync_pinned_resolver capture_resolver
    cleanup_temp_files restore_resolver stage_resolver_file install_hosts install_resolver_file
    return ◌>>=◌ look attempt secure write remove rename_temp rename_backup copy_target
    reload_resolver reload_pjsip resolver_content join split_lines trim_space hosts_content
staged_later = refl

rolled_back_later :
    (rollback_pjsip_config leftover "acme"
      (stage_pjsip_config leftover "acme" "new" after_removal).1).0
    ≡ ok tt
unfolding stage_pjsip_config remove_pjsip_config rollback_pjsip_config check_asterisk_health
    restore_target restore_secured is_malicious contains has sync_pinned_resolver capture_resolver
    cleanup_temp_files restore_resolver stage_resolver_file install_hosts install_resolver_file
    return ◌>>=◌ look attempt secure write remove rename_temp rename_backup copy_target
    reload_resolver reload_pjsip resolver_content join split_lines trim_space hosts_content
rolled_back_later = refl

remove-rollback-stage_pjsip_config_example :
    let v = (stage_pjsip_config leftover "acme" "new" after_removal).1 in
    let x = (rollback_pjsip_config leftover "acme" v).1 in
    (after_removal.target ≡ none) × (x.target ≡ some "old") × InSync x
remove-rollback-stage_pjsip_config_example =
    remove-rollback-stage_pjsip_config leftover "acme" "new" world not_removed staged_later
      rolled_back_later
