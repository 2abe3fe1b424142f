-- ===== src/Sip/Manager.antt =====
-- internal/telephony/sip/reconciler.go, Manager: how a trunk is applied.
-- The dialer and the reloader are interfaces on a state that they share, for each call of theirs true is an
-- error of nil. The locks make one call of ApplyTrunk one step. The wording of errors and the time of a report are left out; a
-- report that is empty has no status.
pub mod Applied
use agentic_voice_sdr.Base.{
  String, Bool, true, false, not, ◌&&◌, ◌||◌, List, [], ◌∷◌, Option, none, some, Result, ok, err,
  if◌then◌else◌, str_eq, is_empty,
}
use agentic_voice_sdr.Base.Lines.{◌<>◌, show_int}
use agentic_voice_sdr.Base.Runs.{Run, return, ◌>>=◌}
use agentic_voice_sdr.Sip.Config.{TrunkConfig, Error, validate, default}
use agentic_voice_sdr.Sip.Pjsip.{generate_pjsip_config}

pub data LifecycleStatus : Type 0 where
  configured validating registered ready dns_error connection_error : LifecycleStatus
  auth_error registration_failed disabled : LifecycleStatus

pub record StatusReport : Type 0 where
  pub trunk_name : String
  pub provider : String
  pub status : Option LifecycleStatus
  pub asterisk_healthy : Bool
  pub endpoint_active : Bool
  pub registration_state : String

pub record NetworkDialer (S : Type 0) : Type 0 where
  pub lookup_host : String → Run S Bool
  pub dial_context : String → String → Run S Bool
  pub dial_tls_context : String → Run S Bool
  -- `TLSIdentityDialer`, which a dialer may be as well.
  pub dial_tls_with_server_name : Option (String → String → Run S Bool)

-- The result of a check is what it found, and whether it could be made.
pub record AsteriskReloader (S : Type 0) : Type 0 where
  pub stage_pjsip_config : String → String → Run S Bool
  pub commit_pjsip_config : String → Run S Bool
  pub rollback_pjsip_config : String → Run S Bool
  pub remove_pjsip_config : String → Run S Bool
  pub check_asterisk_health : Run S (Bool × Bool)
  pub check_transport : String → Run S (Bool × Bool)
  pub check_endpoint : String → Run S (Bool × Bool)
  pub check_registration : String → Run S (String × Bool × Bool)

pub record Manager : Type 0 where
  pub trunks : List (String × TrunkConfig)
  pub statuses : List (String × StatusReport)
  pub pjsip_configs : List (String × String)

-- `NewManager`, with a dialer and a reloader.
abbrev pub new_manager : Manager
new_manager = record { trunks = []; statuses = []; pjsip_configs = [] }

pub data Cause : Type 0 where
  dns connection tls generation staging health transport endpoint registration committing : Cause

-- An error of a transaction tells whether its rollback failed too.
pub data ApplyError : Type 0 where
  invalid : Error → ApplyError
  not_disabled : ApplyError
  failed : Cause → ApplyError
  rolled_back : Cause → Bool → ApplyError

unfoldable pub find {ℓ} : {V : Type ℓ} → String → List (String × V) → Option V
find name [] = none
find name ((key, v) ∷ m) = let rest = find name m in if str_eq key name then some v else rest

unfoldable pub drop_entry {ℓ} : {V : Type ℓ} → String → List (String × V) → List (String × V)
drop_entry name [] = []
drop_entry name ((key, v) ∷ m) =
    let rest = drop_entry name m in if str_eq key name then rest else (key, v) ∷ rest

-- A map with one key assigned.
unfoldable pub assign {ℓ} : {V : Type ℓ} → String → V → List (String × V) → List (String × V)
unfolding drop_entry
assign name v m = (name, v) ∷ drop_entry name m

-- A report on a trunk that is not up.
abbrev pub report : TrunkConfig → LifecycleStatus → StatusReport
report c status = record {
  trunk_name = c.name;
  provider = c.provider;
  status = some status;
  asterisk_healthy = false;
  endpoint_active = false;
  registration_state = "";
}

abbrev pub empty_report : StatusReport
empty_report = record {
  trunk_name = "";
  provider = "";
  status = none;
  asterisk_healthy = false;
  endpoint_active = false;
  registration_state = "";
}

-- What a transaction gives: a report, and the text that was applied or an error.
abbrev pub Outcome : Type 0
Outcome = StatusReport × Result ApplyError String

abbrev pub dial_host : TrunkConfig → String
dial_host c = default c.host_network_address c.host

module _ {S : Type 0} (d : NetworkDialer S) (r : AsteriskReloader S) where
  abbrev pub dial_tls : Option (String → String → Run S Bool) → String → String → Run S Bool
  dial_tls none address name = d.dial_tls_context address
  dial_tls (some dial) address name = dial address name

  -- Step 2, the connection to the trunk.
  unfoldable pub reach : TrunkConfig → Run S Bool
  reach c =
      let address = dial_host c <> ":" <> show_int c.port in
      if str_eq c.transport "tls"
      then dial_tls d.dial_tls_with_server_name address (default c.tls_service_name c.host)
      else d.dial_context c.transport address

  -- `rollbackTransaction`.
  unfoldable pub rollback_transaction :
      TrunkConfig → StatusReport → Cause → LifecycleStatus → Run S Outcome
  rollback_transaction c rep cause status = do
    back ← r.rollback_pjsip_config c.name
    return (
      record rep { status = some status; endpoint_active = false },
      err (rolled_back cause (not back)),
    )

  -- Step 8 and the end.
  unfoldable pub commit : TrunkConfig → String → StatusReport → Run S Outcome
  commit c text rep = do
    committed ← r.commit_pjsip_config c.name
    if not committed
        then rollback_transaction c rep committing configured
        else return (rep, ok text)

  abbrev pub up : String → StatusReport → StatusReport
  up state rep = record rep {
    status = some ready;
    endpoint_active = true;
    registration_state = state;
  }

  abbrev pub judge : TrunkConfig → String → StatusReport → String × Bool × Bool → Run S Outcome
  judge c text rep (state, healthy, answered) =
      if not answered || not healthy || not (str_eq state "Registered" || str_eq state "REGISTERED")
      then rollback_transaction c (record rep { registration_state = state }) registration
          registration_failed
      else commit c text (up state rep)

  -- Step 7.
  unfoldable pub verify_registration : TrunkConfig → String → StatusReport → Run S Outcome
  verify_registration c text rep =
      if c.registration_required
      then (do found ← r.check_registration c.name; judge c text rep found)
      else commit c text (up "N/A" rep)

  -- Steps 5 to 6.
  unfoldable pub verify : TrunkConfig → String → Run S Outcome
  verify c text = do
    health_found ← r.check_asterisk_health
    let rep = record (report c validating) { asterisk_healthy = health_found.0 } in
        if not health_found.1 || not health_found.0
        then rollback_transaction c rep health connection_error
        else do
          transport_found ← r.check_transport c.transport
          if not transport_found.1 || not transport_found.0
              then rollback_transaction c rep transport configured
              else do
                endpoint_found ← r.check_endpoint c.name
                let rep2 = record rep { endpoint_active = endpoint_found.0 } in
                    if not endpoint_found.1 || not endpoint_found.0
                    then rollback_transaction c rep2 endpoint configured
                    else verify_registration c text rep2

  -- Steps 3 and 4.
  unfoldable pub stage : TrunkConfig → Result Error String → Run S Outcome
  stage c (err e) = return (report c configured, err (failed generation))
  stage c (ok text) = do
    staged ← r.stage_pjsip_config c.name text
    if not staged then return (report c configured, err (failed staging)) else verify c text

  abbrev pub unreached : TrunkConfig → ApplyError
  unreached c = failed (if str_eq c.transport "tls" then tls else connection)

  -- The transaction that enables a trunk.
  unfoldable pub enable : TrunkConfig → Run S Outcome
  enable c = do
    found ← d.lookup_host (dial_host c)
    if not found then return (report c dns_error, err (failed dns)) else do
      reached ← reach c
      if not reached
          then return (report c connection_error, err (unreached c))
          else stage c (generate_pjsip_config c)

  abbrev pub enabled_with :
      Manager → TrunkConfig → Outcome → (StatusReport × Option ApplyError) × Manager
  enabled_with m c (rep, err e) = ((rep, some e), m)
  enabled_with m c (rep, ok text) = (
    (rep, none),
    record {
      trunks = assign c.name c m.trunks;
      statuses = assign c.name rep m.statuses;
      pjsip_configs = assign c.name text m.pjsip_configs;
    },
  )

  abbrev pub disabled_with :
      Manager → TrunkConfig → Bool → (StatusReport × Option ApplyError) × Manager
  disabled_with m c false = ((empty_report, some not_disabled), m)
  disabled_with m c true =
      let rep = record (report c disabled) { registration_state = "Disabled" } in
      (
        (rep, none),
        record {
          trunks = assign c.name c m.trunks;
          statuses = assign c.name rep m.statuses;
          pjsip_configs = drop_entry c.name m.pjsip_configs;
        },
      )

  -- The transaction for a trunk that is enabled or not.
  abbrev pub transact :
      Manager → TrunkConfig → Bool → Run S ((StatusReport × Option ApplyError) × Manager)
  transact m c false = do removed ← r.remove_pjsip_config c.name; return (disabled_with m c removed)
  transact m c true = do outcome ← enable c; return (enabled_with m c outcome)

  abbrev pub apply_checked :
      Manager
      → TrunkConfig
      → Result Error TrunkConfig
      → Run S ((StatusReport × Option ApplyError) × Manager)
  apply_checked m c (err e) = return ((report c auth_error, some (invalid e)), m)
  apply_checked m c (ok valid) = transact m valid valid.enabled

  -- `ApplyTrunk`.
  unfoldable pub apply_trunk :
      Manager → TrunkConfig → Run S ((StatusReport × Option ApplyError) × Manager)
  apply_trunk m c = apply_checked m c (validate c)

-- `GetTrunk`, `GetStatus` and `GetPJSIPConfig`.
unfoldable pub get_trunk : Manager → String → Option TrunkConfig
unfolding find
get_trunk m name = find name m.trunks

unfoldable pub get_status : Manager → String → Option StatusReport
unfolding find
get_status m name = find name m.statuses

unfoldable pub get_pjsip_config : Manager → String → Option String
unfolding find
get_pjsip_config m name = find name m.pjsip_configs
