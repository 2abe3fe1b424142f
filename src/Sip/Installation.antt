-- ===== src/Sip/Installation.antt =====
-- internal/telephony/sip/reconciler.go: the manager with the reloader of Asterisk.
-- The checks read what Asterisk prints. The network answers the dialer without touching the files.
pub mod Calls
pub mod Applied
pub mod Histories
pub mod Tests
use agentic_voice_sdr.Base.{
  ℕ, suc, String, Bool, true, false, not, ◌&&◌, ◌||◌, Option, none, some, Result, ok, err, is_ok,
  if◌then◌else◌,
}
use agentic_voice_sdr.Base.Lines.{◌<>◌}
use agentic_voice_sdr.Sip.Resolver.{contains}
use agentic_voice_sdr.Base.Runs.{Run, return, ◌>>=◌}
use agentic_voice_sdr.Sip.Reloader.{World, Environment, Error, attempt, same}
use agentic_voice_sdr.Sip.Reloader.Transactions
use agentic_voice_sdr.Sip.Reloader.Transactions.{check_asterisk_health}
use agentic_voice_sdr.Sip.Manager.{NetworkDialer, AsteriskReloader}

-- `RunCommand`, with what it prints if it succeeds.
unfoldable pub run_command : Environment → Run World (Option String)
unfolding attempt
run_command env w = answer (attempt env same same w)
  where
    answer : Bool × World → Option String × World
    answer (false, v) = (none, v)
    answer (true, v) = (some (env.output w.count), v)

abbrev pub is_absent : String → Bool
is_absent out =
    contains "Unable to find object" out
    || contains "No objects found" out
    || contains "not found" out

-- An output that shows the object: not found, or one of two texts.
abbrev pub shows : String → String → Option String → Bool × Bool
shows a b none = (false, false)
shows a b (some out) = (not (is_absent out) && (contains a out || contains b out), true)

unfoldable pub check_transport : Environment → String → Run World (Bool × Bool)
check_transport env transport = do out ← run_command env; return (shows "Transport:" transport out)

unfoldable pub check_endpoint : Environment → String → Run World (Bool × Bool)
check_endpoint env name = do
  out ← run_command env
  return (shows "Endpoint:" ("trunk-" <> name) out)

abbrev pub registration_of : Option String → String × Bool × Bool
registration_of none = ("Unregistered", false, false)
registration_of (some out) =
    if is_absent out
    then ("Unregistered", false, true)
    else if contains "Registered" out || contains "REGISTERED" out
    then ("Registered", true, true)
    else if contains "Rejected" out || contains "REJECTED" out
    then ("Rejected", false, true)
    else ("Unregistered", false, true)

unfoldable pub check_registration : Environment → String → Run World (String × Bool × Bool)
check_registration env name = do out ← run_command env; return (registration_of out)

-- Whether a call reports no error.
unfoldable pub succeeds : Run World (Result Error (Unit {0})) → Run World Bool
succeeds m = do outcome ← m; return (is_ok outcome)

unfoldable pub health : Environment → Run World (Bool × Bool)
health env = do healthy ← check_asterisk_health env; return (healthy, healthy)

-- `RealAsteriskReloader` as an AsteriskReloader.
unfoldable pub real_asterisk_reloader : Environment → AsteriskReloader World
real_asterisk_reloader env = record {
  stage_pjsip_config = λ name text. succeeds (Transactions.stage_pjsip_config env name text);
  commit_pjsip_config = λ name. succeeds (Transactions.commit_pjsip_config env name);
  rollback_pjsip_config = λ name. succeeds (Transactions.rollback_pjsip_config env name);
  remove_pjsip_config = λ name. succeeds (Transactions.remove_pjsip_config env name);
  check_asterisk_health = health env;
  check_transport = check_transport env;
  check_endpoint = check_endpoint env;
  check_registration = check_registration env;
}

-- What the network answers: a host that resolves, an address that accepts a connection, and one that
-- accepts TLS for a server.
pub record Network : Type 0 where
  pub resolves : String → Bool
  pub accepts : String → String → Bool
  pub accepts_tls : String → String → Bool

-- `DefaultNetworkDialer` before that network, as a TLSIdentityDialer or not.
abbrev pub network_dialer : Network → Bool → NetworkDialer World
network_dialer n identifies = record {
  lookup_host = λ host. return (n.resolves host);
  dial_context = λ network address. return (n.accepts network address);
  dial_tls_context = λ address. return (n.accepts_tls address "");
  dial_tls_with_server_name =
      if identifies then some (λ address server. return (n.accepts_tls address server)) else none;
}
