-- ===== src/Sip/Tests.antt =====
-- A trunk on concrete inputs (internal/telephony/sip).
use agentic_voice_sdr.Base.{is_blank, trim_space, true, [], ◌∷◌, ok, pos, ◌≡◌, refl}
use agentic_voice_sdr.Sip.Config.{TrunkConfig}
use agentic_voice_sdr.Sip.Config.{
  check_auth, check_fields, complete_auth, complete_port, complete_transport, has_injection_chars,
  is_trunk_name, name_rest, check_transport, check_registration, to_lower, validate,
}
use agentic_voice_sdr.Sip.Config.Valid.{IsValid, validate_lem}
use agentic_voice_sdr.Sip.Config.{check_registration, check_transport}

abbrev pub acme : TrunkConfig
acme = record {
  provider = "Acme";
  name = "acme";
  host = "sip.acme.com";
  host_network_address = "10.0.0.7";
  port = pos 0;
  transport = "UDP";
  registrar = "";
  registrar_network_address = "";
  outbound_proxy = "";
  outbound_proxy_network_address = "";
  tls_service_name = "";
  auth_type = "";
  auth_username = "bob";
  secret = "s3cret";
  realm = "";
  from_user = "";
  from_domain = "";
  caller_id = "";
  codecs = [];
  registration_required = true;
  enabled = true;
}

-- As it is validated.
abbrev pub acme_valid : TrunkConfig
acme_valid = record acme {
  port = pos 5060;
  transport = "udp";
  auth_type = "userpass";
  codecs = "ulaw" ∷ "alaw" ∷ [];
}

acme_validates : validate acme ≡ ok acme_valid
unfolding validate check_fields complete_port complete_transport check_transport complete_auth
    check_auth check_registration to_lower has_injection_chars is_trunk_name name_rest is_blank
    trim_space
acme_validates = refl

acme_valid-IsValid : IsValid acme_valid
acme_valid-IsValid = (validate_lem acme acme_validates).0

validate_lem_example : IsValid acme_valid × (validate acme_valid ≡ ok acme_valid)
validate_lem_example = validate_lem acme acme_validates
