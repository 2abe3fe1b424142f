-- ===== src/Sip/Pinning/Tests.antt =====
-- A trunk that is pinned, on concrete inputs (internal/httpapi/sip_runtime.go).
use agentic_voice_sdr.Base.{
  ℕ, suc, String, false, none, some, ok, [], ◌∷◌, ◌++◌, if◌then◌else◌, str_eq, eq_iff, ◌≡◌, refl,
  sym, subst, Bool-cases, inl, inr, is_blank, trim_space, arith,
}
use agentic_voice_sdr.Base.Lines.{Free, has, cut_last, split_lines, unlines}
use agentic_voice_sdr.Base.Runs.{return, ◌>>=◌}
use agentic_voice_sdr.Sip.Config.{
  TrunkConfig, validate, check_fields, complete_port, complete_transport, check_transport,
  complete_auth, check_auth, check_registration, to_lower, has_injection_chars, is_trunk_name,
  name_rest, redacted,
}
use agentic_voice_sdr.Sip.Config.Valid.{validate-IsValid, validate_fixed}
use agentic_voice_sdr.Sip.Pjsip.{
  generate_pjsip_config, template_lines, template_data, mask_pjsip_secrets, split_host_port,
  split_parts,
}
use agentic_voice_sdr.Sip.Pjsip.Sections.{headings, sections}
use agentic_voice_sdr.Sip.Tests.{acme, acme_valid}
use agentic_voice_sdr.Sip.Pinning.{Net, lookup_host, pin_host, pin_host_port, pin_config}
use agentic_voice_sdr.Sip.Pinning.Addresses.{ParsesLines}
use agentic_voice_sdr.Sip.Pinning.Texts.{generate-pin_config-sections, mask-generate-pin_config}

-- Every name resolves to one address, which is public; the lookups are counted.
abbrev one_address : Net ℕ Unit
one_address = record {
  lookup_host = λ host n. (some ("203.0.113.7" ∷ []), suc n);
  parse_ip = λ s. if str_eq s "203.0.113.7" then some tt else none;
  is_loopback = λ ip. false;
  is_private = λ ip. false;
  is_unspecified = λ ip. false;
  is_multicast = λ ip. false;
  is_link_local_unicast = λ ip. false;
  is_link_local_multicast = λ ip. false;
}

address_line : Free 10 "203.0.113.7"
unfolding Free has
address_line = refl

one_address-ParsesLines : ParsesLines one_address
one_address-ParsesLines s ip h = elim (Bool-cases (str_eq s "203.0.113.7")) [
  | inl same ↦ subst (Free 10) (sym ((eq_iff s "203.0.113.7").0 same)) address_line
  | inr other ↦ absurd (ground arith)
]

-- It comes without network addresses, and goes through a proxy.
abbrev through_proxy : TrunkConfig
through_proxy = record acme { host_network_address = ""; outbound_proxy = "proxy.acme.com:5070" }

abbrev pinned : TrunkConfig
pinned = record through_proxy {
  host_network_address = "203.0.113.7";
  outbound_proxy_network_address = "203.0.113.7:5070";
}

pins : (pin_config one_address through_proxy 0).0 ≡ some pinned
unfolding pin_config pin_host pin_host_port lookup_host split_host_port split_parts cut_last has
    return ◌>>=◌
pins = refl

abbrev accepted : TrunkConfig
accepted = record acme_valid {
  host_network_address = "203.0.113.7";
  outbound_proxy = "proxy.acme.com:5070";
  outbound_proxy_network_address = "203.0.113.7:5070";
}

accepts : validate pinned ≡ ok accepted
unfolding validate check_fields complete_port complete_transport check_transport complete_auth
    check_auth check_registration to_lower has_injection_chars is_trunk_name name_rest is_blank
    trim_space
accepts = refl

generate-pin_config-sections_example :
    (text : String) × (generate_pjsip_config accepted ≡ ok text)
    × (split_lines text ≡ template_lines (template_data accepted) ++ ("" ∷ []))
    × (headings (split_lines text)
        ≡ "[trunk-acme-auth]" ∷ "[trunk-acme-aor]" ∷ "[trunk-acme]" ∷ "[trunk-acme-reg]" ∷ [])
unfolding sections
generate-pin_config-sections_example =
    generate-pin_config-sections one_address one_address-ParsesLines through_proxy 0 refl refl pins
      accepts

unfoldable text_of : String
text_of = unlines (template_lines (template_data accepted))

generated : generate_pjsip_config accepted ≡ ok text_of
unfolding generate_pjsip_config text_of
generated = rw (validate_fixed accepted (validate-IsValid pinned accepts)) refl

mask-generate-pin_config_example :
    generate_pjsip_config (redacted accepted) ≡ ok (mask_pjsip_secrets text_of)
mask-generate-pin_config_example =
    mask-generate-pin_config one_address one_address-ParsesLines through_proxy 0 refl refl pins
      accepts generated
