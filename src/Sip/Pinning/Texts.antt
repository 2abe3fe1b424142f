-- ===== src/Sip/Pinning/Texts.antt =====
-- The text of a trunk whose addresses internal/httpapi/sip_runtime.go has pinned.
use agentic_voice_sdr.Base.{String, [], ◌∷◌, ◌++◌, some, ok, ◌≡◌, sym, subst}
use agentic_voice_sdr.Base.Lines.{Free, split_lines}
use agentic_voice_sdr.Sip.Config.{TrunkConfig, validate, redacted}
use agentic_voice_sdr.Sip.Config.Valid.{validate-IsValid, validate-addresses}
use agentic_voice_sdr.Sip.Pjsip.{
  generate_pjsip_config, template_lines, template_data, mask_pjsip_secrets,
}
use agentic_voice_sdr.Sip.Pjsip.Fields.{HasAddressLines, outbound_proxy-Free}
use agentic_voice_sdr.Sip.Pjsip.Sections.{generate_pjsip_config-sections, headings, sections}
use agentic_voice_sdr.Sip.Pjsip.Secrets.{mask-generate_pjsip_config}
use agentic_voice_sdr.Sip.Pinning.{Net, pin_config}
use agentic_voice_sdr.Sip.Pinning.Addresses.{ParsesLines, pin_config-HasAddressLines}

-- What validation makes of a trunk keeps its addresses.
validate-HasAddressLines :
    (c : TrunkConfig) {d : TrunkConfig}
    → validate c ≡ ok d
    → (Free 10 c.outbound_proxy → HasAddressLines c)
    → HasAddressLines d
unfolding HasAddressLines
validate-HasAddressLines c {d} h lines =
    let (proxy, host_at, registrar_at, proxy_at) = validate-addresses c h in
    let (a, b, e) = lines (subst (Free 10) proxy (outbound_proxy-Free d (validate-IsValid c h))) in
    (
      subst (Free 10) (sym host_at) a,
      subst (Free 10) (sym registrar_at) b,
      subst (Free 10) (sym proxy_at) e,
    )

module _ {S Ip : Type 0} (net : Net S Ip) (parses : ParsesLines net) (c : TrunkConfig)
    {pinned d : TrunkConfig} (w : S) (no_registrar : c.registrar_network_address ≡ "")
    (no_proxy : c.outbound_proxy_network_address ≡ "") (pins : (pin_config net c w).0 ≡ some pinned)
    (accepts : validate pinned ≡ ok d) where
  addresses : HasAddressLines d
  addresses =
      validate-HasAddressLines pinned accepts
        (pin_config-HasAddressLines net parses c w no_registrar no_proxy pins)

  -- Let package net take no text with a line feed for an address. The text of a trunk that came without network
  -- addresses, was pinned and then validated, read back line by line, has the lines of the template and
  -- opens the sections of that trunk, in their order, and no other: no value of a field, whoever gave it,
  -- opens a line or a section of its own.
  pub generate-pin_config-sections :
      (text : String) × (generate_pjsip_config d ≡ ok text)
      × (split_lines text ≡ template_lines (template_data d) ++ ("" ∷ []))
      × (headings (split_lines text) ≡ sections d)
  generate-pin_config-sections =
      generate_pjsip_config-sections d (validate-IsValid pinned accepts) addresses

  -- Let package net take no text with a line feed for an address. The text of a trunk that came without network
  -- addresses, was pinned and then validated, with its secret masked is the text of the trunk whose secret
  -- was redacted first: what is logged depends on nothing but the redacted configuration.
  pub mask-generate-pin_config :
      {text : String}
      → generate_pjsip_config d ≡ ok text
      → generate_pjsip_config (redacted d) ≡ ok (mask_pjsip_secrets text)
  mask-generate-pin_config =
      mask-generate_pjsip_config d (validate-IsValid pinned accepts) addresses
