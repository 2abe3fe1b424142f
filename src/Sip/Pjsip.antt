-- ===== src/Sip/Pjsip.antt =====
-- internal/telephony/sip/pjsip.go: the text of a trunk's configuration for Asterisk.
-- A template is the list of its lines, each with a line feed after it.
pub mod Lines
pub mod Fields
pub mod Sections
pub mod Secrets
use agentic_voice_sdr.Base.{
  ℕ, String, Bool, true, false, not, ◌&&◌, ◌||◌, List, [], ◌∷◌, ◌++◌, map, Option, none, some,
  Result, ok, err, if◌then◌else◌, ◌==◌, ℤ, str_eq, is_empty,
}
use agentic_voice_sdr.Base.Lines.{
  ◌<>◌, has, cut, cut_last, trim_brackets, show_int, atoi, split_lines, join, unlines,
}
use agentic_voice_sdr.Sip.Config.{TrunkConfig, Error, validate, default}
use Prim.Native.Char.{Char, code}

abbrev pub starts_with_bracket : String → Bool
starts_with_bracket String.[] = false
starts_with_bracket (String.◌∷◌ c s) = code c == 91

-- What stands between brackets: the first closing one is the last character.
abbrev pub between : Option (String × String) → Option String
between none = none
between (some (a, b)) = if is_empty b then some a else none

unfoldable pub unbracketed : String → Option String
unbracketed String.[] = none
unbracketed (String.◌∷◌ c s) = between (cut 93 s)

abbrev pub with_port : String → Option String → Option (String × String)
with_port port none = none
with_port port (some host) =
    if has 91 host || has 91 port || has 93 port then none else some (host, port)

unfoldable pub split_parts : Option (String × String) → Option (String × String)
unfolding unbracketed
split_parts none = none
split_parts (some (host, port)) =
    if starts_with_bracket host
    then with_port port (unbracketed host)
    else if has 58 host || has 91 host || has 93 host || has 91 port || has 93 port
    then none
    else some (host, port)

-- `net.SplitHostPort`.
unfoldable pub split_host_port : String → Option (String × String)
split_host_port value = split_parts (cut_last 58 value)

abbrev pub host_or : String → Option (String × String) → String
host_or s none = s
host_or s (some (host, port)) = host

unfoldable pub pinned_resolver_host : String → String
pinned_resolver_host value = host_or (trim_brackets value) (split_host_port value)

unfoldable pub sip_host_port : String → ℤ → String
sip_host_port host port =
    if has 58 host && not (starts_with_bracket host)
    then "[" <> host <> "]:" <> show_int port
    else host <> ":" <> show_int port

abbrev pub with_parsed : String → String → Option ℤ → String
with_parsed fallback host none = fallback
with_parsed fallback host (some port) = sip_host_port host port

abbrev pub with_split : String → Option (String × String) → String
with_split fallback none = fallback
with_split fallback (some (host, port)) = with_parsed fallback host (atoi port)

unfoldable pub sip_uri_host_port : String → ℤ → String
sip_uri_host_port value fallback_port =
    with_split (sip_host_port (trim_brackets value) fallback_port) (split_host_port value)

-- `pjsipTemplateData`, as far as the template reads it; `proxy` is its OutboundProxy.
pub record PjsipTemplateData : Type 0 where
  pub cfg : TrunkConfig
  pub proxy : String
  pub codecs_string : String
  pub registrar_or_host : String
  pub host_network_address_or_host : String
  pub outbound_proxy_network_address_or_proxy : String
  pub registration_identity : String

-- `{{ if .X }}…{{ end }}` within a line.
abbrev pub when_set : String → String → String
when_set value line = if is_empty value then "" else line

abbrev pub when : Bool → String → String
when b line = if b then line else ""

abbrev pub block : Bool → List String → List String
block b lines = if b then lines else []

abbrev pub is_userpass : PjsipTemplateData → Bool
is_userpass d = str_eq d.cfg.auth_type "userpass"

unfoldable pub auth_lines : TrunkConfig → List String
auth_lines c =
    ("[trunk-" <> c.name <> "-auth]")
    ∷ "type=auth"
    ∷ "auth_type=userpass"
    ∷ ("username=" <> c.auth_username)
    ∷ ("password=" <> c.secret)
    ∷ when_set c.realm ("realm=" <> c.realm)
    ∷ []

unfoldable pub endpoint_lines : PjsipTemplateData → List String
endpoint_lines d =
    ("[trunk-" <> d.cfg.name <> "-aor]")
    ∷ "type=aor"
    ∷ ("contact=sip:" <> d.host_network_address_or_host)
    ∷ ""
    ∷ ("[trunk-" <> d.cfg.name <> "]")
    ∷ "type=endpoint"
    ∷ ("transport=transport-" <> d.cfg.transport)
    ∷ "context=from-external"
    ∷ "disallow=all"
    ∷ ("allow=" <> d.codecs_string)
    ∷ when (is_userpass d) ("outbound_auth=trunk-" <> d.cfg.name <> "-auth")
    ∷ ("aors=trunk-" <> d.cfg.name <> "-aor")
    ∷ when_set d.cfg.from_user ("from_user=" <> d.cfg.from_user)
    ∷ when_set d.cfg.from_domain ("from_domain=" <> d.cfg.from_domain)
    ∷ when_set d.proxy ("outbound_proxy=sip:" <> d.outbound_proxy_network_address_or_proxy)
    ∷ when_set d.cfg.caller_id ("callerid=" <> d.cfg.caller_id)
    ∷ ""
    ∷ []

unfoldable pub registration_lines : PjsipTemplateData → List String
registration_lines d =
    ("[trunk-" <> d.cfg.name <> "-reg]")
    ∷ "type=registration"
    ∷ ("transport=transport-" <> d.cfg.transport)
    ∷ when (is_userpass d) ("outbound_auth=trunk-" <> d.cfg.name <> "-auth")
    ∷ ("server_uri=sip:" <> d.registrar_or_host)
    ∷ when_set d.proxy ("outbound_proxy=sip:" <> d.outbound_proxy_network_address_or_proxy)
    ∷ ("client_uri=sip:" <> d.registration_identity <> "@" <> d.registrar_or_host)
    ∷ "retry_interval=60"
    ∷ []

abbrev pub pin : String → String → String
pin host address = "; gru83-pin host=" <> host <> " address=" <> address

abbrev pub title_lines : TrunkConfig → List String
title_lines c =
    "; =============================================================================="
    ∷ ("; PJSIP Trunk Configuration: " <> c.name <> " (Provider: " <> c.provider <> ")")
    ∷ "; Generated automatically by Agentic Voice SDR SIP Reconciler"
    ∷ "; =============================================================================="
    ∷ ""
    ∷ []

abbrev pub pin_lines : PjsipTemplateData → List String
pin_lines d =
    pin d.cfg.host d.cfg.host_network_address
    ∷ (block (not (is_empty d.cfg.registrar))
          (pin d.cfg.registrar d.cfg.registrar_network_address ∷ [])
        ++ (""
            ∷ (block (not (is_empty d.proxy))
                  (pin d.proxy d.cfg.outbound_proxy_network_address ∷ [])
                ++ ("" ∷ []))))

-- `pjsipTmplText`.
unfoldable pub template_lines : PjsipTemplateData → List String
unfolding auth_lines endpoint_lines registration_lines
template_lines d =
    title_lines d.cfg
    ++ (block (is_userpass d) (auth_lines d.cfg)
        ++ (""
            ∷ (endpoint_lines d
                ++ (block d.cfg.registration_required (registration_lines d)
                    ++ ("" ∷ pin_lines d)))))

-- What the template is executed on.
unfoldable pub template_data : TrunkConfig → PjsipTemplateData
unfolding pinned_resolver_host sip_host_port sip_uri_host_port
template_data c = record {
  cfg = c;
  proxy = pinned_resolver_host c.outbound_proxy;
  codecs_string = default (join "," c.codecs) "ulaw,alaw";
  registrar_or_host = sip_host_port (default c.registrar c.host) c.port;
  host_network_address_or_host = sip_uri_host_port (default c.host_network_address c.host) c.port;
  outbound_proxy_network_address_or_proxy =
      sip_uri_host_port (default c.outbound_proxy_network_address c.outbound_proxy) c.port;
  registration_identity = default c.auth_username c.from_user;
}

abbrev pub rendered : Result Error TrunkConfig → Result Error String
rendered (err e) = err e
rendered (ok c) = ok (unlines (template_lines (template_data c)))

-- `GeneratePJSIPConfig`.
unfoldable pub generate_pjsip_config : TrunkConfig → Result Error String
generate_pjsip_config c = rendered (validate c)

-- The text after a text that it starts with.
unfoldable pub without_prefix : String → String → Option String
without_prefix String.[] s = some s
without_prefix (String.◌∷◌ c p) String.[] = none
without_prefix (String.◌∷◌ c p) (String.◌∷◌ d s) =
    let rest = without_prefix p s in if code c == code d then rest else none

abbrev pub masked : String → Option String → String
masked line none = line
masked line (some s) = if is_empty s then line else "password=*****"

-- `^(password=)(.+)$` on a line.
unfoldable pub mask_line : String → String
unfolding without_prefix
mask_line line = masked line (without_prefix "password=" line)

-- `MaskPJSIPSecrets`.
unfoldable pub mask_pjsip_secrets : String → String
mask_pjsip_secrets s = join "\n" (map mask_line (split_lines s))
