-- ===== src/Sip/Pinning.antt =====
-- internal/httpapi/sip_runtime.go: the network addresses of a trunk, taken from what its host names resolve to.
-- Package net is a parameter: the lookup of a name, where none is an error, and what it tells of an address.
pub mod Addresses
pub mod Texts
pub mod Tests
use agentic_voice_sdr.Base.{
  String, Bool, true, false, ◌&&◌, ◌||◌, List, [], ◌∷◌, Option, none, some, if◌then◌else◌, str_eq,
  is_empty, is_some, any,
}
use agentic_voice_sdr.Base.Lines.{◌<>◌, has}
use agentic_voice_sdr.Base.Runs.{Run, return, ◌>>=◌}
use agentic_voice_sdr.Sip.Config.{TrunkConfig}
use agentic_voice_sdr.Sip.Pjsip.{split_host_port}

pub record Net (S Ip : Type 0) : Type 0 where
  pub lookup_host : String → Run S (Option (List String))
  pub parse_ip : String → Option Ip
  pub is_loopback : Ip → Bool
  pub is_private : Ip → Bool
  pub is_unspecified : Ip → Bool
  pub is_multicast : Ip → Bool
  pub is_link_local_unicast : Ip → Bool
  pub is_link_local_multicast : Ip → Bool

-- `net.JoinHostPort`.
abbrev pub join_host_port : String → String → String
join_host_port host port = if has 58 host then "[" <> host <> "]:" <> port else host <> ":" <> port

abbrev pub with_address : String → Option String → Option String
with_address port none = none
with_address port (some host) = some (join_host_port host port)

abbrev pub first : List String → Option String
first [] = none
first (a ∷ rest) = some a

module _ {S Ip : Type 0} (net : Net S Ip) where
  -- `forbiddenSIPDestination`.
  abbrev pub forbidden_sip_destination : Option Ip → Bool
  forbidden_sip_destination none = true
  forbidden_sip_destination (some ip) =
      net.is_loopback ip
      || net.is_private ip
      || net.is_unspecified ip
      || net.is_multicast ip
      || net.is_link_local_unicast ip
      || net.is_link_local_multicast ip

  -- The tests on what a lookup gave.
  abbrev pub allowed : Option (List String) → Option (List String)
  allowed none = none
  allowed (some []) = none
  allowed (some (a ∷ rest)) =
      if any (λ s. forbidden_sip_destination (net.parse_ip s)) (a ∷ rest)
      then none
      else some (a ∷ rest)

  unfoldable pub lookup_host : String → Run S (Option (List String))
  lookup_host host = do found ← net.lookup_host host; return (allowed found)

  abbrev pub first_of : Option (List String) → Option String
  first_of none = none
  first_of (some found) = first found

  unfoldable pub pin_host : String → Run S (Option String)
  unfolding lookup_host
  pin_host host =
      if is_some (net.parse_ip host) && forbidden_sip_destination (net.parse_ip host)
      then return none
      else (do found ← lookup_host host; return (first_of found))

  abbrev pub pin_parts : String → Option (String × String) → Run S (Option String)
  pin_parts value none = pin_host value
  pin_parts value (some (host, port)) = do ip ← pin_host host; return (with_address port ip)

  unfoldable pub pin_host_port : String → Run S (Option String)
  unfolding pin_host
  pin_host_port value = pin_parts value (split_host_port value)

  abbrev pub proxy_pinned : TrunkConfig → Option String → Option TrunkConfig
  proxy_pinned c none = none
  proxy_pinned c (some a) = some (record c { outbound_proxy_network_address = a })

  abbrev pub pin_proxy : TrunkConfig → Run S (Option TrunkConfig)
  pin_proxy c =
      if is_empty c.outbound_proxy
      then return (some c)
      else (do a ← pin_host_port c.outbound_proxy; return (proxy_pinned c a))

  abbrev pub registrar_pinned : TrunkConfig → Option String → Run S (Option TrunkConfig)
  registrar_pinned c none = return none
  registrar_pinned c (some a) = pin_proxy (record c { registrar_network_address = a })

  abbrev pub pin_registrar : TrunkConfig → Run S (Option TrunkConfig)
  pin_registrar c =
      if is_empty c.registrar
      then pin_proxy c
      else (do a ← pin_host c.registrar; registrar_pinned c a)

  -- Under TLS the name of the service is that of the host.
  abbrev pub named : TrunkConfig → TrunkConfig
  named c = record c {
    tls_service_name = if str_eq c.transport "tls" then c.host else c.tls_service_name;
  }

  abbrev pub host_pinned : TrunkConfig → Option String → Run S (Option TrunkConfig)
  host_pinned c none = return none
  host_pinned c (some a) = pin_registrar (named (record c { host_network_address = a }))

  -- `PinConfig`.
  unfoldable pub pin_config : TrunkConfig → Run S (Option TrunkConfig)
  unfolding pin_host pin_host_port
  pin_config c = do a ← pin_host c.host; host_pinned c a
