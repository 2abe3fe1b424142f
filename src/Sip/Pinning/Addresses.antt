-- ===== src/Sip/Pinning/Addresses.antt =====
-- The addresses that internal/httpapi/sip_runtime.go gives a trunk stay on their line.
use agentic_voice_sdr.Base.{
  String, false, List, [], ◌∷◌, Option, none, some, any, ◌≡◌, refl, Bool-cases, inl, inr, sym,
  subst,
}
use agentic_voice_sdr.Base.Lines.{has, Free}
use agentic_voice_sdr.Base.Lines.Free.{AreFree, Free-empty, Free-<>, or_false}
use agentic_voice_sdr.Base.Runs.{
  Ends, Ends-holds, return-Ends, >>=-Ends, if-Ends, any-Ends, mono-Ends,
}
use agentic_voice_sdr.Sip.Config.{TrunkConfig}
use agentic_voice_sdr.Sip.Pjsip.{split_host_port}
use agentic_voice_sdr.Sip.Pjsip.Fields.{HasAddressLines, IsLine, split_host_port-AreFree}
use agentic_voice_sdr.Sip.Pinning.{
  Net, join_host_port, with_address, first_of, forbidden_sip_destination, allowed, lookup_host,
  pin_host, pin_parts, pin_host_port, proxy_pinned, pin_proxy, registrar_pinned, pin_registrar,
  named, host_pinned, pin_config,
}

-- The text of an address, as net.ParseIP documents it, contains no line feed.
abbrev pub ParsesLines : {S Ip : Type 0} → Net S Ip → Type 0
ParsesLines {Ip = Ip} net = (s : String) (ip : Ip) → net.parse_ip s ≡ some ip → Free 10 s

bracket-Free : Free 10 "["
unfolding Free has
bracket-Free = refl

colon-Free : Free 10 ":"
unfolding Free has
colon-Free = refl

bracket_colon-Free : Free 10 "]:"
unfolding Free has
bracket_colon-Free = refl

join-Free : (host port : String) → Free 10 host → Free 10 port → Free 10 (join_host_port host port)
join-Free host port f g = elim (Bool-cases (has 58 host)) [
  | inl many ↦ rw many (
      Free-<> 10 "[" _ bracket-Free
        (Free-<> 10 host _ f (Free-<> 10 "]:" port bracket_colon-Free g)))
  | inr one ↦ rw one (Free-<> 10 host _ f (Free-<> 10 ":" port colon-Free g))
]

with_address-IsLine :
    (port : String) (o : Option String) → Free 10 port → IsLine o → IsLine (with_address port o)
unfolding IsLine
with_address-IsLine port none f l = tt
with_address-IsLine port (some host) f l = join-Free host port l f

-- Given that the proxy that was named stays on its line, so do the addresses.
Pinned : Option TrunkConfig → Type 0
Pinned none = Unit
Pinned (some d) = Free 10 d.outbound_proxy → HasAddressLines d

module _ {S Ip : Type 0} (net : Net S Ip) (parses : ParsesLines net) where
  parsed : (o : Option Ip) → forbidden_sip_destination net o ≡ false → (ip : Ip) × (o ≡ some ip)
  parsed none h = cc
  parsed (some ip) h = (ip, refl)

  allowed-IsLine : (found : Option (List String)) → IsLine (first_of net (allowed net found))
  unfolding IsLine
  allowed-IsLine none = tt
  allowed-IsLine (some []) = tt
  allowed-IsLine (some (x ∷ xs)) =
      elim (Bool-cases (any (λ s. forbidden_sip_destination net (net.parse_ip s)) (x ∷ xs))) [
        | inl bad ↦ rw bad tt
        | inr fine ↦
            let (ip, e) = parsed (net.parse_ip x) (or_false _ _ fine).0 in rw fine (parses x ip e)
      ]

  pin_host-Ends : (host : String) {w : S} → Ends (λ o v. IsLine o) (pin_host net host) w
  unfolding pin_host lookup_host IsLine
  pin_host-Ends host = if-Ends _ (return-Ends _ tt) (
      >>=-Ends
        (>>=-Ends (any-Ends (λ found v. return-Ends _ (return-Ends _ (allowed-IsLine found))))))

  pin_parts-Ends :
      (value : String) (r : Option (String × String)) {w : S}
      → Ends (λ o v. AreFree 10 r → IsLine o) (pin_parts net value r) w
  unfolding AreFree
  pin_parts-Ends value none = mono-Ends (pin_host-Ends value) (λ o v l f. l)
  pin_parts-Ends value (some (host, port)) = >>=-Ends (
      mono-Ends (pin_host-Ends host)
        (λ o v l. return-Ends _ (λ f. with_address-IsLine port o f.1 l)))

  pin_host_port-Ends :
      (value : String) {w : S} → Ends (λ o v. Free 10 value → IsLine o) (pin_host_port net value) w
  unfolding pin_host_port
  pin_host_port-Ends value =
      mono-Ends (pin_parts-Ends value (split_host_port value))
        (λ o v l f. l (split_host_port-AreFree value f))

  proxy_pinned-Pinned :
      (c : TrunkConfig) (o : Option String)
      → Free 10 c.host_network_address
      → Free 10 c.registrar_network_address
      → (Free 10 c.outbound_proxy → IsLine o)
      → Pinned (proxy_pinned net c o)
  unfolding Pinned HasAddressLines IsLine
  proxy_pinned-Pinned c none h r p = tt
  proxy_pinned-Pinned c (some a) h r p = λ f. (h, r, p f)

  pin_proxy-Ends :
      (c : TrunkConfig) {w : S}
      → Free 10 c.host_network_address
      → Free 10 c.registrar_network_address
      → Free 10 c.outbound_proxy_network_address
      → Ends (λ o v. Pinned o) (pin_proxy net c) w
  unfolding Pinned HasAddressLines
  pin_proxy-Ends c h r p = if-Ends _ (return-Ends _ (λ f. (h, r, p))) (
      >>=-Ends (
        mono-Ends (pin_host_port-Ends c.outbound_proxy)
          (λ o v l. return-Ends _ (proxy_pinned-Pinned c o h r l))))

  registrar_pinned-Ends :
      (c : TrunkConfig) (o : Option String) {w : S}
      → Free 10 c.host_network_address
      → Free 10 c.outbound_proxy_network_address
      → IsLine o
      → Ends (λ o v. Pinned o) (registrar_pinned net c o) w
  unfolding Pinned IsLine
  registrar_pinned-Ends c none h p l = return-Ends _ tt
  registrar_pinned-Ends c (some a) h p l =
      pin_proxy-Ends (record c { registrar_network_address = a }) h l p

  pin_registrar-Ends :
      (c : TrunkConfig) {w : S}
      → Free 10 c.host_network_address
      → Free 10 c.registrar_network_address
      → Free 10 c.outbound_proxy_network_address
      → Ends (λ o v. Pinned o) (pin_registrar net c) w
  pin_registrar-Ends c h r p =
      if-Ends _ (pin_proxy-Ends c h r p) (
        >>=-Ends (mono-Ends (pin_host-Ends c.registrar) (λ o v l. registrar_pinned-Ends c o h p l)))

  host_pinned-Ends :
      (c : TrunkConfig) (o : Option String) {w : S}
      → Free 10 c.registrar_network_address
      → Free 10 c.outbound_proxy_network_address
      → IsLine o
      → Ends (λ o v. Pinned o) (host_pinned net c o) w
  unfolding Pinned IsLine
  host_pinned-Ends c none r p l = return-Ends _ tt
  host_pinned-Ends c (some a) r p l =
      pin_registrar-Ends (named net (record c { host_network_address = a })) l r p

  -- A trunk that was pinned has addresses that stay on their line.
  pub pin_config-HasAddressLines :
      (c : TrunkConfig) {d : TrunkConfig} (w : S)
      → c.registrar_network_address ≡ ""
      → c.outbound_proxy_network_address ≡ ""
      → (pin_config net c w).0 ≡ some d
      → Free 10 d.outbound_proxy
      → HasAddressLines d
  unfolding pin_config Pinned
  pin_config-HasAddressLines c w no_registrar no_proxy pinned = subst Pinned pinned (
      Ends-holds (
        >>=-Ends (
          mono-Ends (pin_host-Ends c.host)
            (λ o v l. host_pinned-Ends c o (unset no_registrar) (unset no_proxy) l))))
    where
      unset : {s : String} → s ≡ "" → Free 10 s
      unset e = subst (Free 10) (sym e) (Free-empty 10)
