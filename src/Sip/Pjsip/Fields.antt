-- ===== src/Sip/Pjsip/Fields.antt =====
-- What a valid configuration has the template print (internal/telephony/sip/pjsip.go).
use agentic_voice_sdr.Base.{
  String, Bool, false, not, List, [], ◌∷◌, Option, none, some, is_empty, ℤ, ◌≡◌, refl, sym, subst,
  All, any, inl, inr, Bool-cases, ◌==◌, ◌||◌, ◌&&◌,
}
use agentic_voice_sdr.Base.Lines.{has, Free, cut_last, cut, trim_brackets, atoi, join}
use agentic_voice_sdr.Base.Lines.Free.{
  AreFree, Free-empty, Free-cons, Free-tail, or_false, cut_last-AreFree, cut-AreFree,
  trim_brackets-Free, show_int-Free,
}
use agentic_voice_sdr.Sip.Config.{
  TrunkConfig, string_fields, has_injection_chars, default, is_injection,
}
use agentic_voice_sdr.Sip.Config.Valid.{IsValid, IsTransport}
use agentic_voice_sdr.Sip.Pjsip.{
  starts_with_bracket, between, unbracketed, with_port, split_parts, split_host_port, host_or,
  pinned_resolver_host, sip_host_port, with_parsed, with_split, sip_uri_host_port, template_data,
}
use agentic_voice_sdr.Sip.Pjsip.Lines.{Line, line, Printed, after, both, empty}
use Prim.Native.Char.{code}

pub injection-Free : (s : String) → has_injection_chars s ≡ false → Free 10 s
unfolding has_injection_chars
injection-Free String.[] h = Free-empty 10
injection-Free (String.◌∷◌ c s) h =
    let (first, rest) = or_false (is_injection (code c)) (has_injection_chars s) h in
    let (others, closing) =
      or_false (code c == 13 || code c == 10 || code c == 91) (code c == 93) first in
    let (breaks, opening) = or_false (code c == 13 || code c == 10) (code c == 91) others in
    let (cr, lf) = or_false (code c == 13) (code c == 10) breaks in
    Free-cons 10 c s lf (injection-Free s rest)

pub any_none : (p : String → Bool) (xs : List String) → any p xs ≡ false → All (λ x. p x ≡ false) xs
any_none p [] h = tt
any_none p (x ∷ xs) h = let (now, later) = or_false (p x) (any p xs) h in (now, any_none p xs later)

join-Line : (xs : List String) → All (λ x. has_injection_chars x ≡ false) xs → Line (join "," xs)
unfolding join has
join-Line [] h = empty
join-Line (x ∷ []) (now, later) = line (injection-Free x now)
join-Line (x ∷ y ∷ ys) (now, later) =
    both (line (injection-Free x now)) (after "," refl (join-Line (y ∷ ys) later))

default-Line : (s t : String) → Line s → Line t → Line (default s t)
default-Line String.[] t f g = g
default-Line (String.◌∷◌ c s) t f g = f

-- The text, if there is one, stays on its line.
unfoldable pub IsLine : Option String → Type 0
IsLine none = Unit
IsLine (some s) = Free 10 s

between-IsLine : (r : Option (String × String)) → AreFree 10 r → IsLine (between r)
unfolding AreFree IsLine
between-IsLine none f = tt
between-IsLine (some (a, b)) (f, g) = elim (Bool-cases (is_empty b)) [
  | inl hit ↦ rw hit f
  | inr miss ↦ rw miss tt
]

unbracketed-IsLine : (h : String) → Free 10 h → IsLine (unbracketed h)
unfolding unbracketed IsLine
unbracketed-IsLine String.[] f = tt
unbracketed-IsLine (String.◌∷◌ c s) f =
    between-IsLine (cut 93 s) (cut-AreFree 10 93 s (Free-tail 10 c s f))

with_port-AreFree :
    (port : String) (host : Option String)
    → Free 10 port
    → IsLine host
    → AreFree 10 (with_port port host)
unfolding IsLine AreFree
with_port-AreFree port none f g = tt
with_port-AreFree port (some host) f g =
    elim (Bool-cases (has 91 host || has 91 port || has 93 port)) [
      | inl bad ↦ rw bad tt
      | inr fine ↦ rw fine (g, f)
    ]

split_parts-AreFree : (r : Option (String × String)) → AreFree 10 r → AreFree 10 (split_parts r)
unfolding AreFree split_parts
split_parts-AreFree none f = tt
split_parts-AreFree (some (host, port)) (f, g) = elim (Bool-cases (starts_with_bracket host)) [
  | inl inner ↦ rw inner (with_port-AreFree port (unbracketed host) g (unbracketed-IsLine host f))
  | inr outer ↦
      rw outer
        (elim (Bool-cases
          (has 58 host || has 91 host || has 93 host || has 91 port || has 93 port)) [
            | inl bad ↦ rw bad tt
            | inr fine ↦ rw fine (f, g)
          ])
]

pub split_host_port-AreFree : (value : String) → Free 10 value → AreFree 10 (split_host_port value)
unfolding split_host_port
split_host_port-AreFree value f =
    split_parts-AreFree (cut_last 58 value) (cut_last-AreFree 10 58 value f)

host_or-Line :
    (s : String) (r : Option (String × String)) → Line s → AreFree 10 r → Line (host_or s r)
unfolding AreFree
host_or-Line s none h f = h
host_or-Line s (some (a, b)) h (f, g) = line f

pinned_resolver_host-Line : (value : String) → Line value → Line (pinned_resolver_host value)
unfolding pinned_resolver_host
pinned_resolver_host-Line value (line f) =
    host_or-Line (trim_brackets value) (split_host_port value)
      (line (trim_brackets-Free 10 value f)) (split_host_port-AreFree value f)

sip_host_port-Line : (host : String) (port : ℤ) → Line host → Line (sip_host_port host port)
unfolding sip_host_port has
sip_host_port-Line host port h = elim (Bool-cases (has 58 host && not (starts_with_bracket host))) [
  | inl many ↦ rw many (after "[" refl (both h (after "]:" refl (line (show_int-Free port)))))
  | inr one ↦ rw one (both h (after ":" refl (line (show_int-Free port))))
]

with_parsed-Line :
    (s host : String) (port : Option ℤ) → Line s → Line host → Line (with_parsed s host port)
with_parsed-Line s host none h k = h
with_parsed-Line s host (some port) h k = sip_host_port-Line host port k

with_split-Line :
    (s : String) (r : Option (String × String)) → Line s → AreFree 10 r → Line (with_split s r)
unfolding AreFree
with_split-Line s none h f = h
with_split-Line s (some (host, port)) h (f, g) = with_parsed-Line s host (atoi port) h (line f)

sip_uri_host_port-Line :
    (value : String) (port : ℤ) → Line value → Line (sip_uri_host_port value port)
unfolding sip_uri_host_port
sip_uri_host_port-Line value port (line f) =
    with_split-Line (sip_host_port (trim_brackets value) port) (split_host_port value)
      (sip_host_port-Line (trim_brackets value) port (line (trim_brackets-Free 10 value f)))
      (split_host_port-AreFree value f)

-- What the user gives stays on its line.
fields_lines :
    (c : TrunkConfig)
    → any has_injection_chars (string_fields c) ≡ false
    → All Line (string_fields c)
fields_lines c h = lines (string_fields c) (any_none has_injection_chars (string_fields c) h)
  where
    lines : (xs : List String) → All (λ x. has_injection_chars x ≡ false) xs → All Line xs
    lines [] h = tt
    lines (x ∷ xs) (now, later) = (line (injection-Free x now), lines xs later)

pub outbound_proxy-Free : (c : TrunkConfig) → IsValid c → Free 10 c.outbound_proxy
unfolding IsValid
outbound_proxy-Free c (named, blank, hosted, clean, codecs, port, transport, auth, id, some_codec) =
    let (name, (provider, (host, (registrar, (proxy, others))))) =
      any_none has_injection_chars (string_fields c) clean in
    injection-Free c.outbound_proxy proxy

transport-Line : {t : String} → IsTransport t → Line t
unfolding IsTransport Free has
transport-Line (inl h) = subst Line (sym h) (line refl)
transport-Line (inr (inl h)) = subst Line (sym h) (line refl)
transport-Line (inr (inr h)) = subst Line (sym h) (line refl)

-- The network addresses contain no line feed. `Validate` does not look at them; the program takes them
-- from the addresses that its resolver gives.
unfoldable pub HasAddressLines : TrunkConfig → Type 0
HasAddressLines c =
    Free 10 c.host_network_address
    × Free 10 c.registrar_network_address
    × Free 10 c.outbound_proxy_network_address

codecs-Line : Line "ulaw,alaw"
unfolding Free has
codecs-Line = line refl

pub template_data-Printed :
    (c : TrunkConfig) → IsValid c → HasAddressLines c → Printed (template_data c)
unfolding IsValid HasAddressLines template_data
template_data-Printed c (named, blank, hosted, clean, codecs, port, transport, auth, id, some_codec)
      (host_at, registrar_at, proxy_at) =
    let (
      name,
      (
        provider,
        (host, (registrar, (proxy, (user, (secret, (realm, (from, (domain, (caller, end))))))))),
      ),
    ) =
      fields_lines c clean in
    record {
      name = name;
      provider = provider;
      user = user;
      secret = secret;
      realm = realm;
      from = from;
      domain = domain;
      caller = caller;
      transport = transport-Line transport;
      host = host;
      host_at = line host_at;
      registrar = registrar;
      registrar_at = line registrar_at;
      proxy_at = line proxy_at;
      proxy = pinned_resolver_host-Line c.outbound_proxy proxy;
      codecs =
          default-Line (join "," c.codecs) "ulaw,alaw"
            (join-Line c.codecs (any_none has_injection_chars c.codecs codecs)) codecs-Line;
      registers_at =
          sip_host_port-Line (default c.registrar c.host) c.port
            (default-Line c.registrar c.host registrar host);
      contact =
          sip_uri_host_port-Line (default c.host_network_address c.host) c.port
            (default-Line c.host_network_address c.host (line host_at) host);
      via =
          sip_uri_host_port-Line (default c.outbound_proxy_network_address c.outbound_proxy) c.port
            (default-Line c.outbound_proxy_network_address c.outbound_proxy (line proxy_at) proxy);
      identity = default-Line c.auth_username c.from_user user from;
    }
