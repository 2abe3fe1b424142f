-- ===== src/Sip/Pjsip/Lines.antt =====
-- No field opens a line in the text of a trunk (internal/telephony/sip/pjsip.go).
use agentic_voice_sdr.Base.{
  String, Bool, true, false, not, List, [], ◌∷◌, ◌++◌, is_empty, ◌≡◌, refl, All, inl, inr,
  Bool-cases,
}
use agentic_voice_sdr.Base.Lines.{◌<>◌, has, Free}
use agentic_voice_sdr.Base.Lines.Free.{Free-<>}
use agentic_voice_sdr.Sip.Pjsip.{
  PjsipTemplateData, when_set, when, block, is_userpass, auth_lines, endpoint_lines,
  registration_lines, pin, title_lines, pin_lines, template_lines,
}

-- A text without a line feed.
pub data Line (s : String) : Type 0 where
  line : Free 10 s → Line s

pub after : (k : String) {s : String} → has 10 k ≡ false → Line s → Line (k <> s)
unfolding Free
after k {s} h (line f) = line (Free-<> 10 k s h f)

pub both : {s t : String} → Line s → Line t → Line (s <> t)
both {s} {t} (line f) (line g) = line (Free-<> 10 s t f g)

constant : (k : String) → has 10 k ≡ false → Line k
unfolding Free
constant k h = line h

pub before : (s k : String) → Line s → has 10 k ≡ false → Line (s <> k)
unfolding Free
before s k (line f) h = line (Free-<> 10 s k f h)

pub empty : Line ""
unfolding Free has
empty = line refl

when-Line : (b : Bool) (s : String) → Line s → Line (when b s)
when-Line true s h = h
when-Line false s h = empty

when_set-Line : (v s : String) → Line s → Line (when_set v s)
when_set-Line v s h = elim (Bool-cases (is_empty v)) [ inl e ↦ rw e empty | inr e ↦ rw e h ]

-- A list of such texts.
infixr 5 ◌⨾◌
pub data Lines : List String → Type 0 where
  end : Lines []
  ◌⨾◌ : {x : String} {xs : List String} → Line x → Lines xs → Lines (x ∷ xs)

Lines-append : {xs ys : List String} → Lines xs → Lines ys → Lines (xs ++ ys)
Lines-append end k = k
Lines-append (now ⨾ later) k = now ⨾ Lines-append later k

pub Lines-All : {xs : List String} → Lines xs → All (Free 10) xs
Lines-All end = tt
Lines-All (line f ⨾ later) = (f, Lines-All later)

block-Lines : (b : Bool) (xs : List String) → Lines xs → Lines (block b xs)
block-Lines true xs h = h
block-Lines false xs h = end

-- What the template prints stays on its line.
pub record Printed (d : PjsipTemplateData) : Type 0 where
  pub name : Line d.cfg.name
  pub provider : Line d.cfg.provider
  pub user : Line d.cfg.auth_username
  pub secret : Line d.cfg.secret
  pub realm : Line d.cfg.realm
  pub from : Line d.cfg.from_user
  pub domain : Line d.cfg.from_domain
  pub caller : Line d.cfg.caller_id
  pub transport : Line d.cfg.transport
  pub host : Line d.cfg.host
  pub host_at : Line d.cfg.host_network_address
  pub registrar : Line d.cfg.registrar
  pub registrar_at : Line d.cfg.registrar_network_address
  pub proxy_at : Line d.cfg.outbound_proxy_network_address
  pub proxy : Line d.proxy
  pub codecs : Line d.codecs_string
  pub registers_at : Line d.registrar_or_host
  pub contact : Line d.host_network_address_or_host
  pub via : Line d.outbound_proxy_network_address_or_proxy
  pub identity : Line d.registration_identity

auth-Lines : (d : PjsipTemplateData) → Printed d → Lines (auth_lines d.cfg)
unfolding auth_lines has
auth-Lines d p =
    after "[trunk-" refl (before d.cfg.name "-auth]" p.name refl)
    ⨾ constant "type=auth" refl
    ⨾ constant "auth_type=userpass" refl
    ⨾ after "username=" refl p.user
    ⨾ after "password=" refl p.secret
    ⨾ when_set-Line d.cfg.realm ("realm=" <> d.cfg.realm) (after "realm=" refl p.realm)
    ⨾ end

title-Lines : (d : PjsipTemplateData) → Printed d → Lines (title_lines d.cfg)
unfolding has
title-Lines d p =
    constant "; ==============================================================================" refl
    ⨾ after "; PJSIP Trunk Configuration: " refl
        (both p.name (after " (Provider: " refl (before d.cfg.provider ")" p.provider refl)))
    ⨾ constant "; Generated automatically by Agentic Voice SDR SIP Reconciler" refl
    ⨾ constant "; =============================================================================="
        refl
    ⨾ empty
    ⨾ end

endpoint-Lines : (d : PjsipTemplateData) → Printed d → Lines (endpoint_lines d)
unfolding endpoint_lines has
endpoint-Lines d p =
    after "[trunk-" refl (before d.cfg.name "-aor]" p.name refl)
    ⨾ constant "type=aor" refl
    ⨾ after "contact=sip:" refl p.contact
    ⨾ empty
    ⨾ after "[trunk-" refl (before d.cfg.name "]" p.name refl)
    ⨾ constant "type=endpoint" refl
    ⨾ after "transport=transport-" refl p.transport
    ⨾ constant "context=from-external" refl
    ⨾ constant "disallow=all" refl
    ⨾ after "allow=" refl p.codecs
    ⨾ when-Line (is_userpass d) _
        (after "outbound_auth=trunk-" refl (before d.cfg.name "-auth" p.name refl))
    ⨾ after "aors=trunk-" refl (before d.cfg.name "-aor" p.name refl)
    ⨾ when_set-Line d.cfg.from_user _ (after "from_user=" refl p.from)
    ⨾ when_set-Line d.cfg.from_domain _ (after "from_domain=" refl p.domain)
    ⨾ when_set-Line d.proxy _ (after "outbound_proxy=sip:" refl p.via)
    ⨾ when_set-Line d.cfg.caller_id _ (after "callerid=" refl p.caller)
    ⨾ empty
    ⨾ end

registration-Lines : (d : PjsipTemplateData) → Printed d → Lines (registration_lines d)
unfolding registration_lines has
registration-Lines d p =
    after "[trunk-" refl (before d.cfg.name "-reg]" p.name refl)
    ⨾ constant "type=registration" refl
    ⨾ after "transport=transport-" refl p.transport
    ⨾ when-Line (is_userpass d) _
        (after "outbound_auth=trunk-" refl (before d.cfg.name "-auth" p.name refl))
    ⨾ after "server_uri=sip:" refl p.registers_at
    ⨾ when_set-Line d.proxy _ (after "outbound_proxy=sip:" refl p.via)
    ⨾ after "client_uri=sip:" refl (both p.identity (after "@" refl p.registers_at))
    ⨾ constant "retry_interval=60" refl
    ⨾ end

pin-Line : {host address : String} → Line host → Line address → Line (pin host address)
unfolding has
pin-Line h a = after "; gru83-pin host=" refl (both h (after " address=" refl a))

pin-Lines : (d : PjsipTemplateData) → Printed d → Lines (pin_lines d)
pin-Lines d p =
    pin-Line p.host p.host_at
    ⨾ Lines-append
        (block-Lines (not (is_empty d.cfg.registrar)) _ (pin-Line p.registrar p.registrar_at ⨾ end))
        (empty
          ⨾ Lines-append
              (block-Lines (not (is_empty d.proxy)) _ (pin-Line p.proxy p.proxy_at ⨾ end))
              (empty ⨾ end))

pub template-Lines : (d : PjsipTemplateData) → Printed d → Lines (template_lines d)
unfolding template_lines
template-Lines d p = Lines-append (title-Lines d p) (
    Lines-append (block-Lines (is_userpass d) _ (auth-Lines d p)) (
      empty
      ⨾ Lines-append (endpoint-Lines d p) (
          Lines-append (block-Lines d.cfg.registration_required _ (registration-Lines d p))
            (empty ⨾ pin-Lines d p))))
