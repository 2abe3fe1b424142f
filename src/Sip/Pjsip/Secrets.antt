-- ===== src/Sip/Pjsip/Secrets.antt =====
-- The text of a trunk as it is logged (internal/telephony/sip/pjsip.go).
use agentic_voice_sdr.Base.{
  String, Bool, true, false, not, List, [], ◌∷◌, ◌++◌, ok, ok-injective, if◌then◌else◌, is_empty,
  is_blank, str_eq, ◌≡◌, refl, sym, All, any, inl, inr, map, ◌∙◌, ap,
}
use agentic_voice_sdr.Base.Lines.{◌<>◌, Free, unlines}
use agentic_voice_sdr.Base.Lines.Free.{split_lines-unlines, join-lines}
use agentic_voice_sdr.Sip.Config.{TrunkConfig, string_fields, has_injection_chars, redacted}
use agentic_voice_sdr.Sip.Config.Valid.{IsValid, IsAuth, validate_fixed}
use agentic_voice_sdr.Sip.Pjsip.{
  PjsipTemplateData, when_set, when, block, is_userpass, mask_line, mask_pjsip_secrets, auth_lines,
  endpoint_lines, registration_lines, pin, title_lines, pin_lines, template_lines, template_data,
  generate_pjsip_config,
}
use agentic_voice_sdr.Sip.Pjsip.Lines.{Lines-All, template-Lines}
use agentic_voice_sdr.Sip.Pjsip.Fields.{any_none, HasAddressLines, template_data-Printed}

infixr 5 ◌⨾◌
data Masks : List String → List String → Type 0 where
  end : Masks [] []
  ◌⨾◌ :
      {x y : String} {xs ys : List String} → mask_line x ≡ y → Masks xs ys → Masks (x ∷ xs) (y ∷ ys)

Masks-append : {xs ys hs ks : List String} → Masks xs hs → Masks ys ks → Masks (xs ++ ys) (hs ++ ks)
Masks-append end k = k
Masks-append (now ⨾ later) k = now ⨾ Masks-append later k

Masks-block : (b : Bool) {xs hs : List String} → Masks xs hs → Masks (block b xs) (block b hs)
Masks-block true h = h
Masks-block false h = end

Masks-map : {xs ys : List String} → Masks xs ys → map mask_line xs ≡ ys
Masks-map end = refl
Masks-map (now ⨾ later) = rw (now, Masks-map later) refl

mask_when : (b : Bool) (s : String) → mask_line s ≡ s → mask_line (when b s) ≡ when b s
unfolding mask_line
mask_when true s h = h
mask_when false s h = refl

mask_set : (v s : String) → mask_line s ≡ s → mask_line (when_set v s) ≡ when_set v s
unfolding mask_line
mask_set String.[] s h = refl
mask_set (String.◌∷◌ c v) s h = h

mask_password :
    (s : String) → mask_line ("password=" <> s) ≡ "password=" <> (if is_empty s then s else "*****")
unfolding mask_line
mask_password String.[] = refl
mask_password (String.◌∷◌ c s) = refl

auth-Masks : (c : TrunkConfig) → Masks (auth_lines c) (auth_lines (redacted c))
unfolding auth_lines mask_line redacted
auth-Masks c = refl ⨾ refl ⨾ refl ⨾ refl ⨾ mask_password c.secret ⨾ mask_set c.realm _ refl ⨾ end

endpoint-Masks : (d : PjsipTemplateData) → Masks (endpoint_lines d) (endpoint_lines d)
unfolding endpoint_lines mask_line
endpoint-Masks d =
    refl
    ⨾ refl
    ⨾ refl
    ⨾ refl
    ⨾ refl
    ⨾ refl
    ⨾ refl
    ⨾ refl
    ⨾ refl
    ⨾ refl
    ⨾ mask_when (is_userpass d) _ refl
    ⨾ refl
    ⨾ mask_set d.cfg.from_user _ refl
    ⨾ mask_set d.cfg.from_domain _ refl
    ⨾ mask_set d.proxy _ refl
    ⨾ mask_set d.cfg.caller_id _ refl
    ⨾ refl
    ⨾ end

registration-Masks : (d : PjsipTemplateData) → Masks (registration_lines d) (registration_lines d)
unfolding registration_lines mask_line
registration-Masks d =
    refl
    ⨾ refl
    ⨾ refl
    ⨾ mask_when (is_userpass d) _ refl
    ⨾ refl
    ⨾ mask_set d.proxy _ refl
    ⨾ refl
    ⨾ refl
    ⨾ end

pin-Masks : (host address : String) → Masks (pin host address ∷ []) (pin host address ∷ [])
unfolding mask_line
pin-Masks host address = refl ⨾ end

empty-Masks : {xs ys : List String} → Masks xs ys → Masks ("" ∷ xs) ("" ∷ ys)
unfolding mask_line
empty-Masks h = refl ⨾ h

title-Masks : (c : TrunkConfig) → Masks (title_lines c) (title_lines c)
unfolding mask_line
title-Masks c = refl ⨾ refl ⨾ refl ⨾ refl ⨾ refl ⨾ end

pins-Masks : (d : PjsipTemplateData) → Masks (pin_lines d) (pin_lines d)
pins-Masks d = Masks-append (pin-Masks _ _) (
    Masks-append (Masks-block (not (is_empty d.cfg.registrar)) (pin-Masks _ _)) (
      empty-Masks
        (Masks-append (Masks-block (not (is_empty d.proxy)) (pin-Masks _ _)) (empty-Masks end))))

template-Masks :
    (c : TrunkConfig)
    → Masks (template_lines (template_data c)) (template_lines (template_data (redacted c)))
unfolding template_lines template_data redacted endpoint_lines registration_lines
template-Masks c = Masks-append (title-Masks c) (
    Masks-append (Masks-block (str_eq c.auth_type "userpass") (auth-Masks c)) (
      empty-Masks (
        Masks-append (endpoint-Masks (template_data c)) (
          Masks-append (Masks-block c.registration_required (registration-Masks (template_data c)))
            (empty-Masks (pins-Masks (template_data c)))))))

safe_any : (p : String → Bool) (xs : List String) → All (λ x. p x ≡ false) xs → any p xs ≡ false
safe_any p [] h = refl
safe_any p (x ∷ xs) (now, later) = rw (now, safe_any p xs later) refl

redacted-safe :
    (c : TrunkConfig)
    → any has_injection_chars (string_fields c) ≡ false
    → any has_injection_chars (string_fields (redacted c)) ≡ false
unfolding redacted
redacted-safe c h =
    let (name, (provider, (host, (registrar, (proxy, (user, (secret, rest))))))) =
      any_none has_injection_chars (string_fields c) h in
    safe_any has_injection_chars (string_fields (redacted c))
      (name, (provider, (host, (registrar, (proxy, (user, (hidden c.secret, rest)))))))
  where
    hidden : (s : String) → has_injection_chars (if is_empty s then s else "*****") ≡ false
    hidden String.[] = unfold has_injection_chars in refl
    hidden (String.◌∷◌ c s) = unfold has_injection_chars in refl

redacted-IsAuth :
    (t username secret : String)
    → IsAuth t username secret
    → IsAuth t username (if is_empty secret then secret else "*****")
unfolding IsAuth is_blank
redacted-IsAuth t username String.[] h = h
redacted-IsAuth t username (String.◌∷◌ c s) (inl (by, user, secret)) = inl (by, user, refl)
redacted-IsAuth t username (String.◌∷◌ c s) (inr h) = inr h

pub redacted-IsValid : (c : TrunkConfig) → IsValid c → IsValid (redacted c)
unfolding IsValid redacted
redacted-IsValid c
      (named, blank, host, clean, codecs, port, transport, auth, identity, some_codec) =
    (
      named,
      blank,
      host,
      redacted-safe c clean,
      codecs,
      port,
      transport,
      redacted-IsAuth c.auth_type c.auth_username c.secret auth,
      identity,
      some_codec,
    )

map_last : (ls : List String) → map mask_line (ls ++ ("" ∷ [])) ≡ map mask_line ls ++ ("" ∷ [])
unfolding mask_line
map_last [] = refl
map_last (l ∷ ls) = rw (map_last ls) refl

mask-unlines :
    (ls : List String)
    → All (Free 10) ls
    → mask_pjsip_secrets (unlines ls) ≡ unlines (map mask_line ls)
unfolding mask_pjsip_secrets
mask-unlines ls h = rw (split_lines-unlines ls h, map_last ls) (join-lines (map mask_line ls))

generated :
    (c : TrunkConfig)
    → IsValid c
    → generate_pjsip_config c ≡ ok (unlines (template_lines (template_data c)))
unfolding generate_pjsip_config
generated c valid = rw (validate_fixed c valid) refl

-- The text of a valid trunk whose three network addresses, which validation does not look at, contain no line
-- feed, with its secret masked is the text of the trunk whose secret was redacted first: what is logged
-- depends on nothing but the redacted configuration.
pub mask-generate_pjsip_config :
    (c : TrunkConfig) {text : String}
    → IsValid c
    → HasAddressLines c
    → generate_pjsip_config c ≡ ok text
    → generate_pjsip_config (redacted c) ≡ ok (mask_pjsip_secrets text)
mask-generate_pjsip_config c {text} valid addresses h =
    let same = ok-injective (sym (generated c valid) ∙ h) in
    generated (redacted c) (redacted-IsValid c valid)
    ∙ ap ok (
        sym (ap unlines (Masks-map (template-Masks c)))
        ∙ sym (
            mask-unlines (template_lines (template_data c)) (
              Lines-All
                (template-Lines (template_data c) (template_data-Printed c valid addresses))))
        ∙ ap mask_pjsip_secrets same)
