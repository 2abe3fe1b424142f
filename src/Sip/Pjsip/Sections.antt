-- ===== src/Sip/Pjsip/Sections.antt =====
-- The sections that the text of a trunk opens (internal/telephony/sip/pjsip.go).
use agentic_voice_sdr.Base.{
  String, Bool, true, false, not, List, [], ◌∷◌, ◌++◌, ok, if◌then◌else◌, is_empty, str_eq, ◌≡◌,
  refl, ◌∙◌, ap,
}
use agentic_voice_sdr.Base.Lines.{◌<>◌, split_lines, unlines}
use agentic_voice_sdr.Base.Lines.Free.{split_lines-unlines}
use agentic_voice_sdr.Sip.Config.{TrunkConfig}
use agentic_voice_sdr.Sip.Config.Valid.{IsValid, validate_fixed}
use agentic_voice_sdr.Sip.Pjsip.{
  starts_with_bracket, PjsipTemplateData, when_set, when, block, is_userpass, auth_lines,
  endpoint_lines, registration_lines, pin, title_lines, pin_lines, template_lines, template_data,
  generate_pjsip_config,
}
use agentic_voice_sdr.Sip.Pjsip.Lines.{Lines-All, template-Lines}
use agentic_voice_sdr.Sip.Pjsip.Fields.{HasAddressLines, template_data-Printed}

-- The lines that open a section.
unfoldable pub headings : List String → List String
headings [] = []
headings (l ∷ ls) = let rest = headings ls in if starts_with_bracket l then l ∷ rest else rest

-- The sections of a trunk: its credentials, its address, its endpoint and its registration.
unfoldable pub sections : TrunkConfig → List String
sections c =
    block (str_eq c.auth_type "userpass") (("[trunk-" <> c.name <> "-auth]") ∷ [])
    ++ (("[trunk-" <> c.name <> "-aor]")
        ∷ ("[trunk-" <> c.name <> "]")
        ∷ block c.registration_required (("[trunk-" <> c.name <> "-reg]") ∷ []))

infixr 5 ◌⨾◌
data Opens : List String → List String → Type 0 where
  end : Opens [] []
  ◌⨾◌ :
      {x : String} {xs hs : List String}
      → starts_with_bracket x ≡ false
      → Opens xs hs
      → Opens (x ∷ xs) hs
  section :
      (x : String) {xs hs : List String}
      → starts_with_bracket x ≡ true
      → Opens xs hs
      → Opens (x ∷ xs) (x ∷ hs)

Opens-append : {xs ys hs ks : List String} → Opens xs hs → Opens ys ks → Opens (xs ++ ys) (hs ++ ks)
Opens-append end k = k
Opens-append (plain ⨾ later) k = plain ⨾ Opens-append later k
Opens-append (section x opened later) k = section x opened (Opens-append later k)

Opens-rest : {xs ys hs : List String} → Opens xs hs → Opens ys [] → Opens (xs ++ ys) hs
Opens-rest end k = k
Opens-rest (plain ⨾ later) k = plain ⨾ Opens-rest later k
Opens-rest (section x opened later) k = section x opened (Opens-rest later k)

Opens-block : (b : Bool) {xs hs : List String} → Opens xs hs → Opens (block b xs) (block b hs)
Opens-block true h = h
Opens-block false h = end

Opens-headings : {xs hs : List String} → Opens xs hs → headings xs ≡ hs
unfolding headings
Opens-headings end = refl
Opens-headings (plain ⨾ later) = rw plain (Opens-headings later)
Opens-headings (section x opened later) = rw (opened, Opens-headings later) refl

plain_when :
    (b : Bool) (s : String) → starts_with_bracket s ≡ false → starts_with_bracket (when b s) ≡ false
plain_when true s h = h
plain_when false s h = refl

plain_set :
    (v s : String) → starts_with_bracket s ≡ false → starts_with_bracket (when_set v s) ≡ false
plain_set String.[] s h = refl
plain_set (String.◌∷◌ c v) s h = h

auth-Opens : (c : TrunkConfig) → Opens (auth_lines c) (("[trunk-" <> c.name <> "-auth]") ∷ [])
unfolding auth_lines
auth-Opens c = section _ refl (refl ⨾ refl ⨾ refl ⨾ refl ⨾ plain_set c.realm _ refl ⨾ end)

endpoint-Opens :
    (d : PjsipTemplateData)
    → Opens
        (endpoint_lines d)
        (("[trunk-" <> d.cfg.name <> "-aor]") ∷ ("[trunk-" <> d.cfg.name <> "]") ∷ [])
unfolding endpoint_lines
endpoint-Opens d = section _ refl (
    refl
    ⨾ refl
    ⨾ refl
    ⨾ section _ refl (
        refl
        ⨾ refl
        ⨾ refl
        ⨾ refl
        ⨾ refl
        ⨾ plain_when (is_userpass d) _ refl
        ⨾ refl
        ⨾ plain_set d.cfg.from_user _ refl
        ⨾ plain_set d.cfg.from_domain _ refl
        ⨾ plain_set d.proxy _ refl
        ⨾ plain_set d.cfg.caller_id _ refl
        ⨾ refl
        ⨾ end))

registration-Opens :
    (d : PjsipTemplateData)
    → Opens (registration_lines d) (("[trunk-" <> d.cfg.name <> "-reg]") ∷ [])
unfolding registration_lines
registration-Opens d = section _ refl (
    refl
    ⨾ refl
    ⨾ plain_when (is_userpass d) _ refl
    ⨾ refl
    ⨾ plain_set d.proxy _ refl
    ⨾ refl
    ⨾ refl
    ⨾ end)

pin-Opens : (b : Bool) (host address : String) → Opens (block b (pin host address ∷ [])) []
pin-Opens true host address = refl ⨾ end
pin-Opens false host address = end

pins-Opens : (d : PjsipTemplateData) → Opens (pin_lines d) []
pins-Opens d =
    refl
    ⨾ Opens-append (pin-Opens (not (is_empty d.cfg.registrar)) _ _)
        (refl ⨾ Opens-append (pin-Opens (not (is_empty d.proxy)) _ _) (refl ⨾ end))

title-Opens : (c : TrunkConfig) → Opens (title_lines c) []
title-Opens c = refl ⨾ refl ⨾ refl ⨾ refl ⨾ refl ⨾ end

template-Opens : (d : PjsipTemplateData) → Opens (template_lines d) (sections d.cfg)
unfolding template_lines sections
template-Opens d = Opens-append (title-Opens d.cfg) (
    Opens-append (Opens-block (is_userpass d) (auth-Opens d.cfg)) (
      refl
      ⨾ Opens-append (endpoint-Opens d) (
          Opens-rest (Opens-block d.cfg.registration_required (registration-Opens d))
            (refl ⨾ pins-Opens d))))

-- The text of a valid trunk whose three network addresses, which validation does not look at, contain no line
-- feed, read back line by line, has the lines of the template and opens the sections of that trunk, in
-- their order, and no other: no value of another field that validation accepts opens a line or a
-- section of its own.
pub generate_pjsip_config-sections :
    (c : TrunkConfig)
    → IsValid c
    → HasAddressLines c
    → (text : String) × (generate_pjsip_config c ≡ ok text)
      × (split_lines text ≡ template_lines (template_data c) ++ ("" ∷ []))
      × (headings (split_lines text) ≡ sections c)
unfolding generate_pjsip_config template_data
generate_pjsip_config-sections c valid addresses =
    let lines =
      split_lines-unlines (template_lines (template_data c))
        (Lines-All (template-Lines (template_data c) (template_data-Printed c valid addresses))) in
    (
      unlines (template_lines (template_data c)),
      rw (validate_fixed c valid) refl,
      lines,
      ap headings lines
          ∙ Opens-headings (Opens-rest (template-Opens (template_data c)) (refl ⨾ end)),
    )
