-- ===== src/Sip/Config.antt =====
-- internal/telephony/sip/config.go: the configuration of a trunk and its validation.
-- The fields are checked in an order that the source draws at random, so the error of a field names none.
pub mod Valid
use agentic_voice_sdr.Base.{
  ℕ, zero, suc, String, Bool, true, false, not, ◌&&◌, ◌||◌, List, [], ◌∷◌, Result, ok, err, ◌>>=◌,
  ◌>>◌, guard, if◌then◌else◌, ◌==◌, ltb, leb, ℤ, pos, negsuc, str_eq, is_blank, is_empty,
  trim_space, any, ◌≡◌, refl,
}
use Prim.Native.Char.{Char, code}

pub record TrunkConfig : Type 0 where
  pub provider : String
  pub name : String
  pub host : String
  pub host_network_address : String
  pub port : ℤ
  pub transport : String
  pub registrar : String
  pub registrar_network_address : String
  pub outbound_proxy : String
  pub outbound_proxy_network_address : String
  pub tls_service_name : String
  pub auth_type : String
  pub auth_username : String
  pub secret : String
  pub realm : String
  pub from_user : String
  pub from_domain : String
  pub caller_id : String
  pub codecs : List String
  pub registration_required : Bool
  pub enabled : Bool

pub data Error : Type 0 where
  name_required invalid_name host_required injection codec_injection : Error
  negative_port large_port unsupported_transport no_username no_secret : Error
  unsupported_auth no_identity : Error

-- The character that stands in the second text where the first has `c`.
unfoldable pub lowered : Char → String → String → Char
lowered c String.[] t = c
lowered c (String.◌∷◌ a s) String.[] = c
lowered c (String.◌∷◌ a s) (String.◌∷◌ b t) =
    let rest = lowered c s t in if code a == code c then b else rest

-- `strings.ToLower`, up to letters that are not ASCII in either case: the result is only
-- compared with ASCII texts, which they equal in neither case.
unfoldable pub to_lower : String → String
unfolding lowered
to_lower String.[] = String.[]
to_lower (String.◌∷◌ c s) =
    String.◌∷◌ (lowered c "ABCDEFGHIJKLMNOPQRSTUVWXYZİK" "abcdefghijklmnopqrstuvwxyzik")
      (to_lower s)

-- `[A-Za-z0-9]`.
unfoldable pub is_alnum : ℕ → Bool
is_alnum c = (leb 48 c && leb c 57) || (leb 65 c && leb c 90) || (leb 97 c && leb c 122)

-- `[A-Za-z0-9_.-]{0,n}$`.
unfoldable pub name_rest : ℕ → String → Bool
unfolding is_alnum
name_rest n String.[] = true
name_rest zero (String.◌∷◌ c s) = false
name_rest (suc n) (String.◌∷◌ c s) =
    (is_alnum (code c) || code c == 95 || code c == 46 || code c == 45) && name_rest n s

-- `trunkNameRegex.MatchString`.
unfoldable pub is_trunk_name : String → Bool
unfolding is_alnum
is_trunk_name String.[] = false
is_trunk_name (String.◌∷◌ c s) = is_alnum (code c) && name_rest 63 s

-- Carriage return, line feed and the brackets.
abbrev pub is_injection : ℕ → Bool
is_injection c = c == 13 || c == 10 || c == 91 || c == 93

unfoldable pub has_injection_chars : String → Bool
has_injection_chars String.[] = false
has_injection_chars (String.◌∷◌ c s) = is_injection (code c) || has_injection_chars s

-- `stringFields`.
abbrev pub string_fields : TrunkConfig → List String
string_fields c =
    c.name ∷ c.provider ∷ c.host ∷ c.registrar ∷ c.outbound_proxy ∷ c.auth_username ∷ c.secret
    ∷ c.realm ∷ c.from_user ∷ c.from_domain ∷ c.caller_id ∷ []

unfoldable pub check_fields : TrunkConfig → Result Error (Unit {0})
check_fields c = do
  guard (not (is_empty (trim_space c.name))) name_required
  guard (is_trunk_name c.name) invalid_name
  guard (not (is_blank c.host)) host_required
  guard (not (any has_injection_chars (string_fields c))) injection
  guard (not (any has_injection_chars c.codecs)) codec_injection

unfoldable pub complete_port : ℤ → Result Error ℤ
complete_port (negsuc n) = err negative_port
complete_port (pos n) =
    if n == 0 then ok (pos 5060) else if ltb 65535 n then err large_port else ok (pos n)

abbrev pub default : String → String → String
default s t = if is_empty s then t else s

unfoldable pub check_transport : String → Result Error String
check_transport t =
    if str_eq t "udp" || str_eq t "tcp" || str_eq t "tls" then ok t else err unsupported_transport

unfoldable pub complete_transport : String → Result Error String
unfolding check_transport
complete_transport s = check_transport (default (to_lower s) "udp")

-- The authentication that is meant where none is named.
abbrev pub auth_default : String → String → String
auth_default username secret =
    if not (is_empty username) || not (is_empty secret) then "userpass" else "ip"

unfoldable pub check_auth : String → String → String → Result Error String
check_auth t username secret =
    if str_eq t "userpass"
    then if is_blank username
      then err no_username
      else if is_blank secret
      then err no_secret
      else ok t
    else if str_eq t "ip" || str_eq t "none"
    then ok t
    else err unsupported_auth

unfoldable pub complete_auth : String → String → String → Result Error String
complete_auth s username secret =
    check_auth (default (to_lower s) (auth_default username secret)) username secret

unfoldable pub check_registration : TrunkConfig → Result Error (Unit {0})
check_registration c =
    guard (not (c.registration_required && is_blank c.auth_username && is_blank c.from_user))
      no_identity

abbrev pub complete_codecs : List String → List String
complete_codecs [] = "ulaw" ∷ "alaw" ∷ []
complete_codecs (x ∷ xs) = x ∷ xs

-- `Validate`, with the configuration that it completes as its result.
unfoldable pub validate : TrunkConfig → Result Error TrunkConfig
validate c = do
  check_fields c
  port ← complete_port c.port
  transport ← complete_transport c.transport
  auth ← complete_auth c.auth_type c.auth_username c.secret
  check_registration c
  ok (record c {
    port = port;
    transport = transport;
    auth_type = auth;
    codecs = complete_codecs c.codecs;
  })

-- `Redacted`.
unfoldable pub redacted : TrunkConfig → TrunkConfig
redacted c = record c { secret = if is_empty c.secret then c.secret else "*****" }

lower_test : to_lower "UserPass" ≡ "userpass"
unfolding to_lower
lower_test = refl
