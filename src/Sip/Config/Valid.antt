-- ===== src/Sip/Config/Valid.antt =====
-- Validation gives valid configurations and leaves them alone.
use agentic_voice_sdr.Base.{
  ℕ, String, true, false, not, ◌&&◌, List, [], ◌∷◌, ok, guard, >>-both, guard-not, guard_test,
  >>=-eq-ok, ok-injective, Bool-cases, ◌==◌, ltb, ℤ, pos, negsuc, eq_iff, is_blank, any, length,
  ◌≡◌, refl, ◌⊎◌, inl, inr, arith, ◌≤◌, ◌<◌, subst, sym, ◌∙◌,
}
use agentic_voice_sdr.Sip.Config.{
  TrunkConfig, name_required, invalid_name, host_required, injection, no_identity, validate,
  check_fields, complete_port, check_transport, complete_transport, check_auth, complete_auth,
  check_registration, complete_codecs, has_injection_chars, is_trunk_name, string_fields, default,
  to_lower, auth_default,
}

-- The transports that there are.
unfoldable pub IsTransport : String → Type 0
IsTransport t = (t ≡ "udp") ⊎ (t ≡ "tcp") ⊎ (t ≡ "tls")

-- A way to authenticate, with what it needs.
unfoldable pub IsAuth : String → String → String → Type 0
IsAuth t username secret =
    ((t ≡ "userpass") × (is_blank username ≡ false) × (is_blank secret ≡ false))
    ⊎ (t ≡ "ip")
    ⊎ (t ≡ "none")

unfoldable pub IsPort : ℤ → Type 0
IsPort p = (n : ℕ) × (p ≡ pos n) × (1 ≤ n) × (n ≤ 65535)

-- What `Validate` promises of the configuration it has completed.
unfoldable pub IsValid : TrunkConfig → Type 0
unfolding IsTransport IsAuth IsPort
IsValid c =
    (is_trunk_name c.name ≡ true)
    × (is_blank c.name ≡ false)
    × (is_blank c.host ≡ false)
    × (any has_injection_chars (string_fields c) ≡ false)
    × (any has_injection_chars c.codecs ≡ false)
    × IsPort c.port
    × IsTransport c.transport
    × IsAuth c.auth_type c.auth_username c.secret
    × ((c.registration_required && is_blank c.auth_username && is_blank c.from_user) ≡ false)
    × (0 < length c.codecs)

complete_port-IsPort : (p : ℤ) {q : ℤ} → complete_port p ≡ ok q → IsPort q
unfolding complete_port IsPort
complete_port-IsPort (negsuc n) h = cc
complete_port-IsPort (pos n) h = elim (Bool-cases (n == 0)) [
  | inl e ↦ (5060, sym (ok-injective (sym (rw e) ∙ h)), omega arith, omega arith)
  | inr e ↦ elim (Bool-cases (ltb 65535 n)) [
    | inl f ↦ absurd (ground arith)
    | inr f ↦ (n, sym (ok-injective (sym (rw (e, f)) ∙ h)), ground arith, ground arith)
  ]
]

complete_port_fixed : {p : ℤ} → IsPort p → complete_port p ≡ ok p
unfolding complete_port IsPort
complete_port_fixed (n, same, low, high) =
    subst (λ p. complete_port p ≡ ok p) (sym same) (ground arith)

check_transport-IsTransport : (s : String) {t : String} → check_transport s ≡ ok t → IsTransport t
unfolding check_transport IsTransport
check_transport-IsTransport s h = grind (arith, eq_iff s "udp", eq_iff s "tcp", eq_iff s "tls")

complete_transport_fixed : {t : String} → IsTransport t → complete_transport t ≡ ok t
unfolding complete_transport to_lower IsTransport
complete_transport_fixed (inl h) = subst (λ t. complete_transport t ≡ ok t) (sym h) refl
complete_transport_fixed (inr (inl h)) = subst (λ t. complete_transport t ≡ ok t) (sym h) refl
complete_transport_fixed (inr (inr h)) = subst (λ t. complete_transport t ≡ ok t) (sym h) refl

check_auth-IsAuth :
    (s username secret : String) {t : String}
    → check_auth s username secret ≡ ok t
    → IsAuth t username secret
unfolding check_auth IsAuth
check_auth-IsAuth s username secret h =
    grind (arith, eq_iff s "userpass", eq_iff s "ip", eq_iff s "none")

complete_auth_fixed :
    {t : String} (username secret : String)
    → IsAuth t username secret
    → complete_auth t username secret ≡ ok t
unfolding complete_auth check_auth to_lower IsAuth
complete_auth_fixed username secret (inl (h, u, p)) =
    subst (λ t. complete_auth t username secret ≡ ok t) (sym h) (rw (u, p))
complete_auth_fixed username secret (inr (inl h)) =
    subst (λ t. complete_auth t username secret ≡ ok t) (sym h) refl
complete_auth_fixed username secret (inr (inr h)) =
    subst (λ t. complete_auth t username secret ≡ ok t) (sym h) refl

complete_codecs_fixed : (xs : List String) → 0 < length xs → complete_codecs xs ≡ xs
complete_codecs_fixed [] h = absurd (omega arith)
complete_codecs_fixed (x ∷ xs) h = refl

length-complete_codecs : (xs : List String) → 0 < length (complete_codecs xs)
length-complete_codecs [] = omega arith
length-complete_codecs (x ∷ xs) = omega arith

complete_codecs_safe :
    (xs : List String) → any has_injection_chars (complete_codecs xs) ≡ any has_injection_chars xs
unfolding has_injection_chars
complete_codecs_safe [] = refl
complete_codecs_safe (x ∷ xs) = refl

fields_fixed :
    (c : TrunkConfig)
    → is_trunk_name c.name ≡ true
    → is_blank c.name ≡ false
    → is_blank c.host ≡ false
    → any has_injection_chars (string_fields c) ≡ false
    → any has_injection_chars c.codecs ≡ false
    → check_fields c ≡ ok tt
unfolding check_fields is_blank
fields_fixed c named name host clean codecs = rw (named, name, host, clean, codecs) refl

registration_fixed :
    (c : TrunkConfig)
    → (c.registration_required && is_blank c.auth_username && is_blank c.from_user) ≡ false
    → check_registration c ≡ ok tt
unfolding check_registration
registration_fixed c h = rw h refl

check_fields_safe :
    (c : TrunkConfig)
    → check_fields c ≡ ok tt
    → (is_trunk_name c.name ≡ true)
      × (is_blank c.name ≡ false)
      × (is_blank c.host ≡ false)
      × (any has_injection_chars (string_fields c) ≡ false)
      × (any has_injection_chars c.codecs ≡ false)
unfolding check_fields is_blank
check_fields_safe c h =
    let (name, h1) = >>-both (guard (not (is_blank c.name)) name_required) _ h in
    let (named, h2) = >>-both (guard (is_trunk_name c.name) invalid_name) _ h1 in
    let (host, h3) = >>-both (guard (not (is_blank c.host)) host_required) _ h2 in
    let (clean, codecs) =
      >>-both (guard (not (any has_injection_chars (string_fields c))) injection) _ h3 in
    (
      guard_test _ _ named,
      guard-not _ _ name,
      guard-not _ _ host,
      guard-not _ _ clean,
      guard-not _ _ codecs,
    )

completed : TrunkConfig → ℤ → String → String → TrunkConfig
completed c p t a = record c {
  port = p;
  transport = t;
  auth_type = a;
  codecs = complete_codecs c.codecs;
}

completed-IsValid :
    (c : TrunkConfig) {p : ℤ} {t a : String}
    → check_fields c ≡ ok tt
    → complete_port c.port ≡ ok p
    → complete_transport c.transport ≡ ok t
    → complete_auth c.auth_type c.auth_username c.secret ≡ ok a
    → check_registration c ≡ ok tt
    → IsValid (completed c p t a)
unfolding IsValid check_fields check_registration complete_transport complete_auth completed
    is_blank
completed-IsValid c fields on by as_user registers = (
  (check_fields_safe c fields).0,
  (check_fields_safe c fields).1,
  (check_fields_safe c fields).2,
  (check_fields_safe c fields).3,
  rw (complete_codecs_safe c.codecs) ((check_fields_safe c fields).4),
  complete_port-IsPort c.port on,
  check_transport-IsTransport (default (to_lower c.transport) "udp") by,
  check_auth-IsAuth (default (to_lower c.auth_type) (auth_default c.auth_username c.secret))
      c.auth_username c.secret as_user,
  guard-not (c.registration_required && is_blank c.auth_username && is_blank c.from_user)
      no_identity registers,
  length-complete_codecs c.codecs,
)

-- What validation accepts it gives back valid.
pub validate-IsValid : (c : TrunkConfig) {d : TrunkConfig} → validate c ≡ ok d → IsValid d
unfolding validate completed
validate-IsValid c h =
    let (u, fields, h1) = >>=-eq-ok (check_fields c) _ h in
    let (port, on, h2) = >>=-eq-ok (complete_port c.port) _ h1 in
    let (transport, by, h3) = >>=-eq-ok (complete_transport c.transport) _ h2 in
    let (auth, as_user, h4) = >>=-eq-ok (complete_auth c.auth_type c.auth_username c.secret) _ h3 in
    let (v, registers, h5) = >>=-eq-ok (check_registration c) _ h4 in
    subst IsValid (ok-injective h5) (completed-IsValid c fields on by as_user registers)

-- Validation leaves the proxy and the network addresses as they are.
pub validate-addresses :
    (c : TrunkConfig) {d : TrunkConfig}
    → validate c ≡ ok d
    → (d.outbound_proxy ≡ c.outbound_proxy)
      × (d.host_network_address ≡ c.host_network_address)
      × (d.registrar_network_address ≡ c.registrar_network_address)
      × (d.outbound_proxy_network_address ≡ c.outbound_proxy_network_address)
unfolding validate
validate-addresses c h =
    let (u, fields, h1) = >>=-eq-ok (check_fields c) _ h in
    let (port, on, h2) = >>=-eq-ok (complete_port c.port) _ h1 in
    let (transport, by, h3) = >>=-eq-ok (complete_transport c.transport) _ h2 in
    let (auth, as_user, h4) = >>=-eq-ok (complete_auth c.auth_type c.auth_username c.secret) _ h3 in
    let (v, registers, h5) = >>=-eq-ok (check_registration c) _ h4 in
    subst
      (λ d.
        (d.outbound_proxy ≡ c.outbound_proxy)
        × (d.host_network_address ≡ c.host_network_address)
        × (d.registrar_network_address ≡ c.registrar_network_address)
        × (d.outbound_proxy_network_address ≡ c.outbound_proxy_network_address))
      (ok-injective h5) (refl, refl, refl, refl)

-- Validation returns a valid configuration as it is.
pub validate_fixed : (c : TrunkConfig) → IsValid c → validate c ≡ ok c
unfolding validate IsValid
validate_fixed c (named, name, host, clean, codecs, port, transport, auth, identity, some_codec) =
    rw
      (
        fields_fixed c named name host clean codecs,
        complete_port_fixed port,
        complete_transport_fixed transport,
        complete_auth_fixed c.auth_username c.secret auth,
        registration_fixed c identity,
        complete_codecs_fixed c.codecs some_codec,
      )
      refl

-- A configuration that validation accepts comes back valid: an allowed name, a host, no line break
-- or bracket in a field that the user gives, a port from 1 to 65535, one of the three transports, one
-- of the three ways to authenticate with its credentials, an identity if it is to register,
-- and codecs. Validated again, it stays as it is.
pub validate_lem :
    (c : TrunkConfig) {d : TrunkConfig} → validate c ≡ ok d → IsValid d × (validate d ≡ ok d)
validate_lem c {d} h = (validate-IsValid c h, validate_fixed d (validate-IsValid c h))
