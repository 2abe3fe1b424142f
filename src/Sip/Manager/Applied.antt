-- ===== src/Sip/Manager/Applied.antt =====
-- What ApplyTrunk leaves in the manager (internal/telephony/sip/reconciler.go).
use agentic_voice_sdr.Base.{
  String, Bool, true, false, not, ◌||◌, List, [], ◌∷◌, Option, none, some, Result, ok, err, str_eq,
  eq_iff, ◌≡◌, refl, ◌⊎◌, inl, inr, Bool-cases, Result-cases,
}
use agentic_voice_sdr.Base.Runs.{
  Ends, Ends-holds, return-Ends, any-Ends, mono-Ends, if-Ends, >>=-Ends, bool-Ends, pair-Ends,
}
use agentic_voice_sdr.Sip.Config.{TrunkConfig, Error, validate}
use agentic_voice_sdr.Sip.Pjsip.{generate_pjsip_config}
use agentic_voice_sdr.Sip.Manager.{
  ready, disabled, LifecycleStatus, StatusReport, NetworkDialer, AsteriskReloader, Manager, Cause,
  ApplyError, find, drop_entry, assign, Outcome, rollback_transaction, commit, judge, up,
  verify_registration, verify, stage, enable, enabled_with, disabled_with, transact, apply_trunk,
  get_trunk, get_status, get_pjsip_config,
}

-- A report on a trunk that is up.
unfoldable pub IsUp : TrunkConfig → StatusReport → Type 0
IsUp c rep =
    (rep.trunk_name ≡ c.name)
    × (rep.status ≡ some ready)
    × (rep.asterisk_healthy ≡ true)
    × (rep.endpoint_active ≡ true)

unfoldable EnableOutcome : TrunkConfig → Outcome → Type 0
unfolding IsUp
EnableOutcome c (rep, err e) = Unit
EnableOutcome c (rep, ok text) = (generate_pjsip_config c ≡ ok text) × IsUp c rep

module _ {S : Type 0} (d : NetworkDialer S) (r : AsteriskReloader S) (c : TrunkConfig) where
  abbrev Good : Outcome → S → Type 0
  Good o v = EnableOutcome c o

  rollback_transaction-Ends :
      (rep : StatusReport) (cause : Cause) (status : LifecycleStatus) (v : S)
      → Ends Good (rollback_transaction d r c rep cause status) v
  unfolding rollback_transaction EnableOutcome
  rollback_transaction-Ends rep cause status v = >>=-Ends (any-Ends (λ b u. return-Ends _ tt))

  commit-Ends :
      (text : String) (rep : StatusReport) (v : S)
      → EnableOutcome c (rep, ok text)
      → Ends Good (commit d r c text rep) v
  unfolding commit
  commit-Ends text rep v h =
      >>=-Ends (bool-Ends (λ u. rollback_transaction-Ends rep _ _ u) (λ u. return-Ends _ h))

  judge-Ends :
      (text : String) (rep : StatusReport) (found : String × Bool × Bool) (v : S)
      → EnableOutcome c (up d r "" rep, ok text)
      → Ends Good (judge d r c text rep found) v
  unfolding EnableOutcome IsUp
  judge-Ends text rep (state, healthy, answered) v h =
      if-Ends
        (not answered
          || not healthy
          || not (str_eq state "Registered" || str_eq state "REGISTERED"))
        (rollback_transaction-Ends _ _ _ v) (commit-Ends text _ v h)

  verify_registration-Ends :
      (text : String) (rep : StatusReport) (v : S)
      → EnableOutcome c (up d r "" rep, ok text)
      → Ends Good (verify_registration d r c text rep) v
  unfolding verify_registration EnableOutcome IsUp
  verify_registration-Ends text rep v h =
      if-Ends c.registration_required
        (>>=-Ends (any-Ends (λ found u. judge-Ends text rep found u h))) (commit-Ends text _ v h)

  verify-Ends :
      (text : String) (v : S) → generate_pjsip_config c ≡ ok text → Ends Good (verify d r c text) v
  unfolding verify EnableOutcome IsUp
  verify-Ends text v h = >>=-Ends (
      pair-Ends (λ a u. rollback_transaction-Ends _ _ _ u) (λ u. rollback_transaction-Ends _ _ _ u)
        (λ u. >>=-Ends (
          pair-Ends (λ a x. rollback_transaction-Ends _ _ _ x)
            (λ x. rollback_transaction-Ends _ _ _ x)
            (λ x. >>=-Ends (
              pair-Ends (λ a y. rollback_transaction-Ends _ _ _ y)
                (λ y. rollback_transaction-Ends _ _ _ y)
                (λ y. verify_registration-Ends text _ y (h, (refl, refl, refl, refl))))))))

  stage-Ends :
      (g : Result Error String) (v : S) → generate_pjsip_config c ≡ g → Ends Good (stage d r c g) v
  unfolding stage EnableOutcome
  stage-Ends (err e) v h = return-Ends _ tt
  stage-Ends (ok text) v h =
      >>=-Ends (bool-Ends (λ u. return-Ends _ tt) (λ u. verify-Ends text u h))

  enable-Ends : (v : S) → Ends Good (enable d r c) v
  unfolding enable EnableOutcome
  enable-Ends v = >>=-Ends (
      bool-Ends (λ u. return-Ends _ tt)
        (λ u.
          >>=-Ends
            (bool-Ends (λ x. return-Ends _ tt) (λ x. stage-Ends (generate_pjsip_config c) x refl))))

-- What a call leaves: the manager as it was, with an error; or, under the name of the trunk, the validated configuration
-- with its report, and the generated text if the trunk is enabled, none if it is disabled.
unfoldable pub ApplyOutcome :
    Manager → TrunkConfig → (StatusReport × Option ApplyError) × Manager → Type 0
unfolding IsUp
ApplyOutcome m c ((rep, some e), n) = n ≡ m
ApplyOutcome m c ((rep, none), n) =
    (v : TrunkConfig) × (validate c ≡ ok v)
    × (get_trunk n v.name ≡ some v)
    × (get_status n v.name ≡ some rep)
    × (((v.enabled ≡ true)
          × IsUp v rep
          × (text : String) × (generate_pjsip_config v ≡ ok text)
          × (get_pjsip_config n v.name ≡ some text))
        ⊎ ((v.enabled ≡ false) × (rep.status ≡ some disabled) × (get_pjsip_config n v.name ≡ none)))

pub find-assign {ℓ} :
    {V : Type ℓ} (name : String) (v : V) (m : List (String × V))
    → find name (assign name v m) ≡ some v
unfolding find assign
find-assign name v m = rw (same_text name) refl
  where
    same_text : (s : String) → str_eq s s ≡ true
    same_text s = (eq_iff s s).1 refl

pub find-drop_entry {ℓ} :
    {V : Type ℓ} (name : String) (m : List (String × V)) → find name (drop_entry name m) ≡ none
unfolding find drop_entry
find-drop_entry name [] = refl
find-drop_entry name ((key, v) ∷ m) = elim (Bool-cases (str_eq key name)) [
  | inl hit ↦ rw hit (find-drop_entry name m)
  | inr miss ↦ rw (miss, miss) (find-drop_entry name m)
]

enabled_with-ApplyOutcome :
    {S : Type 0} (d : NetworkDialer S) (r : AsteriskReloader S) (m : Manager) (c v : TrunkConfig)
    (o : Outcome)
    → validate c ≡ ok v
    → v.enabled ≡ true
    → EnableOutcome v o
    → ApplyOutcome m c (enabled_with d r m v o)
unfolding ApplyOutcome EnableOutcome get_trunk get_status get_pjsip_config
enabled_with-ApplyOutcome d r m c v (rep, err e) valid on h = refl
enabled_with-ApplyOutcome d r m c v (rep, ok text) valid on (made, is_up) = (
  v,
  valid,
  find-assign v.name v m.trunks,
  find-assign v.name rep m.statuses,
  inl (on, is_up, text, made, find-assign v.name text m.pjsip_configs),
)

disabled_with-ApplyOutcome :
    {S : Type 0} (d : NetworkDialer S) (r : AsteriskReloader S) (m : Manager) (c v : TrunkConfig)
    (b : Bool)
    → validate c ≡ ok v
    → v.enabled ≡ false
    → ApplyOutcome m c (disabled_with d r m v b)
unfolding ApplyOutcome get_trunk get_status get_pjsip_config
disabled_with-ApplyOutcome d r m c v false valid off = refl
disabled_with-ApplyOutcome d r m c v true valid off = (
  v,
  valid,
  find-assign v.name v m.trunks,
  find-assign v.name _ m.statuses,
  inr (off, refl, find-drop_entry v.name m.pjsip_configs),
)

transact-Ends :
    {S : Type 0} (d : NetworkDialer S) (r : AsteriskReloader S) (m : Manager) (c v : TrunkConfig)
    (b : Bool) (s : S)
    → validate c ≡ ok v
    → v.enabled ≡ b
    → Ends (λ o x. ApplyOutcome m c o) (transact d r m v b) s
transact-Ends d r m c v true s valid on = >>=-Ends (
    mono-Ends (enable-Ends d r v s)
      (λ o x h. return-Ends _ (enabled_with-ApplyOutcome d r m c v o valid on h)))
transact-Ends d r m c v false s valid off =
    >>=-Ends (any-Ends (λ b x. return-Ends _ (disabled_with-ApplyOutcome d r m c v b valid off)))

apply-Ends :
    {S : Type 0} (d : NetworkDialer S) (r : AsteriskReloader S) (m : Manager) (c : TrunkConfig)
    (s : S)
    → Ends (λ o x. ApplyOutcome m c o) (apply_trunk d r m c) s
unfolding apply_trunk
apply-Ends d r m c s = elim (Result-cases (validate c)) [
  | inr (e, bad) ↦ rw bad (return-Ends _ (unfold ApplyOutcome in refl))
  | inl (v, valid) ↦ rw valid (transact-Ends d r m c v v.enabled s valid refl)
]

-- ApplyTrunk either fails and leaves the manager's maps as they were, or leaves in them the validated
-- configuration and its report: an enabled trunk with the status READY, on an Asterisk found healthy with its
-- endpoint active, and with the text generated from that configuration; a disabled one with the
-- status DISABLED and no text. This holds for every dialer and every reloader.
pub apply_trunk-ApplyOutcome :
    {S : Type 0} (d : NetworkDialer S) (r : AsteriskReloader S) (m : Manager) (c : TrunkConfig)
    (s : S)
    → ApplyOutcome m c (apply_trunk d r m c s).0
apply_trunk-ApplyOutcome d r m c s = Ends-holds (apply-Ends d r m c s)
