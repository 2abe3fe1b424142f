-- ===== src/Scheduling/Tests.antt =====
-- The retry policy on concrete inputs (internal/domain/scheduling/policy.go).
use agentic_voice_sdr.Base.{
  ℕ, ◌+◌, ◌-◌, ◌*◌, ◌/◌, ◌≤◌, ◌≡◌, refl, ◌⊎◌, true, false, [], ◌∷◌, ok, err, arith, pos, negsuc,
}
use agentic_voice_sdr.Scheduling.{
  hour, full_day, RetryPolicy, RetryPolicyConfig, BusinessWindow, Zone, attempts_exhausted,
  invalid_business_window, overlap, new_retry_policy, check_days, check_day, check_windows, sort,
  insert, can_retry, next_retry, next_business_time, search, scan, windows_on, validate_callback,
}
use agentic_voice_sdr.Scheduling.Search.{IsRegular}
use agentic_voice_sdr.Scheduling.Retry.{next_retry_lem}

-- America/Sao_Paulo as it is since 2019, three hours behind universal time.
abbrev sao_paulo : Zone
sao_paulo = record {
  day_of = λ t. (t - 3 * hour) / full_day;
  add_date = λ t n. (t - 3 * hour) / full_day + n;
  date = λ d o. elim o [ pos a ↦ d * full_day + a + 3 * hour | negsuc a ↦ 0 ];
}

sao_paulo-IsRegular : (base : ℕ) → IsRegular sao_paulo base
sao_paulo-IsRegular base = record {
  next_days = λ n near. refl;
  on_day = λ n a near h. omega arith;
  later = λ n a b near h k. omega arith;
  before_day = λ n near up. omega arith;
}

abbrev window : ℕ → ℕ → BusinessWindow
window a b = record { opens = pos (a * hour); closes = pos (b * hour) }

-- Fridays only, morning and afternoon.
abbrev config : RetryPolicyConfig
config = record {
  max_attempts = pos 3;
  retry_after = pos hour;
  time_zone = "America/Sao_Paulo";
  windows = (pos 5, window 14 18 ∷ window 9 12 ∷ []) ∷ [];
}

abbrev policy : RetryPolicy
policy = record {
  max_attempts = pos 3;
  retry_after = pos hour;
  windows = (pos 5, window 9 12 ∷ window 14 18 ∷ []) ∷ [];
}

config_accepted : new_retry_policy true config ≡ ok policy
unfolding new_retry_policy check_days check_day check_windows sort insert
config_accepted = refl

overlap_refused :
    new_retry_policy true
      (record config { windows = (pos 5, window 9 15 ∷ window 14 18 ∷ []) ∷ [] })
    ≡ err (invalid_business_window (pos 5) 1 overlap)
unfolding new_retry_policy check_days check_day check_windows sort insert
overlap_refused = refl

-- The 26th of November 2026, a Thursday, at a clock time, in universal time.
abbrev at_hour : ℕ → ℕ
at_hour h = 20783 * full_day + (h + 3) * hour

-- On Thursday at noon the next retry is on Friday at nine.
thursday : next_retry sao_paulo policy (at_hour 12) (pos 1) ≡ ok (at_hour 33)
unfolding next_retry can_retry next_business_time search scan windows_on
thursday = refl

-- Within the lunch break of Friday it is at two.
friday : next_retry sao_paulo policy (at_hour 36) (pos 2) ≡ ok (at_hour 38)
unfolding next_retry can_retry next_business_time search scan windows_on
friday = refl

next_retry_lem_example :
    ((can_retry policy (pos 2) ≡ false)
      × (next_retry sao_paulo policy (at_hour 36) (pos 2)
          ≡ err (attempts_exhausted (pos 2) (pos 3))))
    ⊎ ((n : ℕ) × (t : ℕ) × (pos 2 ≡ pos n)
        × (1 ≤ n)
        × (n ≤ 2)
        × (next_retry sao_paulo policy (at_hour 36) (pos 2) ≡ ok t)
        × (at_hour 36 + hour ≤ t)
        × (validate_callback sao_paulo policy t ≡ ok tt))
next_retry_lem_example =
    next_retry_lem true config sao_paulo (at_hour 36) (pos 2) config_accepted
      (sao_paulo-IsRegular (at_hour 36 + hour))
