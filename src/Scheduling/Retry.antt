-- ===== src/Scheduling/Retry.antt =====
-- A retry lands in a business window (internal/domain/scheduling/policy.go).
use agentic_voice_sdr.Base.{
  ℕ, suc, ◌+◌, ◌-◌, ◌%◌, ◌<◌, ◌≤◌, ◌≡◌, refl, ◌⊎◌, inl, inr, Bool, true, false, not, ◌&&◌, List, [],
  ◌∷◌, some, ok, err, arith, ℤ, pos, negsuc, less, All, Bool-cases, sym, ap, ◌∙◌,
}
use agentic_voice_sdr.Scheduling.{
  hour, BusinessWindow, RetryPolicy, RetryPolicyConfig, Zone, attempts_exhausted, is_nil,
  new_retry_policy, can_retry, windows_on, weekday_of, validate_callback, search,
  next_business_time, next_retry, add,
}
use agentic_voice_sdr.Scheduling.Windows.{IsDay, IsPolicy, new_retry_policy-IsPolicy}
use agentic_voice_sdr.Scheduling.Search.{IsRegular, search_sound, search_finds}

-- How many days on from a day the weekday is next, not counting the day.
abbrev days_until : ℕ → ℕ → ℕ
days_until day n = suc ((n + 7 - (day + 5) % 7) % 7)

weekday_of-days_until : (day n : ℕ) → n ≤ 6 → weekday_of (day + days_until day n) ≡ n
weekday_of-days_until day n h = omega arith

-- Some weekday has windows.
first_day :
    (days : List (ℤ × List BusinessWindow))
    → All IsDay days
    → is_nil days ≡ false
    → (n : ℕ) × (n ≤ 6) × (is_nil (windows_on n days) ≡ false)
unfolding windows_on
first_day [] h e = cc
first_day ((w, ws) ∷ days) ((n, same, small, full, _), _) e = (n, small, rw same (ground arith))

module _ (z : Zone) (base : ℕ) (regular : IsRegular z base) (p : RetryPolicy)
    (is_policy : IsPolicy p) where
  searched : {t : ℕ} → search z p base 8 0 ≡ some t → next_business_time z p base ≡ ok t
  unfolding next_business_time
  searched found = rw (found, next_business_time) refl

  next_business_time-lands :
      (t : ℕ) × (next_business_time z p base ≡ ok t)
      × (base ≤ t)
      × (validate_callback z p t ≡ ok tt)
  next_business_time-lands =
      let (n, small, full) = first_day p.windows is_policy.days is_policy.some_day in
      let ahead = days_until (z.day_of base) n in
      let on : weekday_of (z.add_date base ahead) ≡ n =
        ap weekday_of (regular.next_days ahead (omega arith))
        ∙ weekday_of-days_until (z.day_of base) n small in
      let (t, found) =
        search_finds z base regular p is_policy.days 8 0 ahead (omega arith) (omega arith)
          (omega arith) (rw on full) in
      let (up, fine) = search_sound z base regular p is_policy.days 8 0 (omega arith) found in
      (t, searched found, up, fine)

attempt_bounds :
    (attempt : ℤ) (m : ℕ)
    → (not (less attempt (pos 1)) && less attempt (pos m)) ≡ true
    → (n : ℕ) × (attempt ≡ pos n) × (1 ≤ n) × (n < m)
attempt_bounds (pos n) m h = (n, refl, ground arith, ground arith)
attempt_bounds (negsuc n) m h = absurd (ground arith)

-- A retry under a policy that `NewRetryPolicy` has made, in a zone that shifts no clock on the eight days from
-- an hour from now on: it is refused exactly where the policy forbids it; a retry that is not refused follows the first or
-- the second attempt, is found, is at least an hour from now, and is itself accepted as a callback,
-- hence in a business window.
pub next_retry_lem :
    (loads : Bool) (c : RetryPolicyConfig) {p : RetryPolicy} (z : Zone) (now : ℕ) (attempt : ℤ)
    → new_retry_policy loads c ≡ ok p
    → IsRegular z (now + hour)
    → ((can_retry p attempt ≡ false)
        × (next_retry z p now attempt ≡ err (attempts_exhausted attempt p.max_attempts)))
      ⊎ ((n : ℕ) × (t : ℕ) × (attempt ≡ pos n)
          × (1 ≤ n)
          × (n ≤ 2)
          × (next_retry z p now attempt ≡ ok t)
          × (now + hour ≤ t)
          × (validate_callback z p t ≡ ok tt))
unfolding next_retry
next_retry_lem loads c {p} z now attempt made regular =
    let q = new_retry_policy-IsPolicy loads c made in
    let (m, limit, small) = q.attempts in
    elim (Bool-cases (can_retry p attempt)) [
      | inr forbidden ↦ rw forbidden (inl (refl, refl))
      | inl allowed ↦
          let (n, same, low, high) = attempt_bounds attempt m (
            unfold can_retry in
            (ap (λ k. not (less attempt (pos 1)) && less attempt k) (sym limit) ∙ allowed)) in
          let (t, found, up, fine) = next_business_time-lands z (now + hour) regular p q in
          rw allowed (
            inr (
              n,
              t,
              same,
              low,
              omega arith,
              ap (λ d. next_business_time z p (add now d)) q.hourly ∙ found,
              up,
              fine,
            ))
    ]
