-- ===== src/Scheduling/Windows.antt =====
-- What the checks of a policy establish (internal/domain/scheduling/policy.go).
use agentic_voice_sdr.Base.{
  ℕ, suc, ◌<◌, ◌≤◌, ◌≡◌, refl, inl, inr, Bool, true, false, not, ◌||◌, List, [], ◌∷◌, Option, none,
  some, ok, arith, ℤ, pos, negsuc, is_negative, less, All, >>=-eq-ok, ok-injective, subst,
  is_positive, Result-cases,
}
use agentic_voice_sdr.Scheduling.{
  full_day, hour, BusinessWindow, RetryPolicy, RetryPolicyConfig, insert, sort, check_windows,
  is_nil, check_day, check_days, is_hour, new_retry_policy,
}

-- A window opens before it closes, within the day.
abbrev pub IsWindow : BusinessWindow → Type 0
IsWindow w = (a : ℕ) × (b : ℕ) × (w.opens ≡ pos a) × (w.closes ≡ pos b) × (a < b) × (b ≤ full_day)

bounds :
    (o c : ℤ)
    → not (is_negative o || less (pos full_day) c || not (less o c)) ≡ true
    → (a : ℕ) × (b : ℕ) × (o ≡ pos a) × (c ≡ pos b) × (a < b) × (b ≤ full_day)
bounds (pos a) (pos b) h = (a, b, refl, refl, ground arith, ground arith)
bounds (pos a) (negsuc b) h = absurd (ground arith)
bounds (negsuc a) c h = absurd (ground arith)

check_windows-All :
    (weekday : ℤ) (i : ℕ) (before : Option BusinessWindow) (ws : List BusinessWindow)
    → check_windows weekday i before ws ≡ ok tt
    → All IsWindow ws
unfolding check_windows
check_windows-All weekday i before [] h = tt
check_windows-All weekday i before (w ∷ ws) h = (
  bounds w.opens w.closes (ground arith),
  check_windows-All weekday (suc i) (some w) ws (ground arith),
)

-- A weekday with windows.
abbrev pub IsDay : ℤ × List BusinessWindow → Type 0
IsDay d = (n : ℕ) × (d.0 ≡ pos n) × (n ≤ 6) × (is_nil d.1 ≡ false) × All IsWindow d.1

weekday_bounds :
    (w : ℤ) → (is_negative w || less (pos 6) w) ≡ false → (n : ℕ) × (w ≡ pos n) × (n ≤ 6)
weekday_bounds (pos n) h = (n, refl, ground arith)
weekday_bounds (negsuc n) h = absurd (ground arith)

insert-not_nil : (w : BusinessWindow) (ws : List BusinessWindow) → is_nil (insert w ws) ≡ false
unfolding insert
insert-not_nil w [] = refl
insert-not_nil w (v ∷ vs) = ground arith

sort-is_nil : (ws : List BusinessWindow) → is_nil (sort ws) ≡ is_nil ws
unfolding sort
sort-is_nil [] = refl
sort-is_nil (w ∷ ws) = insert-not_nil w (sort ws)

check_day-IsDay :
    (weekday : ℤ) (entries : List BusinessWindow) {sorted : List BusinessWindow}
    → check_day weekday entries ≡ ok sorted
    → IsDay (weekday, sorted)
unfolding check_day
check_day-IsDay weekday entries {sorted} h =
    let (n, same, small) = weekday_bounds weekday (ground arith) in
    subst (λ s. IsDay (weekday, s)) (out h)
      (
        n,
        same,
        small,
        ground (arith, sort-is_nil entries),
        check_windows-All weekday 0 none (sort entries) (ground arith),
      )
  where
    out : check_day weekday entries ≡ ok sorted → sort entries ≡ sorted
    out e = ground arith

check_days-All :
    (days : List (ℤ × List BusinessWindow)) {out : List (ℤ × List BusinessWindow)}
    → check_days days ≡ ok out
    → All IsDay out × (is_nil out ≡ is_nil days)
unfolding check_days
check_days-All [] {out} h = subst (λ o. All IsDay o × (is_nil o ≡ true)) (ok-injective h) (tt, refl)
check_days-All ((weekday, entries) ∷ days) {out} h =
    let (sorted, first, h1) = >>=-eq-ok (check_day weekday entries) _ h in
    let (rest, others, h2) = >>=-eq-ok (check_days days) _ h1 in
    subst (λ o. All IsDay o × (is_nil o ≡ false)) (ok-injective h2)
      ((check_day-IsDay weekday entries first, (check_days-All days others).0), refl)

-- What `NewRetryPolicy` guarantees of a policy.
pub record IsPolicy (p : RetryPolicy) : Type 0 where
  pub attempts : (n : ℕ) × (p.max_attempts ≡ pos n) × (n ≤ 3)
  pub hourly : p.retry_after ≡ pos hour
  pub days : All IsDay p.windows
  pub some_day : is_nil p.windows ≡ false

attempts_bounds :
    (m : ℤ) → is_positive m ≡ true → less (pos 3) m ≡ false → (n : ℕ) × (m ≡ pos n) × (n ≤ 3)
attempts_bounds (pos n) h k = (n, refl, ground arith)
attempts_bounds (negsuc n) h k = absurd (ground arith)

is_hour_lem : (d : ℤ) → is_hour d ≡ true → d ≡ pos hour
is_hour_lem (pos n) h = ground arith
is_hour_lem (negsuc n) h = cc

pub new_retry_policy-IsPolicy :
    (loads : Bool) (c : RetryPolicyConfig) {p : RetryPolicy}
    → new_retry_policy loads c ≡ ok p
    → IsPolicy p
unfolding new_retry_policy
new_retry_policy-IsPolicy loads c {p} h =
    let (windows, checked, same) = inner in
    subst IsPolicy same (record {
      attempts = attempts_bounds c.max_attempts (ground arith) (ground arith);
      hourly = is_hour_lem c.retry_after (ground arith);
      days = (check_days-All c.windows checked).0;
      some_day = rw (check_days-All c.windows checked).1 (ground arith);
    })
  where
    inner :
        (windows : List (ℤ × List BusinessWindow)) × (check_days c.windows ≡ ok windows)
        × (◌≡◌ {A = RetryPolicy}
            (record {
              max_attempts = c.max_attempts;
              retry_after = c.retry_after;
              windows = windows;
            })
            p)
    inner = elim (Result-cases (check_days c.windows)) [
      | inl (w, e) ↦ (w, e, ground arith)
      | inr (x, e) ↦ absurd (ground arith)
    ]
