-- ===== src/Scheduling.antt =====
-- internal/domain/scheduling/policy.go: when a call may be tried again.
-- An instant is a number of nanoseconds, a duration an integer of them. What the package asks of its
-- time zone is a parameter, Zone: the calendar day of an instant, counted from a Thursday, the day that
-- AddDate reaches, and the instant at which the clock of a day shows a time.
pub mod Windows
pub mod Search
pub mod Retry
pub mod Tests
use agentic_voice_sdr.Base.{
  ℕ, zero, suc, ◌+◌, ◌-◌, ◌%◌, String, Bool, true, false, not, ◌&&◌, ◌||◌, List, [], ◌∷◌, Option,
  none, some, Result, ok, err, ◌>>=◌, ◌>>◌, guard, if◌then◌else◌, ◌==◌, ltb, str_eq, ℤ, pos, negsuc,
  is_negative, is_positive, less,
}

abbrev pub hour : ℕ
hour = 3600000000000

abbrev pub full_day : ℕ
full_day = 86400000000000

pub record BusinessWindow : Type 0 where
  pub opens : ℤ
  pub closes : ℤ

-- The map from weekdays, Sunday being 0, in the order in which it is walked through.
pub record RetryPolicyConfig : Type 0 where
  pub max_attempts : ℤ
  pub retry_after : ℤ
  pub time_zone : String
  pub windows : List (ℤ × List BusinessWindow)

pub record RetryPolicy : Type 0 where
  pub max_attempts : ℤ
  pub retry_after : ℤ
  pub windows : List (ℤ × List BusinessWindow)

pub record Zone : Type 0 where
  pub day_of : ℕ → ℕ
  pub add_date : ℕ → ℕ → ℕ
  pub date : ℕ → ℤ → ℕ

pub data Reason : Type 0 where
  attempts_positive interval_positive at_most_three exactly_one_hour no_window : Reason
  no_weekday empty_day bad_bounds overlap no_next : Reason

pub data Error : Type 0 where
  attempts_exhausted : ℤ → ℤ → Error
  invalid_business_window : ℤ → ℕ → Reason → Error
  invalid_timezone : String → Error
  callback_outside_policy : ℕ → Error

-- An error that is about no window.
abbrev pub policy_error : Reason → Error
policy_error r = invalid_business_window (pos 0) 0 r

-- `sort.Slice` by the opening.
unfoldable pub insert : BusinessWindow → List BusinessWindow → List BusinessWindow
insert w [] = w ∷ []
insert w (v ∷ vs) = let rest = insert w vs in if less v.opens w.opens then v ∷ rest else w ∷ v ∷ vs

unfoldable pub sort : List BusinessWindow → List BusinessWindow
unfolding insert
sort [] = []
sort (w ∷ ws) = insert w (sort ws)

abbrev pub overlaps : Option BusinessWindow → BusinessWindow → Bool
overlaps none w = false
overlaps (some v) w = less w.opens v.closes

abbrev pub in_bounds : BusinessWindow → Bool
in_bounds w =
    not (is_negative w.opens || less (pos full_day) w.closes || not (less w.opens w.closes))

-- The loop over the sorted windows of a day, from an index on, after a previous window.
unfoldable pub check_windows :
    ℤ → ℕ → Option BusinessWindow → List BusinessWindow → Result Error (Unit {0})
check_windows weekday i before [] = ok tt
check_windows weekday i before (w ∷ ws) = do
  guard (in_bounds w) (invalid_business_window weekday i bad_bounds)
  guard (not (overlaps before w)) (invalid_business_window weekday i overlap)
  check_windows weekday (suc i) (some w) ws

abbrev pub is_nil {ℓ} : {A : Type ℓ} → List A → Bool
is_nil [] = true
is_nil (x ∷ xs) = false

unfoldable pub check_day : ℤ → List BusinessWindow → Result Error (List BusinessWindow)
check_day weekday entries = do
  guard (not (is_negative weekday || less (pos 6) weekday))
      (invalid_business_window weekday 0 no_weekday)
  guard (not (is_nil entries)) (invalid_business_window weekday 0 empty_day)
  check_windows weekday 0 none (sort entries)
  ok (sort entries)

-- The loop over the days.
unfoldable pub check_days :
    List (ℤ × List BusinessWindow) → Result Error (List (ℤ × List BusinessWindow))
check_days [] = ok []
check_days ((weekday, entries) ∷ days) = do
  sorted ← check_day weekday entries
  rest ← check_days days
  ok ((weekday, sorted) ∷ rest)

-- `d == time.Hour`.
abbrev pub is_hour : ℤ → Bool
is_hour (pos n) = n == hour
is_hour (negsuc n) = false

-- `NewRetryPolicy`; `loads` tells whether the time zone database has the zone.
unfoldable pub new_retry_policy : Bool → RetryPolicyConfig → Result Error RetryPolicy
new_retry_policy loads c = do
  guard (is_positive c.max_attempts) (policy_error attempts_positive)
  guard (is_positive c.retry_after) (policy_error interval_positive)
  guard (not (less (pos 3) c.max_attempts)) (policy_error at_most_three)
  guard (is_hour c.retry_after) (policy_error exactly_one_hour)
  guard (str_eq c.time_zone "America/Sao_Paulo") (invalid_timezone c.time_zone)
  guard loads (invalid_timezone c.time_zone)
  guard (not (is_nil c.windows)) (policy_error no_window)
  windows ← check_days c.windows
  ok (record { max_attempts = c.max_attempts; retry_after = c.retry_after; windows = windows })

unfoldable pub can_retry : RetryPolicy → ℤ → Bool
can_retry p attempt = not (less attempt (pos 1)) && less attempt p.max_attempts

abbrev pub same_int : ℤ → ℤ → Bool
same_int (pos a) (pos b) = a == b
same_int (negsuc a) (negsuc b) = a == b
same_int a b = false

-- `p.windows[weekday]`.
unfoldable pub windows_on : ℕ → List (ℤ × List BusinessWindow) → List BusinessWindow
windows_on weekday [] = []
windows_on weekday ((w, ws) ∷ m) = if same_int w (pos weekday) then ws else windows_on weekday m

-- `t.Add(d)`, as far as the instants go.
abbrev pub add : ℕ → ℤ → ℕ
add t (pos n) = t + n
add t (negsuc n) = t - suc n

abbrev pub weekday_of : ℕ → ℕ
weekday_of day = (day + 4) % 7

module _ (z : Zone) where
  -- Whether the instant is in one of the windows, on the given day.
  unfoldable pub inside : ℕ → ℕ → List BusinessWindow → Bool
  inside t day [] = false
  inside t day (w ∷ ws) =
      (not (ltb t (z.date day w.opens)) && ltb t (z.date day w.closes)) || inside t day ws

  unfoldable pub validate_callback : RetryPolicy → ℕ → Result Error (Unit {0})
  validate_callback p t =
      guard (inside t (z.day_of t) (windows_on (weekday_of (z.day_of t)) p.windows))
        (callback_outside_policy t)

  -- The loop over the windows of the day at the offset.
  unfoldable pub scan : ℕ → ℕ → ℕ → List BusinessWindow → Option ℕ
  scan base offset day [] = none
  scan base offset day (w ∷ ws) =
      let opens = z.date day w.opens in
      let closes = z.date day w.closes in
      let rest = scan base offset day ws in
      if offset == 0 && ltb base opens
      then some opens
      else (if ltb base closes && not (ltb base opens)
          then some base
          else (if ltb 0 offset then some opens else rest))

  -- The loop over the offsets, so many of them from one on.
  unfoldable pub search : RetryPolicy → ℕ → ℕ → ℕ → Option ℕ
  search p base zero offset = none
  search p base (suc k) offset =
      elim (scan base offset (z.add_date base offset)
        (windows_on (weekday_of (z.add_date base offset)) p.windows)) [
          | some t ↦ some t
          | none ↦ search p base k (suc offset)
        ]

  unfoldable pub next_business_time : RetryPolicy → ℕ → Result Error ℕ
  next_business_time p base = elim (search p base 8 0) [
    | none ↦ err (policy_error no_next)
    | some t ↦ ok t
  ]

  -- `NextRetry` at the clock's time.
  unfoldable pub next_retry : RetryPolicy → ℕ → ℤ → Result Error ℕ
  next_retry p now attempt =
      if not (can_retry p attempt)
      then err (attempts_exhausted attempt p.max_attempts)
      else next_business_time p (add now p.retry_after)
