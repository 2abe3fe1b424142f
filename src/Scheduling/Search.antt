-- ===== src/Scheduling/Search.antt =====
-- The search for the next business time (internal/domain/scheduling/policy.go).
use agentic_voice_sdr.Base.{
  ℕ, zero, suc, ◌+◌, ◌<◌, ◌≤◌, ◌≡◌, refl, ◌⊎◌, inl, inr, true, false, not, ◌&&◌, List, [], ◌∷◌,
  Option, some, ok, arith, ltb, ◌==◌, ℤ, pos, All, subst, sym, if◌then◌else◌, Bool-cases,
  Option-cases,
}
use agentic_voice_sdr.Scheduling.{
  full_day, BusinessWindow, RetryPolicy, Zone, is_nil, windows_on, same_int, weekday_of, inside,
  validate_callback, scan, search,
}
use agentic_voice_sdr.Scheduling.Windows.{IsWindow, IsDay}

-- A zone that shifts no clock on the eight days from an instant's day on: AddDate reaches them, and on
-- each of them the clock shows every time of the day once, in order. A day on which a summer time begins or
-- ends may be none of them; America/Sao_Paulo has had no such day since 2019.
pub record IsRegular (z : Zone) (base : ℕ) : Type 0 where
  pub next_days : (n : ℕ) → n ≤ 7 → z.add_date base n ≡ z.day_of base + n
  pub on_day :
      (n a : ℕ)
      → n ≤ 7
      → a < full_day
      → z.day_of (z.date (z.day_of base + n) (pos a)) ≡ z.day_of base + n
  pub later :
      (n a b : ℕ)
      → n ≤ 7
      → a < b
      → b ≤ full_day
      → z.date (z.day_of base + n) (pos a) < z.date (z.day_of base + n) (pos b)
  pub before_day : (n : ℕ) → n ≤ 7 → 0 < n → base < z.date (z.day_of base + n) (pos 0)

module _ (z : Zone) (base : ℕ) (regular : IsRegular z base) where
  midnight_first :
      (n a : ℕ)
      → n ≤ 7
      → a < full_day
      → z.date (z.day_of base + n) (pos 0) ≤ z.date (z.day_of base + n) (pos a)
  midnight_first n zero near h = omega arith
  midnight_first n (suc a) near h =
      omega (arith, regular.later n 0 (suc a) near (omega arith) (omega (arith, h)))

  -- What a scan finds is not before its start, on the day that is scanned, and in a window of it.
  abbrev Lands : ℕ → List BusinessWindow → ℕ → Type 0
  Lands day ws t = (base ≤ t) × (z.day_of t ≡ day) × (inside z t day ws ≡ true)

  -- One window, by its two instants: it gives the result, or the later windows do.
  scan_window :
      (offset day o c : ℕ) (rest : Option ℕ) {t : ℕ}
      → day ≡ z.day_of base + offset
      → z.day_of o ≡ day
      → o < c
      → (0 < offset → base < o)
      → (if offset == 0 && ltb base o
          then some o
          else (if ltb base c && not (ltb base o)
              then some base
              else (if ltb 0 offset then some o else rest)))
        ≡ some t
      → ((base ≤ t) × (z.day_of t ≡ day) × ((not (ltb t o) && ltb t c) ≡ true)) ⊎ (rest ≡ some t)
  scan_window offset day o c rest same on order ahead e =
      elim (Bool-cases (offset == 0 && ltb base o)) [
        | inl wait ↦ inl (ground arith, ground arith, ground arith)
        | inr no_wait ↦ elim (Bool-cases (ltb base c && not (ltb base o))) [
          | inl now ↦ inl (ground arith, ground arith, ground arith)
          | inr not_now ↦ elim (Bool-cases (ltb 0 offset)) [
            | inl up ↦ inl (ground arith, ground arith, ground arith)
            | inr today ↦ inr (ground arith)
          ]
        ]
      ]

  scan-Lands :
      (offset : ℕ) (ws : List BusinessWindow) {t : ℕ}
      → offset ≤ 7
      → All IsWindow ws
      → scan z base offset (z.day_of base + offset) ws ≡ some t
      → Lands (z.day_of base + offset) ws t
  unfolding scan inside
  scan-Lands offset [] near h e = cc
  scan-Lands offset (w ∷ ws) {t} near ((a, b, ea, eb, lt, le), h) e =
      let day = z.day_of base + offset in
      elim (scan_window offset day (z.date day w.opens) (z.date day w.closes)
        (scan z base offset day ws) refl
        (rw ea (regular.on_day offset a near (omega (arith, lt, le))))
        (rw (ea, eb) (regular.later offset a b near lt le))
        (λ up. rw ea (
          omega (
            arith,
            regular.before_day offset near up,
            midnight_first offset a near (omega (arith, lt, le)),
          )))
        e) [
          | inl (up, on, in_window) ↦ (up, on, ground (arith, in_window))
          | inr later ↦
              let (up, on, in_window) = scan-Lands offset ws near h later in
              (up, on, ground (arith, in_window))
        ]

windows_on-All :
    (weekday : ℕ) (days : List (ℤ × List BusinessWindow))
    → All IsDay days
    → All IsWindow (windows_on weekday days)
unfolding windows_on
windows_on-All weekday [] h = tt
windows_on-All weekday ((w, ws) ∷ days) ((_, _, _, _, all), h) =
    elim (Bool-cases (same_int w (pos weekday))) [
      | inl hit ↦ rw hit all
      | inr miss ↦ rw miss (windows_on-All weekday days h)
    ]

module _ (z : Zone) (base : ℕ) (regular : IsRegular z base) (p : RetryPolicy)
    (days : All IsDay p.windows) where
  pub search_sound :
      (k offset : ℕ) {t : ℕ}
      → offset + k ≤ 8
      → search z p base k offset ≡ some t
      → (base ≤ t) × (validate_callback z p t ≡ ok tt)
  unfolding search validate_callback
  search_sound zero offset near e = cc
  search_sound (suc k) offset {t} near e =
      let day = z.add_date base offset in
      let ws = windows_on (weekday_of day) p.windows in
      elim (Option-cases (scan z base offset day ws)) [
        | inl none_found ↦ search_sound k (suc offset) (omega arith) (ground arith)
        | inr (u, found) ↦
            let same : u ≡ t = ground arith in
            let next = regular.next_days offset (omega arith) in
            let (up, on, in_window) =
              subst (λ d. Lands z base regular d ws u) (sym next)
                (scan-Lands z base regular offset ws (omega arith)
                  (windows_on-All (weekday_of day) p.windows days)
                  (subst (λ d. scan z base offset d ws ≡ some u) next found)) in
            subst (λ v. (base ≤ v) × (validate_callback z p v ≡ ok tt)) same
              (up, rw (on, in_window) refl)
      ]

  scan_finds :
      (offset day : ℕ) (ws : List BusinessWindow)
      → 0 < offset
      → is_nil ws ≡ false
      → (t : ℕ) × (scan z base offset day ws ≡ some t)
  unfolding scan
  scan_finds offset day [] up h = cc
  scan_finds offset day (w ∷ ws) up h = elim (Option-cases (scan z base offset day (w ∷ ws))) [
    | inr found ↦ found
    | inl none_found ↦ absurd (ground arith)
  ]

  -- A later day with windows is enough for the search to end with a result.
  pub search_finds :
      (k offset n : ℕ)
      → 0 < n
      → offset ≤ n
      → n < offset + k
      → is_nil (windows_on (weekday_of (z.add_date base n)) p.windows) ≡ false
      → (t : ℕ) × (search z p base k offset ≡ some t)
  unfolding search
  search_finds zero offset n up from to h = absurd (omega arith)
  search_finds (suc k) offset n up from to h =
      elim (Option-cases (search z p base (suc k) offset)) [
        | inr found ↦ found
        | inl none_found ↦ elim (Bool-cases (offset == n)) [
          | inl here ↦
              let (t, found) =
                scan_finds n (z.add_date base n)
                  (windows_on (weekday_of (z.add_date base n)) p.windows) up h in
              absurd (ground arith)
          | inr later ↦
              let (t, found) = search_finds k (suc offset) n up (ground arith) (omega arith) h in
              absurd (ground arith)
        ]
      ]
