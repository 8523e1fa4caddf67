-- ===== src/DateTime/RoundTrip.antt =====
-- A date goes to its timestamp and comes back.
use dev_essential.Base.{
  ℕ, ◌+◌, ◌-◌, ◌*◌, ◌/◌, ◌%◌, ◌^◌, ◌≤◌, ◌<◌, ◌≡◌, refl, ap, ◌∙◌, arith, Bool, true, false, ◌&&◌,
  ltb, lt→ltb, ltb→lt, ◌==◌, if◌then◌else◌, ◌⊎◌, ◌≢◌, inl, inr, Bool-cases,
}
use mathlib.Core.Path.{ap₂}
use dev_essential.DateTime.{
  DateTime, TimestampReference, since_unix_origin, since_julian_origin, from_julian, to_julian,
  usecs_per_day, time_of_day, day_count, to_timestamp, date_of, set_timestamp,
}
use dev_essential.DateTime.Days.{days_before, LastDay}
use dev_essential.DateTime.March.{dated, count-counted, date_of-count}

-- A date of the Gregorian calendar, from the 15th of October 1582 on and before the year 40000.
pub record IsDate (dt : DateTime) : Type 0 where
  pub month_first : 1 ≤ dt.month
  pub month_last : dt.month ≤ 12
  pub day_first : 1 ≤ dt.day
  pub day_last : dt.day ≤ 30 + (dt.month + dt.month / 8) % 2
  pub february :
      (dt.month ≢ 2)
      ⊎ ((dt.day ≤ 28)
          ⊎ ((dt.day ≤ 29) × (dt.year % 4 ≡ 0) × ((1 ≤ dt.year % 100) ⊎ (dt.year % 400 ≡ 0))))
  pub late : (1582 * 12 + 10) * 31 + 15 ≤ (dt.year * 12 + dt.month) * 31 + dt.day
  pub early : dt.year < 40000
  pub hour_last : dt.hour < 24
  pub minute_last : dt.minute < 60
  pub second_last : dt.second < 60
  pub microsecond_last : dt.microsecond < 1000000

to_julian-from :
    (reference : TimestampReference) (t : ℕ)
    → t < 2 ^ 64
    → to_julian reference (from_julian reference t) ≡ t
to_julian-from since_unix_origin t h = omega arith
to_julian-from since_julian_origin t h = refl

module _ (dt : DateTime) (h : IsDate dt) where
  time_fits : time_of_day dt < usecs_per_day
  time_fits =
      let a = h.hour_last in
      let b = h.minute_last in let c = h.second_last in let d = h.microsecond_last in omega arith

  -- The timestamp of a day number comes apart again.
  set_timestamp-day :
      (n : ℕ) (reference : TimestampReference)
      → n < 100000000
      → set_timestamp (from_julian reference (n * usecs_per_day + time_of_day dt)) reference
        ≡ date_of n (time_of_day dt)
  unfolding set_timestamp
  set_timestamp-day n reference few =
      let fits = time_fits in
      ap (λ t. date_of (t / usecs_per_day) (t % usecs_per_day))
        (to_julian-from reference (n * usecs_per_day + time_of_day dt) (omega arith))
      ∙ ap₂ date_of (quotient n (time_of_day dt) fits) (rest n (time_of_day dt) fits)
    where
      quotient : (n t : ℕ) → t < usecs_per_day → (n * usecs_per_day + t) / usecs_per_day ≡ n
      quotient n t fits = omega arith

      rest : (n t : ℕ) → t < usecs_per_day → (n * usecs_per_day + t) % usecs_per_day ≡ t
      rest n t fits = omega arith

  dated-time :
      (year month : ℕ)
      → (if ltb 12 (month + 3) then year + 1 else year) ≡ dt.year
      → (if ltb 12 (month + 3) then (month + 3) - 12 else month + 3) ≡ dt.month
      → dated year month dt.day (time_of_day dt) ≡ dt
  dated-time year month ey em =
      let a = h.hour_last in
      let b = h.minute_last in
      let c = h.second_last in
      let d = h.microsecond_last in rw (ey, em, hour_back, minute_back, second_back, rest_back) refl
    where
      hour_back : time_of_day dt / 3600000000 ≡ dt.hour
      hour_back =
          let a = h.hour_last in
          let b = h.minute_last in
          let c = h.second_last in let d = h.microsecond_last in omega arith

      minute_back : time_of_day dt / 60000000 % 60 ≡ dt.minute
      minute_back =
          let b = h.minute_last in
          let c = h.second_last in let d = h.microsecond_last in omega arith

      second_back : time_of_day dt / 1000000 % 60 ≡ dt.second
      second_back = let c = h.second_last in let d = h.microsecond_last in omega arith

      rest_back : time_of_day dt % 1000000 ≡ dt.microsecond
      rest_back = let d = h.microsecond_last in omega arith

  set_timestamp-shifted :
      (year month : ℕ) (reference : TimestampReference)
      → (inside : days_before month + dt.day ≤ days_before (month + 1))
      → (short : days_before month + dt.day ≤ 366) → LastDay year (days_before month + dt.day)
      → 578054 ≤ year * 1461 / 4 + (days_before month + dt.day)
      → year < 40000
      → (if ltb 12 (month + 3) then year + 1 else year) ≡ dt.year
      → (if ltb 12 (month + 3) then (month + 3) - 12 else month + 3) ≡ dt.month
      → set_timestamp
          (from_julian reference (day_count year month dt.day * usecs_per_day + time_of_day dt))
          reference
        ≡ dt
  set_timestamp-shifted year month reference inside short leap late early ey em =
      set_timestamp-day (day_count year month dt.day) reference few
      ∙ date_of-count year month dt.day h.day_first inside short leap late (time_of_day dt)
      ∙ dated-time year month ey em
    where
      few : day_count year month dt.day < 100000000
      few =
          let e = count-counted year month dt.day h.day_first inside short leap late in omega arith

  -- January and February belong to the year that began in March before.
  early_months :
      dt.month < 3
      → (inside : days_before (dt.month + 9) + dt.day ≤ days_before (dt.month + 9 + 1))
        × (days_before (dt.month + 9) + dt.day ≤ 366)
        × LastDay (dt.year - 1) (days_before (dt.month + 9) + dt.day)
        × (578054 ≤ (dt.year - 1) * 1461 / 4 + (days_before (dt.month + 9) + dt.day))
  early_months before =
      let a = h.month_first in
      let c = h.day_first in
      let d = h.day_last in
      let e = h.late in
      elim h.february [
        | inl january ↦ (omega arith, omega arith, inl (omega arith), omega arith)
        | inr february ↦ elim february [
          | inl usual ↦ (omega arith, omega arith, inl (omega arith), omega arith)
          | inr (leap, fourth, century) ↦
              (omega arith, omega arith, inr (omega arith, shifted century), omega arith)
        ]
      ]
    where
      shifted :
          (1 ≤ dt.year % 100) ⊎ (dt.year % 400 ≡ 0)
          → ((dt.year - 1) % 100 ≤ 98) ⊎ ((dt.year - 1) % 400 ≡ 399)
      shifted (inl inside) = inl (omega arith)
      shifted (inr era) =
          let e = h.late in let b = h.month_last in let d = h.day_last in inr (omega arith)

  later_months :
      3 ≤ dt.month
      → (days_before (dt.month - 3) + dt.day ≤ days_before (dt.month - 3 + 1))
        × (days_before (dt.month - 3) + dt.day ≤ 365)
        × (578054 ≤ dt.year * 1461 / 4 + (days_before (dt.month - 3) + dt.day))
  later_months from =
      let a = h.month_first in
      let b = h.month_last in
      let c = h.day_first in
      let d = h.day_last in let e = h.late in (omega arith, omega arith, omega arith)

-- A date of the Gregorian calendar, from the 15th of October 1582 on and before the year 40000,
-- comes back from its timestamp, whichever origin both are told.
pub set_timestamp-to :
    (dt : DateTime) (reference : TimestampReference)
    → IsDate dt
    → set_timestamp (to_timestamp dt reference) reference ≡ dt
unfolding to_timestamp
set_timestamp-to dt reference h = elim (Bool-cases (ltb dt.month 3)) [
  | inl before ↦
      let (inside, short, leap, late) = early_months dt h (ltb→lt dt.month 3 before) in
      ap (λ t. set_timestamp t reference) (rw (to_timestamp, ordinary, before) refl)
      ∙ set_timestamp-shifted dt h (dt.year - 1) (dt.month + 9) reference inside short leap late
          (let e = h.early in omega arith) (year_before before) (month_before before)
  | inr from ↦
      let (inside, short, late) = later_months dt h (at_least dt.month from) in
      ap (λ t. set_timestamp t reference) (rw (to_timestamp, ordinary, from) refl)
      ∙ set_timestamp-shifted dt h dt.year (dt.month - 3) reference inside (omega arith) (inl short)
          late h.early (year_after from) (month_after from)
]
  where
    at_least : (m : ℕ) → ltb m 3 ≡ false → 3 ≤ m
    at_least m h = ground arith

    some_day : (a b : Bool) (n : ℕ) → 1 ≤ n → a && (b && (n == 0)) ≡ false
    some_day a b n first = ground arith

    ordinary : dt.year == 0 && (dt.month == 0 && dt.day == 0) ≡ false
    ordinary = some_day (dt.year == 0) (dt.month == 0) dt.day h.day_first

    year_before :
        ltb dt.month 3 ≡ true
        → (if ltb 12 (dt.month + 9 + 3) then dt.year - 1 + 1 else dt.year - 1) ≡ dt.year
    year_before before =
        let a = h.month_first in
        let e = h.late in
        let b = h.month_last in
        let d = h.day_last in rw (lt→ltb 12 (dt.month + 9 + 3) (omega arith)) (omega arith)

    month_before :
        ltb dt.month 3 ≡ true
        → (if ltb 12 (dt.month + 9 + 3) then (dt.month + 9 + 3) - 12 else dt.month + 9 + 3)
          ≡ dt.month
    month_before before =
        let a = h.month_first in rw (lt→ltb 12 (dt.month + 9 + 3) (omega arith)) (omega arith)

    not_over : (m : ℕ) → 3 ≤ m → m ≤ 12 → ltb 12 (m - 3 + 3) ≡ false
    not_over m low high = ground arith

    year_after :
        ltb dt.month 3 ≡ false
        → (if ltb 12 (dt.month - 3 + 3) then dt.year + 1 else dt.year) ≡ dt.year
    year_after from = rw (not_over dt.month (at_least dt.month from) h.month_last) refl

    month_after :
        ltb dt.month 3 ≡ false
        → (if ltb 12 (dt.month - 3 + 3) then (dt.month - 3 + 3) - 12 else dt.month - 3 + 3)
          ≡ dt.month
    month_after from =
        let low = at_least dt.month from in rw (not_over dt.month low h.month_last) (omega arith)
