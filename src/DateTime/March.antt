-- ===== src/DateTime/March.antt =====
-- The date of a day number of src/datetime/datetime.cpp, in years that begin in March.
use dev_essential.Base.{
  ℕ, ◌+◌, ◌-◌, ◌*◌, ◌/◌, ◌%◌, ◌≤◌, ◌<◌, ◌≡◌, ap, ◌∙◌, arith, ltb, lt→ltb, if◌then◌else◌, inl, inr,
}
use mathlib.Core.Path.{ap₂}
use dev_essential.DateTime.{DateTime, day_count, julian_days, year_of, month_of, day_of, date_of}
use dev_essential.DateTime.Days.{
  days_before, year_of-days, month_of-days, LastDay, julian_days-count, counted, day_of-days,
}

-- What is made of a year that begins in March, its month from 0 on, a day and a time.
abbrev pub dated : ℕ → ℕ → ℕ → ℕ → DateTime
dated year month day t = record {
  year = if ltb 12 (month + 3) then year + 1 else year;
  month = if ltb 12 (month + 3) then (month + 3) - 12 else month + 3;
  day = day;
  hour = t / 3600000000;
  minute = (t / 60000000) % 60;
  second = (t / 1000000) % 60;
  microsecond = t % 1000000;
}

module _ (year month day : ℕ) (first : 1 ≤ day)
    (inside : days_before month + day ≤ days_before (month + 1))
    (short : days_before month + day ≤ 366) (leap : LastDay year (days_before month + day))
    (late : 578054 ≤ year * 1461 / 4 + (days_before month + day)) where
  abbrev in_year : ℕ
  in_year = days_before month + day

  pub count-counted : day_count year month day ≡ counted year in_year
  unfolding day_count
  count-counted = rw (day_count, lt→ltb 2299170 _ above) (omega arith)
    where
      above : 2299170 < year * 1461 / 4 + (month * 306 + 5) / 10 + day + 1721117
      above = omega arith

  count-julian : julian_days (day_count year month day) - 1721117 ≡ year * 1461 / 4 + in_year
  count-julian =
      let julian =
        ap julian_days count-counted
        ∙ julian_days-count year in_year (omega arith) short leap late in
      omega arith

  not_longer : in_year ≤ 365 + (year % 4) / 3
  not_longer = elim leap [ inl usual ↦ omega arith | inr (fourth, rest) ↦ omega arith ]

  found_year : year_of (julian_days (day_count year month day) - 1721117) ≡ year
  found_year = ap year_of count-julian ∙ year_of-days year in_year (omega arith) not_longer

  found_rest :
      (julian_days (day_count year month day) - 1721117)
        - (year_of (julian_days (day_count year month day) - 1721117) * 1461) / 4
      ≡ in_year
  found_rest = rw (found_year, count-julian) (omega arith)

  pub date_of-count : (t : ℕ) → date_of (day_count year month day) t ≡ dated year month day t
  unfolding date_of
  date_of-count t =
      ap₂ (λ y r. dated y (month_of r) (day_of r) t) found_year found_rest
      ∙ ap₂ (λ m d. dated year m d t) (month_of-days month day first inside)
          (day_of-days month day first inside)
