-- ===== src/DateTime/Days.antt =====
-- The arithmetic of the days: from a date to its day number and back.
use dev_essential.Base.{
  ℕ, ◌+◌, ◌-◌, ◌*◌, ◌/◌, ◌%◌, ◌≤◌, ◌<◌, ◌≡◌, ap, ◌∙◌, arith, true, false, ltb, leb, ◌⊎◌, inl, inr,
  Bool-cases, ltb→lt,
}
use dev_essential.DateTime.{julian_days, year_of, month_of, day_of}

-- The days before a month, in a year that begins in March.
abbrev pub days_before : ℕ → ℕ
days_before month = (month * 306 + 5) / 10

-- The year, from the day in it, up to 365 or in the year before a leap year 366.
pub year_of-days :
    (year r : ℕ) → 1 ≤ r → r ≤ 365 + (year % 4) / 3 → year_of ((year * 1461) / 4 + r) ≡ year
unfolding year_of
year_of-days year r h k = omega arith

pub month_of-days :
    (month day : ℕ)
    → 1 ≤ day
    → days_before month + day ≤ days_before (month + 1)
    → month_of (days_before month + day) ≡ month
unfolding month_of
month_of-days month day h k = omega arith

pub day_of-days :
    (month day : ℕ)
    → 1 ≤ day
    → days_before month + day ≤ days_before (month + 1)
    → day_of (days_before month + day) ≡ day
unfolding day_of
day_of-days month day h k = rw (day_of, month_of-days month day h k) (omega arith)

-- The day `z` years into the century `k` of the 400 years `e`, `r` days into the year, less the
-- centuries' leap days that the Julian calendar has too many.
abbrev gregorian : ℕ → ℕ → ℕ → ℕ → ℕ
gregorian e k z r = e * 146097 + k * 36524 + z * 1461 / 4 + r

centuries :
    (e k z r : ℕ)
    → k < 4
    → z < 100
    → 1 ≤ r
    → z * 1461 / 4 + r ≤ 36524
    → (gregorian e k z r * 4 / 146097 ≡ e * 4 + k) × (gregorian e k z r / 146097 ≡ e)
centuries e k z r few years first inside = (omega arith, omega arith)

last_leap_day :
    (e : ℕ)
    → (gregorian e 3 99 366 * 4 / 146097 ≡ e * 4 + 4) × (gregorian e 3 99 366 / 146097 ≡ e + 1)
last_leap_day e = (omega arith, omega arith)

-- The day in terms of the year.
gregorian-year :
    (year r : ℕ)
    → 578054 ≤ year * 1461 / 4 + r
    → r ≤ 366
    → ((year * 1461 / 4 + r + 1721117 + 2 + year / 400) - year / 100) - 1721119
      ≡ gregorian (year / 400) (year / 100 % 4) (year % 100) r
gregorian-year year r late short = omega arith

-- The last day of a year that begins in March, which is the 29th of February, if any.
abbrev pub LastDay : ℕ → ℕ → Type 0
LastDay year r = (r ≤ 365) ⊎ ((year % 4 ≡ 3) × ((year % 100 ≤ 98) ⊎ (year % 400 ≡ 399)))

abbrev pub counted : ℕ → ℕ → ℕ
counted year r = (year * 1461 / 4 + r + 1721117 + 2 + year / 400) - year / 100

le→leb : (a b : ℕ) → a ≤ b → leb a b ≡ true
le→leb a b h = ground arith

-- The correction by leap days is undone, by the centuries and the 400 years that are found.
corrected :
    (year r centuries_found eras_found : ℕ)
    → 578054 ≤ year * 1461 / 4 + r
    → r ≤ 366
    → (counted year r - 1721119) * 4 / 146097 ≡ centuries_found
    → (counted year r - 1721119) / 146097 ≡ eras_found
    → centuries_found + year / 400 ≡ year / 100 + eras_found
    → julian_days (counted year r) ≡ year * 1461 / 4 + r + 1721117
unfolding julian_days
corrected year r c e late short hc he balance =
    rw (julian_days, le→leb 2299161 (counted year r) (omega arith), hc, he) (omega arith)

pub julian_days-count :
    (year r : ℕ)
    → 1 ≤ r
    → r ≤ 366
    → LastDay year r
    → 578054 ≤ year * 1461 / 4 + r
    → julian_days (counted year r) ≡ year * 1461 / 4 + r + 1721117
julian_days-count year r first short leap late = elim leap [
  | inl usual ↦ within (omega arith)
  | inr (fourth, rest) ↦ elim rest [
    | inl inside ↦ within (omega arith)
    | inr era ↦ elim (Bool-cases (ltb r 366)) [
      | inl usual ↦ let below = ltb→lt r 366 usual in within (omega arith)
      | inr end_ ↦ let at_end = reached r end_ in over era (omega arith)
    ]
  ]
]
  where
    reached : (r : ℕ) → ltb r 366 ≡ false → 366 ≤ r
    reached r h = ground arith

    same : counted year r - 1721119 ≡ gregorian (year / 400) (year / 100 % 4) (year % 100) r
    same = gregorian-year year r late short

    within :
        year % 100 * 1461 / 4 + r ≤ 36524
        → julian_days (counted year r) ≡ year * 1461 / 4 + r + 1721117
    within inside =
        let (c, e) =
          centuries (year / 400) (year / 100 % 4) (year % 100) r (omega arith) (omega arith) first
            inside in
        corrected year r _ _ late short (ap (λ x. x * 4 / 146097) same ∙ c)
          (ap (λ x. x / 146097) same ∙ e) (omega arith)

    over : year % 400 ≡ 399 → r ≡ 366 → julian_days (counted year r) ≡ year * 1461 / 4 + r + 1721117
    over era end_ =
        let (c, e) = last_leap_day (year / 400) in
        corrected year r _ _ late short (ap (λ x. x * 4 / 146097) (same ∙ place era end_) ∙ c)
          (ap (λ x. x / 146097) (same ∙ place era end_) ∙ e) (omega arith)
      where
        place :
            year % 400 ≡ 399
            → r ≡ 366
            → gregorian (year / 400) (year / 100 % 4) (year % 100) r
              ≡ gregorian (year / 400) 3 99 366
        place era end_ = omega arith
