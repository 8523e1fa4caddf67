-- ===== src/DateTime.antt =====
-- src/datetime/datetime.cpp: `DateTime::toTimestamp` and `DateTime::set` of a timestamp. A timestamp
-- is the bit pattern of its 64 bits. The products and quotients that the source takes in double and
-- float are exact fractions here: for years below 40000 they are never so near to a whole number
-- that the rounding reaches it, and the numbers turned into float are below 2 ^ 24. Timestamps before
-- the Julian origin and days before March of the year 0 are left out.
pub mod Days
pub mod March
pub mod RoundTrip
mod Tests
use dev_essential.Base.{
  ℕ, ◌+◌, ◌-◌, ◌*◌, ◌/◌, ◌%◌, ◌^◌, Bool, true, false, ◌&&◌, ltb, leb, ◌==◌, if◌then◌else◌,
}

pub record DateTime : Type 0 where
  pub year : ℕ
  pub month : ℕ
  pub day : ℕ
  pub hour : ℕ
  pub minute : ℕ
  pub second : ℕ
  pub microsecond : ℕ

pub data TimestampReference : Type 0 where
  since_unix_origin since_julian_origin : TimestampReference

abbrev pub time_difference : ℕ
time_difference = 210866803200000000

abbrev pub usecs_per_day : ℕ
usecs_per_day = 86400000000

-- The reference point taken off a timestamp, and put on it.
abbrev pub from_julian : TimestampReference → ℕ → ℕ
from_julian since_unix_origin t = (t + (2 ^ 64 - time_difference)) % 2 ^ 64
from_julian since_julian_origin t = t

abbrev pub to_julian : TimestampReference → ℕ → ℕ
to_julian since_unix_origin t = (t + time_difference) % 2 ^ 64
to_julian since_julian_origin t = t

abbrev pub time_of_day : DateTime → ℕ
time_of_day dt = (dt.hour * 3600 + dt.minute * 60 + dt.second) * 1000000 + dt.microsecond

-- The day number of a date whose year begins in March, with months from 0 on.
pub day_count : ℕ → ℕ → ℕ → ℕ
day_count year month day =
    let count : ℕ = (year * 1461) / 4 + (month * 306 + 5) / 10 + day + 1721117 in
    if ltb 2299170 count then (count + 2 + year / 400) - year / 100 else count

pub to_timestamp : DateTime → TimestampReference → ℕ
to_timestamp dt reference =
    if dt.year == 0 && (dt.month == 0 && dt.day == 0)
    then from_julian reference (time_of_day dt)
    else (if ltb dt.month 3
        then from_julian reference
            (day_count (dt.year - 1) (dt.month + 9) dt.day * usecs_per_day + time_of_day dt)
        else from_julian reference
            (day_count dt.year (dt.month - 3) dt.day * usecs_per_day + time_of_day dt))

-- The Julian count of a day number, from the Gregorian one.
pub julian_days : ℕ → ℕ
julian_days days =
    if leb 2299161 days
    then ((days + (days - 1721119) * 4 / 146097) - (days - 1721119) / 146097) - 2
    else days

-- The year that begins in March, its month from 0 on, and the day.
pub year_of : ℕ → ℕ
year_of tz = (tz * 20 - 4) / 7305

pub month_of : ℕ → ℕ
month_of r = (r * 10 - 5) / 306

pub day_of : ℕ → ℕ
day_of r = r - (month_of r * 306 + 5) / 10

pub date_of : ℕ → ℕ → DateTime
date_of days timestamp =
    let tz = julian_days days - 1721117 in
    let y = year_of tz in
    let r = tz - (y * 1461) / 4 in
    let m = month_of r in
    record {
      year = if ltb 12 (m + 3) then y + 1 else y;
      month = if ltb 12 (m + 3) then (m + 3) - 12 else m + 3;
      day = day_of r;
      hour = timestamp / 3600000000;
      minute = (timestamp / 60000000) % 60;
      second = (timestamp / 1000000) % 60;
      microsecond = timestamp % 1000000;
    }

pub set_timestamp : ℕ → TimestampReference → DateTime
set_timestamp date_time reference =
    let t = to_julian reference date_time in date_of (t / usecs_per_day) (t % usecs_per_day)
