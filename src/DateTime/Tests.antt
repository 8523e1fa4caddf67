-- ===== src/DateTime/Tests.antt =====
-- The round trip of a date at a concrete date.
use dev_essential.Base.{◌≡◌, refl, inr, arith}
use dev_essential.DateTime.{DateTime, since_unix_origin, set_timestamp, to_timestamp, day_count}
use dev_essential.DateTime.RoundTrip.{IsDate, set_timestamp-to}

-- The last microsecond of a leap day.
abbrev leap_day : DateTime
leap_day = record {
  year = 2000;
  month = 2;
  day = 29;
  hour = 23;
  minute = 59;
  second = 59;
  microsecond = 999999;
}

leap_day-IsDate : IsDate leap_day
leap_day-IsDate = record {
  month_first = omega arith;
  month_last = omega arith;
  day_first = omega arith;
  day_last = omega arith;
  february = inr (inr (omega arith, refl, inr refl));
  late = omega arith;
  early = omega arith;
  hour_last = omega arith;
  minute_last = omega arith;
  second_last = omega arith;
  microsecond_last = omega arith;
}

set_timestamp-to_example :
    set_timestamp (to_timestamp leap_day since_unix_origin) since_unix_origin ≡ leap_day
set_timestamp-to_example = set_timestamp-to leap_day since_unix_origin leap_day-IsDate

-- The leap day's microseconds since 1970.
leap_day-timestamp : to_timestamp leap_day since_unix_origin ≡ 951868799999999
unfolding to_timestamp day_count
leap_day-timestamp = refl
