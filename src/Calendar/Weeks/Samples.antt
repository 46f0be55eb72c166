-- ===== src/Calendar/Weeks/Samples.antt =====
-- Weeks of src/c/time/strftime.c at concrete days.
use small_lib_c.Base.{◌≡◌, refl, none, some, arith, ◌+◌}
use small_lib_c.Base.Int.{pos, ◌+ℤ◌, ◌-ℤ◌}
use small_lib_c.Calendar.{Tm, is_leap, year_len}
use small_lib_c.Calendar.Days.{days_before}
use small_lib_c.Calendar.Fields.{Broken}
use small_lib_c.Calendar.Weeks.{
  weeknumber, isleap, jan1day, dec31ly, start_week, december_week, iso8601wknum, week_year,
}
use small_lib_c.Calendar.Weeks.Thursday.{IsoWeek, iso_week}

-- Sunday, 3 January 2021.
abbrev january_3 : Tm
january_3 = record {
  tm_sec = pos 0;
  tm_min = pos 0;
  tm_hour = pos 0;
  tm_mday = pos 3;
  tm_mon = pos 0;
  tm_year = pos 121;
  tm_wday = pos 0;
  tm_yday = pos 2;
  tm_isdst = pos 0;
  tm_gmtoff = pos 0;
  tm_zone = none;
}

-- It lies in the last week of the year before.
last_week_of_2020 : iso8601wknum 2 january_3 ≡ some 53
unfolding weeknumber isleap jan1day dec31ly start_week december_week iso8601wknum ◌+ℤ◌ ◌-ℤ◌
last_week_of_2020 = refl

year_2020 : week_year january_3 53 ≡ pos 2020
unfolding week_year ◌+ℤ◌ ◌-ℤ◌
year_2020 = refl

first_sunday : weeknumber january_3 0 ≡ 1
unfolding weeknumber ◌+ℤ◌ ◌-ℤ◌
first_sunday = refl

unfoldable broken_january_3 : Broken 63776851200 january_3
unfolding days_before year_len is_leap
broken_january_3 = record {
  year = 2021;
  yday = 2;
  mon = 0;
  mday = 3;
  hour = 0;
  min = 0;
  sec = 0;
  month_len = 31;
  tm_year = refl;
  tm_yday = refl;
  tm_mon = refl;
  tm_mday = refl;
  tm_hour = refl;
  tm_min = refl;
  tm_sec = refl;
  tm_wday = refl;
  seconds = refl;
  sec_bound = omega arith;
  min_bound = omega arith;
  hour_bound = omega arith;
  yday_bound = omega arith;
  month = refl;
  first_day = omega arith;
  last_day = omega arith;
  day = refl;
}

iso_week_example : IsoWeek (days_before 2021 + 2) january_3
unfolding broken_january_3
iso_week_example = iso_week 63776851200 january_3 broken_january_3 (omega arith)
