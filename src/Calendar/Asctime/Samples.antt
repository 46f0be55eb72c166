-- ===== src/Calendar/Asctime/Samples.antt =====
-- Runs of asctime and ctime of src/c/time, and the theorem on asctime at a concrete time.
use small_lib_c.Base.{ℕ, ◌≡◌, refl, none, some, List, ◌++◌, [], ◌∷◌, arith, length}
use small_lib_c.Base.Text.{codes}
use small_lib_c.Base.Int.{pos, negsuc, ◌+ℤ◌}
use small_lib_c.Calendar.{
  Tm, is_leap, year_len, split_seconds, weekday, year_loop, month_loop, broken_down, break_down,
}
use small_lib_c.Calendar.Zone.{in_long, local_zone, localtime}
use small_lib_c.Calendar.Strftime.{written, strftime}
use small_lib_c.Calendar.Strftime.Room.{Fitted}
use small_lib_c.Calendar.Formats.{
  Stands, done, plain, field, hour_12, minute, afternoon, strftime-Fitted_fields,
}
use small_lib_c.Calendar.Asctime.{asctime, ctime}
use small_lib_c.Calendar.Asctime.Text.{Printable, asctime_format, asctime-strftime}

last_second : ctime none (negsuc 0) ≡ some (codes "Wed Dec 31 23:59:59 1969" ++ 10 ∷ [])
unfolding ◌+ℤ◌ is_leap year_len split_seconds weekday year_loop month_loop broken_down break_down
    in_long local_zone localtime asctime ctime
last_second = refl

-- Sunday, 3 January 2021.
abbrev sunday : Tm
sunday = record {
  tm_sec = pos 7;
  tm_min = pos 5;
  tm_hour = pos 13;
  tm_mday = pos 3;
  tm_mon = pos 0;
  tm_year = pos 121;
  tm_wday = pos 0;
  tm_yday = pos 2;
  tm_isdst = pos 0;
  tm_gmtoff = pos 0;
  tm_zone = none;
}

sunday-Printable : Printable sunday
unfolding ◌+ℤ◌
sunday-Printable = record {
  wday = 0;
  mon = 0;
  mday = 3;
  hour = 13;
  min = 5;
  sec = 7;
  year = 2021;
  tm_wday = refl;
  tm_mon = refl;
  tm_mday = refl;
  tm_hour = refl;
  tm_min = refl;
  tm_sec = refl;
  tm_year = refl;
  wday_bound = omega arith;
  mon_bound = omega arith;
  first_day = omega arith;
  last_day = omega arith;
  hour_bound = omega arith;
  min_bound = omega arith;
  sec_bound = omega arith;
  year_bound = omega arith;
}

asctime-strftime_example :
    (t : List ℕ) × (asctime sunday ≡ some t)
    × (strftime 80 none sunday asctime_format ≡ written t)
    × (length t ≡ 25)
asctime-strftime_example = asctime-strftime none sunday sunday-Printable 80 (omega arith)

half_past : Stands sunday sunday-Printable (codes "%I:%M %p") (codes "01:05 PM")
unfolding sunday-Printable
half_past = field (hour_12 1 (omega arith) (omega arith) refl) (
    plain (ground arith)
      (field minute (plain (ground arith) (field (afternoon (omega arith)) done))))

strftime-Fitted_fields_example :
    Fitted 9 (codes "01:05 PM") (strftime 9 none sunday (codes "%I:%M %p"))
strftime-Fitted_fields_example =
    strftime-Fitted_fields sunday sunday-Printable none 9 (codes "%I:%M %p") (codes "01:05 PM")
      half_past
