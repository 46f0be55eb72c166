-- ===== src/Calendar/Samples.antt =====
-- Runs of gmtime of src/c/time/gmtime.c, and the theorem on it at a concrete input.
use small_lib_c.Base.{some, ◌≡◌, refl}
use small_lib_c.Base.Text.{codes}
use small_lib_c.Base.Int.{pos, negsuc, ◌+ℤ◌}
use small_lib_c.Calendar.{
  Tm, is_leap, year_len, split_seconds, weekday, year_loop, month_loop, broken_down, break_down,
  gmtime,
}
use small_lib_c.Calendar.Days.{days_before}
use small_lib_c.Calendar.Fields.{Broken, gmtime-Broken}

-- Tuesday, 29 February 2000, 12:34:56.
leap_day :
    gmtime (pos 951827696)
    ≡ some (record {
      tm_sec = pos 56;
      tm_min = pos 34;
      tm_hour = pos 12;
      tm_mday = pos 29;
      tm_mon = pos 1;
      tm_year = pos 100;
      tm_wday = pos 2;
      tm_yday = pos 59;
      tm_isdst = pos 0;
      tm_gmtoff = pos 0;
      tm_zone = some (codes "UTC");
    })
unfolding ◌+ℤ◌ is_leap year_len split_seconds weekday year_loop month_loop broken_down break_down
    gmtime
leap_day = refl

-- Wednesday, 31 December 1969, 23:59:59.
last_second :
    gmtime (negsuc 0)
    ≡ some (record {
      tm_sec = pos 59;
      tm_min = pos 59;
      tm_hour = pos 23;
      tm_mday = pos 31;
      tm_mon = pos 11;
      tm_year = pos 69;
      tm_wday = pos 3;
      tm_yday = pos 364;
      tm_isdst = pos 0;
      tm_gmtoff = pos 0;
      tm_zone = some (codes "UTC");
    })
unfolding ◌+ℤ◌ is_leap year_len split_seconds weekday year_loop month_loop broken_down break_down
    gmtime
last_second = refl

gmtime-Broken_example : (tm : Tm) × (gmtime (negsuc 0) ≡ some tm) × Broken 62167219199 tm
unfolding days_before year_len is_leap
gmtime-Broken_example = gmtime-Broken (negsuc 0) 62167219199 refl
