-- ===== src/Calendar/Zone/Samples.antt =====
-- Runs of tz_lookup of src/c/time/parser.c and mktime of src/c/time/mktime.c, and the theorems on
-- them at concrete inputs.
use small_lib_c.Base.{ℕ, zero, suc, ◌≡◌, refl, Option, none, some, [], ◌∷◌, arith}
use small_lib_c.Base.Text.{codes}
use small_lib_c.Base.Int.{pos, negsuc, ◌+ℤ◌, ◌-ℤ◌, ◌*ℤ◌}
use small_lib_c.Calendar.{
  Tm, TzResult, is_leap, year_len, split_seconds, weekday, year_loop, month_loop, broken_down,
  break_down,
}
use small_lib_c.Calendar.Zone.{
  TzDb, first_standard, lookup_loop, lookup_index, type_index, type_result, tz_lookup, in_long,
  as_long, local_zone, localtime, normal_month, leaps, total_days, local_seconds, zone_time, mktime,
}
use small_lib_c.Calendar.Zone.Lookup.{
  ResultFor, TypeFor, Ascending, LastBefore, tz_lookup-LastBefore,
}
use small_lib_c.Calendar.Zone.RoundTrip.{zone_there, mktime-localtime}

-- Berlin in the winter of 1999 and the summer of 2000.
abbrev winter : TzResult
winter = record { gmtoff = pos 3600; is_dst = pos 0; abbr = codes "CET" }

abbrev berlin : TzDb
berlin = record {
  transitions = pos 941331600 ∷ pos 954032400 ∷ [];
  type_idxs = 1 ∷ 0 ∷ [];
  types =
      record { gmtoff = pos 7200; is_dst = pos 1; abbr_idx = 4 }
      ∷ record { gmtoff = pos 3600; is_dst = pos 0; abbr_idx = 0 }
      ∷ [];
  abbrevs = codes "CET";
}

-- 29 February 2000, 13:34:56 there.
abbrev february : Tm
february = record {
  tm_sec = pos 56;
  tm_min = pos 34;
  tm_hour = pos 13;
  tm_mday = pos 29;
  tm_mon = pos 1;
  tm_year = pos 100;
  tm_wday = pos 2;
  tm_yday = pos 59;
  tm_isdst = pos 0;
  tm_gmtoff = pos 3600;
  tm_zone = some (codes "CET");
}

local_february : localtime (some berlin) (pos 951827696) ≡ some february
unfolding tz_lookup lookup_index lookup_loop type_index type_result in_long local_zone localtime
    ◌+ℤ◌ is_leap year_len split_seconds weekday year_loop month_loop broken_down break_down
local_february = refl

-- The 60th of a January is the same day; mktime writes that back.
day_60 :
    mktime (some berlin) (record {
      tm_sec = pos 56;
      tm_min = pos 34;
      tm_hour = pos 13;
      tm_mday = pos 60;
      tm_mon = pos 0;
      tm_year = pos 100;
      tm_wday = pos 0;
      tm_yday = pos 0;
      tm_isdst = pos 0;
      tm_gmtoff = pos 0;
      tm_zone = none;
    })
    ≡ some (pos 951827696, february)
unfolding mktime local_seconds total_days normal_month leaps as_long zone_time tz_lookup
    lookup_index lookup_loop type_index type_result in_long local_zone localtime ◌+ℤ◌ ◌-ℤ◌ ◌*ℤ◌
    is_leap year_len split_seconds weekday year_loop month_loop broken_down break_down
day_60 = refl

-- Before the first transition: the first type without daylight saving time.
first_type : tz_lookup berlin (negsuc 0) ≡ some (some winter)
unfolding tz_lookup lookup_index lookup_loop type_index type_result first_standard
first_type = refl

berlin-Ascending : Ascending berlin.transitions
berlin-Ascending zero zero x y le a b = ground (arith, a, b)
berlin-Ascending zero (suc zero) x y le a b = ground (arith, a, b)
berlin-Ascending (suc zero) (suc zero) x y le a b = ground (arith, a, b)
berlin-Ascending (suc zero) zero x y le a b = absurd (omega (arith, le))
berlin-Ascending (suc (suc i)) j x y le a b = ground (arith, a)
berlin-Ascending zero (suc (suc j)) x y le a b = ground (arith, b)
berlin-Ascending (suc zero) (suc (suc j)) x y le a b = ground (arith, b)

tz_lookup-LastBefore_example :
    (idx : Option ℕ) × (type_idx : ℕ) × (r : Option TzResult) × LastBefore berlin.transitions
      (pos 951827696)
      idx
    × TypeFor berlin idx type_idx
    × ResultFor berlin type_idx r
    × (tz_lookup berlin (pos 951827696) ≡ some r)
tz_lookup-LastBefore_example = tz_lookup-LastBefore berlin (pos 951827696) berlin-Ascending refl

mktime-localtime_example : mktime (some berlin) february ≡ some (pos 951827696, february)
unfolding tz_lookup lookup_index lookup_loop type_index type_result ◌+ℤ◌ ◌-ℤ◌
mktime-localtime_example =
    mktime-localtime (some berlin) winter (pos 951827696)
      (zone_there berlin (some winter) winter refl refl refl refl refl) refl refl february
      local_february
