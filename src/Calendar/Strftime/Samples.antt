-- ===== src/Calendar/Strftime/Samples.antt =====
-- Runs of strftime of src/c/time/strftime.c, and the theorems on it at concrete inputs.
use small_lib_c.Base.{◌≡◌, refl, none}
use small_lib_c.Base.Text.{codes}
use small_lib_c.Base.Int.{pos, negsuc, ◌+ℤ◌}
use small_lib_c.Calendar.{Tm}
use small_lib_c.Calendar.Directives.{leading_zeros, number_digits, format_num, directive}
use small_lib_c.Calendar.Strftime.{
  written, no_room, store, append, append_all, terminate, format_loop, has_directive, strftime,
}
use small_lib_c.Calendar.Strftime.Bounds.{Within, strftime-Within}

-- Sunday, 3 January 2021, in a zone without a name.
abbrev sunday : Tm
sunday = record {
  tm_sec = pos 7;
  tm_min = pos 5;
  tm_hour = pos 13;
  tm_mday = pos 3;
  tm_mon = pos 0;
  tm_year = pos 121;
  tm_wday = pos 0;
  tm_yday = pos 2;
  tm_isdst = pos 0;
  tm_gmtoff = negsuc 5399;
  tm_zone = none;
}

date_written :
    strftime 64 none sunday (codes "%A %Od.%m.%Y, %I:%M %p %z")
    ≡ written (codes "Sunday 03.01.2021, 01:05 PM -0130")
unfolding store append append_all terminate format_loop has_directive strftime directive format_num
    number_digits leading_zeros ◌+ℤ◌
date_written = refl

-- The time needs six bytes with its terminator.
time_cut : strftime 5 none sunday (codes "%H:%M") ≡ no_room (codes "13:")
unfolding store append append_all terminate format_loop has_directive strftime directive format_num
    number_digits leading_zeros ◌+ℤ◌
time_cut = refl

-- Six bytes hold the time, but a directive that appends nothing is behind it, and 0 is returned.
zone_unread : strftime 6 none sunday (codes "%H:%M%Z") ≡ no_room (codes "13:05")
unfolding store append append_all terminate format_loop has_directive strftime directive format_num
    number_digits leading_zeros ◌+ℤ◌
zone_unread = refl

strftime-Within_example : Within 3 3 (strftime 3 none sunday (codes "%H:%M"))
strftime-Within_example = strftime-Within 3 none sunday (codes "%H:%M")
