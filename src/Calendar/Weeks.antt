-- ===== src/Calendar/Weeks.antt =====
-- Week numbers: weeknumber, iso8601wknum and isleap of src/c/time/strftime.c. Sums of the fields
-- are not bounded by an int.
pub mod Iso
pub mod Turn
pub mod Thursday
mod Samples
use small_lib_c.Base.{
  ℕ, zero, suc, ◌%◌, Bool, false, not, ◌&&◌, ◌||◌, Option, none, some, leb, ◌==◌, if◌then◌else◌,
  ◌+◌,
}
use small_lib_c.Base.Int.{ℤ, pos, negsuc, abs, pos_part, is_negative, ltb_ℤ, ◌+ℤ◌, ◌-ℤ◌}
use small_lib_c.Calendar.{Tm}
use small_lib_c.Calendar.Zone.{quot, rem}

abbrev pub is_int : ℤ → ℕ → Bool
is_int (pos n) k = n == k
is_int (negsuc n) k = false

abbrev pub at_least : ℤ → ℕ → Bool
at_least z k = not (ltb_ℤ z (pos k))

-- With weeks from a Sunday on, or from a Monday on; a negative quotient is taken for 0.
unfoldable pub weeknumber : Tm → (firstweekday : ℕ) → ℕ
weeknumber tm firstweekday =
    let from_monday : ℤ = if is_int tm.tm_wday 0 then pos 6 else tm.tm_wday -ℤ pos 1 in
    let wday : ℤ = if firstweekday == 1 then from_monday else tm.tm_wday in
    pos_part (quot (tm.tm_yday +ℤ pos 7 -ℤ wday) 7)

unfoldable pub isleap : ℤ → Bool
isleap year = let y = abs year in y % 4 == 0 && not (y % 100 == 0) || y % 400 == 0

-- The day of the week of the first of January.
unfoldable pub jan1day : Tm → ℤ
jan1day tm =
    let day = tm.tm_wday -ℤ rem tm.tm_yday 7 in if is_negative day then day +ℤ pos 7 else day

-- The last day of the year before.
unfoldable pub dec31ly : Tm → (jan1day : ℤ) → Tm
dec31ly tm jan1day =
    let year = tm.tm_year -ℤ pos 1 in
    record {
      tm_sec = tm.tm_sec;
      tm_min = tm.tm_min;
      tm_hour = tm.tm_hour;
      tm_mday = pos 31;
      tm_mon = pos 11;
      tm_year = year;
      tm_wday = if is_int jan1day 0 then pos 6 else jan1day -ℤ pos 1;
      tm_yday = pos 364 +ℤ pos (if isleap (year +ℤ pos 1900) then 1 else 0);
      tm_isdst = tm.tm_isdst;
      tm_gmtoff = tm.tm_gmtoff;
      tm_zone = tm.tm_zone;
    }

-- The switch over the day, with the week of the last day of the year before.
unfoldable pub start_week : (weeknum : ℕ) → (jan1day : ℤ) → Option ℕ → Option ℕ
start_week weeknum (negsuc n) last_year = some weeknum
start_week weeknum (pos day) last_year =
    if leb 2 day && leb day 4
    then some (weeknum + 1)
    else if (day == 5 || day == 6 || day == 0) && weeknum == 0
    then last_year
    else some weeknum

-- The last days of December.
unfoldable pub december_week : Tm → (weeknum : ℕ) → ℕ
december_week tm weeknum =
    let wday = tm.tm_wday in
    let mday = tm.tm_mday in
    let next_year =
      is_int wday 1 && (at_least mday 29 && not (at_least mday 32))
      || is_int wday 2 && (at_least mday 30 || is_int mday 31)
      || is_int wday 3 && is_int mday 31 in
    if is_int tm.tm_mon 11 && next_year then 1 else weeknum

-- `none` is the end of the fuel. The last day of a year lies in a week that is not 0, so that two
-- calls are enough.
unfoldable pub iso8601wknum : (fuel : ℕ) → Tm → Option ℕ
iso8601wknum zero tm = none
iso8601wknum (suc k) tm =
    let first = jan1day tm in
    let last_year = iso8601wknum k (dec31ly tm first) in
    elim (start_week (weeknumber tm 1) first last_year) [
      | none ↦ none
      | some week ↦ some (december_week tm week)
    ]

-- The year of `%G`, by the week of iso8601wknum.
unfoldable pub week_year : Tm → (w : ℕ) → ℤ
week_year tm w =
    let y = pos 1900 +ℤ tm.tm_year in
    if is_int tm.tm_mon 11 && w == 1
    then y +ℤ pos 1
    else if is_int tm.tm_mon 0 && leb 52 w
    then y -ℤ pos 1
    else y
