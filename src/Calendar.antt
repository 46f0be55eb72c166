-- ===== src/Calendar.antt =====
-- src/c/time: the broken-down time of a number of seconds, by gmtime. `time_t` is a long of 32 bits, so
-- that a year is positive. `none` is the end of the fuel.
pub mod Days
pub mod Months
pub mod Fields
pub mod Zone
pub mod Weeks
pub mod Directives
pub mod Strftime
pub mod Asctime
pub mod Formats
mod Samples
use small_lib_c.Base.{
  ℕ, zero, suc, ◌+◌, ◌-◌, ◌*◌, ◌/◌, ◌%◌, Bool, true, false, not, ◌&&◌, ◌||◌, Option, none, some,
  List, [], ◌∷◌, ltb, ◌==◌, if◌then◌else◌,
}
use small_lib_c.Base.Text.{codes}
use small_lib_c.Base.Int.{ℤ, pos, negsuc, sub_ℕ, abs, ◌+ℤ◌}

-- `__is_leap`
unfoldable pub is_leap : ℕ → Bool
is_leap year = year % 4 == 0 && (not (year % 100 == 0) || year % 400 == 0)

unfoldable pub year_len : ℕ → ℕ
year_len year = if is_leap year then 366 else 365

abbrev pub days_per_month : List ℕ
days_per_month = 31 ∷ 28 ∷ 31 ∷ 30 ∷ 31 ∷ 30 ∷ 31 ∷ 31 ∷ 30 ∷ 31 ∷ 30 ∷ 31 ∷ []

pub record Tm : Type 0 where
  pub tm_sec : ℤ
  pub tm_min : ℤ
  pub tm_hour : ℤ
  pub tm_mday : ℤ
  pub tm_mon : ℤ
  pub tm_year : ℤ
  pub tm_wday : ℤ
  pub tm_yday : ℤ
  pub tm_isdst : ℤ
  pub tm_gmtoff : ℤ
  pub tm_zone : Option (List ℕ)

-- The days, and the seconds of the last of them.
unfoldable pub split_seconds : ℤ → ℤ × ℕ
split_seconds (pos t) = (pos (t / 86400), t % 86400)
split_seconds (negsuc n) =
    let days = suc n / 86400 in
    let rem_secs = suc n % 86400 in
    if rem_secs == 0 then (sub_ℕ 0 days, 0) else (negsuc days, 86400 - rem_secs)

unfoldable pub weekday : ℤ → ℕ
weekday days = elim (pos 4 +ℤ days) [
  | pos x ↦ x % 7
  | negsuc n ↦ if suc n % 7 == 0 then 0 else 7 - suc n % 7
]

-- The year, and the day of it.
unfoldable pub year_loop : (fuel year : ℕ) → ℤ → Option (ℕ × ℕ)
year_loop zero year days = none
year_loop (suc k) year (pos d) = elim (ltb d (year_len year)) [
  | true ↦ some (year, d)
  | false ↦ year_loop k (suc year) (pos (d - year_len year))
]
year_loop (suc k) year (negsuc n) = year_loop k (year - 1) (sub_ℕ (year_len (year - 1)) (suc n))

-- The month, and the day of it, from a month on: with the lengths of those left.
unfoldable pub month_loop : (leap : Bool) → List ℕ → (month days : ℕ) → ℕ × ℕ
month_loop leap [] month days = (month, days)
month_loop leap (len ∷ lens) month days =
    let dim = if month == 1 && leap then len + 1 else len in
    let rest = month_loop leap lens (suc month) (days - dim) in
    if ltb days dim then (month, days) else rest

-- What the code knows of a zone at a time: `tz_result_t`.
pub record TzResult : Type 0 where
  pub gmtoff : ℤ
  pub is_dst : ℤ
  pub abbr : List ℕ

abbrev pub utc : TzResult
utc = record { gmtoff = pos 0; is_dst = pos 0; abbr = codes "UTC" }

-- The fields, the year and its day being known.
unfoldable pub broken_down : TzResult → (time : ℤ) → (year yday : ℕ) → Tm
broken_down zone time year yday =
    let (days, rem_secs) = split_seconds time in
    let (month, day) = month_loop (is_leap year) days_per_month 0 yday in
    record {
      tm_sec = pos (rem_secs % 3600 % 60);
      tm_min = pos (rem_secs % 3600 / 60);
      tm_hour = pos (rem_secs / 3600);
      tm_mday = pos (day + 1);
      tm_mon = pos month;
      tm_year = sub_ℕ year 1900;
      tm_wday = pos (weekday days);
      tm_yday = pos yday;
      tm_isdst = zone.is_dst;
      tm_gmtoff = zone.gmtoff;
      tm_zone = some zone.abbr;
    }

-- What gmtime and localtime do with a time, that of the zone.
unfoldable pub break_down : TzResult → (time : ℤ) → Option Tm
break_down zone time =
    let (days, rem_secs) = split_seconds time in
    elim (year_loop (abs days / 365 + 4) 1970 days) [
      | none ↦ none
      | some (year, yday) ↦ some (broken_down zone time year yday)
    ]

unfoldable pub gmtime : ℤ → Option Tm
gmtime time = break_down utc time
