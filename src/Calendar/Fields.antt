-- ===== src/Calendar/Fields.antt =====
-- gmtime of src/c/time/gmtime.c: the broken-down time is that of the seconds it is given.
use small_lib_c.Base.{
  ℕ, suc, ◌+◌, ◌-◌, ◌*◌, ◌/◌, ◌%◌, ◌≤◌, ◌<◌, ◌≡◌, refl, ap, true, false, Option, some, arith, leb,
  ◌==◌, Bool-cases, inl, inr, get_elem?,
}
use small_lib_c.Base.Int.{sub_ℕ, ℤ, pos, negsuc, pos_part, neg_part, ◌+ℤ◌}
use small_lib_c.Calendar.{
  Tm, TzResult, utc, break_down, is_leap, year_len, days_per_month, split_seconds, weekday,
  month_loop, broken_down, gmtime,
}
use small_lib_c.Calendar.Days.{days_before, DayOf, year_loop-DayOf}
use small_lib_c.Calendar.Months.{lengths, days_of, InMonth, month_loop-InMonth, whole_year}

-- t seconds behind the start of the year 0, broken down: the count of days up to the year, the day
-- of the year, and the time of the day; the month and its day; the day of the week, the year 0
-- having begun with a Saturday.
pub record Broken (t : ℕ) (tm : Tm) : Type 0 where
  pub year : ℕ
  pub yday : ℕ
  pub mon : ℕ
  pub mday : ℕ
  pub hour : ℕ
  pub min : ℕ
  pub sec : ℕ
  pub month_len : ℕ
  pub tm_year : tm.tm_year ≡ sub_ℕ year 1900
  pub tm_yday : tm.tm_yday ≡ pos yday
  pub tm_mon : tm.tm_mon ≡ pos mon
  pub tm_mday : tm.tm_mday ≡ pos mday
  pub tm_hour : tm.tm_hour ≡ pos hour
  pub tm_min : tm.tm_min ≡ pos min
  pub tm_sec : tm.tm_sec ≡ pos sec
  pub tm_wday : tm.tm_wday ≡ pos ((days_before year + yday + 6) % 7)
  pub seconds : (days_before year + yday) * 86400 + hour * 3600 + min * 60 + sec ≡ t
  pub sec_bound : sec < 60
  pub min_bound : min < 60
  pub hour_bound : hour < 24
  pub yday_bound : yday < year_len year
  pub month : get_elem? (lengths (is_leap year) days_per_month 0) mon ≡ some month_len
  pub first_day : 1 ≤ mday
  pub last_day : mday ≤ month_len
  pub day : days_of mon (lengths (is_leap year) days_per_month 0) + mday ≡ yday + 1

split_seconds_lem :
    (time : ℤ) (t d : ℕ)
    → t + neg_part time ≡ d * 86400 + pos_part time
    → (t / 86400 + neg_part (split_seconds time).0 ≡ d + pos_part (split_seconds time).0)
      × ((split_seconds time).1 ≡ t % 86400)
unfolding split_seconds
split_seconds_lem (pos x) t d e = (omega (arith, e), omega (arith, e))
split_seconds_lem (negsuc n) t d e = elim (Bool-cases (suc n % 86400 == 0)) [
  | inl y ↦
      let whole : suc n % 86400 ≡ 0 = ground (arith, y) in
      let some_days : leb (suc n / 86400) 0 ≡ false = ground (arith, whole) in
      rw (split_seconds, y, some_days) (omega (arith, e, whole), omega (arith, e, whole))
  | inr k ↦
      let part : 0 < suc n % 86400 = ground (arith, k) in
      rw (split_seconds, k) (omega (arith, e, part), omega (arith, e, part))
]

weekday_lem :
    (days : ℤ) (t d : ℕ)
    → d % 7 ≡ 5
    → t + neg_part days ≡ d + pos_part days
    → weekday days ≡ (t + 6) % 7
unfolding weekday ◌+ℤ◌
weekday_lem (pos x) t d h e =
    let up : leb 0 (4 + x) ≡ true = ground arith in rw (weekday, up) (omega (arith, h, e))
weekday_lem (negsuc n) t d h e =
    let m = 0 + suc n - (4 + 0) - 1 in
    elim (Bool-cases (leb (0 + suc n) (4 + 0))) [
      | inl y ↦ let up : suc n ≤ 4 = ground (arith, y) in rw (weekday, y) (omega (arith, h, e, up))
      | inr k ↦
          let above : 4 < suc n = ground (arith, k) in
          elim (Bool-cases (suc m % 7 == 0)) [
            | inl z ↦
                let whole : suc m % 7 ≡ 0 = ground (arith, z) in
                rw (weekday, k, z) (omega (arith, h, e, above, whole))
            | inr z ↦
                let part : 0 < suc m % 7 = ground (arith, z) in
                rw (weekday, k, z) (omega (arith, h, e, above, part))
          ]
    ]

epoch_weekday : days_before 1970 % 7 ≡ 5
unfolding days_before year_len is_leap
epoch_weekday = refl

broken_down-Broken :
    (zone : TzResult) (time : ℤ) (t : ℕ) {o : Option (ℕ × ℕ)} (y : DayOf (t / 86400) o)
    → (let r = month_loop (is_leap y.year) days_per_month 0 y.yday in
        InMonth (lengths (is_leap y.year) days_per_month 0) 0 y.yday r)
    → (split_seconds time).1 ≡ t % 86400
    → weekday (split_seconds time).0 ≡ (t / 86400 + 6) % 7
    → Broken t (broken_down zone time y.year y.yday)
unfolding broken_down
broken_down-Broken zone time t y m secs wday = record {
  year = y.year;
  yday = y.yday;
  mon = m.n;
  mday = (month_loop (is_leap y.year) days_per_month 0 y.yday).1 + 1;
  hour = t % 86400 / 3600;
  min = t % 86400 % 3600 / 60;
  sec = t % 86400 % 3600 % 60;
  month_len = m.len;
  tm_year = refl;
  tm_yday = refl;
  tm_mon = ap pos (omega (arith, m.month));
  tm_mday = refl;
  tm_hour = rw secs refl;
  tm_min = rw secs refl;
  tm_sec = rw secs refl;
  tm_wday = rw (wday, y.counts) refl;
  seconds = omega (arith, y.counts);
  sec_bound = omega arith;
  min_bound = omega arith;
  hour_bound = omega arith;
  yday_bound = y.inside;
  month = m.there;
  first_day = omega arith;
  last_day = omega (arith, m.inside);
  day = omega (arith, m.counts);
}

-- The same for every zone.
pub break_down-Broken :
    (zone : TzResult) (time : ℤ) (t : ℕ)
    → t + neg_part time ≡ days_before 1970 * 86400 + pos_part time
    → (tm : Tm) × (break_down zone time ≡ some tm) × Broken t tm
unfolding break_down
break_down-Broken zone time t e =
    let (days_at, secs_at) = split_seconds_lem time t (days_before 1970) e in
    let y = year_loop-DayOf (t / 86400) (split_seconds time).0 days_at in
    let months =
      month_loop-InMonth (is_leap y.year) days_per_month 0 y.yday
        (rw (whole_year y.year) (y.inside)) in
    (
      _,
      rw (break_down, y.runs) refl,
      broken_down-Broken zone time t y months secs_at
          (weekday_lem (split_seconds time).0 (t / 86400) (days_before 1970) epoch_weekday days_at),
    )

-- For a time that is t seconds behind the start of the year 0, gmtime returns the time broken down:
-- the year, the day of it and the time of the day add up to t, the month and its day to the day of the
-- year, each field is within its bounds, and the day of the week is that of the day.
pub gmtime-Broken :
    (time : ℤ) (t : ℕ)
    → t + neg_part time ≡ days_before 1970 * 86400 + pos_part time
    → (tm : Tm) × (gmtime time ≡ some tm) × Broken t tm
unfolding gmtime
gmtime-Broken time t e = break_down-Broken utc time t e
