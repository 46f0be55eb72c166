-- ===== src/Calendar/Zone/Seconds.antt =====
-- The count of days of src/c/time/mktime.c, by leap years, against that of the loop over years.
use small_lib_c.Base.{
  all_below-test, all_below, ℕ, zero, suc, ◌+◌, ◌-◌, ◌*◌, ◌/◌, ◌%◌, ◌<◌, ◌≡◌, ◌≢◌, refl, ◌∙◌, ap,
  subst, Bool, true, false, ◌&&◌, Option, none, some, ltb, leb, ◌==◌, ==_iff, if◌then◌else◌,
  get_elem?, Bool-cases, inl, inr, arith, get-inside, inside-get,
}
use small_lib_c.Base.Int.{ℤ, pos, sub_ℕ, abs, ◌+ℤ◌, ◌-ℤ◌, ◌*ℤ◌}
use small_lib_c.Base.Int.Differences.{
  Is, sub_Is, add_Is, minus_Is, add_parts, minus_parts, times_parts, Is-unique,
}
use small_lib_c.Calendar.{Tm, is_leap, year_len, days_per_month}
use small_lib_c.Calendar.Days.{days_before}
use small_lib_c.Calendar.Months.{lengths, days_of}
use small_lib_c.Calendar.Fields.{Broken}
use small_lib_c.Calendar.Zone.{
  days_before_month, normal_month, leaps, total_days, day_seconds, time_of, local_seconds, as_long,
}

pos_Is : (n : ℕ) → Is (pos n) n 0
pos_Is n = refl

-- The counts of multiples that a leap year adds to.
len_step :
    (y : ℕ)
    → year_len (suc y) + suc y / 100 + y / 4 + y / 400 ≡ 365 + suc y / 4 + suc y / 400 + y / 100
unfolding year_len is_leap
len_step y = elim (Bool-cases (suc y % 4 == 0)) [
  | inr a ↦
      let no_4 : suc y % 4 ≢ 0 = ground (arith, a) in
      rw (year_len, is_leap, a) (omega (arith, no_4))
  | inl a ↦
      let by_4 : suc y % 4 ≡ 0 = ground (arith, a) in
      elim (Bool-cases (suc y % 100 == 0)) [
        | inr b ↦
            let no_100 : suc y % 100 ≢ 0 = ground (arith, b) in
            rw (year_len, is_leap, a, b) (omega (arith, by_4, no_100))
        | inl b ↦
            let by_100 : suc y % 100 ≡ 0 = ground (arith, b) in
            elim (Bool-cases (suc y % 400 == 0)) [
              | inr c ↦
                  let no_400 : suc y % 400 ≢ 0 = ground (arith, c) in
                  rw (year_len, is_leap, a, b, c) (omega (arith, by_4, by_100, no_400))
              | inl c ↦
                  let by_400 : suc y % 400 ≡ 0 = ground (arith, c) in
                  rw (year_len, is_leap, a, b, c) (omega (arith, by_4, by_100, by_400))
            ]
      ]
]

first_year : days_before 1 + 0 / 100 ≡ 365 * 1 + 0 / 4 + 0 / 400 + 1
unfolding days_before year_len is_leap
first_year = refl

-- The years before a year that are leap years, without the year 0.
leap_years : (y : ℕ) → days_before (suc y) + y / 100 ≡ 365 * suc y + y / 4 + y / 400 + 1
unfolding days_before
leap_years zero = first_year
leap_years (suc y) = let before = leap_years y in omega (arith, before, len_step y)

leaps-Is : (y : ℕ) → Is (leaps (pos (suc y))) (y / 4 + y / 400) (y / 100)
unfolding leaps
leaps-Is y =
    let back : pos (suc y) -ℤ pos 1 ≡ pos y =
      Is-unique (pos (suc y) -ℤ pos 1) (pos y) (suc y + 0) (0 + 1)
        (minus_Is (pos (suc y)) (pos 1) (suc y) 0 1 0 refl refl) (omega arith) in
    let sum =
      add_Is (pos (y / 4) -ℤ pos (y / 100)) (pos (y / 400)) (y / 4 + 0) (0 + y / 100) (y / 400) 0
        (minus_Is (pos (y / 4)) (pos (y / 100)) (y / 4) 0 (y / 100) 0 refl refl) refl in
    rw (leaps, back) (omega (arith, sum))

abbrev leap_day : Bool → ℕ → ℕ
leap_day leap mon = if ltb 1 mon && leap then 1 else 0

abbrev starts_at : Bool → ℕ → Option ℕ → Bool
starts_at leap mon none = false
starts_at leap mon (some before) =
    before + leap_day leap mon == days_of mon (lengths leap days_per_month 0)

abbrev month_matches : Bool → ℕ → Bool
month_matches leap mon = starts_at leap mon (get_elem? days_before_month mon)

month_start :
    (leap : Bool) (mon : ℕ)
    → mon < 12
    → (before : ℕ) × (get_elem? days_before_month mon ≡ some before)
      × (before + leap_day leap mon ≡ days_of mon (lengths leap days_per_month 0))
month_start leap mon lt =
    let (before, e) = get-inside days_before_month mon (omega (arith, lt)) in
    let test : month_matches leap mon ≡ true =
      all_below-test 12 (month_matches leap) mon (all_match leap) lt in
    (
      before,
      e,
      (==_iff (before + leap_day leap mon) (days_of mon (lengths leap days_per_month 0))).0
          (subst (λ o. starts_at leap mon o ≡ true) e test),
    )
  where
    all_match : (leap : Bool) → all_below 12 (month_matches leap) ≡ true
    all_match true = refl
    all_match false = refl

module _ (t : ℕ) (tm : Tm) (b : Broken t tm) (later : 0 < b.year) where
  year_again : tm.tm_year +ℤ pos 1900 ≡ pos b.year
  year_again = rw b.tm_year (
      Is-unique (sub_ℕ b.year 1900 +ℤ pos 1900) (pos b.year) (b.year + 1900) (1900 + 0)
        (add_Is (sub_ℕ b.year 1900) (pos 1900) b.year 1900 1900 0 (sub_Is b.year 1900) refl)
        (omega arith))

  twelve : b.mon < 12
  twelve = inside-get (lengths (is_leap b.year) days_per_month 0) b.mon b.month

  normal : normal_month (tm.tm_year +ℤ pos 1900) tm.tm_mon ≡ (pos b.year, b.mon)
  unfolding normal_month
  normal =
      let early : leb 12 b.mon ≡ false = ground (arith, twelve) in
      ap (λ z. normal_month z tm.tm_mon) year_again
      ∙ ap (λ z. normal_month (pos b.year) z) b.tm_mon
      ∙ rw (normal_month, early) refl

  leaps_to : Is (leaps (pos b.year)) ((b.year - 1) / 4 + (b.year - 1) / 400) ((b.year - 1) / 100)
  leaps_to =
      let back : suc (b.year - 1) ≡ b.year = omega (arith, later) in
      subst (λ y. Is (leaps (pos y)) ((b.year - 1) / 4 + (b.year - 1) / 400) ((b.year - 1) / 100))
        back (leaps-Is (b.year - 1))

  years_to :
      days_before b.year + (b.year - 1) / 100
      ≡ 365 * b.year + (b.year - 1) / 4 + (b.year - 1) / 400 + 1
  years_to =
      let back : suc (b.year - 1) ≡ b.year = omega (arith, later) in
      subst
        (λ y.
          days_before y + (b.year - 1) / 100 ≡ 365 * y + (b.year - 1) / 4 + (b.year - 1) / 400 + 1)
        back (leap_years (b.year - 1))

  same_leap : is_leap (abs (pos b.year)) ≡ is_leap b.year
  same_leap = ap (λ y. is_leap y) (omega arith)

  -- The sum of mktime, term by term.
  day_Is :
      (before extra : ℕ)
      → before + extra ≡ days_of b.mon (lengths (is_leap b.year) days_per_month 0)
      → Is
          ((pos b.year -ℤ pos 1970) *ℤ pos 365
            +ℤ (leaps (pos b.year) -ℤ leaps (pos 1970))
            +ℤ pos before
            +ℤ pos extra
            +ℤ (pos b.mday -ℤ pos 1))
          (days_before b.year + b.yday)
          (days_before 1970)
  day_Is before extra start =
      let y = pos b.year -ℤ pos 1970 in
      let years = y *ℤ pos 365 in
      let leap = leaps (pos b.year) -ℤ leaps (pos 1970) in
      let mday = pos b.mday -ℤ pos 1 in
      omega (
        arith,
        minus_parts (pos b.year) (pos 1970),
        times_parts y 365,
        minus_parts (leaps (pos b.year)) (leaps (pos 1970)),
        leaps_to,
        leaps-Is 1969,
        minus_parts (pos b.mday) (pos 1),
        add_parts years leap,
        add_parts (years +ℤ leap) (pos before),
        add_parts (years +ℤ leap +ℤ pos before) (pos extra),
        add_parts (years +ℤ leap +ℤ pos before +ℤ pos extra) mday,
        start,
        years_to,
        leap_years 1969,
        b.day,
        b.first_day,
      )

  total_there :
      (before : ℕ)
      → get_elem? days_before_month b.mon ≡ some before
      → (let extra : ℕ = if ltb 1 b.mon && is_leap (abs (pos b.year)) then 1 else 0 in
          total_days (pos b.year) b.mon (pos b.mday)
          ≡ some (
              (pos b.year -ℤ pos 1970) *ℤ pos 365
              +ℤ (leaps (pos b.year) -ℤ leaps (pos 1970))
              +ℤ pos before
              +ℤ pos extra
              +ℤ (pos b.mday -ℤ pos 1)))
  unfolding total_days
  total_there before at = rw (total_days, at) refl

  days_there :
      (z : ℤ) × (total_days (pos b.year) b.mon tm.tm_mday ≡ some z)
      × Is z (days_before b.year + b.yday) (days_before 1970)
  unfolding total_days
  days_there =
      let (before, at, start) = month_start (is_leap b.year) b.mon twelve in
      let extra : ℕ = if ltb 1 b.mon && is_leap (abs (pos b.year)) then 1 else 0 in
      let same : extra ≡ leap_day (is_leap b.year) b.mon = ap (λ l. leap_day l b.mon) same_leap in
      let to_year =
        (pos b.year -ℤ pos 1970) *ℤ pos 365 +ℤ (leaps (pos b.year) -ℤ leaps (pos 1970)) in
      (
        to_year +ℤ pos before +ℤ pos extra +ℤ (pos b.mday -ℤ pos 1),
        ap (λ z. total_days (pos b.year) b.mon z) b.tm_mday ∙ total_there before at,
        day_Is before extra (omega (arith, start, same)),
      )

  -- The seconds of the fields, before the cast to a long.
  pub local_seconds_lem :
      (z : ℤ) × (local_seconds tm ≡ some (as_long z)) × Is z t (days_before 1970 * 86400)
  unfolding local_seconds
  local_seconds_lem =
      let (d, runs, days) = days_there in
      let hours = pos b.hour *ℤ pos 3600 in
      let minutes = pos b.min *ℤ pos 60 in
      (
        d *ℤ pos 86400 +ℤ hours +ℤ minutes +ℤ pos b.sec,
        ap (λ p. time_of tm (total_days p.0 p.1 tm.tm_mday)) normal
            ∙ ap (time_of tm) runs
            ∙ ap (λ h. some (as_long (day_seconds d h tm.tm_min tm.tm_sec))) b.tm_hour
            ∙ ap (λ m. some (as_long (day_seconds d (pos b.hour) m tm.tm_sec))) b.tm_min
            ∙ ap (λ s. some (as_long (day_seconds d (pos b.hour) (pos b.min) s))) b.tm_sec,
        omega (
          arith,
          days,
          b.seconds,
          times_parts d 86400,
          times_parts (pos b.hour) 3600,
          times_parts (pos b.min) 60,
          add_parts (d *ℤ pos 86400) hours,
          add_parts (d *ℤ pos 86400 +ℤ hours) minutes,
          add_parts (d *ℤ pos 86400 +ℤ hours +ℤ minutes) (pos b.sec),
        ),
      )
