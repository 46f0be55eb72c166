-- ===== src/Calendar/Weeks/Turn.antt =====
-- The first and the last days of a year, for the weeks of src/c/time/strftime.c.
use small_lib_c.Base.{
  ℕ, suc, ◌+◌, ◌-◌, ◌%◌, ◌≤◌, ◌<◌, ◌≡◌, ◌≢◌, refl, ◌∙◌, ap, subst, Bool, true, false, not, ◌&&◌,
  ◌||◌, Option, none, some, ltb, leb, ◌==◌, if◌then◌else◌, get_elem?, Bool-cases, inl, inr, arith,
  inside-get, all_below, all_below-test,
}
use small_lib_c.Base.Int.{pos, sub_ℕ, ◌+ℤ◌, ◌-ℤ◌}
use small_lib_c.Base.Int.Differences.{add_Is, sub_Is, Is-unique}
use small_lib_c.Calendar.{Tm, is_leap, year_len, days_per_month}
use small_lib_c.Calendar.Months.{lengths, days_of}
use small_lib_c.Calendar.Fields.{Broken}
use small_lib_c.Calendar.Weeks.{isleap, week_year}

two_tests :
    (y : ℕ)
    → (y % 4 == 0 && not (y % 100 == 0) || y % 400 == 0)
      ≡ (y % 4 == 0 && (not (y % 100 == 0) || y % 400 == 0))
two_tests y = elim (Bool-cases (y % 4 == 0)) [
  | inl d ↦ rw d refl
  | inr n ↦
      let other : y % 4 ≢ 0 = ground (arith, n) in
      let others : (y % 400 == 0) ≡ false = ground (arith, other) in rw (n, others) refl
]

pub isleap-is_leap : (y : ℕ) → isleap (pos y) ≡ is_leap y
unfolding isleap is_leap
isleap-is_leap y = ap isleap_of plus ∙ two_tests y
  where
    isleap_of : ℕ → Bool
    isleap_of y = y % 4 == 0 && not (y % 100 == 0) || y % 400 == 0

    plus : y + 0 ≡ y
    plus = omega arith

abbrev pub leap_day : Bool → ℕ
leap_day leap = if leap then 1 else 0

abbrev month_test : Bool → ℕ → ℕ → Option ℕ → Bool
month_test leap mon start none = false
month_test leap mon start (some len) =
    (if mon == 11 then start == 334 + leap_day leap else ltb (start + len) (335 + leap_day leap))
    && (if mon == 0 then ltb (start + len) 32 else ltb 30 start)

abbrev month_holds : Bool → ℕ → Bool
month_holds leap mon =
    let lens = lengths leap days_per_month 0 in
    month_test leap mon (days_of mon lens) (get_elem? lens mon)

all_hold : (leap : Bool) → all_below 12 (month_holds leap) ≡ true
all_hold true = refl
all_hold false = refl

module _ (t : ℕ) (tm : Tm) (b : Broken t tm) where
  holds :
      month_test
        (is_leap b.year)
        b.mon
        (days_of b.mon (lengths (is_leap b.year) days_per_month 0))
        (some b.month_len)
      ≡ true
  holds =
      let lens = lengths (is_leap b.year) days_per_month 0 in
      subst (λ o. month_test (is_leap b.year) b.mon (days_of b.mon lens) o ≡ true) b.month
        (all_below-test 12 (month_holds (is_leap b.year)) b.mon (all_hold (is_leap b.year))
          (inside-get lens b.mon b.month))

  pub december : b.mon ≡ 11 → b.yday + 1 ≡ 334 + leap_day (is_leap b.year) + b.mday
  december e = ground (arith, e, holds, b.day)

  pub not_december : b.mon ≢ 11 → b.yday < 334 + leap_day (is_leap b.year)
  not_december n = ground (arith, n, holds, b.day, b.last_day)

  pub january : b.yday < 31 → b.mon ≡ 0
  january lt = elim (Bool-cases (b.mon == 0)) [
    | inl y ↦ ground (arith, y)
    | inr n ↦ absurd (ground (arith, n, holds, b.day, b.first_day, lt))
  ]

  pub in_january : b.mon ≡ 0 → b.yday < 31
  in_january e = ground (arith, e, holds, b.day, b.last_day)

  pub year_days : year_len b.year ≡ 365 + leap_day (is_leap b.year)
  unfolding year_len
  year_days = ground (arith)

  pub year_1900 : pos 1900 +ℤ tm.tm_year ≡ pos b.year
  year_1900 = rw b.tm_year (
      Is-unique (pos 1900 +ℤ sub_ℕ b.year 1900) (pos b.year) (1900 + b.year) (0 + 1900)
        (add_Is (pos 1900) (sub_ℕ b.year 1900) 1900 0 b.year 1900 refl (sub_Is b.year 1900))
        (omega arith))

  pub next_year : (w : ℕ) → b.mon ≡ 11 → w ≡ 1 → week_year tm w ≡ pos (suc b.year)
  unfolding week_year ◌+ℤ◌
  next_year w m one =
      let is_11 : (b.mon == 11) ≡ true = ground (arith, m) in
      let is_1 : (w == 1) ≡ true = ground (arith, one) in
      rw (week_year, year_1900, b.tm_mon, is_11, is_1) (ground arith)

  pub same_year :
      (w : ℕ) → (b.mon ≡ 11 → 1 < w) → (b.mon ≡ 0 → w < 52) → week_year tm w ≡ pos b.year
  unfolding week_year
  same_year w eleven none_left = elim (Bool-cases (b.mon == 11)) [
    | inl y ↦
        let lt = eleven (ground (arith, y)) in
        let not_1 : (w == 1) ≡ false = ground (arith, lt) in
        let not_0 : (b.mon == 0) ≡ false = ground (arith, y) in
        rw (week_year, year_1900, b.tm_mon, y, not_1, not_0) refl
    | inr n ↦ elim (Bool-cases (b.mon == 0)) [
      | inl z ↦
          let lt = none_left (ground (arith, z)) in
          let early : leb 52 w ≡ false = ground (arith, lt) in
          rw (week_year, year_1900, b.tm_mon, n, z, early) refl
      | inr k ↦ rw (week_year, year_1900, b.tm_mon, n, k) refl
    ]
  ]

  pub last_year : (w : ℕ) → 0 < b.year → b.mon ≡ 0 → 52 ≤ w → week_year tm w ≡ pos (b.year - 1)
  unfolding week_year ◌-ℤ◌
  last_year w later m le =
      let not_11 : (b.mon == 11) ≡ false = ground (arith, m) in
      let is_0 : (b.mon == 0) ≡ true = ground (arith, m) in
      let late : leb 52 w ≡ true = ground (arith, le) in
      rw (week_year, year_1900, b.tm_mon, not_11, is_0, late) (ground (arith, later))
