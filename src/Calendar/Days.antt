-- ===== src/Calendar/Days.antt =====
-- The loop over years of src/c/time/gmtime.c, against a count of days from the year 0.
use small_lib_c.Base.{
  ℕ, zero, suc, ◌+◌, ◌-◌, ◌*◌, ◌/◌, ◌≤◌, ◌<◌, ◌≡◌, refl, Option, some, arith, ltb, Bool-cases, inl,
  inr, leb,
}
use small_lib_c.Base.Int.{ℤ, pos, negsuc, abs, pos_part, neg_part}
use small_lib_c.Calendar.{is_leap, year_len, year_loop}

-- The days before the first of a year.
unfoldable pub days_before : ℕ → ℕ
days_before zero = 0
days_before (suc y) = days_before y + year_len y

pub year_len-bounds : (year : ℕ) → (365 ≤ year_len year) × (year_len year ≤ 366)
unfolding year_len
year_len-bounds year = elim (Bool-cases (is_leap year)) [
  | inl y ↦ rw y (omega arith, omega arith)
  | inr n ↦ rw n (omega arith, omega arith)
]

pub days_before-bound : (year : ℕ) → 365 * year ≤ days_before year
unfolding days_before
days_before-bound zero = omega arith
days_before-bound (suc y) =
    let (lo, hi) = year_len-bounds y in omega (arith, lo, days_before-bound y)

-- The day t of the count, as a year and a day of that.
pub record DayOf (t : ℕ) (r : Option (ℕ × ℕ)) : Type 0 where
  pub year : ℕ
  pub yday : ℕ
  pub runs : r ≡ some (year, yday)
  pub inside : yday < year_len year
  pub counts : days_before year + yday ≡ t

forwards :
    (t k year d : ℕ) → days_before year + d ≡ t → d < 365 * k → DayOf t (year_loop k year (pos d))
unfolding year_loop days_before
forwards t zero year d e lt = absurd (omega arith)
forwards t (suc k) year d e lt = elim (Bool-cases (ltb d (year_len year))) [
  | inl y ↦
      rw (y, year_loop)
        (record { year = year; yday = d; runs = refl; inside = ground (arith, y); counts = e })
  | inr n ↦
      let (lo, hi) = year_len-bounds year in
      let le : year_len year ≤ d = ground (arith, n) in
      rw (n, year_loop)
        (forwards t k (suc year) (d - year_len year) (omega (arith, e, le))
          (omega (arith, lt, lo, le)))
]

backwards :
    (t k year n : ℕ)
    → days_before year ≡ t + suc n
    → n + 731 ≤ 365 * k
    → DayOf t (year_loop k year (negsuc n))
unfolding year_loop days_before
backwards t zero year n e le = absurd (omega arith)
backwards t (suc k) zero n e le = absurd (omega (arith, e))
backwards t (suc k) (suc year) n e le =
    let (lo, hi) = year_len-bounds year in
    let back : suc year - 1 ≡ year = omega arith in
    elim (Bool-cases (leb (suc n) (year_len year))) [
      | inl y ↦
          rw (year_loop, back, y)
            (forwards t k year (year_len year - suc n) (ground (arith, e, y))
              (omega (arith, le, hi)))
      | inr m ↦
          let above : year_len year < suc n = ground (arith, m) in
          rw (year_loop, back, m)
            (backwards t k year (suc n - year_len year - 1) (omega (arith, e, above))
              (omega (arith, le, above, lo)))
    ]

pub year_loop-DayOf :
    (t : ℕ) (days : ℤ)
    → t + neg_part days ≡ days_before 1970 + pos_part days
    → DayOf t (year_loop (abs days / 365 + 4) 1970 days)
year_loop-DayOf t (pos d) e =
    forwards t (abs (pos d) / 365 + 4) 1970 d (omega (arith, e)) (omega arith)
year_loop-DayOf t (negsuc n) e =
    backwards t (abs (negsuc n) / 365 + 4) 1970 n (omega (arith, e)) (omega arith)
