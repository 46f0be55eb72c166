-- ===== src/Calendar/Weeks/Iso.antt =====
-- The weeks of src/c/time/strftime.c for a day of the calendar: those of ISO 8601.
use small_lib_c.Base.{
  ℕ, suc, ◌+◌, ◌-◌, ◌/◌, ◌%◌, ◌≤◌, ◌<◌, ◌≡◌, ◌≢◌, refl, ◌∙◌, ap, Option, some, ◌==◌, if◌then◌else◌,
  Bool-cases, inl, inr, arith,
}
use small_lib_c.Base.Int.{ℤ, pos, negsuc, pos_part, is_negative, ◌+ℤ◌, ◌-ℤ◌}
use small_lib_c.Base.Int.Differences.{Is, add_Is, minus_Is, Is-unique}
use small_lib_c.Calendar.{Tm}
use small_lib_c.Calendar.Zone.{quot}
use small_lib_c.Calendar.Weeks.{
  is_int, weeknumber, jan1day, dec31ly, start_week, december_week, iso8601wknum,
}

-- The days from a Monday on, by those from a Sunday on.
abbrev pub from_monday : ℕ → ℕ
from_monday wday = (wday + 6) % 7

-- The day before a day of the week.
pub day_before :
    (wday : ℕ)
    → wday < 7
    → (if is_int (pos wday) 0 then pos 6 else pos wday -ℤ pos 1) ≡ pos (from_monday wday)
day_before wday lt = elim (Bool-cases (wday == 0)) [
  | inl y ↦
      let zero_there : wday ≡ 0 = ground (arith, y) in rw y (ap pos (omega (arith, zero_there)))
  | inr n ↦
      let above : wday ≢ 0 = ground (arith, n) in
      rw n (
        Is-unique (pos wday -ℤ pos 1) (pos (from_monday wday)) (wday + 0) (0 + 1)
          (minus_Is (pos wday) (pos 1) wday 0 1 0 refl refl) (omega (arith, above, lt)))
]

-- Fields whose year begins with the day j of the week.
module _ (tm : Tm) (wday yday j : ℕ) (at_wday : tm.tm_wday ≡ pos wday)
    (at_yday : tm.tm_yday ≡ pos yday) (early : j < 7) (days : wday ≡ (j + yday) % 7) where
  first_day : (z : ℤ) → Is z wday (yday % 7) → (if is_negative z then z +ℤ pos 7 else z) ≡ pos j
  first_day (pos n) is = ap pos (omega (arith, is, early, days))
  first_day (negsuc n) is =
      Is-unique (negsuc n +ℤ pos 7) (pos j) (wday + 7) (yday % 7 + 0)
        (add_Is (negsuc n) (pos 7) wday (yday % 7) 7 0 is refl) (omega (arith, is, early, days))

  jan1day_lem : jan1day tm ≡ pos j
  unfolding jan1day
  jan1day_lem =
      rw (jan1day, at_wday, at_yday)
        (first_day (pos wday -ℤ pos (yday % 7))
          (omega (arith, minus_Is (pos wday) (pos (yday % 7)) wday 0 (yday % 7) 0 refl refl)))

  weeknumber_lem : weeknumber tm 1 ≡ (yday + 7 - from_monday wday) / 7
  unfolding weeknumber
  weeknumber_lem =
      rw (weeknumber, at_wday, at_yday, day_before wday (omega (arith, days)))
        (ap (λ z. pos_part (quot z 7))
          (Is-unique (pos yday +ℤ pos 7 -ℤ pos (from_monday wday))
            (pos (yday + 7 - from_monday wday)) (yday + 7 + 0) (0 + 0 + from_monday wday)
            (minus_Is (pos yday +ℤ pos 7) (pos (from_monday wday)) (yday + 7) (0 + 0)
              (from_monday wday) 0 (add_Is (pos yday) (pos 7) yday 0 7 0 refl refl) refl)
            (omega arith)))

-- The week that the first day leads to: that of the Thursday, counted from 1 on, where that is not
-- behind the year's start.
this_year :
    (yday j wday : ℕ) (last_year : Option ℕ)
    → j < 7
    → wday ≡ (j + yday) % 7
    → from_monday wday ≤ yday + 3
    → start_week ((yday + 7 - from_monday wday) / 7) (pos j) last_year
      ≡ some ((yday + 3 - from_monday wday) / 7 + 1)
unfolding start_week
this_year yday j wday last_year early days le = ground (arith, early, days, le)

year_before :
    (yday j wday : ℕ) (last_year : Option ℕ)
    → j < 7
    → wday ≡ (j + yday) % 7
    → yday + 3 < from_monday wday
    → start_week ((yday + 7 - from_monday wday) / 7) (pos j) last_year ≡ last_year
unfolding start_week
year_before yday j wday last_year early days lt = ground (arith, early, days, lt)

pub late_december :
    (tm : Tm) (wday mon mday week : ℕ)
    → tm.tm_wday ≡ pos wday
    → tm.tm_mon ≡ pos mon
    → tm.tm_mday ≡ pos mday
    → wday < 7
    → mon ≡ 11
    → 29 + from_monday wday ≤ mday
    → mday ≤ 31
    → december_week tm week ≡ 1
unfolding december_week
late_december tm wday mon mday week w m d lt e late last =
    rw (december_week, w, m, d) (ground (arith, lt, e, late, last))

pub not_late :
    (tm : Tm) (wday mon mday week : ℕ)
    → tm.tm_wday ≡ pos wday
    → tm.tm_mon ≡ pos mon
    → tm.tm_mday ≡ pos mday
    → wday < 7
    → (mon ≡ 11 → mday < 29 + from_monday wday)
    → december_week tm week ≡ week
unfolding december_week
not_late tm wday mon mday week w m d lt early = elim (Bool-cases (mon == 11)) [
  | inl y ↦
      let at : mon ≡ 11 = ground (arith, y) in
      let before = early at in rw (december_week, w, m, d, y) (ground (arith, lt, before))
  | inr n ↦ rw (december_week, w, m, d, n) refl
]

module _ (k : ℕ) (tm : Tm) (wday yday j : ℕ) (at_wday : tm.tm_wday ≡ pos wday)
    (at_yday : tm.tm_yday ≡ pos yday) (early : j < 7) (days : wday ≡ (j + yday) % 7) where
  week_runs :
      (week : ℕ)
      → start_week ((yday + 7 - from_monday wday) / 7) (pos j) (iso8601wknum k (dec31ly tm (pos j)))
        ≡ some week
      → iso8601wknum (suc k) tm ≡ some (december_week tm week)
  unfolding iso8601wknum
  week_runs week e =
      rw
        (
          iso8601wknum,
          jan1day_lem tm wday yday j at_wday at_yday early days,
          weeknumber_lem tm wday yday j at_wday at_yday early days,
          e,
        )
        refl

  pub week_this_year :
      from_monday wday ≤ yday + 3
      → iso8601wknum (suc k) tm ≡ some (december_week tm ((yday + 3 - from_monday wday) / 7 + 1))
  week_this_year le =
      week_runs ((yday + 3 - from_monday wday) / 7 + 1)
        (this_year yday j wday (iso8601wknum k (dec31ly tm (pos j))) early days le)

  pub week_year_before :
      (week : ℕ)
      → yday + 3 < from_monday wday
      → iso8601wknum k (dec31ly tm (pos j)) ≡ some week
      → iso8601wknum (suc k) tm ≡ some (december_week tm week)
  week_year_before week lt e =
      week_runs week
        (year_before yday j wday (iso8601wknum k (dec31ly tm (pos j))) early days lt ∙ e)
