-- ===== src/Calendar/Weeks/Thursday.antt =====
-- The week and the year of `%V` and `%G` of src/c/time/strftime.c are those of the week's Thursday.
use small_lib_c.Base.{
  ℕ, suc, ◌+◌, ◌-◌, ◌*◌, ◌/◌, ◌%◌, ◌≤◌, ◌<◌, ◌≡◌, ◌≢◌, refl, sym, ◌∙◌, ap, some, ltb, leb, ◌==◌,
  Bool-cases, inl, inr, arith,
}
use small_lib_c.Base.Int.{pos, sub_ℕ, ◌+ℤ◌, ◌-ℤ◌}
use small_lib_c.Base.Int.Differences.{add_Is, minus_Is, sub_Is, Is-unique}
use small_lib_c.Calendar.{Tm, year_len}
use small_lib_c.Calendar.Days.{days_before, year_len-bounds}
use small_lib_c.Calendar.Fields.{Broken}
use small_lib_c.Calendar.Weeks.{dec31ly, december_week, iso8601wknum, week_year}
use small_lib_c.Calendar.Weeks.Iso.{
  from_monday, day_before, late_december, not_late, week_this_year, week_year_before,
}
use small_lib_c.Calendar.Weeks.Turn.{
  isleap-is_leap, december, not_december, january, in_january, year_days, next_year, same_year,
  last_year,
}

-- The thursday of the week of a day, the day 0 being a Saturday.
abbrev pub thursday : (day : ℕ) → ℕ
thursday day = day + 3 - (day + 5) % 7

-- The week of a thursday in the year that it lies in.
pub record IsoWeek (day : ℕ) (tm : Tm) : Type 0 where
  pub year : ℕ
  pub starts : days_before year ≤ thursday day
  pub ends : thursday day < days_before (suc year)
  pub week : iso8601wknum 2 tm ≡ some ((thursday day - days_before year) / 7 + 1)
  pub year_written : week_year tm ((thursday day - days_before year) / 7 + 1) ≡ pos year

module _ (t : ℕ) (tm : Tm) (b : Broken t tm) where
  -- The day of the week of the first of January.
  abbrev first : ℕ
  first = (days_before b.year + 6) % 7

  abbrev wday : ℕ
  wday = (days_before b.year + b.yday + 6) % 7

  module _ (later : 0 < b.year) where
    -- The last day of the year before, as iso8601wknum makes it.
    abbrev last_day : Tm
    last_day = dec31ly tm (pos first)

    year_ago : tm.tm_year -ℤ pos 1 +ℤ pos 1900 ≡ pos (b.year - 1)
    year_ago =
        let before = sub_ℕ b.year 1900 -ℤ pos 1 in
        rw b.tm_year (
          Is-unique (before +ℤ pos 1900) (pos (b.year - 1)) (b.year + 0 + 1900) (1900 + 1 + 0)
            (add_Is before (pos 1900) (b.year + 0) (1900 + 1) 1900 0
              (minus_Is (sub_ℕ b.year 1900) (pos 1) b.year 1900 1 0 (sub_Is b.year 1900) refl) refl)
            (omega (arith, later)))

    last_wday : last_day.tm_wday ≡ pos (from_monday first)
    unfolding dec31ly
    last_wday = day_before first (omega arith)

    last_yday : last_day.tm_yday ≡ pos (year_len (b.year - 1) - 1)
    unfolding dec31ly year_len ◌+ℤ◌
    last_yday = rw (year_ago, isleap-is_leap (b.year - 1)) (ground arith)

    year_back : days_before b.year ≡ days_before (b.year - 1) + year_len (b.year - 1)
    unfolding days_before
    year_back =
        let back : b.year ≡ suc (b.year - 1) = omega (arith, later) in ap (λ y. days_before y) back

    last_week :
        b.yday + 3 < from_monday wday
        → iso8601wknum 1 last_day
          ≡ some ((year_len (b.year - 1) + b.yday + 3 - from_monday wday) / 7 + 1)
    unfolding dec31ly
    last_week lt =
        let w = from_monday first in
        let last = year_len (b.year - 1) - 1 in
        let (lo, hi) = year_len-bounds (b.year - 1) in
        let late : 3 ≤ from_monday w = omega (arith, lt) in
        let week = (last + 3 - from_monday w) / 7 + 1 in
        week_this_year 0 last_day w last ((w + 6 * last) % 7) last_wday last_yday (omega arith)
          (omega arith) (omega (arith, lo))
        ∙ ap some (
            not_late last_day w 11 31 week last_wday refl refl (omega arith)
              (λ e. omega (arith, late)))
        ∙ ap some (omega (arith, lt, lo))

    this_week :
        (from_monday wday ≤ b.yday + 3)
        → iso8601wknum 2 tm ≡ some (december_week tm ((b.yday + 3 - from_monday wday) / 7 + 1))
    this_week le =
        week_this_year 1 tm wday b.yday first b.tm_wday b.tm_yday (omega arith) (omega arith) le

    week_before : b.yday + 3 < from_monday wday → IsoWeek (days_before b.year + b.yday) tm
    unfolding days_before
    week_before lt =
        let (lo, hi) = year_len-bounds (b.year - 1) in
        let start : b.mon ≡ 0 = january t tm b (omega (arith, lt)) in
        let week = (year_len (b.year - 1) + b.yday + 3 - from_monday wday) / 7 + 1 in
        let same : (thursday (days_before b.year + b.yday) - days_before (b.year - 1)) / 7 + 1
            ≡ week =
          omega (arith, year_back, lt) in
        record {
          year = b.year - 1;
          starts = omega (arith, year_back, lt, lo);
          ends = omega (arith, year_back, lt);
          week =
              week_year_before 1 tm wday b.yday first b.tm_wday b.tm_yday (omega arith)
                (omega arith) week lt (last_week lt)
              ∙ ap some (
                  not_late tm wday b.mon b.mday week b.tm_wday b.tm_mon b.tm_mday (omega arith)
                    (λ e. absurd (omega (arith, e, start))))
              ∙ ap some (sym same);
          year_written = rw same (last_year t tm b week later start (omega (arith, lo, lt)));
        }

    week_within :
        from_monday wday ≤ b.yday + 3
        → b.yday + 3 < year_len b.year + from_monday wday
        → IsoWeek (days_before b.year + b.yday) tm
    unfolding days_before
    week_within le lt =
        let week = (b.yday + 3 - from_monday wday) / 7 + 1 in
        let same : (thursday (days_before b.year + b.yday) - days_before b.year) / 7 + 1 ≡ week =
          omega (arith, le) in
        record {
          year = b.year;
          starts = omega (arith, le);
          ends = omega (arith, le, lt);
          week =
              this_week le
              ∙ ap some (
                  not_late tm wday b.mon b.mday week b.tm_wday b.tm_mon b.tm_mday (omega arith)
                    (λ e. omega (arith, december t tm b e, lt, year_days t tm b)))
              ∙ ap some (sym same);
          year_written = rw same (
              same_year t tm b week (λ e. omega (arith, december t tm b e))
                (λ e. omega (arith, in_january t tm b e)));
        }

    past_november : year_len b.year + from_monday wday ≤ b.yday + 3 → b.mon ≡ 11
    past_november le = elim (Bool-cases (b.mon == 11)) [
      | inl y ↦ ground (arith, y)
      | inr n ↦
          let other : b.mon ≢ 11 = ground (arith, n) in
          absurd (omega (arith, not_december t tm b other, le, year_days t tm b))
    ]

    week_behind :
        year_len b.year + from_monday wday ≤ b.yday + 3 → IsoWeek (days_before b.year + b.yday) tm
    unfolding days_before
    week_behind le =
        let (lo, hi) = year_len-bounds b.year in
        let (lo', hi') = year_len-bounds (suc b.year) in
        let at_end = past_november le in
        let week = (b.yday + 3 - from_monday wday) / 7 + 1 in
        let same : (thursday (days_before b.year + b.yday) - days_before (suc b.year)) / 7 + 1 ≡ 1 =
          omega (arith, le, b.yday_bound) in
        record {
          year = suc b.year;
          starts = omega (arith, le);
          ends = omega (arith, le, b.yday_bound, lo');
          week =
              this_week (omega (arith, le))
              ∙ ap some (
                  late_december tm wday b.mon b.mday week b.tm_wday b.tm_mon b.tm_mday (omega arith)
                    at_end (omega (arith, december t tm b at_end, le, year_days t tm b))
                    (omega (arith, december t tm b at_end, b.yday_bound, year_days t tm b)))
              ∙ ap some (sym same);
          year_written = rw same (next_year t tm b 1 at_end refl);
        }

    -- For a day that gmtime or localtime breaks down, the week of iso8601wknum and the year of `%G`
    -- are those of the Thursday of the week, which begins with a Monday: weeks are counted from that of
    -- the year's first Thursday on.
    pub iso_week : IsoWeek (days_before b.year + b.yday) tm
    iso_week = elim (Bool-cases (leb (from_monday wday) (b.yday + 3))) [
      | inr n ↦ week_before (ground (arith, n))
      | inl y ↦
          let le : from_monday wday ≤ b.yday + 3 = ground (arith, y) in
          elim (Bool-cases (ltb (b.yday + 3) (year_len b.year + from_monday wday))) [
            | inl i ↦ week_within le (ground (arith, i))
            | inr o ↦ week_behind (ground (arith, o))
          ]
    ]
