-- ===== src/Calendar/Zone/RoundTrip.antt =====
-- mktime of src/c/time/mktime.c takes the fields of localtime back to the time.
use small_lib_c.Base.{
  some_value, ℕ, ◌+◌, ◌-◌, ◌*◌, ◌%◌, ◌^◌, ◌≤◌, ◌<◌, ◌≡◌, refl, sym, ◌∙◌, ap, subst, true, Option,
  none, some, ltb, Bool-cases, inl, inr, arith,
}
use small_lib_c.Base.Int.{ℤ, pos, negsuc, pos_part, neg_part, ◌+ℤ◌, ◌-ℤ◌}
use small_lib_c.Base.Int.Differences.{add_parts, minus_parts, Is-unique}
use small_lib_c.Calendar.{Tm, TzResult, utc}
use small_lib_c.Calendar.Days.{days_before, days_before-bound, year_len-bounds}
use small_lib_c.Calendar.Fields.{Broken, break_down-Broken}
use small_lib_c.Calendar.Zone.{
  TzDb, tz_lookup, offset_of, fits, in_long, as_long, local_zone, localtime, local_seconds,
  zone_time, mktime,
}
use small_lib_c.Calendar.Zone.Seconds.{local_seconds_lem}

-- The zone at a time, where the offset that is found at the local time leads to a time with the offset
-- of this zone.
pub data Steady (zone : TzResult) (time : ℤ) : Option TzDb → Type 0 where
  no_zone : zone ≡ utc → Steady zone time none
  zone_there :
      (db : TzDb) (first : Option TzResult) (r : TzResult)
      → tz_lookup db time ≡ some (some zone)
      → tz_lookup db (time +ℤ zone.gmtoff) ≡ some first
      → fits (time +ℤ zone.gmtoff -ℤ offset_of first) ≡ true
      → tz_lookup db (time +ℤ zone.gmtoff -ℤ offset_of first) ≡ some (some r)
      → r.gmtoff ≡ zone.gmtoff
      → Steady zone time (some db)

bounds : (z : ℤ) → fits z ≡ true → (neg_part z ≤ 2 ^ 31) × (pos_part z < 2 ^ 31)
bounds z h = (ground (arith, h), ground (arith, h))

as_long-fits : (z : ℤ) → fits z ≡ true → as_long z ≡ z
unfolding as_long
as_long-fits (pos n) h =
    let (lo, hi) = bounds (pos n) h in
    let small : ltb (n % 2 ^ 32) (2 ^ 31) ≡ true = ground (arith, hi) in
    rw (as_long, small) (ap pos (omega (arith, hi)))
as_long-fits (negsuc n) h =
    let (lo, hi) = bounds (negsuc n) h in
    let small : ltb (n % 2 ^ 32) (2 ^ 31) ≡ true = ground (arith, lo) in
    rw (as_long, small) (ap negsuc (omega (arith, lo)))

add-minus : (z w v : ℤ) → v ≡ w → z +ℤ w -ℤ v ≡ z
add-minus z w v e =
    Is-unique (z +ℤ w -ℤ v) z (pos_part z) (neg_part z)
      (omega (arith, minus_parts (z +ℤ w) v, add_parts z w, ap pos_part e, ap neg_part e)) refl

in_long-fits : (z : ℤ) → fits z ≡ true → in_long z ≡ some z
unfolding in_long
in_long-fits z h = rw (in_long, h) refl

year_positive : (t : ℕ) (tm : Tm) (b : Broken t tm) → 367 * 86400 ≤ t → 0 < b.year
unfolding days_before
year_positive t tm b le = elim (Bool-cases (ltb 0 b.year)) [
  | inl y ↦ ground (arith, y)
  | inr n ↦
      let start : b.year ≡ 0 = ground (arith, n) in
      let (lo, hi) = year_len-bounds b.year in
      let empty : days_before b.year ≡ 0 = ap days_before start in
      absurd (
        omega
          (arith, b.seconds, b.sec_bound, b.min_bound, b.hour_bound, b.yday_bound, hi, le, empty))
]

module _ (db : Option TzDb) (zone : TzResult) (time : ℤ) (steady : Steady zone time db)
    (fits_time : fits time ≡ true) (fits_local : fits (time +ℤ zone.gmtoff) ≡ true) where
  zone_found : local_zone db time ≡ some zone
  unfolding local_zone
  zone_found = found steady
    where
      found : {d : Option TzDb} → Steady zone time d → local_zone d time ≡ some zone
      found (no_zone e) = ap some (sym e)
      found (zone_there db first r at rest h at' same) = rw (local_zone, at) refl

  time_back : zone_time db (time +ℤ zone.gmtoff) ≡ some time
  unfolding zone_time
  time_back = back steady
    where
      back : {d : Option TzDb} → Steady zone time d → zone_time d (time +ℤ zone.gmtoff) ≡ some time
      back (no_zone e) =
          let none_off : zone.gmtoff ≡ pos 0 = ap (λ z. z.gmtoff) e in
          ap some (
            Is-unique (time +ℤ zone.gmtoff) time (pos_part time) (neg_part time)
              (omega
                (arith, add_parts time zone.gmtoff, ap pos_part none_off, ap neg_part none_off))
              refl)
      back (zone_there db first r at there h again same) =
          rw (zone_time, there, in_long-fits (time +ℤ zone.gmtoff -ℤ offset_of first) h, again)
            (ap in_long (add-minus time zone.gmtoff r.gmtoff same) ∙ in_long-fits time fits_time)

  -- The fields, and their seconds.
  fields :
      (tm : Tm) × (localtime db time ≡ some tm) × (local_seconds tm ≡ some (time +ℤ zone.gmtoff))
  unfolding localtime
  fields =
      let here = time +ℤ zone.gmtoff in
      let (lo, hi) = bounds here fits_local in
      let long_ago = days_before-bound 1970 in
      let t = days_before 1970 * 86400 + pos_part here - neg_part here in
      let e : t + neg_part here ≡ days_before 1970 * 86400 + pos_part here =
        omega (arith, lo, long_ago) in
      let (tm, runs, b) = break_down-Broken zone here t e in
      let (z, seconds, is) =
        local_seconds_lem t tm b (year_positive t tm b (omega (arith, e, lo, long_ago))) in
      let same : z ≡ here = Is-unique z here t (days_before 1970 * 86400) is (omega (arith, e)) in
      (
        tm,
        rw (localtime, zone_found, in_long-fits here fits_local) runs,
        seconds ∙ ap (λ x. some (as_long x)) same ∙ ap some (as_long-fits here fits_local),
      )

  -- A time whose broken-down time localtime returns: mktime takes the fields back to the time, and
  -- writes the same fields. That holds where the time and the local time fit into a long, and where the
  -- offset that is found at the local time leads to a time with the offset that the time has.
  pub mktime-localtime : (tm : Tm) → localtime db time ≡ some tm → mktime db tm ≡ some (time, tm)
  unfolding mktime
  mktime-localtime tm e =
      let (tm', runs, seconds) = fields in
      let same : tm' ≡ tm = some_value (sym runs ∙ e) in
      let secs : local_seconds tm ≡ some (time +ℤ zone.gmtoff) =
        subst (λ x. local_seconds x ≡ some (time +ℤ zone.gmtoff)) same seconds in
      rw (mktime, secs, time_back, e) refl
