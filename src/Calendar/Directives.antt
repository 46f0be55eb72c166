-- ===== src/Calendar/Directives.antt =====
-- What each directive of strftime of src/c/time/strftime.c appends. The library is built without
-- HAVE_NL_LANGINFO.
use Prim.Native.String.{String}
use small_lib_c.Base.{
  ℕ, zero, suc, ◌+◌, ◌-◌, ◌/◌, ◌%◌, ◌^◌, min, max, Bool, true, false, ◌||◌, Option, none, some,
  List, [], ◌∷◌, ◌++◌, ltb, ◌==◌, if◌then◌else◌, get_elem?,
}
use small_lib_c.Base.Text.{codes}
use small_lib_c.Base.Int.{ℤ, pos, negsuc, abs, is_negative, ltb_ℤ, ◌+ℤ◌}
use small_lib_c.Calendar.{Tm}
use small_lib_c.Calendar.Zone.{TzDb, quot, rem, mktime}
use small_lib_c.Calendar.Weeks.{is_int, weeknumber, iso8601wknum, week_year}

-- A byte of append_char, a string of append_str, or what C does not define.
pub data Segment : Type 0 where
  byte : ℕ → Segment
  string : List ℕ → Segment
  undefined : Segment

-- `count` bytes '0' in front of the digits.
unfoldable pub leading_zeros : (count : ℕ) → List ℕ → List ℕ
leading_zeros zero p = p
leading_zeros (suc n) p = leading_zeros n (b'0' ∷ p)

-- The digits in front of `p`, the last of the value first; the buffer has `places` left. A width that
-- is not positive adds nothing.
unfoldable pub number_digits : (places value width : ℕ) → List ℕ → Option (List ℕ)
number_digits zero value width p = none
number_digits (suc places) value width p =
    let digits = (b'0' + value % 10) ∷ p in
    let rest = number_digits places (value / 10) (width - 1) digits in
    if ltb 0 (value / 10) then rest else some (leading_zeros (width - 1) digits)

abbrev pub as_string : Option (List ℕ) → Segment
as_string none = undefined
as_string (some p) = string p

abbrev pub with_minus : Option (List ℕ) → Segment
with_minus none = undefined
with_minus (some p) = string (b'-' ∷ p)

-- The least long has no negation.
unfoldable pub format_num : ℤ → (width : ℕ) → Segment
format_num (pos value) width = as_string (number_digits 31 value width [])
format_num (negsuc n) width =
    if suc n == 2 ^ 31 then undefined else with_minus (number_digits 31 (suc n) width [])

-- `range(low, item, hi)`, where `low` is not negative.
abbrev pub range : (low : ℕ) → ℤ → (hi : ℕ) → ℕ
range low (pos item) hi = max low (min item hi)
range low (negsuc n) hi = low

abbrev pub names_at : List String → ℕ → Segment
names_at names index = elim (get_elem? names index) [ none ↦ undefined | some s ↦ string (codes s) ]

abbrev pub days_a : ℕ → Segment
days_a = names_at ("Sun" ∷ "Mon" ∷ "Tue" ∷ "Wed" ∷ "Thu" ∷ "Fri" ∷ "Sat" ∷ [])

abbrev pub days_l : ℕ → Segment
days_l =
    names_at
      ("Sunday" ∷ "Monday" ∷ "Tuesday" ∷ "Wednesday" ∷ "Thursday" ∷ "Friday" ∷ "Saturday" ∷ [])

abbrev pub months_a : ℕ → Segment
months_a = names_at (
    "Jan" ∷ "Feb" ∷ "Mar" ∷ "Apr" ∷ "May" ∷ "Jun" ∷ "Jul" ∷ "Aug" ∷ "Sep" ∷ "Oct" ∷ "Nov" ∷ "Dec"
    ∷ [])

abbrev pub months_l : ℕ → Segment
months_l = names_at (
    "January" ∷ "February" ∷ "March" ∷ "April" ∷ "May" ∷ "June" ∷ "July" ∷ "August" ∷ "September"
    ∷ "October" ∷ "November" ∷ "December" ∷ [])

abbrev pub ampm : ℕ → Segment
ampm = names_at ("AM" ∷ "PM" ∷ [])

module _ (db : Option TzDb) (tm : Tm) where
  abbrev pub two : ℕ → Segment
  two n = format_num (pos n) 2

  abbrev pub wday : ℕ
  wday = range 0 tm.tm_wday 6

  abbrev pub mon : ℕ
  mon = range 0 tm.tm_mon 11

  abbrev pub hour : ℕ
  hour = range 0 tm.tm_hour 23

  -- A day of one digit has a space in front.
  abbrev pub padded : Segment → List Segment
  padded day = if ltb_ℤ tm.tm_mday (pos 10) then byte b' ' ∷ day ∷ [] else day ∷ []

  abbrev pub year : Segment
  year = format_num (tm.tm_year +ℤ pos 1900) 4

  -- `%T`
  abbrev pub the_time : List Segment
  the_time =
      two hour
      ∷ byte b':'
      ∷ two (range 0 tm.tm_min 59)
      ∷ byte b':'
      ∷ two (range 0 tm.tm_sec 60)
      ∷ []

  -- `%D` and `%x`
  abbrev pub the_date : List Segment
  the_date =
      two (mon + 1)
      ∷ byte b'/'
      ∷ two (range 1 tm.tm_mday 31)
      ∷ byte b'/'
      ∷ format_num (rem tm.tm_year 100) 2
      ∷ []

  -- `%c`
  abbrev pub date_and_time : List Segment
  date_and_time =
      (days_a wday ∷ byte b' ' ∷ months_a mon ∷ byte b' ' ∷ [])
      ++ padded (format_num tm.tm_mday 1)
      ++ (byte b' ' ∷ [])
      ++ the_time
      ++ (byte b' ' ∷ year ∷ [])

  -- `%I`
  abbrev pub hour_12 : Segment
  hour_12 = two (if hour == 0 then 12 else if ltb 12 hour then hour - 12 else hour)

  -- `%p`
  abbrev pub half_day : Segment
  half_day = ampm (if ltb_ℤ tm.tm_hour (pos 12) then 0 else 1)

  abbrev pub number_or_undefined : Option ℕ → Segment
  number_or_undefined none = undefined
  number_or_undefined (some n) = two n

  -- `%g` and `%G`
  abbrev pub iso_year : (full : Bool) → Option ℕ → Segment
  iso_year full none = undefined
  iso_year full (some w) =
      if full then format_num (week_year tm w) 4 else format_num (rem (week_year tm w) 100) 2

  -- `%s`
  abbrev pub epoch_seconds : Segment
  epoch_seconds = elim (mktime db tm) [ none ↦ undefined | some (t, final_tm) ↦ format_num t 0 ]

  -- `%z`
  abbrev pub zone_offset : List Segment
  zone_offset =
      let off = quot tm.tm_gmtoff 60 in
      let sign : ℕ = if is_negative off then b'-' else b'+' in
      if is_negative tm.tm_isdst
      then []
      else byte sign ∷ two (abs off / 60) ∷ two (abs off % 60) ∷ []

  -- `%Z`
  abbrev pub zone_name : List Segment
  zone_name = elim tm.tm_zone [ none ↦ [] | some name ↦ string name ∷ [] ]

  -- The cases of the switch, but for those that end or repeat it.
  unfoldable pub directive : (c : ℕ) → List Segment
  directive c =
      if c == b'%'
      then byte b'%' ∷ []
      else if c == b'a'
      then days_a wday ∷ []
      else if c == b'A'
      then days_l wday ∷ []
      else if c == b'b' || c == b'h'
      then months_a mon ∷ []
      else if c == b'B'
      then months_l mon ∷ []
      else if c == b'c'
      then date_and_time
      else if c == b'C'
      then format_num (quot (tm.tm_year +ℤ pos 1900) 100) 2 ∷ []
      else if c == b'd'
      then two (range 1 tm.tm_mday 31) ∷ []
      else if c == b'D' || c == b'x'
      then the_date
      else if c == b'e'
      then padded (format_num (pos (range 1 tm.tm_mday 31)) 1)
      else if c == b'F'
      then year ∷ byte b'-' ∷ two (mon + 1) ∷ byte b'-' ∷ two (range 1 tm.tm_mday 31) ∷ []
      else if c == b'g'
      then iso_year false (iso8601wknum 2 tm) ∷ []
      else if c == b'G'
      then iso_year true (iso8601wknum 2 tm) ∷ []
      else if c == b'H'
      then two hour ∷ []
      else if c == b'I'
      then hour_12 ∷ []
      else if c == b'j'
      then format_num (tm.tm_yday +ℤ pos 1) 3 ∷ []
      else if c == b'm'
      then two (mon + 1) ∷ []
      else if c == b'M'
      then two (range 0 tm.tm_min 59) ∷ []
      else if c == b'n'
      then byte 10 ∷ []
      else if c == b'p'
      then half_day ∷ []
      else if c == b'r'
      then hour_12
        ∷ byte b':'
        ∷ two (range 0 tm.tm_min 59)
        ∷ byte b':'
        ∷ two (range 0 tm.tm_sec 60)
        ∷ byte b' '
        ∷ half_day
        ∷ []
      else if c == b'R'
      then two hour ∷ byte b':' ∷ two (range 0 tm.tm_min 59) ∷ []
      else if c == b's'
      then epoch_seconds ∷ []
      else if c == b'S'
      then two (range 0 tm.tm_sec 60) ∷ []
      else if c == b't'
      then byte 9 ∷ []
      else if c == b'T' || c == b'X'
      then the_time
      else if c == b'u'
      then format_num (if is_int tm.tm_wday 0 then pos 7 else tm.tm_wday) 1 ∷ []
      else if c == b'U'
      then two (weeknumber tm 0) ∷ []
      else if c == b'V'
      then number_or_undefined (iso8601wknum 2 tm) ∷ []
      else if c == b'w'
      then format_num (pos wday) 1 ∷ []
      else if c == b'W'
      then two (weeknumber tm 1) ∷ []
      else if c == b'y'
      then format_num (rem tm.tm_year 100) 2 ∷ []
      else if c == b'Y'
      then year ∷ []
      else if c == b'z'
      then zone_offset
      else if c == b'Z'
      then zone_name
      else string (b'%' ∷ c ∷ []) ∷ []
