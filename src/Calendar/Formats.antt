-- ===== src/Calendar/Formats.antt =====
-- strftime of src/c/time/strftime.c on fields within their bounds: the text of each directive, told
-- without its code, and a format's.
use Prim.Native.String.{String}
use small_lib_c.Base.{
  suc, ℕ, ◌+◌, ◌-◌, ◌/◌, ◌%◌, ◌^◌, ◌≤◌, ◌<◌, ◌≡◌, ◌≢◌, refl, ap, ◌∙◌, false, true, ◌||◌, Option,
  some, List, [], ◌∷◌, ◌++◌, ◌==◌, ltb, if◌then◌else◌, get_elem?, arith,
}
use small_lib_c.Base.Text.{codes}
use small_lib_c.Base.Int.{pos, ltb_ℤ, ◌+ℤ◌}
use small_lib_c.Calendar.{Tm}
use small_lib_c.Calendar.Zone.{TzDb}
use small_lib_c.Calendar.Directives.{string, format_num, range, directive}
use small_lib_c.Calendar.Weeks.{is_int}
use small_lib_c.Calendar.Strftime.{strftime}
use small_lib_c.Calendar.Strftime.Room.{Fitted, pieces_text, expansion, strftime-Fitted}
use small_lib_c.Calendar.Asctime.{wday_name, mon_name, day_of_month}
use small_lib_c.Calendar.Asctime.Digits.{fixed, format_fixed}
use small_lib_c.Calendar.Asctime.Pieces.{one_string, name_text, directive_text, byte_text}
use small_lib_c.Calendar.Asctime.Text.{
  Printable, text_H, text_M, text_S, text_Y, text_a, text_b, text_e,
}

abbrev pub long_wday_name : List String
long_wday_name =
    "Sunday" ∷ "Monday" ∷ "Tuesday" ∷ "Wednesday" ∷ "Thursday" ∷ "Friday" ∷ "Saturday" ∷ []

abbrev pub long_mon_name : List String
long_mon_name =
    "January" ∷ "February" ∷ "March" ∷ "April" ∷ "May" ∷ "June" ∷ "July" ∷ "August" ∷ "September"
    ∷ "October" ∷ "November" ∷ "December" ∷ []

module _ (tm : Tm) (b : Printable tm) where
  -- The text of a directive.
  pub data FieldText : ℕ → List ℕ → Type 0 where
    percent : FieldText b'%' (b'%' ∷ [])
    newline : FieldText b'n' (10 ∷ [])
    tab : FieldText b't' (9 ∷ [])
    weekday : (name : String) → get_elem? wday_name b.wday ≡ some name → FieldText b'a' (codes name)
    long_weekday :
        (name : String) → get_elem? long_wday_name b.wday ≡ some name → FieldText b'A' (codes name)
    month : (name : String) → get_elem? mon_name b.mon ≡ some name → FieldText b'b' (codes name)
    month_h : (name : String) → get_elem? mon_name b.mon ≡ some name → FieldText b'h' (codes name)
    long_month :
        (name : String) → get_elem? long_mon_name b.mon ≡ some name → FieldText b'B' (codes name)
    month_number : FieldText b'm' (fixed 2 (b.mon + 1) [])
    day : FieldText b'd' (fixed 2 b.mday [])
    spaced_day : FieldText b'e' (day_of_month tm.tm_mday)
    year_day : (y : ℕ) → tm.tm_yday ≡ pos y → y ≤ 365 → FieldText b'j' (fixed 3 (y + 1) [])
    hour : FieldText b'H' (fixed 2 b.hour [])
    hour_12 : (h : ℕ) → 1 ≤ h → h ≤ 12 → h % 12 ≡ b.hour % 12 → FieldText b'I' (fixed 2 h [])
    morning : b.hour < 12 → FieldText b'p' (codes "AM")
    afternoon : 12 ≤ b.hour → FieldText b'p' (codes "PM")
    minute : FieldText b'M' (fixed 2 b.min [])
    second : FieldText b'S' (fixed 2 b.sec [])
    year : FieldText b'Y' (fixed 4 b.year [])
    century : FieldText b'C' (fixed 2 (b.year / 100) [])
    year_in_century : (y : ℕ) → tm.tm_year ≡ pos y → FieldText b'y' (fixed 2 (y % 100) [])
    weekday_number : FieldText b'w' (fixed 1 b.wday [])
    iso_weekday : 1 ≤ b.wday → FieldText b'u' (fixed 1 b.wday [])
    iso_sunday : b.wday ≡ 0 → FieldText b'u' (b'7' ∷ [])
    zone : (name : List ℕ) → tm.tm_zone ≡ some name → FieldText b'Z' name
    clock :
        FieldText b'T' (fixed 2 b.hour [] ++ b':' ∷ (fixed 2 b.min [] ++ b':' ∷ fixed 2 b.sec []))
    short_clock : FieldText b'R' (fixed 2 b.hour [] ++ b':' ∷ fixed 2 b.min [])
    date :
        FieldText b'F'
          (fixed 4 b.year [] ++ b'-' ∷ (fixed 2 (b.mon + 1) [] ++ b'-' ∷ fixed 2 b.mday []))

  -- The text of a format: bytes stand for themselves, but for a `%` with the byte behind it.
  pub data Stands : (format text : List ℕ) → Type 0 where
    done : Stands [] []
    plain :
        {c : ℕ} {format text : List ℕ}
        → c ≢ b'%'
        → Stands format text
        → Stands (c ∷ format) (c ∷ text)
    field :
        {c : ℕ} {u format text : List ℕ}
        → FieldText c u
        → Stands format text
        → Stands (b'%' ∷ c ∷ format) (u ++ text)

  number :
      (w i : ℕ)
      → w < 31
      → i < 10 ^ suc w
      → (j : ℕ) → j ≡ i
      → format_num (pos j) (suc w) ≡ string (fixed (suc w) i [])
  number w i room small j e = ap (λ k. format_num (pos k) (suc w)) e ∙ format_fixed w i room small

  months : format_num (pos (range 0 (pos b.mon) 11 + 1)) 2 ≡ string (fixed 2 (b.mon + 1) [])
  months =
      number 1 (b.mon + 1) (omega arith) (omega (arith, b.mon_bound)) _ (omega (arith, b.mon_bound))

  days : format_num (pos (range 1 (pos b.mday) 31)) 2 ≡ string (fixed 2 b.mday [])
  days =
      number 1 b.mday (omega arith) (omega (arith, b.last_day)) _
        (omega (arith, b.first_day, b.last_day))

  weekdays : format_num (pos (range 0 (pos b.wday) 6)) 1 ≡ string (fixed 1 b.wday [])
  weekdays =
      number 0 b.wday (omega arith) (omega (arith, b.wday_bound)) _ (omega (arith, b.wday_bound))

  hours : format_num (pos (range 0 (pos b.hour) 23)) 2 ≡ string (fixed 2 b.hour [])
  hours =
      number 1 b.hour (omega arith) (omega (arith, b.hour_bound)) _ (omega (arith, b.hour_bound))

  minutes : format_num (pos (range 0 (pos b.min) 59)) 2 ≡ string (fixed 2 b.min [])
  minutes = number 1 b.min (omega arith) (omega (arith, b.min_bound)) _ (omega (arith, b.min_bound))

  seconds : format_num (pos (range 0 (pos b.sec) 60)) 2 ≡ string (fixed 2 b.sec [])
  seconds = number 1 b.sec (omega arith) (omega (arith, b.sec_bound)) _ (omega (arith, b.sec_bound))

  years : format_num (pos b.year) 4 ≡ string (fixed 4 b.year [])
  years = format_fixed 3 b.year (omega arith) (omega (arith, b.year_bound))

  one_more : (y : ℕ) → pos y +ℤ pos 1 ≡ pos (y + 1)
  unfolding ◌+ℤ◌
  one_more y = ground arith

  twelve :
      (h : ℕ)
      → 1 ≤ h
      → h ≤ 12
      → h % 12 ≡ b.hour % 12
      → format_num
          (pos (
            if range 0 (pos b.hour) 23 == 0
            then 12
            else if ltb 12 (range 0 (pos b.hour) 23)
            then range 0 (pos b.hour) 23 - 12
            else range 0 (pos b.hour) 23))
          2
        ≡ string (fixed 2 h [])
  twelve h lo hi same =
      number 1 h (omega arith) (omega (arith, hi)) _ (ground (arith, lo, hi, same, b.hour_bound))

  module _ (db : Option TzDb) where
    field_lem : {c : ℕ} {u : List ℕ} → FieldText c u → pieces_text (directive db tm c) ≡ some u
    unfolding directive pieces_text
    field_lem percent = refl
    field_lem newline = refl
    field_lem tab = refl
    field_lem (weekday name at) = text_a db tm b name at
    field_lem (long_weekday name at) =
        rw (b.tm_wday) (name_text long_wday_name b.wday 6 name b.wday_bound at)
    field_lem (month name at) = text_b db tm b name at
    field_lem (month_h name at) = text_b db tm b name at
    field_lem (long_month name at) =
        rw (b.tm_mon) (name_text long_mon_name b.mon 11 name b.mon_bound at)
    field_lem month_number = rw (b.tm_mon, months) refl
    field_lem day = rw (b.tm_mday, days) refl
    field_lem spaced_day = text_e db tm b
    field_lem (year_day y at le) =
        rw (at, one_more y, format_fixed 2 (y + 1) (omega arith) (omega (arith, le))) refl
    field_lem hour = text_H db tm b
    field_lem (hour_12 h lo hi same) = rw (b.tm_hour, twelve h lo hi same) refl
    field_lem (morning lt) =
        let test : ltb_ℤ (pos b.hour) (pos 12) ≡ true = ground (arith, lt) in
        rw (b.tm_hour, test) refl
    field_lem (afternoon le) =
        let test : ltb_ℤ (pos b.hour) (pos 12) ≡ false = ground (arith, le) in
        rw (b.tm_hour, test) refl
    field_lem minute = text_M db tm b
    field_lem second = text_S db tm b
    field_lem year = text_Y db tm b
    field_lem century =
        rw (b.tm_year, format_fixed 1 (b.year / 100) (omega arith) (omega (arith, b.year_bound)))
          refl
    field_lem (year_in_century y at) =
        rw (at, format_fixed 1 (y % 100) (omega arith) (omega arith)) refl
    field_lem weekday_number = rw (b.tm_wday, weekdays) refl
    field_lem (iso_weekday le) =
        let test : is_int (pos b.wday) 0 ≡ false = ground (arith, le) in
        rw (b.tm_wday, test, format_fixed 0 b.wday (omega arith) (omega (arith, b.wday_bound))) refl
    field_lem (iso_sunday at) =
        let test : is_int (pos b.wday) 0 ≡ true = ground (arith, at) in
        rw (b.tm_wday, test, format_fixed 0 7 (omega arith) (omega arith)) refl
    field_lem (zone name at) = rw at (one_string name)
    field_lem clock = rw (b.tm_hour, b.tm_min, b.tm_sec, hours, minutes, seconds) refl
    field_lem short_clock = rw (b.tm_hour, b.tm_min, hours, minutes) refl
    field_lem date = rw (b.tm_year, b.tm_mon, b.tm_mday, years, months, days) refl

    no_modifier : {c : ℕ} {u : List ℕ} → FieldText c u → (c == b'E' || c == b'O') ≡ false
    no_modifier percent = refl
    no_modifier newline = refl
    no_modifier tab = refl
    no_modifier (weekday name at) = refl
    no_modifier (long_weekday name at) = refl
    no_modifier (month name at) = refl
    no_modifier (month_h name at) = refl
    no_modifier (long_month name at) = refl
    no_modifier month_number = refl
    no_modifier day = refl
    no_modifier spaced_day = refl
    no_modifier (year_day y at le) = refl
    no_modifier hour = refl
    no_modifier (hour_12 h lo hi same) = refl
    no_modifier (morning lt) = refl
    no_modifier (afternoon le) = refl
    no_modifier minute = refl
    no_modifier second = refl
    no_modifier year = refl
    no_modifier century = refl
    no_modifier (year_in_century y at) = refl
    no_modifier weekday_number = refl
    no_modifier (iso_weekday le) = refl
    no_modifier (iso_sunday at) = refl
    no_modifier (zone name at) = refl
    no_modifier clock = refl
    no_modifier short_clock = refl
    no_modifier date = refl

    expands : (format text : List ℕ) → Stands format text → expansion db tm false format ≡ some text
    unfolding expansion
    expands _ _ done = refl
    expands _ _ (plain {c} {format} {text} other rest) =
        byte_text db tm c format text (ground (arith, other)) (expands format text rest)
    expands _ _ (field {c} {u} {format} {text} here rest) =
        directive_text db tm c format u text (no_modifier here) (field_lem here)
          (expands format text rest)

    -- For fields that are within the bounds of a broken-down time, of a year from 0 to 9999, and a format
    -- of bytes and of the directives %, n, t, a, A, b, h, B, m, d, e, j, H, I, p, M, S, Y, C, y, w, u, Z, T,
    -- R and F, whose texts `FieldText` tells: strftime returns the format's whole text, shorter than the
    -- buffer, or it returns 0 with a start of the text in the buffer, and that only where the text and its
    -- terminator fill the buffer or are longer.
    pub strftime-Fitted_fields :
        (maxsize : ℕ) (format text : List ℕ)
        → Stands format text
        → Fitted maxsize text (strftime maxsize db tm format)
    strftime-Fitted_fields maxsize format text s =
        strftime-Fitted maxsize db tm format text (expands format text s)
