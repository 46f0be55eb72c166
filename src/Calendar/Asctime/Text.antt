-- ===== src/Calendar/Asctime/Text.antt =====
-- asctime of src/c/time/asctime.c against strftime of src/c/time/strftime.c.
use Prim.Native.String.{String}
use small_lib_c.Base.{
  ℕ, ◌+◌, ◌≤◌, ◌<◌, ◌≡◌, refl, sym, ◌∙◌, ap, min, false, Option, some, List, [], ◌∷◌, ◌++◌,
  get_elem?, length, arith, get-inside, length-append,
}
use small_lib_c.Base.Text.{codes}
use small_lib_c.Base.Int.{ℤ, pos, ◌+ℤ◌}
use small_lib_c.Calendar.{Tm}
use small_lib_c.Calendar.Zone.{TzDb}
use small_lib_c.Calendar.Directives.{directive}
use small_lib_c.Calendar.Strftime.{Formatted, written, strftime}
use small_lib_c.Calendar.Strftime.Room.{
  Fitted, fits_in, too_long, pieces_text, expansion, strftime-Fitted,
}
use small_lib_c.Calendar.Asctime.{
  wday_name, mon_name, three, format_2d, day_of_month, year_digits, asctime,
}
use small_lib_c.Calendar.Asctime.Digits.{fixed, format_fixed, fixed_2d, length_day, four_digits}
use small_lib_c.Calendar.Asctime.Names.{short_at, three_name}
use small_lib_c.Calendar.Asctime.Pieces.{
  name_text, two_text, one_string, day_pieces, day_text, directive_text, byte_text,
}

-- Fields that are within the bounds of a broken-down time, of a year with at most four digits.
pub record Printable (tm : Tm) : Type 0 where
  pub wday : ℕ
  pub mon : ℕ
  pub mday : ℕ
  pub hour : ℕ
  pub min : ℕ
  pub sec : ℕ
  pub year : ℕ
  pub tm_wday : tm.tm_wday ≡ pos wday
  pub tm_mon : tm.tm_mon ≡ pos mon
  pub tm_mday : tm.tm_mday ≡ pos mday
  pub tm_hour : tm.tm_hour ≡ pos hour
  pub tm_min : tm.tm_min ≡ pos min
  pub tm_sec : tm.tm_sec ≡ pos sec
  pub tm_year : tm.tm_year +ℤ pos 1900 ≡ pos year
  pub wday_bound : wday ≤ 6
  pub mon_bound : mon ≤ 11
  pub first_day : 1 ≤ mday
  pub last_day : mday ≤ 31
  pub hour_bound : hour ≤ 23
  pub min_bound : min ≤ 59
  pub sec_bound : sec ≤ 60
  pub year_bound : year < 10000

-- `%a %b %e %H:%M:%S %Y` and a newline.
abbrev pub asctime_format : List ℕ
asctime_format = codes "%a %b %e %H:%M:%S %Y" ++ 10 ∷ []

module _ (db : Option TzDb) (tm : Tm) (b : Printable tm) where
  pub text_H : pieces_text (directive db tm b'H') ≡ some (fixed 2 b.hour [])
  unfolding directive
  text_H = rw (b.tm_hour) (two_text b.hour 23 b.hour_bound (omega arith))

  pub text_M : pieces_text (directive db tm b'M') ≡ some (fixed 2 b.min [])
  unfolding directive
  text_M = rw (b.tm_min) (two_text b.min 59 b.min_bound (omega arith))

  pub text_S : pieces_text (directive db tm b'S') ≡ some (fixed 2 b.sec [])
  unfolding directive
  text_S = rw (b.tm_sec) (two_text b.sec 60 b.sec_bound (omega arith))

  pub text_Y : pieces_text (directive db tm b'Y') ≡ some (fixed 4 b.year [])
  unfolding directive
  text_Y =
      rw (b.tm_year, format_fixed 3 b.year (omega arith) (omega (arith, b.year_bound)))
        (one_string (fixed 4 b.year []))

  pub text_a :
      (name : String)
      → get_elem? wday_name b.wday ≡ some name
      → pieces_text (directive db tm b'a') ≡ some (codes name)
  unfolding directive
  text_a name at = rw (b.tm_wday) (name_text wday_name b.wday 6 name b.wday_bound at)

  pub text_b :
      (name : String)
      → get_elem? mon_name b.mon ≡ some name
      → pieces_text (directive db tm b'b') ≡ some (codes name)
  unfolding directive
  text_b name at = rw (b.tm_mon) (name_text mon_name b.mon 11 name b.mon_bound at)

  pub text_e : pieces_text (directive db tm b'e') ≡ some (day_of_month tm.tm_mday)
  unfolding directive
  text_e =
      ap (λ z. pieces_text (day_pieces z)) b.tm_mday
      ∙ day_text b.mday b.first_day b.last_day
      ∙ ap (λ z. some (day_of_month z)) (sym b.tm_mday)

  abbrev line_of : (wday mon hour min sec year : List ℕ) → List ℕ
  line_of wday mon hour min sec year =
      wday
      ++ (b' '
          ∷ (mon
              ++ (b' '
                  ∷ (day_of_month tm.tm_mday
                      ++ (b' '
                          ∷ (hour
                              ++ (b':'
                                  ∷ (min ++ (b':' ∷ (sec ++ (b' ' ∷ (year ++ (10 ∷ [])))))))))))))

  abbrev line : (wday mon : String) → List ℕ
  line wday mon =
      line_of (codes wday) (codes mon) (fixed 2 b.hour []) (fixed 2 b.min []) (fixed 2 b.sec [])
        (fixed 4 b.year [])

  no_more : expansion db tm false [] ≡ some []
  unfolding expansion
  no_more = refl

  line_expands :
      (wday mon : String)
      → get_elem? wday_name b.wday ≡ some wday
      → get_elem? mon_name b.mon ≡ some mon
      → expansion db tm false asctime_format ≡ some (line wday mon)
  line_expands wday mon at at' = directive_text db tm b'a' _ _ _ refl (text_a wday at) (
      byte_text db tm b' ' _ _ refl (
        directive_text db tm b'b' _ _ _ refl (text_b mon at') (
          byte_text db tm b' ' _ _ refl (
            directive_text db tm b'e' _ _ _ refl text_e (
              byte_text db tm b' ' _ _ refl (
                directive_text db tm b'H' _ _ _ refl text_H (
                  byte_text db tm b':' _ _ refl (
                    directive_text db tm b'M' _ _ _ refl text_M (
                      byte_text db tm b':' _ _ refl (
                        directive_text db tm b'S' _ _ _ refl text_S (
                          byte_text db tm b' ' _ _ refl (
                            directive_text db tm b'Y' _ _ _ refl text_Y
                              (byte_text db tm 10 [] [] refl no_more)))))))))))))

  two_digits : (z : ℤ) (n hi : ℕ) → z ≡ pos n → n ≤ hi → hi < 100 → format_2d z ≡ fixed 2 n []
  two_digits z n hi e le lt = ap format_2d e ∙ sym (fixed_2d n (omega (arith, le, lt)))

  asctime_there :
      (wday mon : String)
      → get_elem? wday_name b.wday ≡ some wday
      → get_elem? mon_name b.mon ≡ some mon
      → asctime tm ≡ some (line wday mon)
  unfolding asctime
  asctime_there wday mon at at' =
      let d : three wday_name tm.tm_wday ≡ some (codes wday) =
        ap (three wday_name) b.tm_wday ∙ three_name wday_name b.wday wday refl at in
      let m : three mon_name tm.tm_mon ≡ some (codes mon) =
        ap (three mon_name) b.tm_mon ∙ three_name mon_name b.mon mon refl at' in
      let years = year_digits (tm.tm_year +ℤ pos 1900) in
      let mins = format_2d tm.tm_min in
      let secs = format_2d tm.tm_sec in
      let hours = fixed 2 b.hour [] in
      rw (asctime, d, m)
        (ap some (
          ap (λ h. line_of (codes wday) (codes mon) h mins secs years)
            (two_digits tm.tm_hour b.hour 23 b.tm_hour b.hour_bound (omega arith))
          ∙ ap (λ x. line_of (codes wday) (codes mon) hours x secs years)
              (two_digits tm.tm_min b.min 59 b.tm_min b.min_bound (omega arith))
          ∙ ap (λ x. line_of (codes wday) (codes mon) hours (fixed 2 b.min []) x years)
              (two_digits tm.tm_sec b.sec 60 b.tm_sec b.sec_bound (omega arith))
          ∙ ap (line_of (codes wday) (codes mon) hours (fixed 2 b.min []) (fixed 2 b.sec []))
              (ap year_digits b.tm_year ∙ sym (four_digits b.year b.year_bound))))

  length-line :
      (wday mon : String)
      → get_elem? wday_name b.wday ≡ some wday
      → get_elem? mon_name b.mon ≡ some mon
      → length (line wday mon) ≡ 25
  length-line wday mon at at' =
      let day = day_of_month tm.tm_mday in
      let hours = fixed 2 b.hour [] in
      let mins = fixed 2 b.min [] in
      let rest =
        b' '
        ∷ (hours
            ++ (b':'
                ∷ (mins
                    ++ (b':'
                        ∷ (fixed 2 b.sec [] ++ (b' ' ∷ (fixed 4 b.year [] ++ (10 ∷ [])))))))) in
      omega (
        arith,
        short_at wday_name b.wday wday refl at,
        short_at mon_name b.mon mon refl at',
        length_day tm.tm_mday,
        length-append (codes wday) (b' ' ∷ (codes mon ++ (b' ' ∷ (day ++ rest)))),
        length-append (codes mon) (b' ' ∷ (day ++ rest)),
        length-append day rest,
      )

  -- For fields within the bounds of a broken-down time, of a year from 0 to 9999, and a buffer of more
  -- than 26 bytes: strftime with the format `%a %b %e %H:%M:%S %Y` and a newline returns the text that
  -- asctime returns, which has 25 bytes.
  pub asctime-strftime :
      (maxsize : ℕ)
      → 26 < maxsize
      → (t : List ℕ) × (asctime tm ≡ some t)
        × (strftime maxsize db tm asctime_format ≡ written t)
        × (length t ≡ 25)
  asctime-strftime maxsize room =
      let (wday, at) = get-inside wday_name b.wday (omega (arith, b.wday_bound)) in
      let (mon, at') = get-inside mon_name b.mon (omega (arith, b.mon_bound)) in
      let size = length-line wday mon at at' in
      (
        line wday mon,
        asctime_there wday mon at at',
        only_written
            (strftime-Fitted maxsize db tm asctime_format (line wday mon)
              (line_expands wday mon at at'))
            (omega (arith, size, room)),
        size,
      )
    where
      only_written :
          {t : List ℕ} {o : Formatted} → Fitted maxsize t o → length t + 1 < maxsize → o ≡ written t
      only_written (fits_in lt) more = refl
      only_written (too_long s rest same le full) more = absurd (omega (arith, full, more))
