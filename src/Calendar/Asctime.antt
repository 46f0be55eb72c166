-- ===== src/Calendar/Asctime.antt =====
-- src/c/time/asctime.c and ctime.c. The static buffer is the text before its terminator; `none` is an
-- index outside a table of names.
pub mod Digits
pub mod Names
pub mod Pieces
pub mod Text
mod Samples
use Prim.Native.String.{String}
use small_lib_c.Base.{
  ℕ, ◌+◌, ◌-◌, ◌%◌, Option, none, some, List, [], ◌∷◌, ◌++◌, if◌then◌else◌, get_elem?, take,
}
use small_lib_c.Base.Text.{codes}
use small_lib_c.Base.Int.{ℤ, pos, negsuc, ltb_ℤ, ◌+ℤ◌}
use small_lib_c.Calendar.{Tm}
use small_lib_c.Calendar.Zone.{TzDb, localtime, quot, rem}

abbrev pub wday_name : List String
wday_name = "Sun" ∷ "Mon" ∷ "Tue" ∷ "Wed" ∷ "Thu" ∷ "Fri" ∷ "Sat" ∷ []

abbrev pub mon_name : List String
mon_name =
    "Jan" ∷ "Feb" ∷ "Mar" ∷ "Apr" ∷ "May" ∷ "Jun" ∷ "Jul" ∷ "Aug" ∷ "Sep" ∷ "Oct" ∷ "Nov" ∷ "Dec"
    ∷ []

-- The first three bytes of a name.
abbrev pub three : List String → ℤ → Option (List ℕ)
three names (negsuc n) = none
three names (pos i) = elim (get_elem? names i) [ none ↦ none | some s ↦ some (take 3 (codes s)) ]

-- `((char)z) + '0'`, stored into a char.
abbrev pub char_of : ℤ → ℕ
char_of (pos n) = (n + b'0') % 256
char_of (negsuc n) = (255 + b'0' - n % 256) % 256

abbrev pub format_2d : ℤ → List ℕ
format_2d value = char_of (quot value 10) ∷ char_of (rem value 10) ∷ []

abbrev pub day_of_month : ℤ → List ℕ
day_of_month mday = if ltb_ℤ mday (pos 10) then b' ' ∷ char_of mday ∷ [] else format_2d mday

abbrev pub year_digits : ℤ → List ℕ
year_digits year =
    char_of (quot year 1000)
    ∷ char_of (rem (quot year 100) 10)
    ∷ char_of (rem (quot year 10) 10)
    ∷ char_of (rem year 10)
    ∷ []

abbrev pub asctime_line : Tm → (wday mon : List ℕ) → List ℕ
asctime_line tm wday mon =
    let year = year_digits (tm.tm_year +ℤ pos 1900) in
    wday
    ++ (b' '
        ∷ (mon
            ++ (b' '
                ∷ (day_of_month tm.tm_mday
                    ++ (b' '
                        ∷ (format_2d tm.tm_hour
                            ++ (b':'
                                ∷ (format_2d tm.tm_min
                                    ++ (b':'
                                        ∷ (format_2d tm.tm_sec
                                            ++ (b' ' ∷ (year ++ (10 ∷ [])))))))))))))

unfoldable pub asctime : Tm → Option (List ℕ)
asctime tm = elim (three wday_name tm.tm_wday) [
  | none ↦ none
  | some wday ↦ elim (three mon_name tm.tm_mon) [
    | none ↦ none
    | some mon ↦ some (asctime_line tm wday mon)
  ]
]

unfoldable pub ctime : Option TzDb → (timer : ℤ) → Option (List ℕ)
ctime db timer = elim (localtime db timer) [ none ↦ none | some tm ↦ asctime tm ]
