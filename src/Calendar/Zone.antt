-- ===== src/Calendar/Zone.antt =====
-- tz_lookup of src/c/time/parser.c, and localtime and mktime of src/c/time/localtime.c and mktime.c.
-- `none` is what the code does not define: an index outside an array, a sum that a long does not hold,
-- or the end of the fuel.
pub mod Lookup
pub mod Seconds
pub mod RoundTrip
mod Samples
use small_lib_c.Base.{
  ℕ, zero, suc, ◌+◌, ◌-◌, ◌*◌, ◌/◌, ◌%◌, ◌^◌, Bool, true, false, not, ◌&&◌, ◌||◌, Option, none,
  some, List, [], ◌∷◌, ltb, leb, ◌==◌, if◌then◌else◌, length, get_elem?, drop,
}
use small_lib_c.Base.Int.{ℤ, pos, negsuc, sub_ℕ, abs, ltb_ℤ, ◌+ℤ◌, ◌-ℤ◌, ◌*ℤ◌}
use small_lib_c.Calendar.{Tm, TzResult, utc, is_leap, break_down}

-- `__ttinfo_t`
pub record TtInfo : Type 0 where
  pub gmtoff : ℤ
  pub is_dst : ℤ
  pub abbr_idx : ℕ

-- The counts of the header are the lengths.
pub record TzDb : Type 0 where
  pub transitions : List ℤ
  pub type_idxs : List ℕ
  pub types : List TtInfo
  pub abbrevs : List ℕ

-- The loop of the search, with the index found so far.
unfoldable pub lookup_loop :
    (fuel : ℕ) → List ℤ → (timestamp : ℤ) → (low high : ℕ) → Option ℕ → Option (Option ℕ)
lookup_loop zero transitions timestamp low high idx = none
lookup_loop (suc k) transitions timestamp low high idx =
    let mid = low + (high - low) / 2 in
    elim (leb low high) [
      | false ↦ some idx
      | true ↦ elim (get_elem? transitions mid) [
        | none ↦ none
        | some at ↦ elim (ltb_ℤ timestamp at) [
          | false ↦ lookup_loop k transitions timestamp (mid + 1) high (some mid)
          | true ↦
              if mid == 0 then some idx else lookup_loop k transitions timestamp low (mid - 1) idx
        ]
      ]
    ]

-- The index of the transition, if any.
unfoldable pub lookup_index : List ℤ → (timestamp : ℤ) → Option (Option ℕ)
lookup_index [] timestamp = some none
lookup_index (first ∷ rest) timestamp = elim (ltb_ℤ timestamp first) [
  | true ↦ some none
  | false ↦ lookup_loop (length rest + 2) (first ∷ rest) timestamp 0 (length rest) none
]

-- The first type that is not daylight saving time, from an index on, or the type 0.
unfoldable pub first_standard : (i : ℕ) → List TtInfo → ℕ
first_standard i [] = 0
first_standard i (info ∷ types) =
    let rest = first_standard (i + 1) types in if abs info.is_dst == 0 then i else rest

unfoldable pub type_index : TzDb → Option ℕ → Option ℕ
type_index db none = some (first_standard 0 db.types)
type_index db (some idx) = get_elem? db.type_idxs idx

-- The result of a type: none where there is no such type.
unfoldable pub type_result : TzDb → (type_idx : ℕ) → Option TzResult
type_result db type_idx = elim (get_elem? db.types type_idx) [
  | none ↦ none
  | some info ↦
      some (record {
        gmtoff = info.gmtoff;
        is_dst = info.is_dst;
        abbr = drop info.abbr_idx db.abbrevs;
      })
]

-- What tz_lookup writes, or none where it returns 0.
unfoldable pub tz_lookup : TzDb → (timestamp : ℤ) → Option (Option TzResult)
tz_lookup db timestamp = elim (lookup_index db.transitions timestamp) [
  | none ↦ none
  | some idx ↦ elim (type_index db idx) [
    | none ↦ none
    | some type_idx ↦ some (type_result db type_idx)
  ]
]

-- A long of 32 bits holds a number.
abbrev pub fits : ℤ → Bool
fits z = not (ltb_ℤ z (negsuc (2 ^ 31 - 1))) && ltb_ℤ z (pos (2 ^ 31))

-- A sum or a difference of longs.
unfoldable pub in_long : ℤ → Option ℤ
in_long z = if fits z then some z else none

-- A long long that is cast to a long.
unfoldable pub as_long : ℤ → ℤ
as_long (pos n) = let r = n % 2 ^ 32 in if ltb r (2 ^ 31) then pos r else sub_ℕ r (2 ^ 32)
as_long (negsuc n) =
    let r = n % 2 ^ 32 in if ltb r (2 ^ 31) then negsuc r else sub_ℕ (2 ^ 32) (r + 1)

-- The zone of localtime, with a time zone or without.
unfoldable pub local_zone : Option TzDb → ℤ → Option TzResult
local_zone none timer = some utc
local_zone (some db) timer = elim (tz_lookup db timer) [
  | none ↦ none
  | some none ↦ some utc
  | some (some r) ↦ some r
]

-- `db` is the time zone that tzset has loaded, if it has one.
unfoldable pub localtime : Option TzDb → (timer : ℤ) → Option Tm
localtime db timer = elim (local_zone db timer) [
  | none ↦ none
  | some zone ↦ elim (in_long (timer +ℤ zone.gmtoff)) [
    | none ↦ none
    | some local_time ↦ break_down zone local_time
  ]
]

-- Division rounds to 0.
abbrev pub quot : ℤ → ℕ → ℤ
quot (pos n) d = pos (n / d)
quot (negsuc n) d = sub_ℕ 0 (suc n / d)

abbrev pub rem : ℤ → ℕ → ℤ
rem (pos n) d = pos (n % d)
rem (negsuc n) d = sub_ℕ 0 (suc n % d)

abbrev pub days_before_month : List ℕ
days_before_month = 0 ∷ 31 ∷ 59 ∷ 90 ∷ 120 ∷ 151 ∷ 181 ∷ 212 ∷ 243 ∷ 273 ∷ 304 ∷ 334 ∷ 365 ∷ []

-- The year, and the month of it.
unfoldable pub normal_month : (year mon : ℤ) → ℤ × ℕ
normal_month year (negsuc n) =
    let mon = negsuc n in (year +ℤ (quot mon 12 -ℤ pos 1), abs (rem mon 12 +ℤ pos 12))
normal_month year (pos n) = if leb 12 n then (year +ℤ pos (n / 12), n % 12) else (year, n)

unfoldable pub leaps : ℤ → ℤ
leaps year = let y = year -ℤ pos 1 in quot y 4 -ℤ quot y 100 +ℤ quot y 400

-- The days from the epoch to a day of a month.
unfoldable pub total_days : (year : ℤ) (mon : ℕ) (mday : ℤ) → Option ℤ
total_days year mon mday = elim (get_elem? days_before_month mon) [
  | none ↦ none
  | some before ↦
      let to_year = (year -ℤ pos 1970) *ℤ pos 365 +ℤ (leaps year -ℤ leaps (pos 1970)) in
      let leap_day = if ltb 1 mon && is_leap (abs year) then 1 else 0 in
      some (to_year +ℤ pos before +ℤ pos leap_day +ℤ (mday -ℤ pos 1))
]

-- The seconds of the fields, as if they were those of UTC; first with the days that are known.
abbrev pub day_seconds : (days hour min sec : ℤ) → ℤ
day_seconds days hour min sec = days *ℤ pos 86400 +ℤ hour *ℤ pos 3600 +ℤ min *ℤ pos 60 +ℤ sec

abbrev pub time_of : Tm → Option ℤ → Option ℤ
time_of tm none = none
time_of tm (some days) = some (as_long (day_seconds days tm.tm_hour tm.tm_min tm.tm_sec))

unfoldable pub local_seconds : Tm → Option ℤ
local_seconds tm =
    let (year, mon) = normal_month (tm.tm_year +ℤ pos 1900) tm.tm_mon in
    time_of tm (total_days year mon tm.tm_mday)

-- The offset that a lookup leaves: 0, as it was set, where that fails.
abbrev pub offset_of : Option TzResult → ℤ
offset_of none = pos 0
offset_of (some r) = r.gmtoff

-- The time of a local time: the offset there, and again at the time that it gives. A second lookup
-- that fails leaves its offset undefined. Where the offsets are equal, so are the differences.
unfoldable pub zone_time : Option TzDb → (local_t : ℤ) → Option ℤ
zone_time none local_t = some local_t
zone_time (some db) local_t = elim (tz_lookup db local_t) [
  | none ↦ none
  | some first ↦ elim (in_long (local_t -ℤ offset_of first)) [
    | none ↦ none
    | some t ↦ elim (tz_lookup db t) [
      | none ↦ none
      | some none ↦ none
      | some (some r) ↦ in_long (local_t -ℤ r.gmtoff)
    ]
  ]
]

-- The time, and the fields that are written back.
unfoldable pub mktime : Option TzDb → Tm → Option (ℤ × Tm)
mktime db tm = elim (local_seconds tm) [
  | none ↦ none
  | some local_t ↦ elim (zone_time db local_t) [
    | none ↦ none
    | some t ↦ elim (localtime db t) [ none ↦ none | some final_tm ↦ some (t, final_tm) ]
  ]
]
