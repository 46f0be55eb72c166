-- ===== src/Regex/Parse/Braces.antt =====
-- parse_bounds of src/c/regex/regcomp.c.
use small_lib_c.Base.{
  ℕ, zero, suc, ◌+◌, ◌-◌, ◌*◌, ◌^◌, Bool, true, false, not, ◌&&◌, ◌||◌, Option, none, some, List,
  ltb, ◌==◌, if◌then◌else◌, length,
}
use small_lib_c.Regex.{badbr, error, undefined, failed, char_at}
use small_lib_c.Regex.Compile.{Ctx, stop, apply_bounds}
use small_lib_c.Regex.Parse.Brackets.{is_digit, here}

module _ (grants : ℕ → Bool) (pat : List ℕ) where
  -- The value of the digits and the position behind them; `none` for a sum above INT_MAX.
  unfoldable pub read_digits : (rounds value pos : ℕ) → Option ℕ × ℕ
  read_digits zero value pos = (some value, pos)
  read_digits (suc k) value pos =
      let x = char_at pat pos in
      let value' = value * 10 + (x - b'0') in
      let rest = read_digits k value' (pos + 1) in
      if not (is_digit x)
      then (some value, pos)
      else if ltb value' (2 ^ 31)
      then rest
      else (none, pos)

  abbrev pub number : ℕ → Option ℕ × ℕ
  number pos = read_digits (length pat - pos) 0 pos

  -- The upper bound (-1 is `none`): `{2}`, `{2,}` or `{2,3}`.
  unfoldable pub read_max : (min pos : ℕ) → Option (Option ℕ) × ℕ
  read_max min pos =
      if not (char_at pat pos == b',')
      then (some (some min), pos)
      else if not (is_digit (char_at pat (pos + 1)))
      then (some none, pos + 1)
      else elim ((number (pos + 1)).0) [
        | none ↦ (none, pos + 1)
        | some max ↦ (some (some max), (number (pos + 1)).1)
      ]

  -- The position behind the closing brace.
  unfoldable pub bounds_end : (is_ere : Bool) → ℕ → Option ℕ
  bounds_end true pos = if char_at pat pos == b'}' then some (pos + 1) else none
  bounds_end false pos =
      if char_at pat pos == b'\\' && char_at pat (pos + 1) == b'}' then some (pos + 2) else none

  abbrev pub bad_bounds : ℕ → Option ℕ → Bool
  bad_bounds min none = ltb 255 min
  bad_bounds min (some max) = ltb 255 min || ltb 255 max || ltb max min

  unfoldable pub close_bounds :
      Ctx → (is_ere : Bool) → (node min : ℕ) → (max : Option ℕ) → (pos : ℕ) → Ctx
  close_bounds c is_ere node min max pos = elim (bounds_end is_ere pos) [
    | none ↦ stop c (error badbr)
    | some end ↦
        if bad_bounds min max
        then stop c (error badbr)
        else apply_bounds grants (record c { pos = end }) node min max
  ]

  -- parse_bounds and, where it sets no error, apply_bounds.
  unfoldable pub parse_bounds : Ctx → (is_ere : Bool) → (node : ℕ) → Ctx
  parse_bounds c is_ere node =
      if failed c.err
      then c
      else if not (is_digit (here grants pat c))
      then stop c (error badbr)
      else elim ((number c.pos).0) [
        | none ↦ stop c undefined
        | some min ↦ elim ((read_max min (number c.pos).1).0) [
          | none ↦ stop c undefined
          | some max ↦ close_bounds c is_ere node min max (read_max min (number c.pos).1).1
        ]
      ]
