-- ===== src/Calendar/Asctime/Pieces.antt =====
-- What the directives of asctime's text append.
use Prim.Native.String.{String}
use small_lib_c.Base.{
  ℕ, ◌≤◌, ◌<◌, ◌≡◌, refl, ◌∙◌, ap, false, ◌||◌, Option, some, List, [], ◌∷◌, ◌++◌, ◌==◌,
  if◌then◌else◌, get_elem?, Bool-cases, inl, inr, arith,
}
use small_lib_c.Base.Text.{codes}
use small_lib_c.Base.Int.{ℤ, pos, ltb_ℤ}
use small_lib_c.Calendar.{Tm}
use small_lib_c.Calendar.Zone.{TzDb}
use small_lib_c.Calendar.Directives.{Segment, byte, string, format_num, range, names_at, directive}
use small_lib_c.Calendar.Strftime.Room.{pieces_text, expansion}
use small_lib_c.Calendar.Asctime.{day_of_month}
use mathlib.Core.List.{append-nil}
use small_lib_c.Calendar.Asctime.Digits.{fixed, format_fixed, cons_two, fixed_2d, wide_day}

pub one_string : (s : List ℕ) → pieces_text (string s ∷ []) ≡ some s
unfolding pieces_text
one_string s = ap some (append-nil s)

-- A name by a field that is within its bounds.
pub name_text :
    (names : List String) (i hi : ℕ) (name : String)
    → i ≤ hi
    → get_elem? names i ≡ some name
    → pieces_text (names_at names (range 0 (pos i) hi) ∷ []) ≡ some (codes name)
name_text names i hi name le at =
    let same : range 0 (pos i) hi ≡ i = omega (arith, le) in
    ap (λ j. pieces_text (names_at names j ∷ [])) same ∙ rw (names_at, at) (one_string (codes name))

-- A number of two digits by a field that is within its bounds.
pub two_text :
    (i hi : ℕ)
    → i ≤ hi
    → hi < 100
    → pieces_text (format_num (pos (range 0 (pos i) hi)) 2 ∷ []) ≡ some (fixed 2 i [])
two_text i hi le small =
    let same : range 0 (pos i) hi ≡ i = omega (arith, le) in
    ap (λ j. pieces_text (format_num (pos j) 2 ∷ [])) same
    ∙ rw (format_fixed 1 i (omega arith) (omega (arith, le, small))) (one_string (fixed 2 i []))

module _ (db : Option TzDb) (tm : Tm) where
  pub directive_text :
      (c : ℕ) (format u v : List ℕ)
      → (c == b'E' || c == b'O') ≡ false
      → pieces_text (directive db tm c) ≡ some u
      → expansion db tm false format ≡ some v
      → expansion db tm false (b'%' ∷ c ∷ format) ≡ some (u ++ v)
  unfolding expansion
  directive_text c format u v other here rest = rw (expansion, other, here, rest) refl

  pub byte_text :
      (c : ℕ) (format v : List ℕ)
      → (c == b'%') ≡ false
      → expansion db tm false format ≡ some v
      → expansion db tm false (c ∷ format) ≡ some (c ∷ v)
  unfolding expansion
  byte_text c format v other rest = rw (expansion, other, rest) refl

abbrev pub day_pieces : ℤ → List Segment
day_pieces mday =
    let day = format_num (pos (range 1 mday 31)) 1 in
    if ltb_ℤ mday (pos 10) then byte b' ' ∷ day ∷ [] else day ∷ []

pub day_text :
    (mday : ℕ)
    → 1 ≤ mday
    → mday ≤ 31
    → pieces_text (day_pieces (pos mday)) ≡ some (day_of_month (pos mday))
unfolding pieces_text
day_text mday first last =
    let same : range 1 (pos mday) 31 ≡ mday = omega (arith, first, last) in
    elim (Bool-cases (ltb_ℤ (pos mday) (pos 10))) [
      | inl y ↦
          let lt : mday < 10 = ground (arith, y) in
          let digit : format_num (pos (range 1 (pos mday) 31)) 1 ≡ string (fixed 1 mday []) =
            ap (λ j. format_num (pos j) 1) same
            ∙ format_fixed 0 mday (omega arith) (omega (arith, lt)) in
          rw (day_pieces, y, digit) (ap some (cons_two refl (omega (arith, lt))))
      | inr n ↦
          let ge : 10 ≤ mday = ground (arith, n) in
          let digits : format_num (pos (range 1 (pos mday) 31)) 1 ≡ string (fixed 2 mday []) =
            ap (λ j. format_num (pos j) 1) same ∙ wide_day mday ge (omega (arith, last)) in
          rw (day_pieces, n, digits) (ap some (fixed_2d mday (omega (arith, last))))
    ]
