-- ===== src/Regex/Parse/Brackets.antt =====
-- parse_bracket of src/c/regex/regcomp.c, with the tests on bytes that the parsers share.
use small_lib_c.Base.{
  ℕ, zero, suc, ◌+◌, ◌-◌, Bool, true, false, not, ◌&&◌, ◌||◌, Option, none, some, List, [], ◌∷◌,
  leb, ◌==◌, if◌then◌else◌, length, take, drop,
}
use small_lib_c.Base.Text.{codes}
use small_lib_c.Regex.{ecollate, ectype, ebrack, error, out_of_fuel, failed, AstOp, char_at}
use small_lib_c.Regex.Compile.{Ctx, stop, skip, emit}

unfoldable pub same_bytes : List ℕ → List ℕ → Bool
same_bytes [] [] = true
same_bytes [] (y ∷ ys) = false
same_bytes (x ∷ xs) [] = false
same_bytes (x ∷ xs) (y ∷ ys) = x == y && same_bytes xs ys

abbrev pub class_names : List (List ℕ)
class_names =
    codes "alnum"
    ∷ codes "alpha"
    ∷ codes "blank"
    ∷ codes "cntrl"
    ∷ codes "digit"
    ∷ codes "graph"
    ∷ codes "lower"
    ∷ codes "print"
    ∷ codes "punct"
    ∷ codes "space"
    ∷ codes "upper"
    ∷ codes "xdigit"
    ∷ []

unfoldable pub any_same : List (List ℕ) → List ℕ → Bool
any_same [] s = false
any_same (name ∷ names) s = same_bytes name s || any_same names s

-- The argument holds the `len` bytes from `s` on.
unfoldable pub check_cls : List ℕ → Bool
check_cls s = any_same class_names s

abbrev pub is_digit : ℕ → Bool
is_digit x = leb b'0' x && leb x b'9'

-- `[:`, `[.` or `[=`.
abbrev pub opens_class : ℕ → ℕ → Bool
opens_class x y = x == b'[' && (y == b':' || y == b'.' || y == b'=')

-- What `last = c` leaves: as a `char` the byte 255 is -1.
abbrev pub last_of : ℕ → Option ℕ
last_of x = if x == 255 then none else some x

abbrev pub is_some : Option ℕ → Bool
is_some none = false
is_some (some x) = true

module _ (grants : ℕ → Bool) (pat : List ℕ) where
  abbrev pub here : Ctx → ℕ
  here c = char_at pat c.pos

  abbrev pub ahead : Ctx → ℕ → ℕ
  ahead c n = char_at pat (c.pos + n)

  -- The position of the end of the class, or of the end of the pattern: a round for each byte left.
  unfoldable pub class_end : (rounds t pos : ℕ) → ℕ
  class_end zero t pos = pos
  class_end (suc k) t pos =
      let rest = class_end k t (pos + 1) in
      if char_at pat pos == 0 || char_at pat pos == t && char_at pat (pos + 1) == b']'
      then pos
      else rest

  unfoldable pub class_item : Ctx → Ctx
  class_item c =
      let t = ahead c 1 in
      let start = c.pos + 2 in
      let end = class_end (length pat - start) t start in
      if char_at pat end == 0
      then stop c (error ebrack)
      else if t == b':' && not (check_cls (take (end - start) (drop start pat)))
      then stop c (error ectype)
      else if (t == b'.' || t == b'=') && end - start == 0
      then stop c (error ecollate)
      else record c { pos = end + 2 }

  -- One item of a bracket, and the new `last`.
  unfoldable pub bracket_item : Ctx → (last : Option ℕ) → Ctx × Option ℕ
  bracket_item c last =
      if opens_class (here c) (ahead c 1)
      then (class_item c, none)
      else if here c == b'-' && not (ahead c 1 == 0) && not (ahead c 1 == b']') && is_some last
      then (skip c 2, none)
      else (skip c 1, last_of (here c))

  unfoldable pub bracket_loop : (fuel : ℕ) → Ctx → (last : Option ℕ) → Ctx
  bracket_loop zero c last = stop c out_of_fuel
  bracket_loop (suc k) c last =
      let (d, last') = bracket_item c last in
      let rest = bracket_loop k d last' in
      if here c == 0 || here c == b']' then c else if failed d.err then d else rest

  -- The position behind `[`, `[^`, `[]` or `[^]`.
  abbrev pub bracket_start : Ctx → Ctx
  bracket_start c =
      let d = skip c 1 in
      let e = if here d == b'^' then skip d 1 else d in if here e == b']' then skip e 1 else e

  unfoldable pub parse_bracket : Ctx → Ctx
  parse_bracket c =
      let d = bracket_loop (length pat + 1) (bracket_start c) none in
      let e = emit grants d AstOp.bracket c.pos d.pos none none in
      if failed c.err
      then c
      else if failed d.err
      then d
      else if not (here d == b']')
      then stop d (error ebrack)
      else skip e 1
