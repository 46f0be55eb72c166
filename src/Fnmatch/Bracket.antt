-- ===== src/Fnmatch/Bracket.antt =====
-- A bracket of a pattern of src/c/fnmatch/fnmatch.c: where it ends, and the bytes that it holds.
use small_lib_c.Base.{
  ℕ, zero, suc, ◌-◌, Bool, true, false, not, ◌&&◌, ◌||◌, List, [], ◌∷◌, ltb, leb, ◌==◌,
  if◌then◌else◌, length, take, drop,
}
use small_lib_c.Base.Text.{codes}
use small_lib_c.Ctype.{
  isalnum, isalpha, iscntrl, isdigit, isgraph, islower, isprint, ispunct, isspace, isupper,
  isxdigit,
}
use small_lib_c.Fnmatch.{head}

-- `len` bytes that are those of a name.
unfoldable pub is_name : (name : List ℕ) → (s : List ℕ) → Bool
is_name [] [] = true
is_name [] (y ∷ ys) = false
is_name (x ∷ xs) [] = false
is_name (x ∷ xs) (y ∷ ys) = x == y && is_name xs ys

-- The argument holds the `len` bytes of the name.
unfoldable pub check_class : (name : List ℕ) → ℕ → Bool
check_class name c =
    if is_name (codes "alnum") name
    then isalnum c
    else if is_name (codes "alpha") name
    then isalpha c
    else if is_name (codes "blank") name
    then c == b' ' || c == 9
    else if is_name (codes "cntrl") name
    then iscntrl c
    else if is_name (codes "digit") name
    then isdigit c
    else if is_name (codes "graph") name
    then isgraph c
    else if is_name (codes "lower") name
    then islower c
    else if is_name (codes "print") name
    then isprint c
    else if is_name (codes "punct") name
    then ispunct c
    else if is_name (codes "space") name
    then isspace c
    else if is_name (codes "upper") name
    then isupper c
    else if is_name (codes "xdigit") name
    then isxdigit c
    else false

-- strcoll orders two strings of one byte by that byte.
unfoldable pub check_range : (c start end : ℕ) → Bool
check_range c start end = leb start c && leb c end

abbrev pub begins_class : List ℕ → Bool
begins_class s = let t = head (drop 1 s) in head s == b'[' && (t == b':' || t == b'.' || t == b'=')

-- From the `t]` that closes a class, or the end.
unfoldable pub close_class : (t : ℕ) → List ℕ → List ℕ
close_class t [] = []
close_class t (c ∷ s) =
    let rest = close_class t s in if c == t && head s == b']' then c ∷ s else rest

-- `*scan_end == ']' || *scan_end == '-'`
abbrev pub leads : List ℕ → Bool
leads s = head s == b']' || head s == b'-'

-- From the `]` that closes the bracket, or the end: a round for each byte.
unfoldable pub end_loop : (rounds : ℕ) → List ℕ → List ℕ
end_loop zero s = s
end_loop (suc k) [] = []
end_loop (suc k) (c ∷ s) =
    let behind_class = end_loop k (drop 2 (close_class (head s) (drop 1 s))) in
    let behind_byte = end_loop k s in
    if c == b']' then c ∷ s else if begins_class (c ∷ s) then behind_class else behind_byte

unfoldable pub scan_end : List ℕ → List ℕ
scan_end p = if leads p then end_loop (length p) (drop 1 p) else end_loop (length p) p

-- `type` is `:`, `=` or `.`, and the class runs to `c_end`.
unfoldable pub in_class : (scan c_end : List ℕ) → ℕ → Bool
in_class scan c_end c =
    let type = head (drop 1 scan) in
    let name = drop 2 scan in
    let len = length name - length c_end in
    if type == b':' then check_class (take len name) c else len == 1 && c == head name

module _ (end : List ℕ) (c : ℕ) where
  -- `scan < scan_end`, n bytes on.
  abbrev pub before : (n : ℕ) → List ℕ → Bool
  before n s = ltb (length end) (length s - n)

  unfoldable pub items : (rounds : ℕ) → List ℕ → (found : Bool) → Bool
  items zero scan found = found
  items (suc k) scan found =
      let c_end = close_class (head (drop 1 scan)) (drop 2 scan) in
      let class = items k (drop 2 c_end) (in_class scan c_end c || found) in
      let range = items k (drop 3 scan) (check_range c (head scan) (head (drop 2 scan)) || found) in
      let literal = items k (drop 1 scan) (c == head scan || found) in
      if not (before 0 scan)
      then found
      else if begins_class scan && not (length c_end == 0)
      then class
      else if before 1 scan && head (drop 1 scan) == b'-' && before 2 scan
      then range
      else literal

-- Whether a byte of the string is in the bracket from p to `end`.
unfoldable pub set_holds : (p end : List ℕ) → ℕ → Bool
set_holds p end c =
    if leads p
    then items end c (length p) (drop 1 p) (c == head p)
    else items end c (length p) p false
