-- ===== src/Regex/Bracket.antt =====
-- The bracket expression of a compiled pattern: eval_bracket of src/c/regex/regexec.c. Bytes are
-- unsigned here: no test of the code tells the two views apart but that of `last` with -1, which
-- `last_of` keeps. strcoll orders two strings of one byte by that byte. `none` is a read behind the
-- end of the pattern.
use small_lib_c.Base.{
  ℕ, zero, suc, ◌+◌, ◌-◌, Bool, false, not, ◌&&◌, ◌||◌, Option, none, some, List, [], ◌∷◌, ltb, leb,
  ◌==◌, if◌then◌else◌, length, take, drop, xor,
}
use small_lib_c.Base.Text.{codes}
use small_lib_c.Ctype.{
  isalnum, isalpha, iscntrl, isdigit, isgraph, islower, isprint, ispunct, isspace, isupper,
  isxdigit, tolower,
}
use small_lib_c.Regex.{char_at, has_flag, reg_icase, reg_newline}
use small_lib_c.Regex.Parse.Brackets.{same_bytes, opens_class, last_of, is_some}

-- The tests of a class by its name.
unfoldable pub named_class : List ℕ → ℕ → Bool
named_class name c =
    same_bytes name (codes "alnum") && isalnum c
    || same_bytes name (codes "alpha") && isalpha c
    || same_bytes name (codes "blank") && (c == b' ' || c == 9)
    || same_bytes name (codes "cntrl") && iscntrl c
    || same_bytes name (codes "digit") && isdigit c
    || same_bytes name (codes "graph") && isgraph c
    || same_bytes name (codes "lower") && islower c
    || same_bytes name (codes "print") && isprint c
    || same_bytes name (codes "punct") && ispunct c
    || same_bytes name (codes "space") && isspace c
    || same_bytes name (codes "upper") && isupper c
    || same_bytes name (codes "xdigit") && isxdigit c

-- `[:name:]`, `[=name=]` and `[.name.]`, where the buffer has room for 255 bytes.
unfoldable pub class_matches : (type : ℕ) → List ℕ → ℕ → Bool
class_matches type name c =
    if type == b':'
    then named_class (take 255 name) c
    else if type == b'='
    then same_bytes (take 255 name) (c ∷ [])
    else same_bytes name (c ∷ [])

-- `if(ex->cflags & REG_ICASE) c = (char)tolower((unsigned char)c);`
unfoldable pub fold : (cflags : ℕ) → ℕ → ℕ
fold cflags c = if has_flag cflags reg_icase then tolower c else c

module _ (pat : List ℕ) (cflags : ℕ) where
  -- `while(ex->pat[p] != type || ex->pat[p + 1] != ']') p++;`: the last round reads the zero.
  unfoldable pub find_close : (rounds type p : ℕ) → Option ℕ
  find_close zero type p = none
  find_close (suc k) type p =
      let rest = find_close k type (p + 1) in
      if char_at pat p == type && char_at pat (p + 1) == b']' then some p else rest

  -- `last` is known where this is asked.
  unfoldable pub in_range : (last : Option ℕ) → (end_char c : ℕ) → Bool
  in_range none end_char c = false
  in_range (some first) end_char c =
      leb (fold cflags first) (fold cflags c) && leb (fold cflags c) (fold cflags end_char)

  module _ (end c : ℕ) where
    -- The loop, a round for each byte up to `end`.
    unfoldable pub eval_items : (rounds p : ℕ) → (last : Option ℕ) → (matched : Bool) → Option Bool
    eval_items zero p last matched = some matched
    eval_items (suc k) p last matched =
        let x = char_at pat p in
        let y = char_at pat (p + 1) in
        let start = p + 2 in
        let class : Option Bool = elim (find_close (length pat + 1 - start) y start) [
          | none ↦ none
          | some stop ↦
              eval_items k (stop + 2) none
                (class_matches y (take (stop - start) (drop start pat)) c || matched)
        ] in
        let range = eval_items k (p + 2) none (in_range last y c || matched) in
        let literal =
          eval_items k (p + 1) (last_of x) (fold cflags c == fold cflags x || matched) in
        if not (ltb p end)
        then some matched
        else if opens_class x y
        then class
        else if x == b'-' && ltb (p + 1) end && is_some last
        then range
        else literal

  unfoldable pub eval_bracket : (start end c : ℕ) → Option Bool
  eval_bracket start end c =
      let invert = char_at pat (start + 1) == b'^' in
      let first = if invert then start + 2 else start + 1 in
      if invert && c == 10 && has_flag cflags reg_newline
      then some false
      else elim (eval_items end c (end - first) first none false) [
        | none ↦ none
        | some matched ↦ some (xor invert matched)
      ]
