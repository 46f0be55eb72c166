-- ===== src/Fnmatch/Match.antt =====
-- fnmatch and fnmatch_internal of src/c/fnmatch/fnmatch.c. A verdict is whether the string matches;
-- `none` is the end of the fuel.
use small_lib_c.Base.{
  ℕ, zero, suc, ◌+◌, Bool, true, false, not, ◌&&◌, ◌||◌, Option, none, some, List, [], ◌∷◌, ◌==◌,
  if◌then◌else◌, length, drop, xor,
}
use small_lib_c.Fnmatch.{flag, head, fnm_nomatch, fnm_noescape, fnm_pathname, fnm_period}
use small_lib_c.Fnmatch.Bracket.{scan_end, set_holds}

abbrev pub Verdict : Type 0
Verdict = Option Bool

-- `while(*p == '*') p++;`
unfoldable pub skip_stars : List ℕ → List ℕ
skip_stars [] = []
skip_stars (c ∷ p) = let rest = skip_stars p in if c == b'*' then rest else c ∷ p

-- The tests on `*p == '!' || *p == '^'`.
abbrev pub negates : List ℕ → Bool
negates p = head p == b'!' || head p == b'^'

abbrev pub set_start : List ℕ → List ℕ
set_start p = if negates p then drop 1 p else p

-- From the `]` on that closes a bracket, or none; and whether the bracket takes a byte.
unfoldable pub bracket_end : List ℕ → List ℕ
bracket_end p = scan_end (set_start p)

unfoldable pub bracket_holds : List ℕ → ℕ → Bool
bracket_holds p x = xor (negates p) (set_holds (set_start p) (bracket_end p) x)

module _ (flags : ℕ) where
  -- A slash that no wildcard matches.
  abbrev pub is_slash : ℕ → Bool
  is_slash x = flag flags fnm_pathname && x == b'/'

  -- A leading period that no wildcard matches.
  abbrev pub is_dot : (is_start : Bool) → ℕ → Bool
  is_dot is_start x = flag flags fnm_period && is_start && x == b'.'

  abbrev pub hidden : (is_start : Bool) → ℕ → Bool
  hidden is_start x = is_slash x || is_dot is_start x

  -- The rest of the string without a slash.
  unfoldable pub no_slash : List ℕ → Bool
  no_slash [] = true
  no_slash (x ∷ s) = not (is_slash x) && no_slash s

  module _ (go : List ℕ → List ℕ → Bool → Verdict) where
    -- A byte of the pattern that stands for itself.
    unfoldable pub literal : (c : ℕ) → (p s : List ℕ) → Verdict
    literal c p [] = some false
    literal c p (x ∷ s) = let rest = go p s (is_slash c) in if c == x then rest else some false

    unfoldable pub escape : (p s : List ℕ) → Verdict
    escape [] s = some false
    escape (c ∷ p) s = literal c p s

    unfoldable pub question : (p s : List ℕ) → (is_start : Bool) → Verdict
    question p [] is_start = some false
    question p (x ∷ s) is_start =
        let rest = go p s false in if hidden is_start x then some false else rest

    -- `while(1)`
    unfoldable pub star_loop : (p s : List ℕ) → (is_start : Bool) → Verdict
    star_loop p [] is_start = go p [] is_start
    star_loop p (x ∷ s) is_start =
        let rest = star_loop p s false in
        elim (go p (x ∷ s) is_start) [
          | none ↦ none
          | some true ↦ some true
          | some false ↦ if is_slash x then some false else rest
        ]

    -- With the stars skipped.
    unfoldable pub star : (p s : List ℕ) → (is_start : Bool) → Verdict
    star [] s is_start = if is_dot is_start (head s) then some false else some (no_slash s)
    star (c ∷ p) s is_start =
        let rest = go (c ∷ p) s is_start in
        let loop = star_loop (c ∷ p) s is_start in if is_dot is_start (head s) then rest else loop

    -- With the `]` that closes it before `after`.
    unfoldable pub closed : (p after s : List ℕ) → (is_start : Bool) → Verdict
    closed p after [] is_start = some false
    closed p after (x ∷ s) is_start =
        let rest = go after s false in
        if hidden is_start x
        then some false
        else if not (bracket_holds p x)
        then some false
        else rest

    -- From the byte after the `[` on.
    unfoldable pub bracket : (p s : List ℕ) → (is_start : Bool) → Verdict
    bracket p s is_start = elim (bracket_end p) [
      | [] ↦ literal b'[' p s
      | b ∷ after ↦ closed p after s is_start
    ]

    unfoldable pub next_byte : (c : ℕ) → (p s : List ℕ) → (is_start : Bool) → Verdict
    next_byte c p s is_start =
        if not (flag flags fnm_noescape) && c == b'\\'
        then escape p s
        else if c == b'['
        then bracket p s is_start
        else if c == b'?'
        then question p s is_start
        else if c == b'*'
        then star (skip_stars p) s is_start
        else literal c p s

  unfoldable pub fnmatch_internal : (fuel : ℕ) → (p s : List ℕ) → (is_start : Bool) → Verdict
  fnmatch_internal zero p s is_start = none
  fnmatch_internal (suc k) [] s is_start = some (length s == 0)
  fnmatch_internal (suc k) (c ∷ p) s is_start = next_byte (fnmatch_internal k) c p s is_start

-- The value that is returned for a verdict: 0 for a match.
unfoldable pub status : Verdict → Option ℕ
status none = none
status (some true) = some 0
status (some false) = some fnm_nomatch

unfoldable pub fnmatch : (pattern string : List ℕ) → (flags : ℕ) → Option ℕ
fnmatch pattern string flags =
    status (fnmatch_internal flags (length pattern + 1) pattern string true)
