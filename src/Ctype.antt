-- ===== src/Ctype.antt =====
-- Character classification and case conversion: src/c/ctype. The argument is the 32 bit pattern of
-- the `int`, so that the conversion to `unsigned int` is the identity and a subtraction wraps.
-- A result that C gives as 0 or 1 is a Bool.
pub mod Ranges
pub mod Case
mod Samples
use small_lib_c.Base.{
  ℕ, ◌+◌, ◌-◌, ◌%◌, ◌^◌, bit_and, bit_or, Bool, not, ◌&&◌, ◌||◌, ltb, leb, ◌==◌, if◌then◌else◌,
}

-- `(unsigned int)c - k`
abbrev pub sub_word : ℕ → ℕ → ℕ
sub_word c k = (c + 2 ^ 32 - k) % 2 ^ 32

unfoldable pub isupper : ℕ → Bool
isupper c = ltb (sub_word c b'A') 26

unfoldable pub islower : ℕ → Bool
islower c = ltb (sub_word c b'a') 26

unfoldable pub isalpha : ℕ → Bool
unfolding isupper islower
isalpha c = isupper c || islower c

unfoldable pub isdigit : ℕ → Bool
isdigit c = ltb (sub_word c b'0') 10

unfoldable pub isalnum : ℕ → Bool
unfolding isalpha isdigit
isalnum c = isalpha c || isdigit c

unfoldable pub isblank : ℕ → Bool
isblank c = c == b' ' || c == 9

unfoldable pub iscntrl : ℕ → Bool
iscntrl c = leb c 31 || c == 127

unfoldable pub isgraph : ℕ → Bool
isgraph c = ltb (sub_word c b'!') 94

unfoldable pub isprint : ℕ → Bool
isprint c = ltb (sub_word c b' ') 95

unfoldable pub ispunct : ℕ → Bool
unfolding isgraph isalnum
ispunct c = isgraph c && not (isalnum c)

unfoldable pub isspace : ℕ → Bool
isspace c = c == b' ' || ltb (sub_word c 9) 5

unfoldable pub isxdigit : ℕ → Bool
unfolding isdigit
isxdigit c = isdigit c || ltb (sub_word (bit_or c 32) b'a') 6

unfoldable pub tolower : ℕ → ℕ
unfolding isupper
tolower c = if isupper c then bit_or c 32 else c

-- `~32` is the pattern 2 ^ 32 - 33.
unfoldable pub toupper : ℕ → ℕ
unfolding islower
toupper c = if islower c then bit_and c (2 ^ 32 - 33) else c
