-- ===== src/Ctype/Ranges.antt =====
-- The classes of src/c/ctype as ranges of codes.
use small_lib_c.Base.{
  ℕ, ◌+◌, ◌*◌, ◌/◌, ◌%◌, ◌^◌, ◌<◌, bit_or, ◌≡◌, Bool, ◌&&◌, ◌||◌, arith, ltb, leb, ◌==◌,
  if◌then◌else◌,
}
use small_lib_c.Base.Bits.{bit_or_step, bit_or-zero}
use small_lib_c.Ctype.{
  sub_word, isupper, islower, isalpha, isdigit, isalnum, isblank, iscntrl, isgraph, isprint,
  ispunct, isspace, isxdigit,
}

abbrev pub between : ℕ → ℕ → ℕ → Bool
between lo hi c = leb lo c && leb c hi

bit_or-one : (a : ℕ) → bit_or a 1 ≡ a / 2 * 2 + 1
bit_or-one a = omega (arith, bit_or_step a 1, bit_or-zero (a / 2))

-- The case bit: 32 is added where it is clear.
pub bit_or_32 : (c : ℕ) → bit_or c 32 ≡ (if c / 32 % 2 == 0 then c + 32 else c)
bit_or_32 c = ground (
  arith,
  bit_or_step c 32,
  bit_or_step (c / 2) 16,
  bit_or_step (c / 2 / 2) 8,
  bit_or_step (c / 2 / 2 / 2) 4,
  bit_or_step (c / 2 / 2 / 2 / 2) 2,
  bit_or-one (c / 2 / 2 / 2 / 2 / 2),
)

module _ (c : ℕ) (h : c < 2 ^ 32) where
  sub_word_range : (k n : ℕ) → k + n < 2 ^ 32 → ltb (sub_word c k) (n + 1) ≡ between k (k + n) c
  sub_word_range k n fits = ground arith

  pub isupper_lem : isupper c ≡ between b'A' b'Z' c
  unfolding isupper
  isupper_lem = sub_word_range b'A' 25 (omega arith)

  pub islower_lem : islower c ≡ between b'a' b'z' c
  unfolding islower
  islower_lem = sub_word_range b'a' 25 (omega arith)

  pub isdigit_lem : isdigit c ≡ between b'0' b'9' c
  unfolding isdigit
  isdigit_lem = sub_word_range b'0' 9 (omega arith)

  isgraph_lem : isgraph c ≡ between b'!' b'~' c
  unfolding isgraph
  isgraph_lem = sub_word_range b'!' 93 (omega arith)

  isprint_lem : isprint c ≡ between b' ' b'~' c
  unfolding isprint
  isprint_lem = sub_word_range b' ' 94 (omega arith)

  pub isspace_lem : isspace c ≡ (between 9 13 c || c == b' ')
  unfolding isspace
  isspace_lem = ground (arith, sub_word_range 9 4)

  pub isalpha_lem : isalpha c ≡ (between b'A' b'Z' c || between b'a' b'z' c)
  unfolding isalpha
  isalpha_lem = rw (isupper_lem, islower_lem)

  isalnum_lem : isalnum c ≡ (between b'0' b'9' c || between b'A' b'Z' c || between b'a' b'z' c)
  unfolding isalnum
  isalnum_lem = ground (arith, isalpha_lem, isdigit_lem)

  ispunct_lem :
      ispunct c
      ≡ (between b'!' b'/' c || between b':' b'@' c || between b'[' b'`' c || between b'{' b'~' c)
  unfolding ispunct
  ispunct_lem = ground (arith, isgraph_lem, isalnum_lem)

  isxdigit_lem : isxdigit c ≡ (between b'0' b'9' c || between b'A' b'F' c || between b'a' b'f' c)
  unfolding isxdigit
  isxdigit_lem = ground (arith, isdigit_lem, bit_or_32 c)

-- For every `int` bit pattern c the classes are these sets of codes: A-Z, a-z, both, 0-9, letters
-- and digits, space and tab, 0-31 and 127, 33-126, 32-126, the graphic codes that are neither
-- letters nor digits in their four ranges, space and 9-13, and the hexadecimal digits.
pub class_ranges :
    (c : ℕ)
    → c < 2 ^ 32
    → (isupper c ≡ between b'A' b'Z' c)
      × (islower c ≡ between b'a' b'z' c)
      × (isalpha c ≡ (between b'A' b'Z' c || between b'a' b'z' c))
      × (isdigit c ≡ between b'0' b'9' c)
      × (isalnum c ≡ (between b'0' b'9' c || between b'A' b'Z' c || between b'a' b'z' c))
      × (isblank c ≡ (c == 9 || c == b' '))
      × (iscntrl c ≡ (between 0 31 c || c == 127))
      × (isgraph c ≡ between b'!' b'~' c)
      × (isprint c ≡ between b' ' b'~' c)
      × (ispunct c ≡ (
          between b'!' b'/' c || between b':' b'@' c || between b'[' b'`' c || between b'{' b'~' c))
      × (isspace c ≡ (between 9 13 c || c == b' '))
      × (isxdigit c ≡ (between b'0' b'9' c || between b'A' b'F' c || between b'a' b'f' c))
unfolding isblank iscntrl
class_ranges c h = (
  isupper_lem c h,
  islower_lem c h,
  isalpha_lem c h,
  isdigit_lem c h,
  isalnum_lem c h,
  ground arith,
  ground arith,
  isgraph_lem c h,
  isprint_lem c h,
  ispunct_lem c h,
  isspace_lem c h,
  isxdigit_lem c h,
)
