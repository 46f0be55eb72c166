-- ===== src/Ctype/Samples.antt =====
-- Runs of the classification functions, and the theorems at concrete codes.
use small_lib_c.Base.{◌≡◌, refl, true, false, ◌||◌, arith, ◌==◌}
use small_lib_c.Ctype.{
  isupper, islower, isalpha, isdigit, isalnum, isblank, iscntrl, isgraph, isprint, ispunct, isspace,
  isxdigit,
}
use small_lib_c.Ctype.Ranges.{between, class_ranges}

-- EOF is -1.
isdigit_eof : isdigit 0xffff_ffff ≡ false
unfolding isdigit
isdigit_eof = refl

isxdigit_upper : isxdigit b'F' ≡ true
unfolding isxdigit
isxdigit_upper = refl

class_ranges_example :
    (isupper b'g' ≡ between b'A' b'Z' b'g')
    × (islower b'g' ≡ between b'a' b'z' b'g')
    × (isalpha b'g' ≡ (between b'A' b'Z' b'g' || between b'a' b'z' b'g'))
    × (isdigit b'g' ≡ between b'0' b'9' b'g')
    × (isalnum b'g' ≡ (between b'0' b'9' b'g' || between b'A' b'Z' b'g' || between b'a' b'z' b'g'))
    × (isblank b'g' ≡ (b'g' == 9 || b'g' == b' '))
    × (iscntrl b'g' ≡ (between 0 31 b'g' || b'g' == 127))
    × (isgraph b'g' ≡ between b'!' b'~' b'g')
    × (isprint b'g' ≡ between b' ' b'~' b'g')
    × (ispunct b'g' ≡ (
        between b'!' b'/' b'g'
        || between b':' b'@' b'g'
        || between b'[' b'`' b'g'
        || between b'{' b'~' b'g'))
    × (isspace b'g' ≡ (between 9 13 b'g' || b'g' == b' '))
    × (isxdigit b'g' ≡ (between b'0' b'9' b'g' || between b'A' b'F' b'g' || between b'a' b'f' b'g'))
class_ranges_example = class_ranges b'g' (omega arith)
