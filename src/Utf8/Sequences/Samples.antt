-- ===== src/Utf8/Sequences/Samples.antt =====
-- mbsrtowcs and wcsrtombs of src/c/wchar at concrete strings.
use small_lib_c.Base.{ℕ, ◌≡◌, refl, none, some, List, [], ◌∷◌, inl, arith}
use small_lib_c.Utf8.Restartable.{expected, fill_bytes, read_on, mbrtowc, wcrtomb}
use small_lib_c.Utf8.Sequences.{ended, stopped, failed, mbsrtowcs_loop, mbsrtowcs, wcsrtombs}
use small_lib_c.Utf8.Sequences.Back.{Scalars, no_code, one_more, mbsrtowcs-wcsrtombs}
use small_lib_c.Utf8.Sequences.Cut.{Cut, wcsrtombs-Cut}

-- Two codes of three bytes and one: a buffer of three bytes takes the first.
one_of_two : wcsrtombs (some 3) (0x20AC ∷ 0x41 ∷ []) ≡ stopped (0xE2 ∷ 0x82 ∷ 0xAC ∷ []) (0x41 ∷ [])
unfolding wcsrtombs wcrtomb
one_of_two = refl

-- A sequence that the string ends in.
cut_off : mbsrtowcs [] none (0x41 ∷ 0xE2 ∷ 0x82 ∷ []) ≡ failed
unfolding mbsrtowcs mbsrtowcs_loop mbrtowc read_on expected fill_bytes
cut_off = refl

two_codes : Scalars (0x20AC ∷ 0x41 ∷ [])
two_codes =
    one_more (omega arith) (omega arith, inl (omega arith))
      (one_more (omega arith) (omega arith, inl (omega arith)) no_code)

mbsrtowcs-wcsrtombs_example :
    (bytes : List ℕ) × (wcsrtombs none (0x20AC ∷ 0x41 ∷ []) ≡ ended bytes)
    × (mbsrtowcs [] none bytes ≡ ended (0x20AC ∷ 0x41 ∷ []))
mbsrtowcs-wcsrtombs_example = mbsrtowcs-wcsrtombs (0x20AC ∷ 0x41 ∷ []) two_codes

wcsrtombs-Cut_example : Cut 3 (0x20AC ∷ 0x41 ∷ []) (wcsrtombs (some 3) (0x20AC ∷ 0x41 ∷ []))
wcsrtombs-Cut_example = wcsrtombs-Cut 3 (0x20AC ∷ 0x41 ∷ []) two_codes
