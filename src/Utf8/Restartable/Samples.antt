-- ===== src/Utf8/Restartable/Samples.antt =====
-- mbrtowc and wcrtomb of src/c/wchar at concrete bytes.
use small_lib_c.Base.{◌≡◌, refl, some, [], ◌∷◌, ◌++◌, inl, arith}
use small_lib_c.Utf8.Encode.{encoded}
use small_lib_c.Utf8.Restartable.{
  decoded, incomplete, invalid, expected, fill_bytes, code_of, is_code, read_on, mbrtowc, wcrtomb,
}
use small_lib_c.Utf8.Restartable.State.{Partial, KeepsPartial, begun, mbrtowc-Partial}
use small_lib_c.Utf8.Restartable.Split.{then_read, mbrtowc-append}
use small_lib_c.Utf8.Restartable.RoundTrip.{IsScalar, mbrtowc-wcrtomb}
use small_lib_c.Utf8.Restartable.Canonical.{mbrtowc-Canonical}

-- An euro sign in two calls.
first_half : mbrtowc [] (some (0xE2 ∷ 0x82 ∷ [])) ≡ incomplete (0xE2 ∷ 0x82 ∷ [])
unfolding mbrtowc read_on expected fill_bytes
first_half = refl

second_half : mbrtowc (0xE2 ∷ 0x82 ∷ []) (some (0xAC ∷ 0x41 ∷ [])) ≡ decoded 0x20AC 1
unfolding mbrtowc read_on expected fill_bytes code_of is_code
second_half = refl

-- A longer form than the code needs, and half of a pair.
overlong : mbrtowc [] (some (0xE0 ∷ 0x80 ∷ 0x80 ∷ [])) ≡ invalid
unfolding mbrtowc read_on expected fill_bytes code_of is_code
overlong = refl

surrogate : mbrtowc [] (some (0xED ∷ 0xA0 ∷ 0x80 ∷ [])) ≡ invalid
unfolding mbrtowc read_on expected fill_bytes code_of is_code
surrogate = refl

euro_begun : Partial (0xE2 ∷ 0x82 ∷ [])
unfolding expected
euro_begun = begun 0xE2 (0x82 ∷ []) 3 (omega arith) refl (omega arith) refl

mbrtowc-Partial_example : KeepsPartial (mbrtowc (0xE2 ∷ 0x82 ∷ []) (some (0xAC ∷ [])))
mbrtowc-Partial_example = mbrtowc-Partial (0xE2 ∷ 0x82 ∷ []) (some (0xAC ∷ [])) euro_begun

mbrtowc-append_example :
    mbrtowc (0xE2 ∷ 0x82 ∷ []) (some (0xAC ∷ 0x41 ∷ []))
    ≡ then_read 1 (mbrtowc (0xE2 ∷ 0x82 ∷ []) (some (0xAC ∷ []))) (0x41 ∷ [])
mbrtowc-append_example = mbrtowc-append (0xE2 ∷ 0x82 ∷ []) (0xAC ∷ []) (0x41 ∷ []) euro_begun

mbrtowc-wcrtomb_example :
    (wcrtomb 0x20AC ≡ some (encoded 0x20AC))
    × (mbrtowc [] (some (encoded 0x20AC ++ 0x41 ∷ [])) ≡ decoded 0x20AC 3)
mbrtowc-wcrtomb_example = mbrtowc-wcrtomb 0x20AC (0x41 ∷ []) (omega arith, inl (omega arith))

mbrtowc-Canonical_example : IsScalar 0x20AC × (wcrtomb 0x20AC ≡ some (0xE2 ∷ 0x82 ∷ 0xAC ∷ []))
unfolding mbrtowc read_on expected fill_bytes code_of is_code
mbrtowc-Canonical_example = mbrtowc-Canonical (0xE2 ∷ 0x82 ∷ 0xAC ∷ 0x41 ∷ []) 0x20AC 3 refl refl
