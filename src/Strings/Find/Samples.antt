-- ===== src/Strings/Find/Samples.antt =====
-- The string "abca" at address 10.
use small_lib_c.Base.{ℕ, ◌≡◌, refl, List, [], ◌∷◌, ◌++◌, arith}
use small_lib_c.Memory.{Memory, ok}
use small_lib_c.Memory.Region.{StringAt, holding}
use small_lib_c.Strings.Find.{strrchr, rindex, wcsrchr}
use small_lib_c.Strings.Find.Last.{last_address, strrchr-last_address}

abbrev abca : List ℕ
abca = b'a' ∷ b'b' ∷ b'c' ∷ b'a' ∷ []

abbrev memory : Memory
memory = holding 10 (abca ++ 0 ∷ [])

abca-StringAt : StringAt memory 10 abca
abca-StringAt =
    (refl, omega arith, (refl, omega arith, (refl, omega arith, (refl, omega arith, refl))))

strrchr-last_address_example :
    (strrchr 5 10 b'a' memory ≡ ok (last_address 10 b'a' (abca ++ 0 ∷ [])) memory)
    × (rindex 5 10 b'a' memory ≡ ok (last_address 10 b'a' (abca ++ 0 ∷ [])) memory)
    × (wcsrchr 5 10 b'a' memory ≡ ok (last_address 10 b'a' (abca ++ 0 ∷ [])) memory)
strrchr-last_address_example =
    strrchr-last_address 5 10 b'a' abca memory abca-StringAt (omega arith)
