-- ===== src/Strings/Copy/Samples.antt =====
-- The string "ab" at address 10, "cd" at address 30, and room for more behind the first.
use small_lib_c.Base.{
  ℕ, ◌+◌, ◌≤◌, ◌≡◌, refl, inl, some, List, [], ◌∷◌, ◌++◌, leb, ◌==◌, if◌then◌else◌, arith,
}
use small_lib_c.Memory.{Memory, ok}
use small_lib_c.Memory.Region.{Mapped, StringAt, holding}
use small_lib_c.Strings.Copy.{strcat, wcscat, strncpy, wcsncpy}
use small_lib_c.Strings.Copy.Written.{written}
use small_lib_c.Strings.Copy.Text.{strcat-written}
use small_lib_c.Strings.Copy.Bounded.{strncpy-written}

abbrev ab : List ℕ
ab = b'a' ∷ b'b' ∷ []

abbrev cd : List ℕ
cd = b'c' ∷ b'd' ∷ []

abbrev memory : Memory
memory a =
    if leb 30 a
    then holding 30 (cd ++ 0 ∷ []) a
    else if a == 10
    then some b'a'
    else if a == 11
    then some b'b'
    else some 0

ab-StringAt : StringAt memory 10 ab
ab-StringAt = (refl, omega arith, (refl, omega arith, refl))

cd-StringAt : StringAt memory 30 cd
cd-StringAt = (refl, omega arith, (refl, omega arith, refl))

below : (p n : ℕ) → p + n ≤ 30 → Mapped memory p n
below p n h a lo hi = ground arith

strcat-written_example :
    (strcat 3 10 30 memory ≡ ok 10 (written memory 12 (cd ++ 0 ∷ [])))
    × (wcscat 3 10 30 memory ≡ ok 10 (written memory 12 (cd ++ 0 ∷ [])))
strcat-written_example =
    strcat-written 3 10 30 ab cd memory ab-StringAt cd-StringAt (below 12 3 (omega arith))
      (inl (omega arith)) (omega arith) (omega arith)

strncpy-written_example :
    (strncpy 10 30 4 memory ≡ ok 10 (written memory 10 (cd ++ 0 ∷ 0 ∷ [])))
    × (wcsncpy 10 30 4 memory ≡ ok 10 (written memory 10 (cd ++ 0 ∷ 0 ∷ [])))
strncpy-written_example =
    strncpy-written 10 30 4 cd memory cd-StringAt (below 10 4 (omega arith)) (inl (omega arith))
