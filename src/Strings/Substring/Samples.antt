-- ===== src/Strings/Substring/Samples.antt =====
-- The strings "abca" at address 10 and "ca" at address 15.
use small_lib_c.Base.{ℕ, ◌≡◌, refl, Option, none, some, [], ◌∷◌, ◌++◌, arith}
use small_lib_c.Base.Text.{codes}
use small_lib_c.Memory.{Memory, ok, load}
use small_lib_c.Memory.Region.{holding}
use small_lib_c.Strings.Find.First.{as_address}
use small_lib_c.Strings.Substring.{begins_with, strstr_loop, strstr, wcsstr}
use small_lib_c.Strings.Substring.Place.{FirstPlace, strstr-FirstPlace}

abbrev memory : Memory
memory = holding 10 (codes "abca" ++ 0 ∷ codes "ca" ++ 0 ∷ [])

ca_in_abca : strstr 5 3 10 15 memory ≡ ok (some 12) memory
unfolding strstr strstr_loop begins_with load
ca_in_abca = refl

abca_not_in_ca : strstr 3 5 15 10 memory ≡ ok none memory
unfolding strstr strstr_loop begins_with load
abca_not_in_ca = refl

strstr-FirstPlace_example :
    (r : Option ℕ) × (strstr 5 3 10 15 memory ≡ ok (as_address 10 r) memory)
    × (wcsstr 5 3 10 15 memory ≡ ok (as_address 10 r) memory)
    × FirstPlace (codes "ca") (codes "abca") r
strstr-FirstPlace_example =
    strstr-FirstPlace 5 3 10 15 (codes "abca") (codes "ca") memory
      (refl, omega arith, (refl, omega arith, (refl, omega arith, (refl, omega arith, refl))))
      (refl, omega arith, (refl, omega arith, refl)) (omega arith) (omega arith)
