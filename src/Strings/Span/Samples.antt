-- ===== src/Strings/Span/Samples.antt =====
-- The strings "aab" at address 10 and "a" at address 12 + 2, in one object.
use small_lib_c.Base.{
  ℕ, ◌+◌, ◌≡◌, refl, not, Option, none, some, List, [], ◌∷◌, ◌++◌, ltb, if◌then◌else◌, arith,
}
use small_lib_c.Memory.{Memory, ok}
use small_lib_c.Memory.Region.{StringAt, holding}
use small_lib_c.Strings.Span.{strcspn, wcscspn, strpbrk, wcspbrk}
use small_lib_c.Strings.Span.Length.{member, prefix_length, strcspn-strpbrk}

abbrev text : List ℕ
text = b'a' ∷ b'a' ∷ b'b' ∷ []

abbrev only_a : List ℕ
only_a = b'a' ∷ []

abbrev memory : Memory
memory = holding 10 (text ++ 0 ∷ b'a' ∷ 0 ∷ [])

text-StringAt : StringAt memory 10 text
text-StringAt = (refl, omega arith, (refl, omega arith, (refl, omega arith, refl)))

set-StringAt : StringAt memory 14 only_a
set-StringAt = (refl, omega arith, refl)

abbrev until_a : Option ℕ
until_a =
    if ltb (prefix_length (λ c. not (member c only_a)) text) 3
    then some (10 + prefix_length (λ c. not (member c only_a)) text)
    else none

strcspn-strpbrk_example :
    (strcspn 4 2 10 14 memory ≡ ok (prefix_length (λ c. not (member c only_a)) text) memory)
    × (wcscspn 4 2 10 14 memory ≡ ok (prefix_length (λ c. not (member c only_a)) text) memory)
    × (strpbrk 4 2 10 14 memory ≡ ok until_a memory)
    × (wcspbrk 4 2 10 14 memory ≡ ok until_a memory)
strcspn-strpbrk_example =
    strcspn-strpbrk 4 2 10 14 text only_a memory text-StringAt set-StringAt (omega arith)
      (omega arith)
