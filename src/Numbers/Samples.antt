-- ===== src/Numbers/Samples.antt =====
-- The text "  -0x1f," at address 100.
use small_lib_c.Base.{
  inr, ℕ, ◌-◌, ◌^◌, ◌≡◌, refl, true, false, List, [], ◌∷◌, ◌++◌, ltb, if◌then◌else◌, arith, inl,
}
use small_lib_c.Memory.{Memory, ok}
use small_lib_c.Memory.Region.{BytesAt, holding}
use small_lib_c.Ctype.{isspace}
use small_lib_c.Numbers.{parsed, strtoull, strtoll}
use small_lib_c.Numbers.Digits.{value_from}
use small_lib_c.Numbers.Text.{minus, hexadecimal}
use small_lib_c.Numbers.Grammar.{Numeral, numeral}
use small_lib_c.Numbers.Unsigned.{negated, strtoull-Numeral}
use small_lib_c.Numbers.Signed.{nearest, strtoll-Numeral}

abbrev text : List ℕ
text = b' ' ∷ b' ' ∷ b'-' ∷ b'0' ∷ b'x' ∷ b'1' ∷ b'f' ∷ []

abbrev memory : Memory
memory = holding 100 (text ++ b',' ∷ [])

text-Numeral : Numeral 0 text b',' true 16 (1 ∷ 15 ∷ [])
unfolding isspace
text-Numeral =
    numeral (b' ' ∷ b' ' ∷ []) (b'-' ∷ []) (b'0' ∷ b'x' ∷ []) (b'f' ∷ []) b'1' (refl, (refl, tt))
      minus (hexadecimal b'x' (inl refl) (inl refl)) (inl (omega arith, refl), omega arith)
      ((inr (inr (omega arith, omega arith, refl)), omega arith), tt)
      (omega arith, λ d e. ground (arith, e))

text-BytesAt : BytesAt memory 100 (text ++ b',' ∷ [])
text-BytesAt = (refl, (refl, (refl, (refl, (refl, (refl, (refl, (refl, tt))))))))

value : value_from 16 0 (1 ∷ 15 ∷ []) ≡ 31
unfolding value_from
value = refl

strtoll-Numeral_example :
    strtoll 8 100 0 memory ≡ ok (nearest 64 true (value_from 16 0 (1 ∷ 15 ∷ [])) 107) memory
strtoll-Numeral_example =
    strtoll-Numeral 0 8 100 memory text b',' true 16 (1 ∷ 15 ∷ []) text-Numeral text-BytesAt
      (omega arith)

strtoull-Numeral_example :
    strtoull 8 100 0 memory
    ≡ ok
        (if ltb (2 ^ 64 - 1) (value_from 16 0 (1 ∷ 15 ∷ []))
          then parsed (2 ^ 64 - 1) 107 true
          else parsed (negated 64 (value_from 16 0 (1 ∷ 15 ∷ []))) 107 false)
        memory
strtoull-Numeral_example =
    strtoull-Numeral 0 8 100 memory text b',' true 16 (1 ∷ 15 ∷ []) text-Numeral text-BytesAt
      (omega arith)
