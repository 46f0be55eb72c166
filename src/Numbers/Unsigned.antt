-- ===== src/Numbers/Unsigned.antt =====
-- strtoull and strtoul on a numeral.
use small_lib_c.Base.{
  ℕ, ◌+◌, ◌-◌, ◌%◌, ◌^◌, ◌<◌, ◌≡◌, refl, Bool, true, false, List, [], ◌∷◌, ◌++◌, ltb, ◌||◌,
  if◌then◌else◌, arith, Bool-cases, inl, inr, length,
}
use small_lib_c.Memory.{Memory, ok}
use small_lib_c.Memory.Region.{BytesAt}
use small_lib_c.Numbers.{
  no_digits, digits, too_large, scan, parsed, end_of, finish_unsigned, strtoull,
  clamp_unsigned_long, strtoul,
}
use small_lib_c.Numbers.Digits.{no_digits-ne, value_from, advance_all-value, advance_all-over}
use small_lib_c.Numbers.Grammar.{Numeral, Numeral-AllBelow, scan_number_lem}

-- `-v` in w bits.
abbrev pub negated : (w v : ℕ) → ℕ
negated w v = (2 ^ w - v) % 2 ^ w

finish_unsigned-digits :
    (nptr v s : ℕ) (neg : Bool)
    → finish_unsigned nptr neg (scan v digits (s + 1))
      ≡ parsed (if neg then negated 64 v else v) s false
unfolding finish_unsigned end_of
finish_unsigned-digits nptr v s neg = let place : s + 1 - 1 ≡ s = omega arith in rw place refl

finish_unsigned-over :
    (nptr acc s : ℕ) (neg : Bool)
    → finish_unsigned nptr neg (scan acc too_large (s + 1)) ≡ parsed (2 ^ 64 - 1) s true
unfolding finish_unsigned end_of
finish_unsigned-over nptr acc s neg = let place : s + 1 - 1 ≡ s = omega arith in rw place refl

-- For a numeral at `nptr`, in any base and with any prefix, strtoull returns its value, negated in
-- 64 bits after a minus, and ULLONG_MAX with ERANGE where the value is greater than that; `*endptr`
-- is the address behind the numeral.
pub strtoull-Numeral :
    (given fuel nptr : ℕ) (m : Memory) (text : List ℕ) (stop : ℕ) (neg : Bool) (base : ℕ)
    (ds : List ℕ)
    → Numeral given text stop neg base ds
    → BytesAt m nptr (text ++ stop ∷ [])
    → length text < fuel
    → strtoull fuel nptr given m
      ≡ ok
          (if ltb (2 ^ 64 - 1) (value_from base 0 ds)
            then parsed (2 ^ 64 - 1) (nptr + length text) true
            else parsed
                (if neg then negated 64 (value_from base 0 ds) else value_from base 0 ds)
                (nptr + length text)
                false)
          m
unfolding strtoull
strtoull-Numeral given fuel nptr m text stop neg base ds grammar at enough =
    let (positive, all, some_digit) = Numeral-AllBelow given grammar in
    let e =
      scan_number_lem given (λ _. 2 ^ 64 - 1) fuel nptr m text stop neg base ds grammar at enough in
    elim (Bool-cases (ltb (2 ^ 64 - 1) (value_from base 0 ds))) [
      | inl over ↦
          let any =
            advance_all-over (2 ^ 64 - 1) base ds 0 no_digits no_digits-ne (omega arith) positive
              all (omega arith) (ground (arith, over)) in
          rw (e, over, any, finish_unsigned-over nptr _ (nptr + length text) neg) refl
      | inr fits ↦
          let all_value =
            advance_all-value (2 ^ 64 - 1) base ds 0 no_digits no_digits-ne (omega arith) positive
              all (ground (arith, fits)) in
          rw
            (
              e,
              fits,
              all_value,
              some_digit,
              finish_unsigned-digits nptr (value_from base 0 ds) (nptr + length text) neg,
            )
            refl
    ]

-- For a numeral at `nptr` strtoul returns what strtoull returns for it where that fits in 32 bits,
-- and ULONG_MAX with ERANGE where it does not: also for a numeral with a minus, unless it is zero
-- or its value is greater than 2 ^ 64 - 2 ^ 32.
pub strtoul-Numeral :
    (given fuel nptr : ℕ) (m : Memory) (text : List ℕ) (stop : ℕ) (neg : Bool) (base : ℕ)
    (ds : List ℕ)
    → Numeral given text stop neg base ds
    → BytesAt m nptr (text ++ stop ∷ [])
    → length text < fuel
    → strtoul fuel nptr given m
      ≡ ok
          (if ltb (2 ^ 64 - 1) (value_from base 0 ds)
              || ltb
                  (2 ^ 32 - 1)
                  (if neg then negated 64 (value_from base 0 ds) else value_from base 0 ds)
            then parsed (2 ^ 32 - 1) (nptr + length text) true
            else parsed
                (if neg then negated 64 (value_from base 0 ds) else value_from base 0 ds)
                (nptr + length text)
                false)
          m
unfolding strtoul clamp_unsigned_long
strtoul-Numeral given fuel nptr m text stop neg base ds grammar at enough =
    let e = strtoull-Numeral given fuel nptr m text stop neg base ds grammar at enough in
    elim (Bool-cases (ltb (2 ^ 64 - 1) (value_from base 0 ds))) [
      | inl over ↦ rw (e, over) refl
      | inr fits ↦
          elim (Bool-cases (
            ltb (2 ^ 32 - 1)
              (if neg then negated 64 (value_from base 0 ds) else value_from base 0 ds))) [
                | inl y ↦ rw (e, fits, y) refl
                | inr n ↦ rw (e, fits, n) refl
              ]
    ]
