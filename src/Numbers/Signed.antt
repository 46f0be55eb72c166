-- ===== src/Numbers/Signed.antt =====
-- strtoll, strtol and atoll on a numeral.
use small_lib_c.Base.{
  ℕ, zero, suc, ◌+◌, ◌-◌, ◌%◌, ◌^◌, ◌≤◌, ◌<◌, ◌≡◌, refl, ap, Bool, true, false, List, [], ◌∷◌, ◌++◌,
  ltb, leb, if◌then◌else◌, arith, Bool-cases, inl, inr, length, min,
}
use native.Mathlib.Nat.{mod-eq_of_lt}
use small_lib_c.Base.Int.{ℤ, pos, negsuc, sub_ℕ}
use small_lib_c.Memory.{Memory, ok}
use small_lib_c.Memory.Region.{BytesAt}
use small_lib_c.Runtime.{signed_of}
use small_lib_c.Numbers.{
  no_digits, digits, too_large, scan, Parsed, parsed, end_of, signed_limit, finish_signed, strtoll,
  clamp_long, strtol,
}
use small_lib_c.Numbers.Digits.{value_from, advance_all-value, advance_all-over, no_digits-ne}
use small_lib_c.Numbers.Grammar.{Numeral, Numeral-AllBelow, scan_number_lem}

-- The greatest magnitude of a w bit signed number of that sign.
abbrev pub magnitude_limit : (w : ℕ) → Bool → ℕ
magnitude_limit w neg = if neg then 2 ^ (w - 1) else 2 ^ (w - 1) - 1

abbrev pub with_sign : Bool → ℕ → ℤ
with_sign neg v = if neg then sub_ℕ 0 v else pos v

-- The nearest w bit number to a magnitude and a sign, and whether it is another number.
abbrev pub nearest : (w : ℕ) → Bool → (v endptr : ℕ) → Parsed ℤ
nearest w neg v endptr =
    parsed (with_sign neg (min v (magnitude_limit w neg))) endptr (ltb (magnitude_limit w neg) v)

signed_of-with_sign :
    (neg : Bool) (v : ℕ)
    → v ≤ magnitude_limit 64 neg
    → signed_of 64 (if neg then (2 ^ 64 - v) % 2 ^ 64 else v) ≡ with_sign neg v
unfolding signed_of
signed_of-with_sign true zero h = refl
signed_of-with_sign true (suc v) h =
    let wrap : (2 ^ 64 - suc v) % 2 ^ 64 ≡ 2 ^ 64 - suc v = mod-eq_of_lt (omega arith) in
    let test : ltb (2 ^ 64 - suc v) (2 ^ 63) ≡ false = ground arith in
    let size : 2 ^ 64 - 1 - (2 ^ 64 - suc v) ≡ suc v - 0 - 1 = omega arith in
    let some_v : leb (suc v) 0 ≡ false = ground arith in rw (wrap, test, some_v) (ap negsuc size)
signed_of-with_sign false v h = let test : ltb v (2 ^ 63) ≡ true = ground arith in rw test refl

limit_value :
    (neg : Bool)
    → signed_of 64 (if neg then 2 ^ 63 else 2 ^ 63 - 1) ≡ with_sign neg (magnitude_limit 64 neg)
unfolding signed_of
limit_value true = refl
limit_value false = refl

finish_signed-digits :
    (nptr v s : ℕ) (neg : Bool)
    → v ≤ magnitude_limit 64 neg
    → finish_signed nptr neg (scan v digits (s + 1)) ≡ nearest 64 neg v s
unfolding finish_signed end_of
finish_signed-digits nptr v s neg h =
    let place : s + 1 - 1 ≡ s = omega arith in
    let whole : min v (magnitude_limit 64 neg) ≡ v = omega arith in
    let test : ltb (magnitude_limit 64 neg) v ≡ false = ground arith in
    rw (place, signed_of-with_sign neg v h, whole, test) refl

finish_signed-over :
    (nptr acc v s : ℕ) (neg : Bool)
    → magnitude_limit 64 neg < v
    → finish_signed nptr neg (scan acc too_large (s + 1)) ≡ nearest 64 neg v s
unfolding finish_signed end_of
finish_signed-over nptr acc v s neg h =
    let place : s + 1 - 1 ≡ s = omega arith in
    let cut : min v (magnitude_limit 64 neg) ≡ magnitude_limit 64 neg = omega arith in
    let test : ltb (magnitude_limit 64 neg) v ≡ true = ground arith in
    rw (place, cut, test) (ap (λ t. parsed t s true) (limit_value neg))

-- For a numeral at `nptr`, in any base and with any prefix, strtoll returns the nearest 64 bit number
-- to its value, with ERANGE where that is another number; `*endptr` is the address behind it.
pub strtoll-Numeral :
    (given fuel nptr : ℕ) (m : Memory) (text : List ℕ) (stop : ℕ) (neg : Bool) (base : ℕ)
    (ds : List ℕ)
    → Numeral given text stop neg base ds
    → BytesAt m nptr (text ++ stop ∷ [])
    → length text < fuel
    → strtoll fuel nptr given m ≡ ok (nearest 64 neg (value_from base 0 ds) (nptr + length text)) m
unfolding strtoll
strtoll-Numeral given fuel nptr m text stop neg base ds grammar at enough =
    let (positive, all, some_digit) = Numeral-AllBelow given grammar in
    let e =
      scan_number_lem given signed_limit fuel nptr m text stop neg base ds grammar at enough in
    let small : magnitude_limit 64 neg < 2 ^ 64 = ground arith in
    elim (Bool-cases (ltb (magnitude_limit 64 neg) (value_from base 0 ds))) [
      | inl over ↦
          let any =
            advance_all-over (magnitude_limit 64 neg) base ds 0 no_digits no_digits-ne small
              positive all (omega arith) (ground (arith, over)) in
          rw
            (
              e,
              any,
              finish_signed-over nptr _ (value_from base 0 ds) (nptr + length text) neg
                  (ground (arith, over)),
            )
            refl
      | inr fits ↦
          let all_value =
            advance_all-value (magnitude_limit 64 neg) base ds 0 no_digits no_digits-ne small
              positive all (ground (arith, fits)) in
          rw
            (
              e,
              all_value,
              some_digit,
              finish_signed-digits nptr (value_from base 0 ds) (nptr + length text) neg
                  (ground (arith, fits)),
            )
            refl
    ]

-- Rounding to the nearest 64 bit number first changes nothing for 32 bits.
clamp_long-nearest :
    (neg : Bool) (v endptr : ℕ) → clamp_long (nearest 64 neg v endptr) ≡ nearest 32 neg v endptr
unfolding clamp_long
clamp_long-nearest true zero endptr = refl
clamp_long-nearest true (suc v) endptr =
    let some_64 : leb (min (suc v) (2 ^ 63)) 0 ≡ false = ground arith in
    let some_32 : leb (min (suc v) (2 ^ 31)) 0 ≡ false = ground arith in
    elim (Bool-cases (ltb (2 ^ 31) (suc v))) [
      | inl over ↦
          let test : ltb (0 + 2 ^ 31) (0 + suc (min (suc v) (2 ^ 63) - 0 - 1)) ≡ true =
            ground (arith, over) in
          let above : ltb (2 ^ 31 - 1 + suc (min (suc v) (2 ^ 63) - 0 - 1)) 0 ≡ false =
            ground arith in
          let cut : min (suc v) (2 ^ 31) ≡ 2 ^ 31 = ground (arith, over) in
          rw (some_64, above, test, over, cut) refl
      | inr fits ↦
          let test : ltb (0 + 2 ^ 31) (0 + suc (min (suc v) (2 ^ 63) - 0 - 1)) ≡ false =
            ground (arith, fits) in
          let above : ltb (2 ^ 31 - 1 + suc (min (suc v) (2 ^ 63) - 0 - 1)) 0 ≡ false =
            ground arith in
          let whole_64 : min (suc v) (2 ^ 63) ≡ suc v = ground (arith, fits) in
          let whole_32 : min (suc v) (2 ^ 31) ≡ suc v = ground (arith, fits) in
          let no_error : ltb (2 ^ 63) (suc v) ≡ false = ground (arith, fits) in
          rw (some_64, some_32, above, test, whole_64, whole_32, no_error, fits) refl
    ]
clamp_long-nearest false v endptr = elim (Bool-cases (ltb (2 ^ 31 - 1) v)) [
  | inl over ↦
      let test : ltb (2 ^ 31 - 1) (min v (2 ^ 63 - 1) + 0) ≡ true = ground (arith, over) in
      let cut : min v (2 ^ 31 - 1) ≡ 2 ^ 31 - 1 = ground (arith, over) in rw (test, over, cut) refl
  | inr fits ↦
      let test : ltb (2 ^ 31 - 1) (min v (2 ^ 63 - 1) + 0) ≡ false = ground (arith, fits) in
      let below : ltb (min v (2 ^ 63 - 1) + 2 ^ 31) 0 ≡ false = ground arith in
      let whole_64 : min v (2 ^ 63 - 1) ≡ v = ground (arith, fits) in
      let whole_32 : min v (2 ^ 31 - 1) ≡ v = ground (arith, fits) in
      let no_error : ltb (2 ^ 63 - 1) v ≡ false = ground (arith, fits) in
      rw (test, below, whole_64, whole_32, no_error, fits) refl
]

-- For a numeral at `nptr`, in any base and with any prefix, strtol returns the nearest 32 bit number
-- to its value, with ERANGE where that is another number; `*endptr` is the address behind it.
pub strtol-Numeral :
    (given fuel nptr : ℕ) (m : Memory) (text : List ℕ) (stop : ℕ) (neg : Bool) (base : ℕ)
    (ds : List ℕ)
    → Numeral given text stop neg base ds
    → BytesAt m nptr (text ++ stop ∷ [])
    → length text < fuel
    → strtol fuel nptr given m ≡ ok (nearest 32 neg (value_from base 0 ds) (nptr + length text)) m
unfolding strtol
strtol-Numeral given fuel nptr m text stop neg base ds grammar at enough =
    rw (strtoll-Numeral given fuel nptr m text stop neg base ds grammar at enough)
      (ap (λ t. ok t m) (clamp_long-nearest neg (value_from base 0 ds) (nptr + length text)))
