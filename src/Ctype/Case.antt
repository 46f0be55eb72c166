-- ===== src/Ctype/Case.antt =====
-- Case conversion: tolower and toupper.
use small_lib_c.Base.{
  Bool-cases, inl, inr, ap, ◌∙◌, true, if◌then◌else◌, false, ℕ, zero, suc, ◌+◌, ◌-◌, ◌^◌, ◌<◌,
  bit_and, ◌≡◌, refl, Bool, true, ◌||◌, not, arith, ◌==◌, if◌then◌else◌,
}
use small_lib_c.Ctype.{tolower, toupper}
use small_lib_c.Ctype.Ranges.{between, bit_or_32, isupper_lem, islower_lem}

-- A test of every code under a bound, by computation.
module _ (test : ℕ → Bool) where
  passes_under : (bound : ℕ) → Bool
  passes_under zero = true
  passes_under (suc code) = if test code then passes_under code else false

  passes-test : (bound : ℕ) → passes_under bound ≡ true → (c : ℕ) → c < bound → test c ≡ true
  unfolding passes_under
  passes-test zero passed c below = absurd (omega arith)
  passes-test (suc code) passed c below =
      let (here, others) : (test code ≡ true) × (passes_under code ≡ true) =
        (ground arith, ground arith) in
      elim (Bool-cases (c == code)) [
        | inl y ↦ let same : c ≡ code = ground (arith, y) in ap test same ∙ here
        | inr y ↦ passes-test code others c (ground (arith, y))
      ]

clear_case_table :
    passes_under (λ x. not (between b'a' b'z' x) || bit_and x (2 ^ 32 - 33) == x - 32) 123 ≡ true
unfolding passes_under
clear_case_table = refl

clear_case : (c : ℕ) → between b'a' b'z' c ≡ true → bit_and c (2 ^ 32 - 33) ≡ c - 32
clear_case c h =
    let row =
      passes-test (λ x. not (between b'a' b'z' x) || bit_and x (2 ^ 32 - 33) == x - 32) 123
        clear_case_table c (ground arith) in
    ground arith

-- For every `int` bit pattern c, tolower adds 32 to the codes of A-Z, toupper subtracts 32 from
-- those of a-z, and both return any other code as it is.
pub case_conversion :
    (c : ℕ)
    → c < 2 ^ 32
    → (tolower c ≡ (if between b'A' b'Z' c then c + 32 else c))
      × (toupper c ≡ (if between b'a' b'z' c then c - 32 else c))
unfolding tolower toupper
case_conversion c h =
    (ground (arith, isupper_lem c h, bit_or_32 c), ground (arith, islower_lem c h, clear_case c))
