-- ===== src/Calendar/Asctime/Digits.antt =====
-- The digits of format_num of src/c/time/strftime.c and of format_2d of src/c/time/asctime.c.
use small_lib_c.Base.{
  ℕ, zero, suc, ◌+◌, ◌-◌, ◌/◌, ◌%◌, ◌^◌, ◌≤◌, ◌<◌, ◌≡◌, refl, sym, ◌∙◌, ap, ap₂, true, false, some,
  List, [], ◌∷◌, ◌++◌, ltb, length, Bool-cases, inl, inr, arith,
}
use small_lib_c.Base.Int.{ℤ, pos, ltb_ℤ}
use small_lib_c.Calendar.Directives.{string, leading_zeros, number_digits, format_num}
use small_lib_c.Calendar.Asctime.{format_2d, day_of_month, year_digits}
use native.Mathlib.Nat.{pow-suc}

-- The last `width` digits of a value.
abbrev pub fixed : (width value : ℕ) → List ℕ → List ℕ
fixed zero value p = p
fixed (suc w) value p = fixed w (value / 10) ((b'0' + value % 10) ∷ p)

leading_zeros-fixed : (w : ℕ) (p : List ℕ) → leading_zeros w p ≡ fixed w 0 p
unfolding leading_zeros
leading_zeros-fixed zero p = refl
leading_zeros-fixed (suc w) p = leading_zeros-fixed w (b'0' ∷ p)

digits_fixed :
    (k w value : ℕ) (p : List ℕ)
    → w < k
    → value < 10 ^ suc w
    → number_digits k value (suc w) p ≡ some (fixed (suc w) value p)
unfolding number_digits
digits_fixed zero w value p room small = absurd (omega arith)
digits_fixed (suc k) zero value p room small =
    let none_left : ltb 0 (value / 10) ≡ false = ground (arith, small) in
    rw (number_digits, none_left) (ap some (leading_zeros-fixed 0 ((b'0' + value % 10) ∷ p)))
digits_fixed (suc k) (suc w) value p room small = elim (Bool-cases (ltb 0 (value / 10))) [
  | inr n ↦
      let none_left : value / 10 ≡ 0 = ground (arith, n) in
      let digits = (b'0' + value % 10) ∷ p in
      let less : suc (suc w) - 1 ≡ suc w = omega arith in
      rw (number_digits, n, less)
        (ap some
          (leading_zeros-fixed (suc w) digits ∙ ap (λ v. fixed (suc w) v digits) (sym none_left)))
  | inl y ↦
      let less : suc (suc w) - 1 ≡ suc w = omega arith in
      rw (number_digits, y, less)
        (digits_fixed k w (value / 10) ((b'0' + value % 10) ∷ p) (omega (arith, room))
          (omega (arith, small, pow-suc 10 (suc w))))
]

-- Numbers with `width` digits.
pub format_fixed :
    (w value : ℕ)
    → w < 31
    → value < 10 ^ suc w
    → format_num (pos value) (suc w) ≡ string (fixed (suc w) value [])
unfolding format_num
format_fixed w value room small = rw (format_num, digits_fixed 31 w value [] room small) refl

pub cons_two : {a b c d : ℕ} → a ≡ c → b ≡ d → a ∷ b ∷ [] ≡ c ∷ d ∷ []
cons_two e f = ap₂ (λ x y. x ∷ y ∷ []) e f

pub fixed_2d : (n : ℕ) → n < 100 → fixed 2 n [] ≡ format_2d (pos n)
fixed_2d n lt = cons_two (omega (arith, lt)) (omega (arith, lt))

-- A day of two digits, although the width is 1.
pub wide_day :
    (mday : ℕ) → 10 ≤ mday → mday < 100 → format_num (pos mday) 1 ≡ string (fixed 2 mday [])
unfolding format_num number_digits
wide_day mday wide small =
    let more : ltb 0 (mday / 10) ≡ true = ground (arith, wide) in
    let last : ltb 0 (mday / 10 / 10) ≡ false = ground (arith, small) in
    rw (format_num, number_digits, more, last)
      (ap string (leading_zeros-fixed 0 ((b'0' + mday / 10 % 10) ∷ (b'0' + mday % 10) ∷ [])))

pub length_day : (z : ℤ) → length (day_of_month z) ≡ 2
length_day z = elim (Bool-cases (ltb_ℤ z (pos 10))) [
  | inl y ↦ rw (day_of_month, y) refl
  | inr n ↦ rw (day_of_month, n) refl
]

pub four_digits : (y : ℕ) → y < 10000 → fixed 4 y [] ≡ year_digits (pos y)
four_digits y lt =
    ap₂ (λ p q. p ++ q) (cons_two (omega (arith, lt)) (omega (arith, lt)))
      (cons_two (omega (arith, lt)) (omega (arith, lt)))
