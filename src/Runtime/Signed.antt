-- ===== src/Runtime/Signed.antt =====
-- Signed division and remainder: __divsi3, __divdi3, __modsi3, __moddi3.
use small_lib_c.Base.{
  ℕ, zero, suc, ◌-◌, ◌*◌, ◌/◌, ◌%◌, ◌^◌, ◌≤◌, ◌<◌, ◌≡◌, refl, ◌∙◌, true, false, arith, ◌==◌,
  if◌then◌else◌, Option, some, none, Bool, xor,
}
use small_lib_c.Base.Int.{ℤ, pos, negsuc, abs, is_negative, neg}
use native.Mathlib.Nat.{
  pow-suc, mod-eq_of_lt, one-le-pow, mod-lt, div-le_self, div-one, div-mul-le_self, mod-one,
}
use small_lib_c.Runtime.{
  div_state, div_loop, mod_loop, min_int, word_of, neg_word, is_zero, with_sign, magnitude, sdiv,
  smod, divsi3, divdi3, modsi3, moddi3,
}
use small_lib_c.Runtime.Unsigned.{div_loop_start, mod_loop_start}

-- The integers of a signed word.
abbrev pub Fits : ℕ → ℤ → Type 0
Fits w (pos n) = n < 2 ^ (w - 1)
Fits w (negsuc n) = n < 2 ^ (w - 1)

-- Division that rounds towards zero, and its remainder.
abbrev pub truncated : Bool → ℕ → ℤ
truncated negative n = if negative then neg (pos n) else pos n

abbrev pub trunc_div : ℤ → ℤ → ℤ
trunc_div n d = truncated (xor (is_negative n) (is_negative d)) (abs n / abs d)

abbrev pub trunc_mod : ℤ → ℤ → ℤ
trunc_mod n d = truncated (is_negative n) (abs n % abs d)

twice_half : (w : ℕ) → 0 < w → 2 ^ w ≡ 2 ^ (w - 1) * 2
twice_half zero h = absurd (omega arith)
twice_half (suc w) h = let e : suc w - 1 ≡ w = omega arith in rw (e, pow-suc)

module _ (w : ℕ) (hw : 0 < w) where
  pub magnitude_lem : (n : ℤ) → Fits w n → magnitude w n ≡ abs n
  unfolding magnitude word_of neg_word
  magnitude_lem (pos n) h = mod-eq_of_lt (omega (arith, twice_half w hw)) ∙ omega arith
  magnitude_lem (negsuc n) h =
      let small : n % 2 ^ w ≡ n = mod-eq_of_lt (omega (arith, twice_half w hw)) in
      let wrapped : 2 ^ w - (2 ^ w - 1 - n % 2 ^ w) ≡ suc n =
        omega (arith, small, twice_half w hw) in
      rw wrapped (mod-eq_of_lt (omega (arith, twice_half w hw, one-le-pow (w - 1) 2)) ∙ omega arith)

  abs-le : (n : ℤ) → Fits w n → abs n ≤ 2 ^ (w - 1)
  abs-le (pos n) h = omega arith
  abs-le (negsuc n) h = omega arith

  -- The conversion to the signed type and the sign, at a magnitude of at most 2 ^ (w - 1).
  signed_result :
      (s : Bool) (q : ℕ)
      → q ≤ 2 ^ (w - 1)
      → with_sign w s q ≡ (
          if q == 2 ^ (w - 1) then (if s then none else some (min_int w)) else some (truncated s q))
  unfolding with_sign
  signed_result true q h = ground (arith, twice_half w hw, one-le-pow (w - 1) 2)
  signed_result false q h = ground (arith, twice_half w hw, one-le-pow (w - 1) 2)

  abs-lt-word : (n : ℤ) → Fits w n → abs n < 2 ^ w
  abs-lt-word n h = omega (arith, abs-le n h, twice_half w hw, one-le-pow (w - 1) 2)

  quotient_loop :
      (n d : ℤ)
      → Fits w n
      → Fits w d
      → 0 < abs d
      → (div_loop w w (magnitude w n) (magnitude w d) (div_state 0 0)).quotient ≡ abs n / abs d
  quotient_loop n d hn hd d_pos = rw (
    magnitude_lem n hn,
    magnitude_lem d hd,
    div_loop_start w (abs n) (abs d) (abs-lt-word n hn) d_pos,
  )

  remainder_loop :
      (n d : ℤ)
      → Fits w n
      → Fits w d
      → 0 < abs d
      → mod_loop w w (magnitude w n) (magnitude w d) 0 ≡ abs n % abs d
  remainder_loop n d hn hd d_pos =
      rw (magnitude_lem n hn, magnitude_lem d hd)
        (mod_loop_start w (abs n) (abs d) (abs-lt-word n hn) d_pos)

-- What the signed division returns: 0 for the divisor 0; where the quotient's magnitude is
-- 2 ^ (w - 1), the least integer by the code's own test if the divisor is -1, and an undefined
-- negation if it is 1; the truncated quotient otherwise.
abbrev pub div_result : ℕ → ℤ → ℤ → Option ℤ
div_result w n d =
    if is_zero d
    then some (pos 0)
    else if abs n / abs d == 2 ^ (w - 1)
    then (if is_negative d then some (min_int w) else none)
    else some (trunc_div n d)

-- A quotient of magnitude 2 ^ (w - 1) is that of the least integer by 1 or -1.
overflow : (w n d : ℕ) → n ≤ 2 ^ (w - 1) → 0 < d → n / d ≡ 2 ^ (w - 1) → (n ≡ 2 ^ (w - 1)) × (d ≡ 1)
overflow w n (suc zero) hn hd e = (omega (arith, div-one n), omega arith)
overflow w n (suc (suc d)) hn hd e =
    let twice : n / suc (suc d) * 2 ≤ n / suc (suc d) * suc (suc d) = grind arith in
    absurd (omega (arith, div-mul-le_self n (suc (suc d)), one-le-pow (w - 1) 2, twice))
overflow w n zero hn hd e = absurd (omega arith)

module _ (w : ℕ) (hw : 0 < w) where
  sdiv_lem : (n d : ℤ) → Fits w n → Fits w d → sdiv w n d ≡ div_result w n d
  unfolding sdiv
  sdiv_lem n (pos zero) hn hd = refl
  sdiv_lem (pos n) (pos (suc d)) hn hd = ground (
    arith,
    quotient_loop w hw (pos n) (pos (suc d)),
    signed_result w hw false (n / suc d),
    div-le_self n (suc d),
    overflow w n (suc d),
  )
  sdiv_lem (pos n) (negsuc d) hn hd = ground (
    arith,
    quotient_loop w hw (pos n) (negsuc d),
    signed_result w hw true (n / suc d),
    div-le_self n (suc d),
    overflow w n (suc d),
  )
  sdiv_lem (negsuc n) (pos (suc d)) hn hd = ground (
    arith,
    quotient_loop w hw (negsuc n) (pos (suc d)),
    signed_result w hw true (suc n / suc d),
    div-le_self (suc n) (suc d),
    overflow w (suc n) (suc d),
  )
  sdiv_lem (negsuc n) (negsuc d) hn hd = ground (
    arith,
    quotient_loop w hw (negsuc n) (negsuc d),
    signed_result w hw false (suc n / suc d),
    div-le_self (suc n) (suc d),
    overflow w (suc n) (suc d),
  )

  signed_remainder : (s : Bool) (r : ℕ) → r < 2 ^ (w - 1) → with_sign w s r ≡ some (truncated s r)
  unfolding with_sign
  signed_remainder true r h = ground arith
  signed_remainder false r h = ground arith

  remainder-lt : (n d : ℤ) → Fits w d → 0 < abs d → abs n % abs d < 2 ^ (w - 1)
  remainder-lt n d hd d_pos = omega (arith, abs-le w hw d hd, mod-lt (abs n) d_pos)

  smod_lem :
      (n d : ℤ)
      → Fits w n
      → Fits w d
      → smod w n d ≡ (if is_zero d then some (pos 0) else some (trunc_mod n d))
  unfolding smod
  smod_lem n (pos zero) hn hd = refl
  smod_lem (pos n) (pos (suc d)) hn hd = ground (
    arith,
    remainder_loop w hw (pos n) (pos (suc d)),
    signed_remainder false (n % suc d),
    remainder-lt (pos n) (pos (suc d)),
  )
  smod_lem (pos n) (negsuc d) hn hd = ground (
    arith,
    remainder_loop w hw (pos n) (negsuc d),
    signed_remainder false (n % suc d),
    remainder-lt (pos n) (negsuc d),
  )
  smod_lem (negsuc n) (pos (suc d)) hn hd = ground (
    arith,
    remainder_loop w hw (negsuc n) (pos (suc d)),
    signed_remainder true (suc n % suc d),
    remainder-lt (negsuc n) (pos (suc d)),
  )
  smod_lem (negsuc n) (negsuc d) hn hd = ground (
    arith,
    remainder_loop w hw (negsuc n) (negsuc d),
    signed_remainder true (suc n % suc d),
    remainder-lt (negsuc n) (negsuc d),
    mod-one (suc n),
  )

-- For n and d in the range of a signed 32 bit word, __divsi3 and __modsi3 return the quotient
-- rounded towards zero and the remainder with the sign of n. For d = 0 both return 0. For
-- n = -2 ^ 31 and d = -1 the quotient is -2 ^ 31, and for n = -2 ^ 31 and d = 1 the code negates
-- the least integer, which is undefined.
pub signed_division_32 :
    (n d : ℤ)
    → Fits 32 n
    → Fits 32 d
    → (divsi3 n d ≡ div_result 32 n d)
      × (modsi3 n d ≡ (if is_zero d then some (pos 0) else some (trunc_mod n d)))
unfolding divsi3 modsi3
signed_division_32 n d hn hd =
    (sdiv_lem 32 (omega arith) n d hn hd, smod_lem 32 (omega arith) n d hn hd)

-- For n and d in the range of a signed 64 bit word, __divdi3 and __moddi3 return the quotient
-- rounded towards zero and the remainder with the sign of n. For d = 0 both return 0. For
-- n = -2 ^ 63 and d = -1 the quotient is -2 ^ 63, and for n = -2 ^ 63 and d = 1 the code negates
-- the least integer, which is undefined.
pub signed_division_64 :
    (n d : ℤ)
    → Fits 64 n
    → Fits 64 d
    → (divdi3 n d ≡ div_result 64 n d)
      × (moddi3 n d ≡ (if is_zero d then some (pos 0) else some (trunc_mod n d)))
unfolding divdi3 moddi3
signed_division_64 n d hn hd =
    (sdiv_lem 64 (omega arith) n d hn hd, smod_lem 64 (omega arith) n d hn hd)
