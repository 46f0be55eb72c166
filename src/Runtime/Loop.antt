-- ===== src/Runtime/Loop.antt =====
-- The long division: after the rounds for the bits down to k the quotient's high bits and the
-- remainder are those of n >> k.
use small_lib_c.Base.{
  ℕ, zero, suc, ◌+◌, ◌-◌, ◌*◌, ◌/◌, ◌%◌, ◌^◌, ◌≤◌, ◌<◌, ◌≡◌, sym, ap, ◌∙◌, bit_or, true, false, inl,
  inr, arith, leb, leb→le, Bool-cases, ap₂, ◌⊎◌,
}
use small_lib_c.Base.Bits.{div_mod_unique, div_mod_unique, bit_or-disjoint}
use native.Mathlib.Nat.{
  pow-suc, div-div-eq-div-mul, div-le_self, mod-eq_of_lt, div-one, one-le-pow, mul_assoc, mul_comm,
}
use small_lib_c.Runtime.{div_state, shift_in, div_round, div_loop, mod_round, mod_loop}

pub shift_in-eq :
    (w i n r m d : ℕ)
    → n < 2 ^ w
    → m * d + r ≡ n / 2 ^ suc i
    → shift_in w i n r ≡ r * 2 + n / 2 ^ i % 2
unfolding shift_in
shift_in-eq w i n r m d hn e =
    let halves : n / 2 ^ i / 2 ≡ n / 2 ^ suc i =
      div-div-eq-div-mul n (2 ^ i) 2 ∙ ap (λ (t : ℕ). n / t) (sym (pow-suc 2 i)) in
    let small : r * 2 < 2 ^ w = omega (arith, halves, div-le_self n (2 ^ i)) in
    rw (mod-eq_of_lt small) (bit_or-disjoint 1 r (n / 2 ^ i % 2) (omega arith))

-- What a round makes of the prefix n >> (i + 1), in the two cases of its test.
module _ (w i n d m r : ℕ) (hn : n < 2 ^ w) (hr : r < d) (e : m * d + r ≡ n / 2 ^ suc i) where
  prefix : m * d * 2 + (r * 2 + n / 2 ^ i % 2) ≡ n / 2 ^ i
  prefix =
      let halves : n / 2 ^ i / 2 ≡ n / 2 ^ suc i =
        div-div-eq-div-mul n (2 ^ i) 2 ∙ ap (λ (t : ℕ). n / t) (sym (pow-suc 2 i)) in
      omega (arith, halves)

  pub round_cases :
      ((leb d (shift_in w i n r) ≡ true)
        × ((m * 2 + 1) * d + (shift_in w i n r - d) ≡ n / 2 ^ i)
        × (shift_in w i n r - d < d))
      ⊎ ((leb d (shift_in w i n r) ≡ false)
          × (m * 2 * d + shift_in w i n r ≡ n / 2 ^ i)
          × (shift_in w i n r < d))
  round_cases =
      let shifted = shift_in-eq w i n r m d hn e in
      let less : shift_in w i n r < d * 2 = omega (arith, shifted) in
      let low : m * 2 * d ≡ m * d * 2 = grind arith in
      let high : (m * 2 + 1) * d ≡ m * d * 2 + d = grind arith in
      elim (Bool-cases (leb d (shift_in w i n r))) [
        | inl fits ↦
            let le : d ≤ shift_in w i n r = leb→le d (shift_in w i n r) fits in
            inl (fits, omega (arith, prefix, shifted, high), omega (arith, less))
        | inr small ↦
            let lt : shift_in w i n r < d = ground arith in
            inr (small, omega (arith, prefix, shifted, low), lt)
      ]

-- A multiple of 2 ^ (i + 1) has its bit i clear, and so is a multiple of 2 ^ i.
pub doubled : (m i : ℕ) → m * 2 ^ suc i ≡ m * 2 * 2 ^ i
doubled m i = rw (pow-suc, mul_comm (2 ^ i) 2) (sym (mul_assoc m 2 (2 ^ i)))

pub set_bit : (m i : ℕ) → bit_or (m * 2 ^ suc i) (2 ^ i) ≡ (m * 2 + 1) * 2 ^ i
set_bit m i =
    let small : 2 ^ i < 2 ^ suc i = omega (arith, pow-suc 2 i, one-le-pow i 2 (omega arith)) in
    bit_or-disjoint (suc i) m (2 ^ i) small ∙ omega (arith, doubled m i)

pub div_loop_lem :
    (i w n d m r : ℕ)
    → n < 2 ^ w
    → r < d
    → m * d + r ≡ n / 2 ^ i
    → div_loop i w n d (div_state (m * 2 ^ i) r) ≡ div_state (n / d) (n % d)
unfolding div_loop div_round
div_loop_lem zero w n d m r hn hr e =
    let (eq, er) = div_mod_unique m n d r (e ∙ div-one n) hr in ap₂ div_state (omega (arith, eq)) er
div_loop_lem (suc i) w n d m r hn hr e = elim (round_cases w i n d m r hn hr e) [
  | inl (fits, e', h') ↦ rw (fits, set_bit m i) (div_loop_lem i w n d (m * 2 + 1) _ hn h' e')
  | inr (small, e', h') ↦ rw (small, doubled m i) (div_loop_lem i w n d (m * 2) _ hn h' e')
]

pub mod_loop_lem :
    (i w n d m r : ℕ) → n < 2 ^ w → r < d → m * d + r ≡ n / 2 ^ i → mod_loop i w n d r ≡ n % d
unfolding mod_loop mod_round
mod_loop_lem zero w n d m r hn hr e = (div_mod_unique m n d r (e ∙ div-one n) hr).1
mod_loop_lem (suc i) w n d m r hn hr e = elim (round_cases w i n d m r hn hr e) [
  | inl (fits, e', h') ↦ rw fits (mod_loop_lem i w n d (m * 2 + 1) _ hn h' e')
  | inr (small, e', h') ↦ rw small (mod_loop_lem i w n d (m * 2) _ hn h' e')
]
