-- ===== src/Base/Bits.antt =====
-- Machine words as native numbers: the bit operations at variables, digit by digit, with the laws
-- of `|` on operands whose bits do not meet and of `&` with a mask of low bits.
use Prim.Native.Nat.{
  ◌-◌, ℕ, zero, suc, ◌+◌, ◌*◌, ◌/◌, ◌%◌, ◌^◌, ◌≤◌, ◌<◌, max, min, bit_or, bit_and, bit_and-bitwise,
  digits, bit_or-bitwise,
}
use mathlib.Core.Path.{◌∙◌, ap, ◌≡◌, refl, sym}
use native.Mathlib.Omega.{arith}
use native.Mathlib.Nat.{
  div-one, div-div-eq-div-mul, mul_comm, mod-eq_of_lt, div-eq_of_lt-le, div-add-mod', mod-lt,
  one-le-pow, pow-suc, mul-div_cancel, mul_assoc,
}

-- The digit recursion that `|` stands for has one result for every count that covers the first
-- operand.
same_digits :
    (fuel more x y : ℕ)
    → x ≤ fuel
    → x ≤ more
    → digits (λ c. c) max fuel x y ≡ digits (λ c. c) max more x y
same_digits (suc fuel) (suc more) (suc x) y hf hm =
    omega (arith, same_digits fuel more (suc x / 2) (y / 2) (omega arith) (omega arith))
same_digits (suc fuel) (suc more) zero y hf hm = refl
same_digits zero zero zero y hf hm = refl
same_digits zero (suc more) zero y hf hm = refl
same_digits (suc fuel) zero zero y hf hm = refl
same_digits zero more (suc x) y hf hm = absurd (omega arith)
same_digits (suc fuel) zero (suc x) y hf hm = absurd (omega arith)

pub zero-bit_or : (y : ℕ) → bit_or 0 y ≡ y
zero-bit_or y = bit_or-bitwise 0 y

-- The lowest digit and the rest.
pub bit_or_step : (x y : ℕ) → bit_or x y ≡ bit_or (x / 2) (y / 2) * 2 + max (x % 2) (y % 2)
bit_or_step zero y = omega (arith, zero-bit_or y, zero-bit_or (y / 2))
bit_or_step (suc x) y =
    let halves = same_digits x (suc x / 2) (suc x / 2) (y / 2) (omega arith) (omega arith) in
    let inner = bit_or-bitwise (suc x / 2) (y / 2) in
    omega (arith, bit_or-bitwise (suc x) y, halves, inner)

or_zero_below : (bound x : ℕ) → x ≤ bound → bit_or x 0 ≡ x
or_zero_below bound zero h = zero-bit_or 0
or_zero_below zero (suc x) h = absurd (omega arith)
or_zero_below (suc bound) (suc x) h =
    let half = or_zero_below bound (suc x / 2) (omega arith) in
    omega (arith, half, bit_or_step (suc x) 0)

pub bit_or-zero : (x : ℕ) → bit_or x 0 ≡ x
bit_or-zero x = or_zero_below x x (omega arith)

bit_or-double : (a x : ℕ) → bit_or (a * 2) x ≡ bit_or a (x / 2) * 2 + x % 2
bit_or-double a x =
    let half : a * 2 / 2 ≡ a = mul-div_cancel a (omega arith) in
    let step : bit_or (a * 2) x ≡ bit_or a (x / 2) * 2 + max (a * 2 % 2) (x % 2) =
      rw half at (bit_or_step (a * 2) x) in
    omega (arith, step)

-- A multiple of 2 ^ k has no bit in common with a number below 2 ^ k.
pub bit_or-disjoint : (k q x : ℕ) → x < 2 ^ k → bit_or (q * 2 ^ k) x ≡ q * 2 ^ k + x
bit_or-disjoint zero q zero h = omega (arith, bit_or-zero (q * 1))
bit_or-disjoint zero q (suc x) h = absurd (omega arith)
bit_or-disjoint (suc k) q x h =
    let e : q * 2 ^ suc k ≡ q * 2 ^ k * 2 = rw pow-suc (sym (mul_assoc q (2 ^ k) 2)) in
    rw e (
      omega (
        arith,
        bit_or-double (q * 2 ^ k) x,
        bit_or-disjoint k q (x / 2) (omega (arith, pow-suc 2 k)),
      ))

-- The same for `&`.
same_and_digits :
    (fuel more x y : ℕ)
    → x ≤ fuel
    → x ≤ more
    → digits (λ c. 0) min fuel x y ≡ digits (λ c. 0) min more x y
same_and_digits (suc fuel) (suc more) (suc x) y hf hm =
    omega (arith, same_and_digits fuel more (suc x / 2) (y / 2) (omega arith) (omega arith))
same_and_digits (suc fuel) (suc more) zero y hf hm = refl
same_and_digits zero zero zero y hf hm = refl
same_and_digits zero (suc more) zero y hf hm = refl
same_and_digits (suc fuel) zero zero y hf hm = refl
same_and_digits zero more (suc x) y hf hm = absurd (omega arith)
same_and_digits (suc fuel) zero (suc x) y hf hm = absurd (omega arith)

nothing_and : (y : ℕ) → bit_and 0 y ≡ 0
nothing_and y = bit_and-bitwise 0 y

pub bit_and_step : (x y : ℕ) → bit_and x y ≡ bit_and (x / 2) (y / 2) * 2 + min (x % 2) (y % 2)
bit_and_step zero y = omega (arith, nothing_and y, nothing_and (y / 2))
bit_and_step (suc x) y =
    let halves = same_and_digits x (suc x / 2) (suc x / 2) (y / 2) (omega arith) (omega arith) in
    let inner = bit_and-bitwise (suc x / 2) (y / 2) in
    omega (arith, bit_and-bitwise (suc x) y, halves, inner)

and_zero_below : (bound x : ℕ) → x ≤ bound → bit_and x 0 ≡ 0
and_zero_below bound zero h = nothing_and 0
and_zero_below zero (suc x) h = absurd (omega arith)
and_zero_below (suc bound) (suc x) h =
    let half = and_zero_below bound (suc x / 2) (omega arith) in
    omega (arith, half, bit_and_step (suc x) 0)

-- The quotient and the remainder are the only such pair.
pub div_mod_unique : (m n d r : ℕ) → m * d + r ≡ n → r < d → (m ≡ n / d) × (r ≡ n % d)
div_mod_unique m n d r e h =
    let q : n / d ≡ m = div-eq_of_lt-le d (omega (arith, e)) (grind arith) in
    (sym q, omega (arith, div-add-mod' n d, ap (λ (t : ℕ). t * d) q))

mod_double : (x p : ℕ) → 0 < p → x % (p * 2) ≡ x / 2 % p * 2 + x % 2
mod_double x p h =
    let q = x / 2 / p in
    let regroup : q * (p * 2) ≡ q * p * 2 = grind arith in
    let (_, r) =
      div_mod_unique q x (p * 2) (x / 2 % p * 2 + x % 2)
        (omega (arith, regroup, div-add-mod' (x / 2) p)) (omega (arith, mod-lt (x / 2) h)) in
    sym r

-- A mask of the k lowest bits.
pub bit_and-low : (k x : ℕ) → bit_and x (2 ^ k - 1) ≡ x % 2 ^ k
bit_and-low zero x = omega (arith, and_zero_below x x (omega arith))
bit_and-low (suc k) x =
    let e : 2 ^ suc k ≡ 2 ^ k * 2 = pow-suc 2 k in
    let odd : (2 ^ k * 2 - 1) / 2 ≡ 2 ^ k - 1 = omega (arith, one-le-pow k 2 (omega arith)) in
    let rest : bit_and (x / 2) ((2 ^ k * 2 - 1) / 2) ≡ x / 2 % 2 ^ k =
      rw odd (bit_and-low k (x / 2)) in
    rw e (
      omega (
        arith,
        bit_and_step x (2 ^ k * 2 - 1),
        rest,
        one-le-pow k 2 (omega arith),
        mod_double x (2 ^ k) (one-le-pow k 2 (omega arith)),
      ))

-- A mask whose k lowest bits are clear.
pub bit_and-shifted : (k x mask : ℕ) → bit_and x (mask * 2 ^ k) ≡ bit_and (x / 2 ^ k) mask * 2 ^ k
bit_and-shifted zero x mask =
    let same : x / 1 ≡ x = div-one x in
    let whole : mask * 1 ≡ mask = omega arith in rw (same, whole) (omega arith)
bit_and-shifted (suc k) x mask =
    let e : mask * 2 ^ suc k ≡ mask * 2 ^ k * 2 = rw pow-suc (sym (mul_assoc mask (2 ^ k) 2)) in
    let half : mask * 2 ^ k * 2 / 2 ≡ mask * 2 ^ k = mul-div_cancel (mask * 2 ^ k) (omega arith) in
    let step : bit_and x (mask * 2 ^ k * 2)
        ≡ bit_and (x / 2) (mask * 2 ^ k) * 2 + min (x % 2) (mask * 2 ^ k * 2 % 2) =
      rw half at (bit_and_step x (mask * 2 ^ k * 2)) in
    let deeper : x / 2 / 2 ^ k ≡ x / 2 ^ suc k =
      div-div-eq-div-mul x 2 (2 ^ k)
      ∙ ap (λ (t : ℕ). x / t) (mul_comm 2 (2 ^ k) ∙ sym (pow-suc 2 k)) in
    let ih : bit_and (x / 2) (mask * 2 ^ k) ≡ bit_and (x / 2 ^ suc k) mask * 2 ^ k =
      rw deeper at (bit_and-shifted k (x / 2) mask) in
    let high : ℕ = bit_and (x / 2 ^ suc k) mask in
    let regroup : high * 2 ^ suc k ≡ high * 2 ^ k * 2 =
      ap (λ (t : ℕ). high * t) (pow-suc 2 k) ∙ sym (mul_assoc high (2 ^ k) 2) in
    rw e (omega (arith, step, ih, regroup))

-- `& ~(2 ^ k - 1)` on a 32 bit word rounds down to a multiple of 2 ^ k.
pub round_down_16 : (x : ℕ) → x < 2 ^ 32 → bit_and x (2 ^ 32 - 16) ≡ x / 16 * 16
round_down_16 x h =
    bit_and-shifted 4 x (2 ^ 28 - 1)
    ∙ ap (λ (t : ℕ). t * 16) (bit_and-low 28 (x / 16) ∙ mod-eq_of_lt (omega arith))

pub round_down_4096 : (x : ℕ) → x < 2 ^ 32 → bit_and x (2 ^ 32 - 4096) ≡ x / 4096 * 4096
round_down_4096 x h =
    bit_and-shifted 12 x (2 ^ 20 - 1)
    ∙ ap (λ (t : ℕ). t * 4096) (bit_and-low 20 (x / 4096) ∙ mod-eq_of_lt (omega arith))
