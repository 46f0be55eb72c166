-- ===== src/Runtime/Unsigned.antt =====
-- Unsigned division and remainder: __udivsi3, __udivdi3, __umodsi3, __umoddi3.
use small_lib_c.Base.{ℕ, zero, suc, ◌/◌, ◌%◌, ◌^◌, ◌<◌, ◌≡◌, refl, sym, arith, ◌==◌, if◌then◌else◌}
use native.Mathlib.Nat.{div-eq_of_lt, div-zero, zero-mul}
use small_lib_c.Runtime.{
  div_state, div_loop, mod_loop, udiv, umod, udivsi3, udivdi3, umodsi3, umoddi3,
}
use small_lib_c.Runtime.Loop.{div_loop_lem, mod_loop_lem}

-- The loops from their start.
pub div_loop_start :
    (w n d : ℕ) → n < 2 ^ w → 0 < d → div_loop w w n d (div_state 0 0) ≡ div_state (n / d) (n % d)
div_loop_start w n d hn hd =
    rw zero-mul at (div_loop_lem w w n d 0 0 hn hd (omega (arith, div-eq_of_lt hn)))

pub mod_loop_start : (w n d : ℕ) → n < 2 ^ w → 0 < d → mod_loop w w n d 0 ≡ n % d
mod_loop_start w n d hn hd = mod_loop_lem w w n d 0 0 hn hd (omega (arith, div-eq_of_lt hn))

pub udiv_lem : (w n d : ℕ) → n < 2 ^ w → udiv w n d ≡ n / d
unfolding udiv
udiv_lem w n zero hn = sym (div-zero n)
udiv_lem w n (suc d) hn = ground (arith, div_loop_start w n (suc d))

pub umod_lem : (w n d : ℕ) → n < 2 ^ w → umod w n d ≡ (if d == 0 then 0 else n % d)
unfolding umod
umod_lem w n zero hn = refl
umod_lem w n (suc d) hn = ground (arith, mod_loop_start w n (suc d))

-- For n below 2 ^ 32 the 32 bit functions return the Euclidean quotient and remainder of n by d, and
-- 0 where d is 0.
pub unsigned_division_32 :
    (n d : ℕ) → n < 2 ^ 32 → (udivsi3 n d ≡ n / d) × (umodsi3 n d ≡ (if d == 0 then 0 else n % d))
unfolding udivsi3 umodsi3
unsigned_division_32 n d hn = (udiv_lem 32 n d hn, umod_lem 32 n d hn)

-- For n below 2 ^ 64 the 64 bit functions return the Euclidean quotient and remainder of n by d, and
-- 0 where d is 0.
pub unsigned_division_64 :
    (n d : ℕ) → n < 2 ^ 64 → (udivdi3 n d ≡ n / d) × (umoddi3 n d ≡ (if d == 0 then 0 else n % d))
unfolding udivdi3 umoddi3
unsigned_division_64 n d hn = (udiv_lem 64 n d hn, umod_lem 64 n d hn)
