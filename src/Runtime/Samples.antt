-- ===== src/Runtime/Samples.antt =====
-- Runs of the division functions, and the theorems at concrete operands.
use small_lib_c.Base.{◌/◌, ◌%◌, ◌≡◌, refl, ◌==◌, if◌then◌else◌, arith, none, some}
use small_lib_c.Base.Int.{pos, negsuc}
use small_lib_c.Runtime.{
  udivsi3, udivdi3, umoddi3, divdi3, modsi3, moddi3, is_zero, sdiv, with_sign, magnitude, div_loop,
  mod_loop, smod,
}
use small_lib_c.Runtime.Unsigned.{unsigned_division_64}
use small_lib_c.Runtime.Signed.{div_result, trunc_mod, signed_division_64}

udivsi3_large : udivsi3 4_000_000_000 7 ≡ 571_428_571
unfolding udivsi3
udivsi3_large = refl

divdi3_negative : divdi3 (negsuc 99) (pos 7) ≡ some (negsuc 13)
unfolding divdi3 sdiv with_sign magnitude div_loop
divdi3_negative = refl

modsi3_negative : modsi3 (negsuc 99) (pos 7) ≡ some (negsuc 1)
unfolding modsi3 smod with_sign magnitude mod_loop
modsi3_negative = refl

-- LLONG_MIN / 1 negates LLONG_MIN.
divdi3_undefined : divdi3 (negsuc 9_223_372_036_854_775_807) (pos 1) ≡ none
unfolding divdi3 sdiv with_sign magnitude div_loop
divdi3_undefined = refl

unsigned_division_64_example :
    (udivdi3 5_000_000_000 7 ≡ 5_000_000_000 / 7)
    × (umoddi3 5_000_000_000 7 ≡ (if 7 == 0 then 0 else 5_000_000_000 % 7))
unsigned_division_64_example = unsigned_division_64 5_000_000_000 7 (omega arith)

signed_division_64_example :
    (divdi3 (negsuc 99) (negsuc 6) ≡ div_result 64 (negsuc 99) (negsuc 6))
    × (moddi3 (negsuc 99) (negsuc 6)
        ≡ (if is_zero (negsuc 6) then some (pos 0) else some (trunc_mod (negsuc 99) (negsuc 6))))
signed_division_64_example = signed_division_64 (negsuc 99) (negsuc 6) (omega arith) (omega arith)
