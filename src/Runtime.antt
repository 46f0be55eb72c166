-- ===== src/Runtime.antt =====
-- The compiler's division runtime: src/runtime/c/__udivsi3.c, __udivdi3.c, __umodsi3.c,
-- __umoddi3.c, __divsi3.c, __divdi3.c, __modsi3.c and __moddi3.c.
-- The 32 and the 64 bit functions have one text, so each is an instance of a function of the width
-- `w`. An unsigned word is a number below 2 ^ w, a signed one is an integer. The negation of a
-- signed word overflows at the least integer, where C leaves it undefined: `none`.
pub mod Loop
pub mod Unsigned
pub mod Signed
mod Samples
use small_lib_c.Base.{
  ℕ, zero, suc, ◌+◌, ◌-◌, ◌*◌, ◌/◌, ◌%◌, ◌^◌, bit_or, Bool, true, false, ◌&&◌, Option, none, some,
  xor, leb, ltb, ◌==◌, if◌then◌else◌,
}
use small_lib_c.Base.Int.{ℤ, pos, negsuc, is_negative, neg}

-- The loop's variables.
pub record DivState : Type 0 where
  pub quotient : ℕ
  pub remainder : ℕ

abbrev pub div_state : ℕ → ℕ → DivState
div_state q r = record { quotient = q; remainder = r }

-- `(remainder << 1) | ((n >> i) & 1)`
pub shift_in : (w i n r : ℕ) → ℕ
shift_in w i n r = bit_or (r * 2 % 2 ^ w) (n / 2 ^ i % 2)

pub div_round : (w i n d : ℕ) → DivState → DivState
div_round w i n d s =
    let r = shift_in w i n s.remainder in
    if leb d r then div_state (bit_or s.quotient (2 ^ i)) (r - d) else div_state s.quotient r

-- The rounds for the bits i - 1, ..., 0.
pub div_loop : (i w n d : ℕ) → DivState → DivState
unfolding div_round shift_in
div_loop zero w n d s = s
div_loop (suc i) w n d s = div_loop i w n d (div_round w i n d s)

pub mod_round : (w i n d : ℕ) → ℕ → ℕ
mod_round w i n d remainder = let r = shift_in w i n remainder in if leb d r then r - d else r

pub mod_loop : (i w n d : ℕ) → ℕ → ℕ
unfolding mod_round shift_in
mod_loop zero w n d r = r
mod_loop (suc i) w n d r = mod_loop i w n d (mod_round w i n d r)

pub udiv : (w n d : ℕ) → ℕ
unfolding div_loop
udiv w n d = if d == 0 then 0 else (div_loop w w n d (div_state 0 0)).quotient

pub umod : (w n d : ℕ) → ℕ
unfolding mod_loop
umod w n d = if d == 0 then 0 else mod_loop w w n d 0

unfoldable pub udivsi3 : ℕ → ℕ → ℕ
unfolding udiv
udivsi3 = udiv 32

unfoldable pub udivdi3 : ℕ → ℕ → ℕ
unfolding udiv
udivdi3 = udiv 64

unfoldable pub umodsi3 : ℕ → ℕ → ℕ
unfolding umod
umodsi3 = umod 32

unfoldable pub umoddi3 : ℕ → ℕ → ℕ
unfolding umod
umoddi3 = umod 64

-- The least signed word, INT_MIN or LLONG_MIN.
abbrev pub min_int : ℕ → ℤ
min_int w = negsuc (2 ^ (w - 1) - 1)

-- The conversion of a signed word to the unsigned type.
pub word_of : (w : ℕ) → ℤ → ℕ
word_of w (pos n) = n % 2 ^ w
word_of w (negsuc n) = 2 ^ w - 1 - n % 2 ^ w

-- The conversion of an unsigned word to the signed type.
unfoldable pub signed_of : (w x : ℕ) → ℤ
signed_of w x = if ltb x (2 ^ (w - 1)) then pos x else negsuc (2 ^ w - 1 - x)

-- Unsigned negation wraps.
pub neg_word : (w x : ℕ) → ℕ
neg_word w x = (2 ^ w - x) % 2 ^ w

abbrev pub is_min : ℕ → ℤ → Bool
is_min w (pos n) = false
is_min w (negsuc n) = n == 2 ^ (w - 1) - 1

abbrev pub is_zero : ℤ → Bool
is_zero (pos n) = n == 0
is_zero (negsuc n) = false

abbrev pub is_minus_one : ℤ → Bool
is_minus_one (pos n) = false
is_minus_one (negsuc n) = n == 0

-- Signed negation.
pub neg_signed : ℕ → ℤ → Option ℤ
neg_signed w z = if is_min w z then none else some (neg z)

-- `(n < 0) ? -(unsigned)n : (unsigned)n`
pub magnitude : (w : ℕ) → ℤ → ℕ
unfolding word_of neg_word
magnitude w n = if is_negative n then neg_word w (word_of w n) else word_of w n

-- `(sign < 0) ? -(int)x : (int)x`
pub with_sign : (w : ℕ) → Bool → ℕ → Option ℤ
unfolding neg_signed signed_of
with_sign w s x = if s then neg_signed w (signed_of w x) else some (signed_of w x)

pub sdiv : (w : ℕ) → ℤ → ℤ → Option ℤ
sdiv w n d =
    if is_zero d
    then some (pos 0)
    else if is_min w n && is_minus_one d
    then some (min_int w)
    else (let q = (div_loop w w (magnitude w n) (magnitude w d) (div_state 0 0)).quotient in
        with_sign w (xor (is_negative n) (is_negative d)) q)

pub smod : (w : ℕ) → ℤ → ℤ → Option ℤ
smod w n d =
    if is_zero d
    then some (pos 0)
    else if is_min w n && is_minus_one d
    then some (pos 0)
    else (let r = mod_loop w w (magnitude w n) (magnitude w d) 0 in with_sign w (is_negative n) r)

unfoldable pub divsi3 : ℤ → ℤ → Option ℤ
unfolding sdiv
divsi3 = sdiv 32

unfoldable pub divdi3 : ℤ → ℤ → Option ℤ
unfolding sdiv
divdi3 = sdiv 64

unfoldable pub modsi3 : ℤ → ℤ → Option ℤ
unfolding smod
modsi3 = smod 32

unfoldable pub moddi3 : ℤ → ℤ → Option ℤ
unfolding smod
moddi3 = smod 64
