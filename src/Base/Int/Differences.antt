-- ===== src/Base/Int/Differences.antt =====
-- The value of an integer as a difference of two numbers, which omega reads.
use Prim.Native.Nat.{ℕ, ◌+◌, ◌*◌, ◌≤◌, ◌<◌}
use mathlib.Core.Path.{◌≡◌, refl, ap}
use mathlib.Core.Logic.{inl, inr}
use native.Mathlib.Omega.{arith}
use small_lib_c.Base.Tests.{leb, Bool-cases}
use small_lib_c.Base.Int.{ℤ, pos, negsuc, pos_part, neg_part, sub_ℕ, ◌+ℤ◌, ◌-ℤ◌, ◌*ℤ◌}

-- z = a - b
abbrev pub Is : ℤ → (a b : ℕ) → Type 0
Is z a b = pos_part z + b ≡ a + neg_part z

pub sub_Is : (a b : ℕ) → Is (sub_ℕ a b) a b
sub_Is a b = elim (Bool-cases (leb b a)) [
  | inl y ↦ let le : b ≤ a = ground (arith, y) in rw y (omega (arith, le))
  | inr n ↦ let lt : a < b = ground (arith, n) in rw n (omega (arith, lt))
]

pub add_Is : (z w : ℤ) (a b c d : ℕ) → Is z a b → Is w c d → Is (z +ℤ w) (a + c) (b + d)
unfolding ◌+ℤ◌
add_Is z w a b c d h k =
    omega (arith, h, k, sub_Is (pos_part z + pos_part w) (neg_part z + neg_part w))

pub minus_Is : (z w : ℤ) (a b c d : ℕ) → Is z a b → Is w c d → Is (z -ℤ w) (a + d) (b + c)
unfolding ◌-ℤ◌
minus_Is z w a b c d h k =
    omega (arith, h, k, sub_Is (pos_part z + neg_part w) (neg_part z + pos_part w))

pub times_Is : (z : ℤ) (n a b : ℕ) → Is z a b → Is (z *ℤ pos n) (a * n) (b * n)
unfolding ◌*ℤ◌
times_Is z n a b h = omega (
  arith,
  ap (λ x. x * n) h,
  sub_Is (pos_part z * n + neg_part z * 0) (pos_part z * 0 + neg_part z * n),
)

-- The same with the parts of the operands.
pub add_parts : (z w : ℤ) → Is (z +ℤ w) (pos_part z + pos_part w) (neg_part z + neg_part w)
add_parts z w = add_Is z w (pos_part z) (neg_part z) (pos_part w) (neg_part w) refl refl

pub minus_parts : (z w : ℤ) → Is (z -ℤ w) (pos_part z + neg_part w) (neg_part z + pos_part w)
minus_parts z w = minus_Is z w (pos_part z) (neg_part z) (pos_part w) (neg_part w) refl refl

pub times_parts : (z : ℤ) (n : ℕ) → Is (z *ℤ pos n) (pos_part z * n) (neg_part z * n)
times_parts z n = times_Is z n (pos_part z) (neg_part z) refl

pub Is-unique : (z w : ℤ) (a b : ℕ) → Is z a b → Is w a b → z ≡ w
Is-unique (pos x) (pos y) a b h k = ap pos (omega (arith, h, k))
Is-unique (pos x) (negsuc y) a b h k = absurd (omega (arith, h, k))
Is-unique (negsuc x) (pos y) a b h k = absurd (omega (arith, h, k))
Is-unique (negsuc x) (negsuc y) a b h k = ap negsuc (omega (arith, h, k))
