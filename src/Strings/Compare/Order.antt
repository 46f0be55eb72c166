-- ===== src/Strings/Compare/Order.antt =====
-- Comparison of lists of codes: the difference at the first place where they differ, the end of a
-- list counting as a zero, and what its sign says.
use small_lib_c.Base.{
  ℕ, ◌≡◌, refl, ◌≢◌, Bool, true, false, ◌&&◌, ◌||◌, List, [], ◌∷◌, ◌↔◌, arith, ltb, ◌==◌,
  if◌then◌else◌,
}
use small_lib_c.Base.Int.{ℤ, sub_ℕ, pos, is_negative}

unfoldable pub difference : List ℕ → List ℕ → ℤ
difference [] [] = pos 0
difference [] (y ∷ ys) = sub_ℕ 0 y
difference (x ∷ xs) [] = sub_ℕ x 0
difference (x ∷ xs) (y ∷ ys) = if x == y then difference xs ys else sub_ℕ x y

-- The lexicographic order, in which a list comes before its continuations.
unfoldable pub precedes : List ℕ → List ℕ → Bool
precedes [] [] = false
precedes [] (y ∷ ys) = true
precedes (x ∷ xs) [] = false
precedes (x ∷ xs) (y ∷ ys) = ltb x y || (x == y && precedes xs ys)

-- No code is zero.
abbrev pub NonZero : List ℕ → Type 0
NonZero [] = Unit
NonZero (x ∷ xs) = (x ≢ 0) × NonZero xs

pub difference-neg :
    (xs ys : List ℕ) → NonZero xs → NonZero ys → is_negative (difference xs ys) ≡ precedes xs ys
unfolding difference precedes
difference-neg [] [] hx hy = refl
difference-neg [] (y ∷ ys) hx hy = ground arith
difference-neg (x ∷ xs) [] hx hy = ground arith
difference-neg (x ∷ xs) (y ∷ ys) hx hy = ground (arith, difference-neg xs ys)

pub eq_of_difference :
    (xs ys : List ℕ) → NonZero xs → NonZero ys → difference xs ys ≡ pos 0 → xs ≡ ys
unfolding difference
eq_of_difference [] [] hx hy e = refl
eq_of_difference [] (y ∷ ys) hx hy e = ground arith
eq_of_difference (x ∷ xs) [] hx hy e = ground arith
eq_of_difference (x ∷ xs) (y ∷ ys) hx hy e = ground (arith, eq_of_difference xs ys)

pub difference_self : (xs : List ℕ) → difference xs xs ≡ pos 0
unfolding difference
difference_self [] = refl
difference_self (x ∷ xs) = ground (arith, difference_self xs)

-- What a comparison result says of the two lists.
abbrev pub Orders : List ℕ → List ℕ → ℤ → Type 0
Orders xs ys r = ((r ≡ pos 0) ↔ (xs ≡ ys)) × (is_negative r ≡ precedes xs ys)

pub difference-Orders : (xs ys : List ℕ) → NonZero xs → NonZero ys → Orders xs ys (difference xs ys)
difference-Orders xs ys hx hy =
    ((eq_of_difference xs ys hx hy, λ e. rw e (difference_self ys)), difference-neg xs ys hx hy)
