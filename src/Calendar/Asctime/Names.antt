-- ===== src/Calendar/Asctime/Names.antt =====
-- The tables of names of src/c/time/asctime.c.
use Prim.Native.String.{String}
use small_lib_c.Base.{
  ℕ, zero, suc, ◌≡◌, refl, ap, subst, Bool, true, ◌&&◌, some, List, [], ◌∷◌, ◌==◌, get_elem?,
  length, take, arith, some_value,
}
use small_lib_c.Base.Text.{codes}
use small_lib_c.Base.Int.{pos}
use small_lib_c.Calendar.Asctime.{three}

-- Names of three bytes.
abbrev pub all_short : List String → Bool
all_short [] = true
all_short (name ∷ names) = length (codes name) == 3 && all_short names

pub short_at :
    (names : List String) (i : ℕ) (name : String)
    → all_short names ≡ true
    → get_elem? names i ≡ some name
    → length (codes name) ≡ 3
short_at [] i name short at = absurd (ground (arith, at))
short_at (other ∷ names) zero name short at =
    subst (λ n. length (codes n) ≡ 3) (some_value at) (ground (arith, short))
short_at (other ∷ names) (suc i) name short at = short_at names i name (ground (arith, short)) at

take_all : (n : ℕ) (xs : List ℕ) → length xs ≡ n → take n xs ≡ xs
take_all zero [] e = refl
take_all zero (x ∷ xs) e = absurd (omega (arith, e))
take_all (suc n) [] e = refl
take_all (suc n) (x ∷ xs) e = ap (λ ys. x ∷ ys) (take_all n xs (omega (arith, e)))

pub three_name :
    (names : List String) (i : ℕ) (name : String)
    → all_short names ≡ true
    → get_elem? names i ≡ some name
    → three names (pos i) ≡ some (codes name)
three_name names i name short at =
    rw (three, at) (ap some (take_all 3 (codes name) (short_at names i name short at)))
