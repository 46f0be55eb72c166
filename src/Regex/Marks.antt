-- ===== src/Regex/Marks.antt =====
-- The marks of src/c/regex/regexec.c, `handled`: writing one, and how many instructions have none.
use small_lib_c.Base.{
  ap, ℕ, zero, suc, ◌+◌, ◌≤◌, ◌<◌, ◌≡◌, ◌≢◌, refl, List, [], ◌∷◌, some, ◌==◌, if◌then◌else◌, arith,
  length, get_elem?, set, replicate,
}

-- The number of entries other than `step`.
pub unmarked : (step : ℕ) → List ℕ → ℕ
unmarked step [] = 0
unmarked step (x ∷ xs) = (if x == step then 0 else 1) + unmarked step xs

pub unmarked-set :
    (step : ℕ) (xs : List ℕ) (p : ℕ) {h : ℕ}
    → get_elem? xs p ≡ some h
    → h ≢ step
    → unmarked step (set xs p step) + 1 ≡ unmarked step xs
unfolding unmarked
unmarked-set step [] p e other = ground arith
unmarked-set step (x ∷ xs) zero e other = ground arith
unmarked-set step (x ∷ xs) (suc p) e other = omega (arith, unmarked-set step xs p e other)

pub unmarked-le-length : (step : ℕ) (xs : List ℕ) → unmarked step xs ≤ length xs
unfolding unmarked
unmarked-le-length step [] = omega arith
unmarked-le-length step (x ∷ xs) = ground (arith, unmarked-le-length step xs)

pub get_elem?-set_self :
    (xs : List ℕ) (p v : ℕ) {h : ℕ} → get_elem? xs p ≡ some h → get_elem? (set xs p v) p ≡ some v
get_elem?-set_self [] p v e = ground arith
get_elem?-set_self (x ∷ xs) zero v e = refl
get_elem?-set_self (x ∷ xs) (suc p) v e = get_elem?-set_self xs p v e

pub get_elem?-set_ne : (xs : List ℕ) (p q v : ℕ) → p ≢ q → get_elem? (set xs p v) q ≡ get_elem? xs q
get_elem?-set_ne [] p q v other = refl
get_elem?-set_ne (x ∷ xs) zero zero v other = absurd (other refl)
get_elem?-set_ne (x ∷ xs) zero (suc q) v other = refl
get_elem?-set_ne (x ∷ xs) (suc p) zero v other = refl
get_elem?-set_ne (x ∷ xs) (suc p) (suc q) v other =
    get_elem?-set_ne xs p q v (λ e. other (omega arith))

pub get_elem?-lt :
    {A : Type 0} (xs : List A) (p : ℕ) {a : A} → get_elem? xs p ≡ some a → p < length xs
get_elem?-lt [] p e = ground arith
get_elem?-lt (x ∷ xs) zero e = omega arith
get_elem?-lt (x ∷ xs) (suc p) e = omega (arith, get_elem?-lt xs p e)

pub get_elem?-some :
    {A : Type 0} (xs : List A) (p : ℕ) → p < length xs → (a : A) × (get_elem? xs p ≡ some a)
get_elem?-some [] p h = absurd (omega arith)
get_elem?-some (x ∷ xs) zero h = (x, refl)
get_elem?-some (x ∷ xs) (suc p) h = get_elem?-some xs p (omega arith)

pub zeros : (k p h : ℕ) → get_elem? (replicate k 0) p ≡ some h → h ≡ 0
zeros zero p h e = ground (arith, e)
zeros (suc k) zero h e = ground (arith, e)
zeros (suc k) (suc p) h e = zeros k p h e

pub length-zeros : (k : ℕ) → length (replicate {A = ℕ} k 0) ≡ k
length-zeros zero = refl
length-zeros (suc k) = ap suc (length-zeros k)
