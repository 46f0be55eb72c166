-- ===== src/Qsort.antt =====
-- src/c/stdlib/qsort.c. An array is the list of its elements, each the bytes that `size` counts, and
-- a call on a part of it is one on that part; `compar` is a function of two elements. `none` is an
-- access outside the array, or the end of the fuel.
pub mod Arrays
pub mod Partition
pub mod Sorts
mod Samples
use small_lib_c.Base.{
  ℕ, zero, suc, ◌+◌, ◌-◌, Bool, true, false, ◌||◌, Option, none, some, List, [], ◌∷◌, ◌++◌, ◌==◌,
  leb, if◌then◌else◌, length, get_elem?, set, take, drop,
}
use small_lib_c.Base.Int.{ℤ, is_negative}

infixl 5 ◌>>=◌
abbrev pub ◌>>=◌ {ℓ ℓ'} : {A : Type ℓ} {B : Type ℓ'} → Option A → (A → Option B) → Option B
none >>= f = none
some a >>= f = f a

module _ {ℓ} {A : Type ℓ} where
  -- The bytes of two elements exchanged.
  unfoldable pub swap : List A → (a b : ℕ) → Option (List A)
  swap arr a b = do x ← get_elem? arr a; y ← get_elem? arr b; some (set (set arr a y) b x)

  module _ (compar : A → A → ℤ) where
    -- `compar(a, b) < 0`
    abbrev pub less : A → A → Bool
    less a b = is_negative (compar a b)

    -- The loop over j below the pivot, which is the last element; with i.
    unfoldable pub partition : (last rounds j i : ℕ) → List A → Option (List A × ℕ)
    partition last zero j i arr = some (arr, i)
    partition last (suc k) j i arr = do
      x ← get_elem? arr j
      pivot ← get_elem? arr last
      let kept = partition last k (suc j) i arr
      let moved : Option (List A × ℕ) = (do
        arr' ← swap arr i j
        partition last k (suc j) (suc i) arr')
      if less x pivot then moved else kept

    unfoldable pub qsort_recursive : (fuel : ℕ) → List A → Option (List A)
    qsort_recursive zero arr = none
    qsort_recursive (suc k) arr =
        let last = length arr - 1 in
        elim (leb (length arr) 1) [
          | true ↦ some arr
          | false ↦ do
            (parted, i) ← partition last last 0 0 arr
            arr' ← swap parted i last
            pivot ← get_elem? arr' i
            left ← qsort_recursive k (take i arr')
            right ← qsort_recursive k (drop (suc i) arr')
            some (left ++ pivot ∷ right)
        ]

    -- With a base and a comparison.
    unfoldable pub qsort : (size : ℕ) → List A → Option (List A)
    qsort size arr =
        let sorted = qsort_recursive (length arr + 1) arr in
        if length arr == 0 || size == 0 then some arr else sorted
