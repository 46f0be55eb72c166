-- ===== src/Base/Lists.antt =====
-- Lists measured and indexed by native numbers, under the library's names.
use Prim.Native.Nat.{ℕ, zero, suc, ◌+◌, ◌-◌, ◌<◌, min}
use mathlib.Core.Path.{◌≡◌, refl, ap}
use mathlib.Core.Logic.{◌≢◌}
use mathlib.Core.List.{List, [], ◌∷◌, ◌++◌}
use mathlib.Core.Option.{Option, none, some}
use native.Mathlib.Omega.{arith}

module _ {ℓ} {A : Type ℓ} where
  abbrev pub length : List A → ℕ
  length [] = 0
  length (x ∷ xs) = suc (length xs)

  abbrev pub get_elem? : List A → ℕ → Option A
  get_elem? [] i = none
  get_elem? (x ∷ xs) zero = some x
  get_elem? (x ∷ xs) (suc i) = get_elem? xs i

  abbrev pub set : List A → ℕ → A → List A
  set [] i v = []
  set (x ∷ xs) zero v = v ∷ xs
  set (x ∷ xs) (suc i) v = x ∷ set xs i v

  abbrev pub take : ℕ → List A → List A
  take zero xs = []
  take (suc n) [] = []
  take (suc n) (x ∷ xs) = x ∷ take n xs

  abbrev pub drop : ℕ → List A → List A
  drop zero xs = xs
  drop (suc n) [] = []
  drop (suc n) (x ∷ xs) = drop n xs

  abbrev pub replicate : ℕ → A → List A
  replicate zero a = []
  replicate (suc n) a = a ∷ replicate n a

  pub length-append : (xs ys : List A) → length (xs ++ ys) ≡ length xs + length ys
  length-append [] ys = omega arith
  length-append (x ∷ xs) ys = omega (arith, length-append xs ys)

module _ {ℓ} {A : Type ℓ} where
  pub length-set : (xs : List A) (i : ℕ) (v : A) → length (set xs i v) ≡ length xs
  length-set [] i v = refl
  length-set (x ∷ xs) zero v = refl
  length-set (x ∷ xs) (suc i) v = ap suc (length-set xs i v)

  pub take-append-drop : (n : ℕ) (xs : List A) → take n xs ++ drop n xs ≡ xs
  take-append-drop zero xs = refl
  take-append-drop (suc n) [] = refl
  take-append-drop (suc n) (x ∷ xs) = rw (take-append-drop n xs)

  pub length-take : (n : ℕ) (xs : List A) → length (take n xs) ≡ min n (length xs)
  length-take zero xs = omega arith
  length-take (suc n) [] = omega arith
  length-take (suc n) (x ∷ xs) = omega (arith, length-take n xs)

  pub length-drop : (n : ℕ) (xs : List A) → length (drop n xs) ≡ length xs - n
  length-drop zero xs = omega arith
  length-drop (suc n) [] = omega arith
  length-drop (suc n) (x ∷ xs) = omega (arith, length-drop n xs)

module _ {ℓ} {A : Type ℓ} where
  pub get-set_same :
      (arr : List A) (i : ℕ) (v : A) {x : A}
      → get_elem? arr i ≡ some x
      → get_elem? (set arr i v) i ≡ some v
  get-set_same [] i v e = ground (arith, e)
  get-set_same (y ∷ arr) zero v e = refl
  get-set_same (y ∷ arr) (suc i) v e = get-set_same arr i v e

  pub get-set_other :
      (arr : List A) (i j : ℕ) (v : A) → i ≢ j → get_elem? (set arr i v) j ≡ get_elem? arr j
  get-set_other [] i j v other = refl
  get-set_other (y ∷ arr) zero zero v other = absurd (other refl)
  get-set_other (y ∷ arr) zero (suc j) v other = refl
  get-set_other (y ∷ arr) (suc i) zero v other = refl
  get-set_other (y ∷ arr) (suc i) (suc j) v other = get-set_other arr i j v (λ e. other (ap suc e))

  pub get-append :
      (xs ys : List A) (i : ℕ) {x : A} → get_elem? xs i ≡ some x → get_elem? (xs ++ ys) i ≡ some x
  get-append [] ys i e = ground (arith, e)
  get-append (a ∷ xs) ys zero e = e
  get-append (a ∷ xs) ys (suc i) e = get-append xs ys i e

  pub get-last : (xs : List A) (x : A) → get_elem? (xs ++ x ∷ []) (length xs) ≡ some x
  get-last [] x = refl
  get-last (a ∷ xs) x = get-last xs x

  pub get-inside : (xs : List A) (i : ℕ) → i < length xs → (x : A) × (get_elem? xs i ≡ some x)
  get-inside [] i lt = absurd (omega arith)
  get-inside (x ∷ xs) zero lt = (x, refl)
  get-inside (x ∷ xs) (suc i) lt = get-inside xs i (omega (arith, lt))

  pub inside-get : (xs : List A) (i : ℕ) {x : A} → get_elem? xs i ≡ some x → i < length xs
  inside-get [] i e = absurd (ground (arith, e))
  inside-get (y ∷ xs) zero e = omega arith
  inside-get (y ∷ xs) (suc i) e = omega (arith, inside-get xs i e)

  pub some_value : {x y : A} → some x ≡ some y → x ≡ y
  some_value {x = x} e = ap (λ o. elim o [ none ↦ x | some z ↦ z ]) e
