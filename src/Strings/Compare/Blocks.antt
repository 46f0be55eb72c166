-- ===== src/Strings/Compare/Blocks.antt =====
-- memcmp and bcmp on blocks.
use small_lib_c.Base.{
  ℕ, ◌+◌, ◌≡◌, refl, ◌↔◌, Bool, true, false, List, [], ◌∷◌, arith, ◌==◌, if◌then◌else◌, length,
  ◌&&◌,
}
use small_lib_c.Base.Int.{ℤ, pos}
use small_lib_c.Memory.{Memory, ok, load}
use small_lib_c.Memory.Region.{BytesAt}
use small_lib_c.Strings.Compare.{memcmp, bcmp}
use small_lib_c.Strings.Compare.Order.{difference, precedes, Orders}

abbrev equal : List ℕ → List ℕ → Bool
equal [] [] = true
equal [] (y ∷ ys) = false
equal (x ∷ xs) [] = false
equal (x ∷ xs) (y ∷ ys) = x == y && equal xs ys

eq_of_equal : (xs ys : List ℕ) → equal xs ys ≡ true → xs ≡ ys
eq_of_equal [] [] h = refl
eq_of_equal [] (y ∷ ys) h = cc
eq_of_equal (x ∷ xs) [] h = cc
eq_of_equal (x ∷ xs) (y ∷ ys) h = ground (arith, eq_of_equal xs ys)

-- Zeros may stand in a block, which is why the lengths have to agree.
blocks-Orders : (xs ys : List ℕ) → length xs ≡ length ys → Orders xs ys (difference xs ys)
unfolding difference precedes
blocks-Orders [] [] e = ((λ _. refl, λ _. refl), refl)
blocks-Orders [] (y ∷ ys) e = absurd (omega arith)
blocks-Orders (x ∷ xs) [] e = absurd (omega arith)
blocks-Orders (x ∷ xs) (y ∷ ys) e =
    let (same, negative) = blocks-Orders xs ys (omega arith) in
    ((λ d. ground (arith, same.0), λ d. ground (arith, same.1)), ground arith)

module _ (m : Memory) where
  memcmp-difference :
      (p1 p2 : ℕ) (xs ys : List ℕ)
      → BytesAt m p1 xs
      → BytesAt m p2 ys
      → length xs ≡ length ys
      → memcmp (length xs) p1 p2 m ≡ ok (difference xs ys) m
  unfolding memcmp difference load
  memcmp-difference p1 p2 [] [] hx hy e = refl
  memcmp-difference p1 p2 [] (y ∷ ys) hx hy e = absurd (omega arith)
  memcmp-difference p1 p2 (x ∷ xs) [] hx hy e = absurd (omega arith)
  memcmp-difference p1 p2 (x ∷ xs) (y ∷ ys) hx hy e =
      ground (arith, memcmp-difference (p1 + 1) (p2 + 1) xs ys)

  bcmp-equal :
      (p1 p2 : ℕ) (xs ys : List ℕ)
      → BytesAt m p1 xs
      → BytesAt m p2 ys
      → length xs ≡ length ys
      → bcmp (length xs) p1 p2 m ≡ ok (if equal xs ys then 0 else 1) m
  unfolding bcmp load
  bcmp-equal p1 p2 [] [] hx hy e = refl
  bcmp-equal p1 p2 [] (y ∷ ys) hx hy e = absurd (omega arith)
  bcmp-equal p1 p2 (x ∷ xs) [] hx hy e = absurd (omega arith)
  bcmp-equal p1 p2 (x ∷ xs) (y ∷ ys) hx hy e = ground (arith, bcmp-equal (p1 + 1) (p2 + 1) xs ys)

equal_self : (xs : List ℕ) → equal xs xs ≡ true
equal_self [] = refl
equal_self (x ∷ xs) = ground (arith, equal_self xs)

-- For two blocks of one length in memory, memcmp returns a number that is 0 exactly where the
-- blocks are equal and negative exactly where the first comes first in the lexicographic order of
-- unsigned bytes, and bcmp returns 0 exactly where memcmp does and 1 otherwise. Neither changes the
-- memory.
pub memcmp-Orders :
    (m : Memory) (p1 p2 : ℕ) (xs ys : List ℕ)
    → BytesAt m p1 xs
    → BytesAt m p2 ys
    → length xs ≡ length ys
    → (r : ℤ) × (b : Bool) × (memcmp (length xs) p1 p2 m ≡ ok r m)
      × Orders xs ys r
      × (bcmp (length xs) p1 p2 m ≡ ok (if b then 0 else 1) m)
      × ((b ≡ true) ↔ (r ≡ pos 0))
memcmp-Orders m p1 p2 xs ys hx hy e =
    let orders = blocks-Orders xs ys e in
    (
      difference xs ys,
      equal xs ys,
      memcmp-difference m p1 p2 xs ys hx hy e,
      orders,
      bcmp-equal m p1 p2 xs ys hx hy e,
      (
        λ h. orders.0.1 (eq_of_equal xs ys h),
        λ d. let same : xs ≡ ys = orders.0.0 d in rw same (equal_self ys),
      ),
    )
