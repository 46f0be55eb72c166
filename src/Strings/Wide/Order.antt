-- ===== src/Strings/Wide/Order.antt =====
-- wcscmp, wcscoll and wcsncmp order strings by their codes.
use small_lib_c.Base.{ℕ, zero, suc, ◌+◌, ◌<◌, ◌≡◌, refl, List, [], ◌∷◌, arith, length, take}
use small_lib_c.Base.Int.{ℤ, pos, negsuc}
use small_lib_c.Memory.{Memory, ok, load}
use small_lib_c.Memory.Region.{StringAt}
use small_lib_c.Strings.Compare.Order.{difference, Orders, difference-Orders}
use small_lib_c.Strings.Compare.Text.{StringAt-NonZero, NonZero-take}
use small_lib_c.Strings.Wide.{wide_order, wcscmp, wcscoll, wcsncmp_loop, wcsncmp}

-- -1, 0 or 1.
abbrev pub sign : ℤ → ℤ
sign (pos zero) = pos 0
sign (pos (suc n)) = pos 1
sign (negsuc n) = negsuc 0

sign_twice : (z : ℤ) → sign (sign z) ≡ sign z
sign_twice (pos zero) = refl
sign_twice (pos (suc n)) = refl
sign_twice (negsuc n) = refl

sign-Orders : (xs ys : List ℕ) (z : ℤ) → Orders xs ys z → Orders xs ys (sign z)
sign-Orders xs ys (pos zero) o = o
sign-Orders xs ys (pos (suc n)) o = (
  (
    λ e. absurd (ground arith),
    λ e. let bad : pos (suc n) ≡ pos 0 = o.0.1 e in absurd (ground (arith, bad)),
  ),
  o.1,
)
sign-Orders xs ys (negsuc n) o = (
  (
    λ e. absurd (ground arith),
    λ e. let bad : negsuc n ≡ pos 0 = o.0.1 e in absurd (ground (arith, bad)),
  ),
  o.1,
)

module _ (m : Memory) where
  wcscmp-difference :
      (k s1 s2 : ℕ) (xs ys : List ℕ)
      → StringAt m s1 xs
      → StringAt m s2 ys
      → length xs < k
      → wcscmp k s1 s2 m ≡ ok (sign (difference xs ys)) m
  unfolding wcscmp difference load wide_order
  wcscmp-difference zero s1 s2 xs ys hx hy fuel = absurd (omega arith)
  wcscmp-difference (suc k) s1 s2 [] [] hx hy fuel = ground arith
  wcscmp-difference (suc k) s1 s2 [] (y ∷ ys) hx hy fuel = ground arith
  wcscmp-difference (suc k) s1 s2 (x ∷ xs) [] hx hy fuel = ground arith
  wcscmp-difference (suc k) s1 s2 (x ∷ xs) (y ∷ ys) hx hy fuel =
      ground (arith, wcscmp-difference k (s1 + 1) (s2 + 1) xs ys)

  wcsncmp_loop-difference :
      (n s1 s2 : ℕ) (xs ys : List ℕ)
      → StringAt m s1 xs
      → StringAt m s2 ys
      → wcsncmp_loop n s1 s2 m ≡ ok (sign (difference (take (suc n) xs) (take (suc n) ys))) m
  unfolding wcsncmp_loop difference load wide_order
  wcsncmp_loop-difference zero s1 s2 [] [] hx hy = ground arith
  wcsncmp_loop-difference zero s1 s2 [] (y ∷ ys) hx hy = ground arith
  wcsncmp_loop-difference zero s1 s2 (x ∷ xs) [] hx hy = ground arith
  wcsncmp_loop-difference zero s1 s2 (x ∷ xs) (y ∷ ys) hx hy = ground arith
  wcsncmp_loop-difference (suc n) s1 s2 [] [] hx hy = ground arith
  wcsncmp_loop-difference (suc n) s1 s2 [] (y ∷ ys) hx hy = ground arith
  wcsncmp_loop-difference (suc n) s1 s2 (x ∷ xs) [] hx hy = ground arith
  wcsncmp_loop-difference (suc n) s1 s2 (x ∷ xs) (y ∷ ys) hx hy =
      ground (arith, wcsncmp_loop-difference n (s1 + 1) (s2 + 1) xs ys)

  wcsncmp-difference :
      (n s1 s2 : ℕ) (xs ys : List ℕ)
      → StringAt m s1 xs
      → StringAt m s2 ys
      → wcsncmp n s1 s2 m ≡ ok (sign (difference (take n xs) (take n ys))) m
  unfolding wcsncmp difference
  wcsncmp-difference zero s1 s2 xs ys hx hy = refl
  wcsncmp-difference (suc n) s1 s2 xs ys hx hy = wcsncmp_loop-difference n s1 s2 xs ys hx hy

-- For two strings in memory and fuel above the length of the first, wcscmp and wcscoll return one
-- of -1, 0 and 1, and leave the memory as it is: 0 exactly where the strings are equal, -1 exactly
-- where the first precedes the second in the lexicographic order of the codes.
pub wcscmp-Orders :
    (m : Memory) (k s1 s2 : ℕ) (xs ys : List ℕ)
    → StringAt m s1 xs
    → StringAt m s2 ys
    → length xs < k
    → (r : ℤ) × (wcscmp k s1 s2 m ≡ ok r m)
      × (wcscoll k s1 s2 m ≡ ok r m)
      × (sign r ≡ r)
      × Orders xs ys r
unfolding wcscoll
wcscmp-Orders m k s1 s2 xs ys hx hy fuel =
    let e = wcscmp-difference m k s1 s2 xs ys hx hy fuel in
    let orders =
      difference-Orders xs ys (StringAt-NonZero m s1 xs hx) (StringAt-NonZero m s2 ys hy) in
    (
      sign (difference xs ys),
      e,
      e,
      sign_twice (difference xs ys),
      sign-Orders xs ys (difference xs ys) orders,
    )

-- For two strings in memory, wcsncmp compares their first n codes as wcscmp does whole strings.
pub wcsncmp-Orders :
    (m : Memory) (n s1 s2 : ℕ) (xs ys : List ℕ)
    → StringAt m s1 xs
    → StringAt m s2 ys
    → (r : ℤ) × (wcsncmp n s1 s2 m ≡ ok r m) × (sign r ≡ r) × Orders (take n xs) (take n ys) r
wcsncmp-Orders m n s1 s2 xs ys hx hy =
    let z = difference (take n xs) (take n ys) in
    let orders =
      difference-Orders (take n xs) (take n ys) (NonZero-take n xs (StringAt-NonZero m s1 xs hx))
        (NonZero-take n ys (StringAt-NonZero m s2 ys hy)) in
    (
      sign z,
      wcsncmp-difference m n s1 s2 xs ys hx hy,
      sign_twice z,
      sign-Orders (take n xs) (take n ys) z orders,
    )
