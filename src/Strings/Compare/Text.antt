-- ===== src/Strings/Compare/Text.antt =====
-- strcmp, strcoll and strncmp on strings.
use small_lib_c.Base.{ℕ, zero, suc, ◌+◌, ◌<◌, ◌≡◌, refl, List, [], ◌∷◌, arith, length, take}
use small_lib_c.Base.Int.{ℤ}
use small_lib_c.Memory.{Memory, ok, load}
use small_lib_c.Memory.Region.{StringAt}
use small_lib_c.Strings.Compare.{strcmp, strcoll, strncmp}
use small_lib_c.Strings.Compare.Order.{difference, NonZero, Orders, difference-Orders}

module _ (m : Memory) where
  strcmp-difference :
      (k s1 s2 : ℕ) (xs ys : List ℕ)
      → StringAt m s1 xs
      → StringAt m s2 ys
      → length xs < k
      → strcmp k s1 s2 m ≡ ok (difference xs ys) m
  unfolding strcmp difference load
  strcmp-difference zero s1 s2 xs ys hx hy fuel = absurd (omega arith)
  strcmp-difference (suc k) s1 s2 [] [] hx hy fuel = ground arith
  strcmp-difference (suc k) s1 s2 [] (y ∷ ys) hx hy fuel = ground arith
  strcmp-difference (suc k) s1 s2 (x ∷ xs) [] hx hy fuel = ground arith
  strcmp-difference (suc k) s1 s2 (x ∷ xs) (y ∷ ys) hx hy fuel =
      ground (arith, strcmp-difference k (s1 + 1) (s2 + 1) xs ys)

  strcoll-difference :
      (k s1 s2 : ℕ) (xs ys : List ℕ)
      → StringAt m s1 xs
      → StringAt m s2 ys
      → length xs < k
      → strcoll k s1 s2 m ≡ ok (difference xs ys) m
  unfolding strcoll difference load
  strcoll-difference zero s1 s2 xs ys hx hy fuel = absurd (omega arith)
  strcoll-difference (suc k) s1 s2 [] [] hx hy fuel = ground arith
  strcoll-difference (suc k) s1 s2 [] (y ∷ ys) hx hy fuel = ground arith
  strcoll-difference (suc k) s1 s2 (x ∷ xs) [] hx hy fuel = ground arith
  strcoll-difference (suc k) s1 s2 (x ∷ xs) (y ∷ ys) hx hy fuel =
      ground (arith, strcoll-difference k (s1 + 1) (s2 + 1) xs ys)

  strncmp-difference :
      (n s1 s2 : ℕ) (xs ys : List ℕ)
      → StringAt m s1 xs
      → StringAt m s2 ys
      → strncmp n s1 s2 m ≡ ok (difference (take n xs) (take n ys)) m
  unfolding strncmp difference load
  strncmp-difference zero s1 s2 xs ys hx hy = refl
  strncmp-difference (suc n) s1 s2 [] [] hx hy = ground arith
  strncmp-difference (suc n) s1 s2 [] (y ∷ ys) hx hy = ground arith
  strncmp-difference (suc n) s1 s2 (x ∷ xs) [] hx hy = ground arith
  strncmp-difference (suc n) s1 s2 (x ∷ xs) (y ∷ ys) hx hy =
      ground (arith, strncmp-difference n (s1 + 1) (s2 + 1) xs ys)

  pub StringAt-NonZero : (p : ℕ) (xs : List ℕ) → StringAt m p xs → NonZero xs
  StringAt-NonZero p [] h = tt
  StringAt-NonZero p (x ∷ xs) h = (h.1, StringAt-NonZero (p + 1) xs h.2)

pub NonZero-take : (n : ℕ) (xs : List ℕ) → NonZero xs → NonZero (take n xs)
NonZero-take zero xs h = tt
NonZero-take (suc n) [] h = tt
NonZero-take (suc n) (x ∷ xs) h = (h.0, NonZero-take n xs h.1)

-- For two strings in memory and fuel above the length of the first, strcmp and strcoll return one
-- number, leaving the memory as it is. It is 0 exactly where the strings are equal, and negative
-- exactly where the first precedes the second in the lexicographic order of unsigned bytes.
pub strcmp-Orders :
    (m : Memory) (k s1 s2 : ℕ) (xs ys : List ℕ)
    → StringAt m s1 xs
    → StringAt m s2 ys
    → length xs < k
    → (r : ℤ) × (strcmp k s1 s2 m ≡ ok r m) × (strcoll k s1 s2 m ≡ ok r m) × Orders xs ys r
strcmp-Orders m k s1 s2 xs ys hx hy fuel = (
  difference xs ys,
  strcmp-difference m k s1 s2 xs ys hx hy fuel,
  strcoll-difference m k s1 s2 xs ys hx hy fuel,
  difference-Orders xs ys (StringAt-NonZero m s1 xs hx) (StringAt-NonZero m s2 ys hy),
)

-- For two strings in memory, strncmp compares their first n bytes, as strcmp does whole strings,
-- and leaves the memory as it is.
pub strncmp-Orders :
    (m : Memory) (n s1 s2 : ℕ) (xs ys : List ℕ)
    → StringAt m s1 xs
    → StringAt m s2 ys
    → (r : ℤ) × (strncmp n s1 s2 m ≡ ok r m) × Orders (take n xs) (take n ys) r
strncmp-Orders m n s1 s2 xs ys hx hy = (
  difference (take n xs) (take n ys),
  strncmp-difference m n s1 s2 xs ys hx hy,
  difference-Orders (take n xs) (take n ys) (NonZero-take n xs (StringAt-NonZero m s1 xs hx))
      (NonZero-take n ys (StringAt-NonZero m s2 ys hy)),
)
