-- ===== src/Strings/Compare/Case.antt =====
-- strcasecmp and strncasecmp compare the strings with their capital letters made small.
use small_lib_c.Base.{
  if◌then◌else◌, ltb, ◌&&◌, subst, subst, ap, ℕ, zero, suc, ◌+◌, ◌<◌, ◌≡◌, refl, ◌≢◌, List, [], ◌∷◌,
  arith, ◌==◌, length, take, map, Bool-cases, ==_iff, inl, inr,
}
use small_lib_c.Base.Int.{ℤ}
use small_lib_c.Memory.{Memory, ok, load}
use small_lib_c.Memory.Region.{StringAt}
use small_lib_c.Strings.Compare.{fold_case, strcasecmp_loop, strcasecmp, strncasecmp}
use small_lib_c.Strings.Compare.Order.{
  difference, NonZero, Orders, difference-Orders, difference_self,
}
use small_lib_c.Strings.Compare.Text.{StringAt-NonZero, NonZero-take}

fold_case-ne-zero : (c : ℕ) → c ≢ 0 → fold_case c ≢ 0
unfolding fold_case
fold_case-ne-zero c h = ground arith

fold_case_zero : fold_case 0 ≡ 0
unfolding fold_case
fold_case_zero = refl

NonZero-fold_case : (xs : List ℕ) → NonZero xs → NonZero (map fold_case xs)
NonZero-fold_case [] h = tt
NonZero-fold_case (x ∷ xs) h = (fold_case-ne-zero x h.0, NonZero-fold_case xs h.1)

-- The small letter of a capital, and any other byte itself: the capitals are the bytes 65 to 90.
abbrev pub small_letter : ℕ → ℕ
small_letter c = if ltb 64 c && ltb c 91 then c + 32 else c

fold_case_lem : (c : ℕ) → fold_case c ≡ small_letter c
unfolding fold_case
fold_case_lem c = ground arith

map-fold_case : (xs : List ℕ) → map fold_case xs ≡ map small_letter xs
map-fold_case [] = refl
map-fold_case (x ∷ xs) = rw (fold_case_lem x) (ap (λ t. small_letter x ∷ t) (map-fold_case xs))

StringAt-unique :
    (m : Memory) (p : ℕ) (xs ys : List ℕ) → StringAt m p xs → StringAt m p ys → xs ≡ ys
StringAt-unique m p [] [] hx hy = refl
StringAt-unique m p [] (y ∷ ys) hx hy = ground arith
StringAt-unique m p (x ∷ xs) [] hx hy = ground arith
StringAt-unique m p (x ∷ xs) (y ∷ ys) hx hy = ground (arith, StringAt-unique m (p + 1) xs ys)

module _ (m : Memory) where
  strcasecmp_loop-difference :
      (k s1 s2 : ℕ) (xs ys : List ℕ)
      → StringAt m s1 xs
      → StringAt m s2 ys
      → length xs < k
      → strcasecmp_loop k s1 s2 m ≡ ok (difference (map fold_case xs) (map fold_case ys)) m
  unfolding strcasecmp_loop difference load
  strcasecmp_loop-difference zero s1 s2 xs ys hx hy fuel = absurd (omega arith)
  strcasecmp_loop-difference (suc k) s1 s2 [] [] hx hy fuel = ground (arith, fold_case_zero)
  strcasecmp_loop-difference (suc k) s1 s2 [] (y ∷ ys) hx hy fuel =
      ground (arith, fold_case_zero, fold_case-ne-zero y)
  strcasecmp_loop-difference (suc k) s1 s2 (x ∷ xs) [] hx hy fuel =
      ground (arith, fold_case_zero, fold_case-ne-zero x)
  strcasecmp_loop-difference (suc k) s1 s2 (x ∷ xs) (y ∷ ys) hx hy fuel =
      ground (arith, fold_case-ne-zero x, strcasecmp_loop-difference k (s1 + 1) (s2 + 1) xs ys)

  strcasecmp-difference :
      (k s1 s2 : ℕ) (xs ys : List ℕ)
      → StringAt m s1 xs
      → StringAt m s2 ys
      → length xs < k
      → strcasecmp k s1 s2 m ≡ ok (difference (map fold_case xs) (map fold_case ys)) m
  unfolding strcasecmp
  strcasecmp-difference k s1 s2 xs ys hx hy fuel = elim (Bool-cases (s1 == s2)) [
    | inl e ↦
        let at : s1 ≡ s2 = (==_iff s1 s2).0 e in
        let same : xs ≡ ys = StringAt-unique m s2 xs ys (rw at at hx) hy in
        rw (e, same, difference_self (map fold_case ys))
    | inr e ↦ rw e (strcasecmp_loop-difference k s1 s2 xs ys hx hy fuel)
  ]

  strncasecmp-difference :
      (n s1 s2 : ℕ) (xs ys : List ℕ)
      → StringAt m s1 xs
      → StringAt m s2 ys
      → strncasecmp n s1 s2 m
        ≡ ok (difference (map fold_case (take n xs)) (map fold_case (take n ys))) m
  unfolding strncasecmp difference load
  strncasecmp-difference zero s1 s2 xs ys hx hy = refl
  strncasecmp-difference (suc n) s1 s2 [] [] hx hy = ground (arith, fold_case_zero)
  strncasecmp-difference (suc n) s1 s2 [] (y ∷ ys) hx hy =
      ground (arith, fold_case_zero, fold_case-ne-zero y)
  strncasecmp-difference (suc n) s1 s2 (x ∷ xs) [] hx hy =
      ground (arith, fold_case_zero, fold_case-ne-zero x)
  strncasecmp-difference (suc n) s1 s2 (x ∷ xs) (y ∷ ys) hx hy =
      ground (arith, fold_case-ne-zero x, strncasecmp-difference n (s1 + 1) (s2 + 1) xs ys)

folded-Orders :
    (xs ys : List ℕ)
    → NonZero xs
    → NonZero ys
    → Orders
        (map small_letter xs)
        (map small_letter ys)
        (difference (map fold_case xs) (map fold_case ys))
folded-Orders xs ys nx ny =
    subst (λ t. Orders t (map small_letter ys) (difference (map fold_case xs) (map fold_case ys)))
      (map-fold_case xs)
      (subst (λ t. Orders (map fold_case xs) t (difference (map fold_case xs) (map fold_case ys)))
        (map-fold_case ys)
        (difference-Orders _ _ (NonZero-fold_case xs nx) (NonZero-fold_case ys ny)))

-- For two strings in memory, at different addresses or one, and fuel above the length of the first,
-- strcasecmp orders the strings with their capitals, the bytes 65 to 90, made the small letters 32 above, and strncasecmp the first n bytes
-- of them, as strcmp orders strings. The memory is left as it is.
pub strcasecmp-Orders :
    (m : Memory) (k n s1 s2 : ℕ) (xs ys : List ℕ)
    → StringAt m s1 xs
    → StringAt m s2 ys
    → length xs < k
    → ((r : ℤ) × (strcasecmp k s1 s2 m ≡ ok r m)
        × Orders (map small_letter xs) (map small_letter ys) r)
      × ((r : ℤ) × (strncasecmp n s1 s2 m ≡ ok r m)
          × Orders (map small_letter (take n xs)) (map small_letter (take n ys)) r)
strcasecmp-Orders m k n s1 s2 xs ys hx hy fuel =
    let nx = StringAt-NonZero m s1 xs hx in
    let ny = StringAt-NonZero m s2 ys hy in
    (
      (
        difference (map fold_case xs) (map fold_case ys),
        strcasecmp-difference m k s1 s2 xs ys hx hy fuel,
        folded-Orders xs ys nx ny,
      ),
      (
        difference (map fold_case (take n xs)) (map fold_case (take n ys)),
        strncasecmp-difference m n s1 s2 xs ys hx hy,
        folded-Orders _ _ (NonZero-take n xs nx) (NonZero-take n ys ny),
      ),
    )
