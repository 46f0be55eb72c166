-- ===== src/Qsort/Arrays.antt =====
-- Arrays of src/c/stdlib/qsort.c: what a swap does, and the elements that satisfy a condition.
use small_lib_c.Base.{
  get-inside, get-set_same, get-set_other, ◌==◌, ==_iff, inl, inr, Bool-cases, ℕ, zero, suc, ◌≤◌,
  ◌<◌, ◌≡◌, ◌≢◌, refl, sym, ◌∙◌, ap, subst, List, [], ◌∷◌, ◌++◌, some, length, get_elem?, set, take,
  drop, arith, length-set,
}
use small_lib_c.Qsort.{swap}
use mathlib.Core.List.{Permᴰ}
use mathlib.Core.List.Permᴰ

module _ {ℓ} {A : Type ℓ} where
  -- An element of an array exchanged for one in front.
  front_perm :
      (arr : List A) (b : ℕ) (x y : A)
      → get_elem? arr b ≡ some y
      → Permᴰ (x ∷ arr) (y ∷ set arr b x)
  front_perm [] b x y e = absurd (ground (arith, e))
  front_perm (h ∷ t) zero x y e = let same : h ≡ y = ground (arith, e) in Permᴰ.swap refl same
  front_perm (h ∷ t) (suc b) x y e =
      Permᴰ.trans (Permᴰ.swap refl refl)
        (Permᴰ.trans (Permᴰ.cons refl (front_perm t b x y e)) (Permᴰ.swap refl refl))

  swap_perm :
      (arr : List A) (a b : ℕ) (x y : A)
      → get_elem? arr a ≡ some x
      → get_elem? arr b ≡ some y
      → Permᴰ arr (set (set arr a y) b x)
  swap_perm [] a b x y e f = absurd (ground (arith, e))
  swap_perm (h ∷ t) zero zero x y e f = Permᴰ.cons (ground (arith, e)) (Permᴰ.refl t)
  swap_perm (h ∷ t) zero (suc b) x y e f =
      let same : x ≡ h = ground (arith, e) in
      subst (λ z. Permᴰ (z ∷ t) (y ∷ set t b x)) same (front_perm t b x y f)
  swap_perm (h ∷ t) (suc a) zero x y e f =
      let same : y ≡ h = ground (arith, f) in
      subst (λ z. Permᴰ (z ∷ t) (x ∷ set t a y)) same (front_perm t a y x e)
  swap_perm (h ∷ t) (suc a) (suc b) x y e f = Permᴰ.cons refl (swap_perm t a b x y e f)

  -- What a swap of two elements leaves.
  pub record Swapped (arr : List A) (a b : ℕ) : Type ℓ where
    pub result : List A
    pub runs : swap arr a b ≡ some result
    pub perm : Permᴰ arr result
    pub same_length : length result ≡ length arr
    pub second : get_elem? result b ≡ get_elem? arr a
    pub first : get_elem? result a ≡ get_elem? arr b
    pub others : (q : ℕ) → q ≢ a → q ≢ b → get_elem? result q ≡ get_elem? arr q

  pub swap-Swapped : (arr : List A) (a b : ℕ) → a < length arr → b < length arr → Swapped arr a b
  unfolding swap
  swap-Swapped arr a b la lb =
      let (x, ex) = get-inside arr a la in
      let (y, ey) = get-inside arr b lb in
      let (z, ez) = get-inside (set arr a y) b (omega (arith, lb, length-set arr a y)) in
      record {
        result = set (set arr a y) b x;
        runs = rw (ex, ey) refl;
        perm = swap_perm arr a b x y ex ey;
        same_length = length-set (set arr a y) b x ∙ length-set arr a y;
        second = get-set_same (set arr a y) b x ez ∙ sym ex;
        first = at_first x y z ex ey ez;
        others = λ q na nb.
            get-set_other (set arr a y) b q x (λ e. nb (sym e))
            ∙ get-set_other arr a q y (λ e. na (sym e));
      }
    where
      at_first :
          (x y z : A)
          → get_elem? arr a ≡ some x
          → get_elem? arr b ≡ some y
          → get_elem? (set arr a y) b ≡ some z
          → get_elem? (set (set arr a y) b x) a ≡ get_elem? arr b
      at_first x y z ex ey ez = elim (Bool-cases (a == b)) [
        | inl t ↦
            let same : a ≡ b = (==_iff a b).0 t in
            ap (λ q. get_elem? (set (set arr a y) b x) q) same
            ∙ get-set_same (set arr a y) b x ez
            ∙ sym ex
            ∙ ap (λ q. get_elem? arr q) same
        | inr n ↦
            get-set_other (set arr a y) b a x (λ e. absurd (ground (arith, e, n)))
            ∙ get-set_same arr a y ex
            ∙ sym ey
      ]

  -- All elements satisfy a condition.
  abbrev pub All {ℓ'} : (A → Type ℓ') → List A → Type ℓ'
  All P [] = Unit
  All P (x ∷ xs) = P x × All P xs

  pub perm-All {ℓ'} : (P : A → Type ℓ') {xs ys : List A} → Permᴰ xs ys → All P xs → All P ys
  perm-All P Permᴰ.nil h = h
  perm-All P (Permᴰ.cons e r) (p, h) = (subst P e p, perm-All P r h)
  perm-All P (Permᴰ.swap e f) (p, (q, h)) = (subst P f q, (subst P e p, h))
  perm-All P (Permᴰ.trans r s) h = perm-All P s (perm-All P r h)

  pub append-All {ℓ'} : (P : A → Type ℓ') (xs ys : List A) → All P xs → All P ys → All P (xs ++ ys)
  append-All P [] ys h k = k
  append-All P (x ∷ xs) ys (p, h) k = (p, append-All P xs ys h k)

  pub take-All {ℓ'} :
      (P : A → Type ℓ') (n : ℕ) (xs : List A)
      → ((q : ℕ) (x : A) → q < n → get_elem? xs q ≡ some x → P x)
      → All P (take n xs)
  take-All P zero xs h = tt
  take-All P (suc n) [] h = tt
  take-All P (suc n) (x ∷ xs) h =
      (h 0 x (omega arith) refl, take-All P n xs (λ q y lt e. h (suc q) y (omega (arith, lt)) e))

  pub drop-All {ℓ'} :
      (P : A → Type ℓ') (n : ℕ) (xs : List A)
      → ((q : ℕ) (x : A) → n ≤ q → get_elem? xs q ≡ some x → P x)
      → All P (drop n xs)
  drop-All P zero [] h = tt
  drop-All P zero (x ∷ xs) h =
      (h 0 x (omega arith) refl, drop-All P zero xs (λ q y le e. h (suc q) y (omega arith) e))
  drop-All P (suc n) [] h = tt
  drop-All P (suc n) (x ∷ xs) h = drop-All P n xs (λ q y le e. h (suc q) y (omega (arith, le)) e)

  pub split_at :
      (xs : List A) (i : ℕ) (p : A)
      → get_elem? xs i ≡ some p
      → xs ≡ take i xs ++ (p ∷ drop (suc i) xs)
  split_at [] i p e = absurd (ground (arith, e))
  split_at (x ∷ xs) zero p e = ap (λ z. z ∷ xs) (ground (arith, e))
  split_at (x ∷ xs) (suc i) p e = ap (λ z. x ∷ z) (split_at xs i p e)
