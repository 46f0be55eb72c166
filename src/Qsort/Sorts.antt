-- ===== src/Qsort/Sorts.antt =====
-- qsort of src/c/stdlib/qsort.c sorts: what it leaves is in order, and has the elements it was given.
use small_lib_c.Base.{
  get-inside, inside-get, ℕ, zero, suc, ◌+◌, ◌-◌, ◌<◌, ◌≡◌, refl, sym, ◌∙◌, ap, subst, List, [],
  ◌∷◌, ◌++◌, Option, some, length, get_elem?, arith, true, false, ◌==◌, leb, ==_iff, Bool-cases,
  inl, inr, take, drop, length-take, length-drop, ◌||◌,
}
use small_lib_c.Base.Int.{ℤ}
use small_lib_c.Qsort.{less, qsort_recursive, qsort}
use small_lib_c.Qsort.Arrays.{
  Swapped, swap-Swapped, All, perm-All, append-All, take-All, drop-All, split_at,
}
use small_lib_c.Qsort.Partition.{Parted, partition-Ends}
use mathlib.Core.List.{Permᴰ}
use mathlib.Core.List.Permᴰ

-- What the callers of qsort promise of a comparison: of two elements one at most is below the other,
-- and an element that is not below a second, which is not below a third, is not below that one.
pub record Consistent {ℓ} {A : Type ℓ} (compar : A → A → ℤ) : Type ℓ where
  pub one_way : (x y : A) → less compar x y ≡ true → less compar y x ≡ false
  pub chains :
      (x y z : A) → less compar y x ≡ false → less compar z y ≡ false → less compar z x ≡ false

module _ {ℓ} {A : Type ℓ} (compar : A → A → ℤ) where
  -- No element is below one before it.
  abbrev pub Sorted : List A → Type ℓ
  Sorted [] = Unit
  Sorted (x ∷ xs) = All (λ y. less compar y x ≡ false) xs × Sorted xs

  -- A result in order, with the elements of an array.
  pub record Sorts (arr : List A) (r : Option (List A)) : Type ℓ where
    pub result : List A
    pub runs : r ≡ some result
    pub perm : Permᴰ arr result
    pub sorted : Sorted result

  module _ (consistent : Consistent compar) where
    not_below :
        (x p : A) (r : List A)
        → less compar p x ≡ false
        → All (λ y. less compar y p ≡ false) r
        → All (λ y. less compar y x ≡ false) r
    not_below x p [] h k = tt
    not_below x p (y ∷ r) h (k, l) = (consistent.chains x p y h k, not_below x p r h l)

    joined :
        (l : List A) (p : A) (r : List A)
        → Sorted l
        → All (λ x. less compar x p ≡ true) l
        → Sorted r
        → All (λ y. less compar y p ≡ false) r
        → Sorted (l ++ (p ∷ r))
    joined [] p r sl bl sr ar = (ar, sr)
    joined (x ∷ l) p r (hx, sl) (bx, bl) sr ar =
        let after = consistent.one_way x p bx in
        (
          append-All (λ y. less compar y x ≡ false) l (p ∷ r) hx (after, not_below x p r after ar),
          joined l p r sl bl sr ar,
        )

    -- The pivot put between the parts.
    module _ (last : ℕ) (pivot : A) (i : ℕ) (arr : List A)
        (parted : Parted compar last pivot last i arr) (s : Swapped arr i last) where
      pivot_there : get_elem? s.result i ≡ some pivot
      pivot_there = s.first ∙ parted.at_last

      left_below : All (λ x. less compar x pivot ≡ true) (take i s.result)
      left_below = take-All _ i s.result (λ q x lt e. parted.below q x lt (
          sym (
            s.others q (λ z. absurd (omega (arith, z, lt)))
              (λ z. absurd (omega (arith, z, lt, parted.order))))
          ∙ e))

      right_above : All (λ x. less compar x pivot ≡ false) (drop (suc i) s.result)
      right_above = drop-All _ (suc i) s.result (λ q x le e. elim (Bool-cases (q == last)) [
        | inl t ↦
            let same : q ≡ last = (==_iff q last).0 t in
            parted.above i x (omega arith) (omega (arith, same, le))
              (sym s.second ∙ ap (λ z. get_elem? s.result z) (sym same) ∙ e)
        | inr n ↦
            let inside = inside-get s.result q e in
            parted.above q x (omega (arith, le))
              (ground (arith, inside, s.same_length, parted.size, n))
              (sym (
                  s.others q (λ z. absurd (omega (arith, z, le)))
                    (λ z. absurd (ground (arith, z, n))))
                ∙ e)
      ])

      between :
          (whole : List A)
          → Permᴰ whole arr
          → {lo hi : Option (List A)}
          → (l : Sorts (take i s.result) lo) (r : Sorts (drop (suc i) s.result) hi)
          → Sorts whole (some (l.result ++ (pivot ∷ r.result)))
      between whole perm l r = record {
        result = l.result ++ (pivot ∷ r.result);
        runs = refl;
        perm = Permᴰ.trans perm (
            Permᴰ.trans s.perm (
              subst (λ z. Permᴰ z (l.result ++ (pivot ∷ r.result)))
                (sym (split_at s.result i pivot pivot_there))
                (Permᴰ.trans (Permᴰ.append_right (pivot ∷ drop (suc i) s.result) l.perm)
                  (Permᴰ.append_left l.result (Permᴰ.cons refl r.perm)))));
        sorted =
            joined l.result pivot r.result l.sorted (perm-All _ l.perm left_below) r.sorted
              (perm-All _ r.perm right_above);
      }

    qsort_recursive-Sorts :
        (k : ℕ) (arr : List A) → length arr < k → Sorts arr (qsort_recursive compar k arr)
    unfolding qsort_recursive
    qsort_recursive-Sorts zero arr lt = absurd (omega arith)
    qsort_recursive-Sorts (suc k) arr lt = elim (Bool-cases (leb (length arr) 1)) [
      | inl y ↦
          rw (y, qsort_recursive)
            (record { result = arr; runs = refl; perm = Permᴰ.refl arr; sorted = short arr y })
      | inr n ↦
          let long : 1 < length arr = ground (arith, n) in
          let last = length arr - 1 in
          let (pivot, at_last) = get-inside arr last (omega (arith, long)) in
          let e = partition-Ends compar last pivot last 0 0 arr (omega arith) (record {
            size = omega (arith, long);
            at_last = at_last;
            order = omega arith;
            bound = omega arith;
            below = λ q x q_lt h. absurd (omega (arith, q_lt));
            above = λ q x le q_lt h. absurd (omega (arith, q_lt));
          }) in
          let s =
            swap-Swapped e.result e.i last (omega (arith, e.parted.size, e.parted.order))
              (omega (arith, e.parted.size)) in
          let size : length s.result ≡ suc last = s.same_length ∙ e.parted.size in
          let l =
            qsort_recursive-Sorts k (take e.i s.result)
              (omega (arith, lt, long, size, e.parted.order, length-take e.i s.result)) in
          let r =
            qsort_recursive-Sorts k (drop (suc e.i) s.result)
              (omega (arith, lt, long, size, length-drop (suc e.i) s.result)) in
          let there_now = pivot_there last pivot e.i e.result e.parted s in
          rw (n, qsort_recursive, e.runs, s.runs, there_now, l.runs, r.runs)
            (between last pivot e.i e.result e.parted s arr e.perm l r)
    ]
      where
        short : (arr : List A) → leb (length arr) 1 ≡ true → Sorted arr
        short [] y = tt
        short (x ∷ []) y = (tt, tt)
        short (x ∷ x' ∷ arr) y = absurd (ground (arith, y))

    -- qsort with a consistent comparison, of elements of a byte or more, ends within its array and
    -- leaves the elements of the array in order: none is below one before it.
    pub qsort-Sorts : (size : ℕ) (arr : List A) → 0 < size → Sorts arr (qsort compar size arr)
    unfolding qsort
    qsort-Sorts size arr some_size = elim (Bool-cases (length arr == 0 || size == 0)) [
      | inl y ↦
          rw y
            (record { result = arr; runs = refl; perm = Permᴰ.refl arr; sorted = none_there arr y })
      | inr n ↦ rw n (qsort_recursive-Sorts (length arr + 1) arr (omega arith))
    ]
      where
        none_there : (arr : List A) → (length arr == 0 || size == 0) ≡ true → Sorted arr
        none_there [] y = tt
        none_there (x ∷ arr) y = absurd (ground (arith, y, some_size))
