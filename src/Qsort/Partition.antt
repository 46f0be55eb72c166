-- ===== src/Qsort/Partition.antt =====
-- The loop of qsort_recursive in src/c/stdlib/qsort.c: the elements below the pivot come first.
use small_lib_c.Base.{
  some_value, get-inside, ℕ, zero, suc, ◌+◌, ◌≤◌, ◌<◌, ◌≡◌, refl, sym, ◌∙◌, ap, subst, List, Option,
  some, length, get_elem?, arith, true, false, ◌==◌, ==_iff, Bool-cases, inl, inr,
}
use small_lib_c.Base.Int.{ℤ}
use small_lib_c.Qsort.{less, partition}
use small_lib_c.Qsort.Arrays.{Swapped, swap-Swapped}
use mathlib.Core.List.{Permᴰ}
use mathlib.Core.List.Permᴰ

module _ {ℓ} {A : Type ℓ} (compar : A → A → ℤ) (last : ℕ) (pivot : A) where
  -- Elements below the pivot before i, none from i to j, and the pivot at `last`.
  pub record Parted (j i : ℕ) (arr : List A) : Type ℓ where
    pub size : length arr ≡ suc last
    pub at_last : get_elem? arr last ≡ some pivot
    pub order : i ≤ j
    pub bound : j ≤ last
    pub below : (q : ℕ) (x : A) → q < i → get_elem? arr q ≡ some x → less compar x pivot ≡ true
    pub above :
        (q : ℕ) (x : A) → i ≤ q → q < j → get_elem? arr q ≡ some x → less compar x pivot ≡ false

  -- What the loop ends in.
  pub record Ends (arr : List A) (r : Option (List A × ℕ)) : Type ℓ where
    pub result : List A
    pub i : ℕ
    pub runs : r ≡ some (result, i)
    pub perm : Permᴰ arr result
    pub parted : Parted last i result

  module _ (j i : ℕ) (arr : List A) (parted : Parted j i arr) (lt : j < last) (x : A)
      (here : get_elem? arr j ≡ some x) where
    kept_Parted : less compar x pivot ≡ false → Parted (suc j) i arr
    kept_Parted above_pivot = record {
      size = parted.size;
      at_last = parted.at_last;
      order = omega (arith, parted.order);
      bound = omega (arith, lt);
      below = parted.below;
      above = λ q y le q_lt e. elim (Bool-cases (q == j)) [
        | inl t ↦
            let same : q ≡ j = (==_iff q j).0 t in
            let value : some y ≡ some x = sym e ∙ ap (λ z. get_elem? arr z) same ∙ here in
            subst (λ z. less compar z pivot ≡ false) (sym (some_value value)) above_pivot
        | inr n ↦ parted.above q y le (ground (arith, q_lt, n)) e
      ];
    }

    module _ (s : Swapped arr i j) (below_pivot : less compar x pivot ≡ true) where
      moved_Parted : Parted (suc j) (suc i) s.result
      moved_Parted = record {
        size = s.same_length ∙ parted.size;
        at_last =
            s.others last (λ e. absurd (omega (arith, e, lt, parted.order)))
              (λ e. absurd (omega (arith, e, lt)))
            ∙ parted.at_last;
        order = omega (arith, parted.order);
        bound = omega (arith, lt);
        below = λ q y q_lt e. elim (Bool-cases (q == i)) [
          | inl t ↦
              let same : q ≡ i = (==_iff q i).0 t in
              let value : some y ≡ some x =
                sym e ∙ ap (λ z. get_elem? s.result z) same ∙ s.first ∙ here in
              subst (λ z. less compar z pivot ≡ true) (sym (some_value value)) below_pivot
          | inr n ↦ parted.below q y (ground (arith, q_lt, n)) (
              sym (
                s.others q (λ z. absurd (ground (arith, z, n)))
                  (λ z. absurd (ground (arith, z, n, q_lt, parted.order))))
              ∙ e)
        ];
        above = λ q y le q_lt e. elim (Bool-cases (q == j)) [
          | inl t ↦
              let same : q ≡ j = (==_iff q j).0 t in
              parted.above i y (omega arith) (omega (arith, same, le))
                (sym s.second ∙ ap (λ z. get_elem? s.result z) (sym same) ∙ e)
          | inr n ↦ parted.above q y (omega (arith, le)) (ground (arith, q_lt, n)) (
              sym (
                s.others q (λ z. absurd (omega (arith, z, le)))
                  (λ z. absurd (ground (arith, z, n))))
              ∙ e)
        ];
      }

  pub partition-Ends :
      (k j i : ℕ) (arr : List A)
      → j + k ≡ last
      → Parted j i arr
      → Ends arr (partition compar last k j i arr)
  unfolding partition
  partition-Ends zero j i arr rounds parted =
      let same : j ≡ last = omega (arith, rounds) in
      record {
        result = arr;
        i = i;
        runs = refl;
        perm = Permᴰ.refl arr;
        parted = subst (λ z. Parted z i arr) same parted;
      }
  partition-Ends (suc k) j i arr rounds parted =
      let lt : j < last = omega (arith, rounds) in
      let (x, here) = get-inside arr j (omega (arith, lt, parted.size)) in
      elim (Bool-cases (less compar x pivot)) [
        | inl y ↦
            let s =
              swap-Swapped arr i j (omega (arith, lt, parted.size, parted.order))
                (omega (arith, lt, parted.size)) in
            let r =
              partition-Ends k (suc j) (suc i) s.result (omega (arith, rounds))
                (moved_Parted j i arr parted lt x here s y) in
            rw (here, parted.at_last, y, s.runs)
              (record {
                result = r.result;
                i = r.i;
                runs = r.runs;
                perm = Permᴰ.trans s.perm r.perm;
                parted = r.parted;
              })
        | inr n ↦
            rw (here, parted.at_last, n)
              (partition-Ends k (suc j) i arr (omega (arith, rounds))
                (kept_Parted j i arr parted lt x here n))
      ]
