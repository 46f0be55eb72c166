-- ===== src/Qsort/Samples.antt =====
-- Runs of qsort of src/c/stdlib/qsort.c, and the theorem on it at a concrete input.
use small_lib_c.Base.{ℕ, ltb, if◌then◌else◌, List, [], ◌∷◌, some, ◌≡◌, refl, arith}
use small_lib_c.Base.Int.{ℤ, pos, negsuc}
use small_lib_c.Qsort.{swap, partition, qsort_recursive, qsort}
use small_lib_c.Qsort.Sorts.{Consistent, Sorts, qsort-Sorts}

abbrev in_order : ℕ → ℕ → ℤ
in_order a b = if ltb a b then negsuc 0 else if ltb b a then pos 1 else pos 0

abbrev mixed : List ℕ
mixed = 5 ∷ 2 ∷ 8 ∷ 2 ∷ 1 ∷ []

mixed_sorted : qsort in_order 4 mixed ≡ some (1 ∷ 2 ∷ 2 ∷ 5 ∷ 8 ∷ [])
unfolding swap partition qsort_recursive qsort
mixed_sorted = refl

in_order-Consistent : Consistent in_order
in_order-Consistent = record {
  one_way = λ x y h. ground (arith, h);
  chains = λ x y z h k. ground (arith, h, k);
}

qsort-Sorts_example : Sorts in_order mixed (qsort in_order 4 mixed)
qsort-Sorts_example = qsort-Sorts in_order in_order-Consistent 4 mixed (omega arith)
