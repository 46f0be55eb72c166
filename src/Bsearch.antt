-- ===== src/Bsearch.antt =====
-- Binary search: src/c/stdlib/bsearch.c. The caller's `compar` is an argument, as a function of the
-- key's and an element's address; a sum of two indices wraps at 2 ^ 32.
pub mod Found
mod Samples
use small_lib_c.Base.{ℕ, zero, suc, ◌+◌, ◌*◌, ◌/◌, ◌%◌, ◌^◌, Bool, true, false, ltb, if◌then◌else◌}
use small_lib_c.Base.Int.{ℤ, pos, negsuc}

pub data Search : Type 0 where
  found : (p : ℕ) → Search
  missing : Search
  out_of_fuel : Search

pub bsearch_loop : (compar : ℕ → ℕ → ℤ) (key base size : ℕ) (fuel l u : ℕ) → Search
bsearch_loop compar key base size zero l u = out_of_fuel
bsearch_loop compar key base size (suc k) l u = elim (ltb l u) [
  | false ↦ missing
  | true ↦
      let idx = (l + u) % 2 ^ 32 / 2 in
      let p = base + idx * size in
      elim (compar key p) [
        | negsuc n ↦ bsearch_loop compar key base size k l idx
        | pos n ↦ elim n [
          | zero ↦ found p
          | suc m ↦ bsearch_loop compar key base size k (idx + 1) u
        ]
      ]
]

pub bsearch : (compar : ℕ → ℕ → ℤ) (fuel key base nmemb size : ℕ) → Search
bsearch compar fuel key base nmemb size = bsearch_loop compar key base size fuel 0 nmemb
