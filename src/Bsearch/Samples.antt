-- ===== src/Bsearch/Samples.antt =====
-- Three elements of four bytes from address 100 on; an element's address is its value, and so is the
-- key's.
use small_lib_c.Base.{ℕ, ◌+◌, ◌*◌, ltb, if◌then◌else◌, arith}
use small_lib_c.Base.Int.{ℤ, pos, negsuc}
use small_lib_c.Bsearch.{bsearch}
use small_lib_c.Bsearch.Found.{Searched, Sorted, bsearch-Searched}

abbrev compare_addresses : ℕ → ℕ → ℤ
compare_addresses key p = if ltb key p then negsuc 0 else if ltb p key then pos 1 else pos 0

in_order-Sorted : Sorted (λ i. compare_addresses 104 (100 + i * 4)) 3
in_order-Sorted = (λ i j h h' e. (0, ground (arith, e.1)), λ i j h h' e. (0, ground (arith, e.1)))

bsearch-Searched_example :
    Searched
      (λ i. compare_addresses 104 (100 + i * 4))
      100
      4
      3
      (bsearch compare_addresses 4 104 100 3 4)
bsearch-Searched_example =
    bsearch-Searched compare_addresses 104 100 4 3 (omega arith) 4 in_order-Sorted (omega arith)
