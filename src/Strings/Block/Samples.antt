-- ===== src/Strings/Block/Samples.antt =====
-- Runs of the block functions, and the theorems at a concrete memory.
use mathlib.Core.Option
use small_lib_c.Base.{ℕ, ◌≡◌, refl, some, [], ◌∷◌, ◌%◌, ◌+◌, arith, length}
use small_lib_c.Memory.{Memory, ok}
use small_lib_c.Memory.Region.{holding}
use small_lib_c.Strings.Block.{memmove, memchr}
use small_lib_c.Strings.Block.Move.{moved, memmove_lem}
use small_lib_c.Strings.Block.Search.{index_of, memchr-index_of}

abbrev five_bytes : Memory
five_bytes = holding 10 (1 ∷ 2 ∷ 3 ∷ 4 ∷ 5 ∷ [])

memmove_lem_example : memmove 12 10 3 five_bytes ≡ ok 12 (moved five_bytes 12 10 3)
memmove_lem_example =
    memmove_lem 12 10 3 five_bytes (λ a lo hi. ground arith) (λ a lo hi. ground arith)

-- The overlapping move keeps the bytes: 1 2 1 2 3.
moved_last : moved five_bytes 12 10 3 14 ≡ some 3
unfolding moved
moved_last = refl

memchr-index_of_example :
    memchr 10 3 (length {A = ℕ} (1 ∷ 2 ∷ 3 ∷ [])) five_bytes
    ≡ ok (Option.map (λ i. 10 + i) (index_of (3 % 256) (1 ∷ 2 ∷ 3 ∷ []))) five_bytes
memchr-index_of_example = memchr-index_of five_bytes 10 3 (1 ∷ 2 ∷ 3 ∷ []) (ground arith)
