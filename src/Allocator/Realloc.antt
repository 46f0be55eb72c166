-- ===== src/Allocator/Realloc.antt =====
-- realloc: src/c/stdlib/realloc.c.
pub mod Grow
pub mod Move
pub mod Result
use small_lib_c.Base.{
  ℕ, ◌+◌, ◌-◌, ◌%◌, ◌^◌, ◌≤◌, ◌<◌, ◌≡◌, Bool, true, false, not, ◌&&◌, Option, none, some, List, ◌∷◌,
  ◌++◌, ◌⊎◌, ◌==◌, if◌then◌else◌, leb, ltb, bit_and,
}
use small_lib_c.Memory.{Memory}
use small_lib_c.Strings.Block.{memcpy}
use small_lib_c.Allocator.{
  Header, Arena, Outcome, Step, done, ◌>>=◌, ◌>>◌, word, meta_size, size_max, magic_free,
  magic_used, load, modify, link_back, lock, unlock, align, get_block_ptr, is_valid_block,
  block_end, split_block, malloc, free,
}
use small_lib_c.Allocator.Chain.{Block}
use small_lib_c.Allocator.Invariant.{IsHeap, live}
use small_lib_c.Allocator.Malloc.{rounded, Refusal, Untouched}
use small_lib_c.Allocator.Bytes.{on_bytes}

-- The block takes in a free adjacent successor if the two are large enough together.
pub grow : (block aligned_size : ℕ) → Step Bool
grow block aligned_size = do
  b ← load block
  if b.next == 0 then done false else (do
    n ← load b.next
    if (n.magic == magic_free && block_end block b.size == b.next)
          && (ltb (b.size + meta_size + n.size) word
              && leb aligned_size (b.size + meta_size + n.size))
        then (do
          modify block
              (λ c. record c { size = (c.size + meta_size + n.size) % word; next = n.next })
          link_back n.next block
          done true)
        else done false)

abbrev pub copy_size : (old size : ℕ) → ℕ
copy_size old size = if ltb old size then old else size

-- The old header is read again, after malloc.
pub move_to : (block ptr size new_ptr : ℕ) → Step ℕ
move_to block ptr size new_ptr = if new_ptr == 0 then done 0 else (do
  b ← load block
  on_bytes (memcpy new_ptr ptr (copy_size b.size size))
  free ptr
  done new_ptr)

-- Without room in place: a new block, the old one's bytes, and the old one is freed.
pub move_block : (fuel : ℕ) (mmap : ℕ → Option ℕ) (block ptr size : ℕ) → Step ℕ
move_block fuel mmap block ptr size = do
  new_ptr ← malloc fuel mmap size
  move_to block ptr size new_ptr

-- What realloc does once it holds the lock and the block is known to be in use.
pub resize : (fuel : ℕ) (mmap : ℕ → Option ℕ) (block ptr size : ℕ) → Step ℕ
resize fuel mmap block ptr size = do
  b ← load block
  if leb (align size) b.size then (do split_block block (align size); unlock; done ptr) else (do
    grown ← grow block (align size)
    if grown
        then (do split_block block (align size); unlock; done ptr)
        else (do unlock; move_block fuel mmap block ptr size))

pub realloc : (fuel : ℕ) (mmap : ℕ → Option ℕ) (ptr size : ℕ) → Step ℕ
realloc fuel mmap ptr size =
    if ptr == 0
    then malloc fuel mmap size
    else if size == 0
    then (do free ptr; done 0)
    else if not (bit_and ptr 15 == 0)
    then done 0
    else if ltb (size_max - meta_size) size
    then done 0
    else (do
      lock
      let block = get_block_ptr ptr
      valid ← is_valid_block block
      if not valid then (do unlock; done 0) else (do
        b ← load block
        if not (b.magic == magic_used)
            then (do unlock; done 0)
            else resize fuel mmap block ptr size))

-- What realloc promises of a block `b` in use, `xs` and `ys` being the other blocks in use. Either
-- it returns null and nothing has changed, which takes a size above 2 ^ 32 - 33, or a block that is too
-- small and no room for another as `Refusal` says; or the block has another size in place, or there is
-- another block, with the old one's bytes as far as both go, in place of it; the other blocks
-- in use, and their bytes, are what they were.
pub data Resized (mmap : ℕ → Option ℕ) (m : Memory) (bs xs ys : List Block) (b : Block) (size : ℕ)
    : Outcome ℕ → Type 0 where
  refused :
      {h : Arena}
      → IsHeap h bs
      → h.bytes ≡ m
      → (2 ^ 32 - 33 < size) ⊎ ((b.size < rounded size) × Refusal mmap bs size)
      → Resized mmap m bs xs ys b size (done 0 h)
  in_place :
      {h : Arena} (bs' : List Block) (b' : Block)
      → IsHeap h bs'
      → b'.at ≡ b.at
      → size ≤ b'.size
      → b'.used ≡ true
      → live bs' ≡ xs ++ b' ∷ ys
      → h.bytes ≡ m
      → Resized mmap m bs xs ys b size (done (b.at + 32) h)
  moved :
      {h : Arena} {p : ℕ} (bs' us vs : List Block) (b' : Block)
      → IsHeap h bs'
      → p ≡ b'.at + 32
      → size ≤ b'.size
      → b'.used ≡ true
      → us ++ vs ≡ xs ++ ys
      → live bs' ≡ us ++ b' ∷ vs
      → ((i : ℕ) → i < b.size → i < size → h.bytes (p + i) ≡ m (b.at + 32 + i))
      → Untouched m h.bytes (xs ++ ys)
      → Resized mmap m bs xs ys b size (done p h)
