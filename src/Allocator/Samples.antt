-- ===== src/Allocator/Samples.antt =====
-- A heap of one page with a block in use and a free block behind it, and a kernel that has one
-- more page to give.
use small_lib_c.Base.{
  ℕ, ◌*◌, ◌*◌, ◌+◌, ◌≡◌, refl, true, false, Option, none, some, List, [], ◌∷◌, arith, ◌==◌,
  if◌then◌else◌, inl, inr,
}
use small_lib_c.Memory.Region.{inside}
use small_lib_c.Allocator.{Header, header, Arena, done, malloc, free, magic_used, magic_free}
use small_lib_c.Allocator.Chain.{Block}
use small_lib_c.Allocator.Invariant.{IsHeap, live}
use small_lib_c.Allocator.Malloc.{Allocated}
use small_lib_c.Allocator.Request.{MmapFresh}
use small_lib_c.Allocator.Answer.{malloc-Allocated}
use small_lib_c.Allocator.Free.{free-releases}
use small_lib_c.Allocator.Calloc.{calloc, ZeroBytes, calloc-ZeroBytes}
use small_lib_c.Allocator.Realloc.{realloc, Resized}
use small_lib_c.Allocator.Realloc.Result.{realloc-Resized}

abbrev page : ℕ
page = 65536

abbrev first : Block
first = record { at = page; size = 64; used = true }

abbrev second : Block
second = record { at = page + 96; size = 3968; used = false }

abbrev blocks : List Block
blocks = first ∷ second ∷ []

abbrev headers_of : ℕ → Option Header
headers_of a =
    if a == page
    then some (header 64 (page + 96) 0 magic_used)
    else if a == page + 96
    then some (header 3968 0 page magic_free)
    else none

abbrev heap : Arena
heap = record {
  headers = headers_of;
  heap_base = page;
  malloc_lock = false;
  bytes = λ a. if inside page 4096 a then some 7 else none;
}

heap-IsHeap : IsHeap heap blocks
heap-IsHeap = record {
  base = refl;
  unlocked = refl;
  chain = (refl, (refl, tt));
  layout = (
    record {
      above_zero_page = omega arith;
      aligned_at = refl;
      aligned_size = refl;
      not_empty = omega arith;
      in_space = omega arith;
    },
    (inl (omega arith), tt),
    (
      record {
        above_zero_page = omega arith;
        aligned_at = refl;
        aligned_size = refl;
        not_empty = omega arith;
        in_space = omega arith;
      },
      tt,
      tt,
    ),
  );
  backed = (λ a lo hi. ground arith, ((λ a lo hi. ground arith), tt));
}

-- One more page, at 0x20000.
abbrev one_page : ℕ → Option ℕ
one_page n = if n == 4096 then some 131072 else none

one_page-MmapFresh : MmapFresh one_page blocks
one_page-MmapFresh n a e =
    let size : n ≡ 4096 = ground (arith, e) in
    let at : a ≡ 131072 = ground (arith, e) in
    (omega arith, omega arith, omega arith, (inr (omega arith), (inr (omega arith), tt)))

live-blocks : live blocks ≡ first ∷ []
unfolding live
live-blocks = refl

malloc-Allocated_example : Allocated one_page heap.bytes blocks 4000 (malloc 3 one_page 4000 heap)
malloc-Allocated_example =
    malloc-Allocated 3 one_page heap blocks 4000 heap-IsHeap one_page-MmapFresh (omega arith)

calloc-ZeroBytes_example :
    Allocated one_page heap.bytes blocks (10 * 30) (calloc 3 one_page 10 30 heap)
    × ZeroBytes (10 * 30) (calloc 3 one_page 10 30 heap)
calloc-ZeroBytes_example =
    calloc-ZeroBytes 3 one_page heap blocks 10 30 heap-IsHeap one_page-MmapFresh (omega arith)

free-releases_example :
    (h' : Arena) × (bs' : List Block) × (free (page + 32) heap ≡ done tt h')
    × IsHeap h' bs'
    × (live bs' ≡ [])
    × (h'.bytes ≡ heap.bytes)
    × (free (page + 32) h' ≡ done tt h')
free-releases_example = free-releases heap blocks [] [] first heap-IsHeap live-blocks

realloc-Resized_example :
    Resized one_page heap.bytes blocks [] [] first 200 (realloc 3 one_page (page + 32) 200 heap)
realloc-Resized_example =
    realloc-Resized 3 one_page heap blocks [] [] first 200 heap-IsHeap one_page-MmapFresh
      (omega arith) live-blocks (omega arith)
