-- ===== src/Allocator/Answer.antt =====
-- malloc as a whole: every size, every answer of mmap.
use small_lib_c.Base.{
  ◌*◌, ◌/◌, ℕ, ◌+◌, ◌-◌, ◌%◌, ◌^◌, ◌≤◌, ◌<◌, ◌≡◌, refl, sym, ap, ◌∙◌, true, false, ◌||◌, Option,
  none, List, ◌∷◌, ◌++◌, ◌⊎◌, arith, ◌==◌, if◌then◌else◌, leb, ltb, Bool-cases, Option-cases, inl,
  inr, length, subst,
}
use small_lib_c.Allocator.{
  Arena, done, lock, unlock, align, page_align, take_block, search_free, extend_heap, request_space,
  malloc,
}
use small_lib_c.Allocator.Chain.{Block, first_or, last_or}
use small_lib_c.Allocator.Layout.{Layout-right}
use small_lib_c.Allocator.Search.{NoneFits, Found, nothing, found, search_free-Found}
use small_lib_c.Allocator.Invariant.{IsHeap}
use small_lib_c.Allocator.Malloc.{
  rounded, pages, align-rounded, Allocated, refused, align_bounds, malloc_reuse,
}
use small_lib_c.Allocator.Request.{page_align-eq, MmapFresh, request_large, request_refused}
use small_lib_c.Allocator.Extend.{extend_granted}

-- A heap that is locked and unlocked again is the heap from before.
pub reopened :
    (h : Arena) (bs : List Block) → IsHeap h bs → IsHeap (record h { malloc_lock = false }) bs
reopened h bs heap = record {
  base = heap.base;
  unlocked = refl;
  chain = heap.chain;
  layout = heap.layout;
  backed = heap.backed;
}

abbrev locked : Arena → Arena
locked h = record h { malloc_lock = true }

extend_refused :
    (mmap : ℕ → Option ℕ) (h : Arena) (last n : ℕ)
    → request_space mmap last n (locked h) ≡ done 0 (locked h)
    → extend_heap mmap last n (locked h) ≡ done 0 (record h { malloc_lock = false })
unfolding extend_heap unlock
extend_refused mmap h last n e = rw e

-- The pages for a size are those that the code asks for.
pages_asked : (n size : ℕ) → n ≡ rounded size → n + 4127 < 2 ^ 32 → pages size ≡ page_align (n + 32)
pages_asked n size at under =
    ap (λ (t : ℕ). (t + 32 + 4095) / 4096 * 4096) (sym at)
    ∙ sym (page_align-eq (n + 32) (omega arith))

extend_heap-Allocated :
    (mmap : ℕ → Option ℕ) (h : Arena) (bs : List Block) (size n : ℕ)
    → IsHeap h bs
    → MmapFresh mmap bs
    → 16 ≤ n
    → n % 16 ≡ 0
    → size ≤ n
    → n ≡ rounded size
    → NoneFits n bs
    → Allocated mmap h.bytes bs size (extend_heap mmap (last_or 0 bs) n (locked h))
extend_heap-Allocated mmap h bs size n heap fresh n_size n_aligned lo at none_fits =
    let no : request_space mmap (last_or 0 bs) n (locked h) ≡ done 0 (locked h)
        → (2 ^ 32 - 4127 ≤ size) ⊎ (mmap (pages size) ≡ none)
        → Allocated mmap h.bytes bs size (extend_heap mmap (last_or 0 bs) n (locked h)) =
      λ e why. rw (extend_refused mmap h (last_or 0 bs) n e) (
        refused (reopened h bs heap) refl
          (inr (inr (subst (λ t. NoneFits t bs) at none_fits, why)))) in
    elim (Bool-cases (leb (2 ^ 32) (n + 4127))) [
      | inl large ↦
          let over : 2 ^ 32 ≤ n + 4127 = ground arith in
          no (request_large mmap (locked h) (last_or 0 bs) n over) (inl (omega arith))
      | inr small ↦
          let under : n + 4127 < 2 ^ 32 = ground arith in
          elim (Option-cases (mmap (page_align (n + 32)))) [
            | inl e ↦
                no (request_refused mmap (locked h) (last_or 0 bs) n under e)
                  (inr (ap mmap (pages_asked n size at under) ∙ e))
            | inr (a, e) ↦ extend_granted mmap h bs a size n heap fresh n_size n_aligned lo under e
          ]
    ]

after_search :
    (fuel : ℕ) (mmap : ℕ → Option ℕ) (h : Arena) (bs : List Block) (size block last : ℕ)
    → 0 < size
    → size ≤ 2 ^ 32 - 33
    → h.malloc_lock ≡ false
    → h.heap_base ≡ first_or bs 0
    → search_free fuel (first_or bs 0) 0 (align size) (locked h) ≡ done (block, last) (locked h)
    → malloc fuel mmap size h
      ≡ (if block == 0 then extend_heap mmap last (align size) else take_block block (align size))
          (locked h)
unfolding malloc lock
after_search fuel mmap h bs size block last lo hi free_lock base e =
    let t1 : (size == 0) ≡ false = ground arith in
    let t2 : ltb (2 ^ 32 - 1 - 32) size ≡ false = ground arith in
    let e' = ap (λ b. search_free fuel b 0 (align size) (locked h)) base ∙ e in
    rw (t1, t2, free_lock, e')

searched :
    (fuel : ℕ) (mmap : ℕ → Option ℕ) (h : Arena) (bs : List Block) (size : ℕ)
    → IsHeap h bs
    → MmapFresh mmap bs
    → 0 < size
    → size ≤ 2 ^ 32 - 33
    → Found (align size) (locked h) 0 bs fuel
    → Allocated mmap h.bytes bs size (malloc fuel mmap size h)
searched fuel mmap h bs size heap fresh lo hi (nothing none_fits e) =
    let (n_enough, n_close, n_size, n_aligned) = align_bounds size lo hi in
    rw (after_search fuel mmap h bs size 0 (last_or 0 bs) lo hi heap.unlocked heap.base e) (
      extend_heap-Allocated mmap h bs size (align size) heap fresh n_size n_aligned n_enough
        (align-rounded size hi) none_fits)
searched fuel mmap h bs size heap fresh lo hi (found pre post b split none_fits fit e) =
    let (n_enough, n_close, n_size, n_aligned) = align_bounds size lo hi in
    let heap' : IsHeap h (pre ++ b ∷ post) = subst (λ t. IsHeap h t) split heap in
    let live_block : (b.at == 0) ≡ false =
      let placed = (Layout-right pre (b ∷ post) heap'.layout).0 in ground (arith, placed) in
    let unused : b.used ≡ false = ground (arith, fit) in
    let room : align size ≤ b.size = ground (arith, fit) in
    rw
      (
        after_search fuel mmap h bs size b.at (last_or 0 pre) lo hi heap.unlocked heap.base e,
        live_block,
      )
      (subst (λ t. Allocated mmap h.bytes t size (take_block b.at (align size) (locked h)))
        (sym split)
        (malloc_reuse mmap h pre post b size (align size) heap' n_size n_aligned room n_enough
          unused))

too_large :
    (fuel : ℕ) (mmap : ℕ → Option ℕ) (h : Arena) (bs : List Block) (size : ℕ)
    → IsHeap h bs
    → size == 0 || ltb (2 ^ 32 - 1 - 32) size ≡ true
    → Allocated mmap h.bytes bs size (malloc fuel mmap size h)
unfolding malloc
too_large fuel mmap h bs size heap bad = elim (Bool-cases (size == 0)) [
  | inl y ↦ rw bad (refused heap refl (inl (ground (arith, y))))
  | inr y ↦ rw bad (refused heap refl (inr (inl (ground (arith, y, bad)))))
]

-- On a well formed heap, given fuel for its blocks and a kernel that maps fresh pages, malloc
-- returns: the payload of a block that is large enough, that was not in use,
-- with the others in use and their bytes left alone; or null and the heap as it was, and that only
-- for a size of 0 or above 2 ^ 32 - 33, or where no unused block has room for the size up to a multiple
-- of 16, and mmap refuses the pages for it and a header, or they pass the address space.
pub malloc-Allocated :
    (fuel : ℕ) (mmap : ℕ → Option ℕ) (h : Arena) (bs : List Block) (size : ℕ)
    → IsHeap h bs
    → MmapFresh mmap bs
    → length bs < fuel
    → Allocated mmap h.bytes bs size (malloc fuel mmap size h)
malloc-Allocated fuel mmap h bs size heap fresh enough =
    elim (Bool-cases (size == 0 || ltb (2 ^ 32 - 1 - 32) size)) [
      | inl bad ↦ too_large fuel mmap h bs size heap bad
      | inr good ↦
          let lo : 0 < size = ground arith in
          let hi : size ≤ 2 ^ 32 - 33 = ground arith in
          searched fuel mmap h bs size heap fresh lo hi
            (search_free-Found fuel (align size) (locked h) 0 bs heap.chain heap.layout enough)
    ]
