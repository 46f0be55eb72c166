-- ===== src/Allocator/Realloc/Result.antt =====
-- realloc as a whole, on a block in use.
use small_lib_c.Base.{
  ℕ, ◌+◌, ◌-◌, ◌^◌, ◌≤◌, ◌<◌, ◌≡◌, refl, sym, ap, ◌∙◌, subst, true, false, Option, List, ◌∷◌, ◌++◌,
  arith, ◌==◌, leb, ltb, Bool-cases, inl, inr, length,
}
use small_lib_c.Memory.{Memory}
use small_lib_c.Allocator.{
  Arena, Outcome, done, ◌>>◌, continue, lock, unlock, align, split_block, magic_used,
}
use small_lib_c.Allocator.Chain.{Block, header_of, magic_of, first_or, last_or, Seg-right}
use small_lib_c.Allocator.Layout.{Placed, Layout-right, AllApart}
use small_lib_c.Allocator.Link.{load-some, with_headers}
use small_lib_c.Allocator.Invariant.{IsHeap, live, live-Splits, live-apart, live-append, live_used}
use small_lib_c.Allocator.Malloc.{
  rounded, align-rounded, first_or-middle, Allocated, refused, granted, Untouched, align_bounds,
}
use small_lib_c.Allocator.Request.{MmapFresh}
use small_lib_c.Allocator.Answer.{malloc-Allocated, reopened}
use small_lib_c.Allocator.Bytes.{live_block-Mapped}
use small_lib_c.Allocator.Coalesce.{Linked}
use small_lib_c.Allocator.Free.{ptr_tests, is_valid_block_lem}
use small_lib_c.Allocator.Calloc.{Untouched-inside}
use small_lib_c.Allocator.Realloc.{copy_size, grow, move_to, move_block, resize, realloc, Resized}
use small_lib_c.Allocator.Realloc.Grow.{grow_lem, cut_in_place}
use small_lib_c.Allocator.Realloc.Move.{
  exchange, Untouched-without, AllApart-without, move_run, moved_inside, moved_outside, count,
}

module _ (mmap : ℕ → Option ℕ) (m : Memory) (bs xs ys : List Block) (b : Block) (size : ℕ)
    (l : live bs ≡ xs ++ b ∷ ys) (positive : 0 < size) (short : b.size < rounded size) where
  move_to-Resized :
      {o : Outcome ℕ}
      → Allocated mmap m bs size o
      → Resized mmap m bs xs ys b size (continue o (move_to b.at (b.at + 32) size))
  unfolding move_to
  move_to-Resized (refused heap same (inl none_asked)) = absurd (omega arith)
  move_to-Resized (refused heap same (inr why)) = Resized.refused heap same (inr (short, why))
  move_to-Resized (granted {h} {p} bs' us vs c heap at room used lv lv' kept) =
      let (ls, rs, ps, qs, e1, e2, e3) = exchange us vs xs b c ys (sym lv ∙ l) in
      let (c_placed, c_mapped) = live_block-Mapped h bs' us vs c heap lv' in
      let c_apart =
        subst (λ t. AllApart c t) (sym lv ∙ l) (live-apart bs' us vs c heap.layout lv') in
      let (apart, apart_rest) = AllApart-without c xs b ys c_apart in
      let (h', bs2, run, heap', lv2, bytes) =
        move_run h bs' ls rs b c size heap (lv' ∙ e1) c_placed c_mapped apart room in
      let (b_kept, rest_kept) =
        Untouched-without m h.bytes xs b ys (subst (λ t. Untouched m h.bytes t) l kept) in
      let (n_old, n_new) =
        count h bs' ls rs b c size heap (lv' ∙ e1) c_placed c_mapped apart room in
      rw (at, run)
        (Resized.moved bs2 ps qs c heap' refl room used e3 (lv2 ∙ e2)
          (λ i old new.
            ap (λ (t : Memory). t (c.at + 32 + i)) bytes
            ∙ moved_inside h.bytes (c.at + 32) (b.at + 32) (copy_size b.size size) i (ground arith)
            ∙ b_kept (b.at + 32 + i) (omega arith) (omega arith))
          (Untouched-inside m h.bytes h'.bytes c (xs ++ ys) apart_rest
            (λ a out.
              ap (λ (t : Memory). t a) bytes
              ∙ moved_outside h.bytes (c.at + 32) (b.at + 32) (copy_size b.size size) a
                  (omega (arith, n_new)))
            rest_kept))

move_block-Resized :
    (fuel : ℕ) (mmap : ℕ → Option ℕ) (h : Arena) (bs xs ys : List Block) (b : Block) (size : ℕ)
    → IsHeap h bs
    → MmapFresh mmap bs
    → length bs < fuel
    → live bs ≡ xs ++ b ∷ ys
    → 0 < size
    → b.size < rounded size
    → Resized mmap h.bytes bs xs ys b size (move_block fuel mmap b.at (b.at + 32) size h)
unfolding move_block
move_block-Resized fuel mmap h bs xs ys b size heap fresh enough l positive short =
    move_to-Resized mmap h.bytes bs xs ys b size l positive short
      (malloc-Allocated fuel mmap h bs size heap fresh enough)

module _ (fuel : ℕ) (mmap : ℕ → Option ℕ) (h : Arena) (pre post : List Block) (b : Block) (size : ℕ)
    (heap : IsHeap h (pre ++ b ∷ post)) (fresh : MmapFresh mmap (pre ++ b ∷ post))
    (enough : length (pre ++ b ∷ post) < fuel) (used : b.used ≡ true) (positive : 0 < size)
    (small : size ≤ 2 ^ 32 - 33) where
  abbrev locked : Arena
  locked = record h { malloc_lock = true }

  linked : Linked locked (pre ++ b ∷ post)
  linked = (heap.chain, heap.layout, heap.backed)

  resize-move :
      leb (align size) b.size ≡ false
      → grow b.at (align size) locked ≡ done false locked
      → Resized mmap h.bytes
          (pre ++ b ∷ post)
          (live pre)
          (live post)
          b
          size
          (resize fuel mmap b.at (b.at + 32) size locked)
  unfolding resize unlock
  resize-move short e =
      let here = (Seg-right h.headers 0 pre (b ∷ post) 0 heap.chain).0 in
      let l = live-append pre (b ∷ post) ∙ ap (λ t. live pre ++ t) (live_used b post used) in
      rw (load-some b.at locked here, short, e)
        (move_block-Resized fuel mmap (record h { malloc_lock = false }) (pre ++ b ∷ post)
          (live pre) (live post) b size (reopened h (pre ++ b ∷ post) heap) fresh enough l positive
          (ground (arith, short, align-rounded size small)))

  resize-Resized :
      Resized mmap h.bytes
        (pre ++ b ∷ post)
        (live pre)
        (live post)
        b
        size
        (resize fuel mmap b.at (b.at + 32) size locked)
  unfolding resize
  resize-Resized =
      let here = (Seg-right h.headers 0 pre (b ∷ post) 0 heap.chain).0 in
      let (n_enough, n_close, n_size, n_aligned) = align_bounds size positive small in
      elim (Bool-cases (leb (align size) b.size)) [
        | inl fits ↦
            rw (load-some b.at locked here, fits)
              (cut_in_place mmap locked (pre ++ b ∷ post) pre post b b (align size) size heap.base
                linked n_size n_aligned (ground (arith, fits)) n_enough refl used)
        | inr short ↦ elim (grow_lem locked pre b (align size) post linked) [
          | inl e ↦ resize-move short e
          | inr (hs, b', post', e, linked', same, state, room, lv) ↦
              rw (load-some b.at locked here, short, e)
                (subst
                  (λ t. Resized mmap h.bytes (pre ++ b ∷ post) (live pre) t b size (
                    (do split_block b.at (align size); unlock; done (b.at + 32))
                      (with_headers locked hs)))
                  lv
                  (subst
                    (λ p. Resized mmap h.bytes (pre ++ b ∷ post) (live pre) (live post') b size (
                      (do split_block p (align size); unlock; done (b.at + 32))
                        (with_headers locked hs)))
                    same
                    (cut_in_place mmap (with_headers locked hs) (pre ++ b ∷ post) pre post' b' b
                      (align size) size
                      (heap.base ∙ first_or-middle pre (b ∷ post) (b' ∷ post') (sym same)) linked'
                      n_size n_aligned room n_enough same (state ∙ used))))
        ]
      ]

  realloc_run : realloc fuel mmap (b.at + 32) size h ≡ resize fuel mmap b.at (b.at + 32) size locked
  unfolding realloc lock
  realloc_run =
      let here = (Seg-right h.headers 0 pre (b ∷ post) 0 heap.chain).0 in
      let placed : Placed b = (Layout-right pre (b ∷ post) heap.layout).0 in
      let (t1, t2, t3) = ptr_tests b placed in
      let t4 : (size == 0) ≡ false = ground arith in
      let t5 : ltb (2 ^ 32 - 1 - 32) size ≡ false = ground arith in
      let valid =
        is_valid_block_lem b placed locked (header_of b (first_or post 0) (last_or 0 pre)) here in
      let magic : magic_of b.used ≡ magic_used = ap magic_of used in
      rw (t1, t4, t2, t5, heap.unlocked, t3, valid, magic, load-some b.at locked here, magic) refl

realloc_large :
    (fuel : ℕ) (mmap : ℕ → Option ℕ) (h : Arena) (b : Block) (size : ℕ)
    → Placed b
    → 2 ^ 32 - 33 < size
    → realloc fuel mmap (b.at + 32) size h ≡ done 0 h
unfolding realloc
realloc_large fuel mmap h b size placed large =
    let (t1, t2, t3) = ptr_tests b placed in
    let t4 : (size == 0) ≡ false = ground arith in
    let t5 : ltb (2 ^ 32 - 1 - 32) size ≡ true = ground arith in rw (t1, t4, t2, t5) refl

-- On a well formed heap, given fuel for its blocks and a kernel that maps fresh pages, realloc of
-- the payload of a block in use to a size that is not 0 returns the same payload with enough room, or another payload that begins with the old
-- one's bytes, and the other blocks in use and their bytes stay; or it returns null and the heap is as
-- it was, and that only for a size above 2 ^ 32 - 33, or where the block is smaller than the size up to
-- a multiple of 16, no unused block has room for that, and mmap refuses the pages for it and a header,
-- or they pass the address space.
pub realloc-Resized :
    (fuel : ℕ) (mmap : ℕ → Option ℕ) (h : Arena) (bs xs ys : List Block) (b : Block) (size : ℕ)
    → IsHeap h bs
    → MmapFresh mmap bs
    → length bs < fuel
    → live bs ≡ xs ++ b ∷ ys
    → 0 < size
    → Resized mmap h.bytes bs xs ys b size (realloc fuel mmap (b.at + 32) size h)
realloc-Resized fuel mmap h bs xs ys b size heap fresh enough l positive =
    let (pre, post, split, left, right, used) = live-Splits bs xs b ys l in
    let (placed, mapped) = live_block-Mapped h bs xs ys b heap l in
    elim (Bool-cases (leb size (2 ^ 32 - 33))) [
      | inr large ↦
          rw (realloc_large fuel mmap h b size placed (ground (arith, large)))
            (Resized.refused heap refl (inl (ground (arith, large))))
      | inl small ↦
          let heap' = subst (λ t. IsHeap h t) split heap in
          let fresh' = subst (λ t. MmapFresh mmap t) split fresh in
          let enough' : length (pre ++ b ∷ post) < fuel =
            subst (λ (t : List Block). length t < fuel) split enough in
          let at_list : Resized mmap h.bytes (pre ++ b ∷ post) (live pre) (live post) b size
              (realloc fuel mmap (b.at + 32) size h) =
            rw
              (realloc_run fuel mmap h pre post b size heap' fresh' enough' used positive
                (ground (arith, small)))
              (resize-Resized fuel mmap h pre post b size heap' fresh' enough' used positive
                (ground (arith, small))) in
          subst
            (λ (t : List Block).
              Resized mmap h.bytes t xs ys b size (realloc fuel mmap (b.at + 32) size h))
            (sym split) (rw⁻¹ (left, right) at_list)
    ]
