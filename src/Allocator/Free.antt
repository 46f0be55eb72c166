-- ===== src/Allocator/Free.antt =====
-- free: a block in use is no longer, every other block in use stays, and a second call does nothing.
use small_lib_c.Base.{
  ℕ, ◌+◌, ◌≡◌, refl, sym, ap, ◌∙◌, subst, true, false, ◌||◌, Option, some, List, ◌∷◌, ◌++◌, arith,
  ◌==◌, bit_and,
}
use small_lib_c.Base.Bits.{bit_and-low}
use small_lib_c.Allocator.{
  Header, Arena, done, put, modify, lock, unlock, sub_word, get_block_ptr, is_valid_block, coalesce,
  free, magic_free, magic_used,
}
use small_lib_c.Allocator.Chain.{Block, magic_of, header_of, first_or, last_or, Seg-right}
use small_lib_c.Allocator.Layout.{Placed, Layout-right}
use small_lib_c.Allocator.Link.{
  with_headers, load-some, modify-some, changed, Seg-changed, Layout-state,
}
use small_lib_c.Allocator.Invariant.{
  Backed-left, Backed-right, Backed-append, IsHeap, live, live-Splits, live-append, live_unused,
}
use small_lib_c.Allocator.Malloc.{first_or-middle}
use small_lib_c.Allocator.Coalesce.{Linked, coalesce_lem}

-- The tests of free on a block in use.
module _ (b : Block) (placed : Placed b) where
  abbrev ptr : ℕ
  ptr = b.at + 32

  pub ptr_tests : (ptr == 0 ≡ false) × (bit_and ptr 15 == 0 ≡ true) × (get_block_ptr ptr ≡ b.at)
  unfolding get_block_ptr sub_word
  ptr_tests =
      let low : bit_and ptr 15 ≡ 0 = bit_and-low 4 ptr ∙ omega (arith, placed) in
      (ground arith, rw low refl, omega (arith, placed))

  pub is_valid_block_lem :
      (h : Arena) (b' : Header)
      → h.headers b.at ≡ some b'
      → is_valid_block b.at h ≡ done (b'.magic == magic_used || b'.magic == magic_free) h
  unfolding is_valid_block
  is_valid_block_lem h b' e =
      let live_block : (b.at == 0) ≡ false = ground (arith, placed) in
      rw (live_block, load-some b.at h e)

  -- A block in use goes through the whole of free.
  free_run :
      (h h1 h2 : Arena) (b' : Header) (r : ℕ)
      → h.malloc_lock ≡ false
      → h.headers b.at ≡ some b'
      → b'.magic ≡ magic_used
      → modify b.at (λ c. record c { magic = magic_free }) (record h { malloc_lock = true })
        ≡ done tt h1
      → coalesce b.at h1 ≡ done r h2
      → free ptr h ≡ done tt (record h2 { malloc_lock = false })
  unfolding free lock unlock
  free_run h h1 h2 b' r opened here used marks merges =
      let (t1, t2, t3) = ptr_tests in
      let valid = is_valid_block_lem (record h { malloc_lock = true }) b' here in
      rw (
        t1,
        t2,
        opened,
        t3,
        valid,
        used,
        load-some b.at (record h { malloc_lock = true }) here,
        used,
        marks,
        merges,
      )

  -- A block that is marked free is left alone.
  free_unused :
      (h : Arena) (b' : Header)
      → h.malloc_lock ≡ false
      → h.headers b.at ≡ some b'
      → b'.magic ≡ magic_free
      → free ptr h ≡ done tt (record h { malloc_lock = false })
  unfolding free lock unlock
  free_unused h b' opened here unused =
      let (t1, t2, t3) = ptr_tests in
      let valid = is_valid_block_lem (record h { malloc_lock = true }) b' here in
      rw
        (
          t1,
          t2,
          opened,
          t3,
          valid,
          unused,
          load-some b.at (record h { malloc_lock = true }) here,
          unused,
        )
        refl

-- Where a block in use stands is where its header is, with the magic number of a block in use.
module _ (h : Arena) (pre post : List Block) (b : Block) (heap : IsHeap h (pre ++ b ∷ post))
    (used : b.used ≡ true) where
  here : h.headers b.at ≡ some (header_of b (first_or post 0) (last_or 0 pre))
  here = (Seg-right h.headers 0 pre (b ∷ post) 0 heap.chain).0

  here-Placed : Placed b
  here-Placed = (Layout-right pre (b ∷ post) heap.layout).0

  abbrev released : ℕ → Option Header
  released =
      put h.headers b.at (header_of (changed b b.size false) (first_or post 0) (last_or 0 pre))

  released-Linked :
      Linked
        (with_headers (record h { malloc_lock = true }) released)
        (pre ++ changed b b.size false ∷ post)
  released-Linked = (
    Seg-changed h.headers pre post b b.size false heap.layout heap.chain,
    Layout-state pre post b false heap.layout,
    Backed-append h.bytes pre (changed b b.size false ∷ post)
        (Backed-left h.bytes pre (b ∷ post) heap.backed)
        (Backed-right h.bytes pre (b ∷ post) heap.backed),
  )

  free_steps :
      (h' : Arena) × (bs' : List Block) × (free (b.at + 32) h ≡ done tt h')
      × IsHeap h' bs'
      × (live bs' ≡ live pre ++ live post)
      × (h'.bytes ≡ h.bytes)
      × (free (b.at + 32) h' ≡ done tt h')
  free_steps =
      let (r, hs, bs', e, (s, l, k), base, lv, b', here', unused) =
        coalesce_lem _ pre post (changed b b.size false) refl released-Linked in
      let marks =
        modify-some b.at (λ c. record c { magic = magic_free }) (record h { malloc_lock = true })
          here in
      let run = free_run b here-Placed h _ _ _ r heap.unlocked here (ap magic_of used) marks e in
      (
        _,
        bs',
        run,
        record {
          base =
              heap.base
              ∙ first_or-middle pre (b ∷ post) (changed b b.size false ∷ post) refl
              ∙ sym base;
          unlocked = refl;
          chain = s;
          layout = l;
          backed = k;
        },
        lv
            ∙ live-append pre (changed b b.size false ∷ post)
            ∙ ap (λ t. live pre ++ t) (live_unused (changed b b.size false) post refl),
        refl,
        free_unused b here-Placed _ b' refl here' unused,
      )

-- On a well formed heap, free of the payload of a block in use returns: the heap is well formed,
-- the blocks in use are the others, in their order, no byte has changed, and a second free of the
-- same payload changes nothing.
pub free-releases :
    (h : Arena) (bs xs ys : List Block) (b : Block)
    → IsHeap h bs
    → live bs ≡ xs ++ b ∷ ys
    → (h' : Arena) × (bs' : List Block) × (free (b.at + 32) h ≡ done tt h')
      × IsHeap h' bs'
      × (live bs' ≡ xs ++ ys)
      × (h'.bytes ≡ h.bytes)
      × (free (b.at + 32) h' ≡ done tt h')
free-releases h bs xs ys b heap e =
    let (pre, post, split, left, right, used) = live-Splits bs xs b ys e in
    let (h', bs', run, heap', lv, same, again) =
      free_steps h pre post b (subst (λ t. IsHeap h t) split heap) used in
    (h', bs', run, heap', lv ∙ ap (λ t. t ++ live post) left ∙ ap (λ t. xs ++ t) right, same, again)
