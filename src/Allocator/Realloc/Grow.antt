-- ===== src/Allocator/Realloc/Grow.antt =====
-- Resizing in place: a cut of the block, or a free successor that it takes in.
use small_lib_c.Base.{
  ℕ, ◌+◌, ◌%◌, ◌^◌, ◌≤◌, ◌≡◌, refl, sym, ap, ◌∙◌, Bool, true, false, not, ◌&&◌, Option, List, [],
  ◌∷◌, ◌++◌, ◌⊎◌, arith, ◌==◌, if◌then◌else◌, leb, ltb, Bool-cases, inl, inr,
}
use small_lib_c.Allocator.{
  Header, Arena, done, ◌>>◌, continue, modify, block_end, split_block, unlock, word,
}
use small_lib_c.Allocator.Chain.{Block, first_or, Seg-right}
use small_lib_c.Allocator.Layout.{Placed, Layout-right, top}
use small_lib_c.Allocator.Link.{with_headers, load-some}
use small_lib_c.Allocator.Split.{carve, split_block_lem}
use small_lib_c.Allocator.Invariant.{
  Backed-left, Backed-right, Backed-append, Backed-carve, IsHeap, live, live-append, live-carve,
  live_unused, kept,
}
use small_lib_c.Allocator.Search.{magic-test}
use small_lib_c.Allocator.Malloc.{first_or-middle, first_or-carve, kept_at, kept_size, kept_used}
use small_lib_c.Allocator.Merge.{join, joining, joining-Seg, join-Layout, join-Backed}
use small_lib_c.Allocator.Coalesce.{Linked, block_end-eq, continue_assoc}
use small_lib_c.Allocator.Realloc.{grow, Resized, in_place}

module _ (h : Arena) (pre : List Block) (b : Block) (n : ℕ) where
  abbrev grow_test : Block → Bool
  grow_test c =
      (not c.used && (block_end b.at b.size == c.at))
      && (ltb (b.size + 32 + c.size) (2 ^ 32) && leb n (b.size + 32 + c.size))

  grow_step :
      (c : Block) (cs : List Block)
      → Linked h (pre ++ b ∷ c ∷ cs)
      → grow b.at n h ≡ (
          if grow_test c
          then continue (joining b.at c.size (first_or cs 0) h) (λ _. done true)
          else done false h)
  unfolding grow
  grow_step c cs (s, l, k) =
      let here = Seg-right h.headers 0 pre (b ∷ c ∷ cs) 0 s in
      let placed : Placed c = (Layout-right pre (b ∷ c ∷ cs) l).2.0 in
      let live_block : (c.at == 0) ≡ false = ground (arith, placed) in
      rw (load-some b.at h here.0, live_block, load-some c.at h here.1.0, magic-test c.used)
        (elim (Bool-cases (grow_test c)) [
          | inl y ↦ rw y (
              sym (
                continue_assoc
                  (modify b.at
                    (λ x. record x { size = (x.size + 32 + c.size) % word; next = first_or cs 0 })
                    h)
                  _ _))
          | inr y ↦ rw y
        ])

  -- Either nothing has changed, or the block has room for n bytes.
  abbrev pub Grown : List Block → Type 0
  Grown post =
      (grow b.at n h ≡ done false h)
      ⊎ ((hs : ℕ → Option Header) × (b' : Block) × (post' : List Block) × (grow b.at n h
            ≡ done true (with_headers h hs))
          × Linked (with_headers h hs) (pre ++ b' ∷ post')
          × (b'.at ≡ b.at)
          × (b'.used ≡ b.used)
          × (n ≤ b'.size)
          × (live post' ≡ live post))

  pub grow_lem : (post : List Block) → Linked h (pre ++ b ∷ post) → Grown post
  unfolding grow
  grow_lem [] (s, l, k) =
      let here = Seg-right h.headers 0 pre (b ∷ []) 0 s in inl (rw (load-some b.at h here.0))
  grow_lem (c ∷ cs) (s, l, k) =
      let step = grow_step c cs (s, l, k) in
      elim (Bool-cases (grow_test c)) [
        | inl hit ↦
            let (pb, _, (pc, _, _)) = Layout-right pre (b ∷ c ∷ cs) l in
            let unused : c.used ≡ false = ground (arith, hit) in
            let meet : block_end b.at b.size ≡ c.at = ground (arith, hit) in
            let room : n ≤ b.size + 32 + c.size = ground (arith, hit) in
            let adjacent : top b ≡ c.at = omega (arith, block_end-eq b pb, meet) in
            let (hs, e, s', same) = joining-Seg h pre cs b c adjacent l s in
            inr (
              hs,
              join b c,
              cs,
              step ∙ rw (hit, e),
              (
                s',
                join-Layout h pre cs b c adjacent l s,
                join-Backed h.bytes pre cs b c adjacent k,
              ),
              refl,
              refl,
              room,
              sym (live_unused c cs unused),
            )
        | inr miss ↦ inl (step ∙ rw miss)
      ]

-- The cut that ends both ways, and the heap once it is unlocked.
pub cut-IsHeap :
    (h : Arena) (pre post : List Block) (b : Block) (n : ℕ)
    → h.heap_base ≡ first_or (pre ++ b ∷ post) 0
    → Linked h (pre ++ b ∷ post)
    → 16 ≤ n
    → n % 16 ≡ 0
    → n ≤ b.size
    → (hs : ℕ → Option Header) × (split_block b.at n h ≡ done tt (with_headers h hs))
      × IsHeap (record (with_headers h hs) { malloc_lock = false }) (pre ++ (carve n b ++ post))
cut-IsHeap h pre post b n base (s, l, k) n_size n_aligned room =
    let (hs, e, s', l') = split_block_lem h pre post b n s l n_size n_aligned room in
    let (k_block, k_post) = Backed-right h.bytes pre (b ∷ post) k in
    (
      hs,
      e,
      record {
        base =
            base
            ∙ first_or-middle pre (b ∷ post) (carve n b ++ post) (sym (first_or-carve n b post));
        unlocked = refl;
        chain = s';
        layout = l';
        backed =
            Backed-append h.bytes pre (carve n b ++ post) (Backed-left h.bytes pre (b ∷ post) k)
              (Backed-carve h.bytes n b post k_block k_post);
      },
    )

module _ (mmap : ℕ → Option ℕ) (h : Arena) (bs pre post : List Block) (b b0 : Block) (n size : ℕ)
    (base : h.heap_base ≡ first_or (pre ++ b ∷ post) 0) (linked : Linked h (pre ++ b ∷ post))
    (n_size : 16 ≤ n) (n_aligned : n % 16 ≡ 0) (room : n ≤ b.size) (enough : size ≤ n)
    (same : b.at ≡ b0.at) (used : b.used ≡ true) where
  pub cut_in_place :
      Resized mmap h.bytes bs
        (live pre)
        (live post)
        b0
        size
        ((do split_block b.at n; unlock; done (b0.at + 32)) h)
  unfolding unlock
  cut_in_place =
      let (hs, e, heap) = cut-IsHeap h pre post b n base linked n_size n_aligned room in
      rw e (
        in_place (pre ++ (carve n b ++ post)) (kept n b) heap (kept_at n b ∙ same)
          (kept_size n b size enough room) (kept_used n b ∙ used)
          (live-append pre (carve n b ++ post) ∙ ap (λ t. live pre ++ t) (live-carve n b post used))
          refl)
