-- ===== src/Allocator/Coalesce.antt =====
-- coalesce: the two merges with a free neighbour, which change no block in use.
use small_lib_c.Base.{
  ℕ, ◌+◌, ◌%◌, ◌^◌, ◌≡◌, refl, sym, ap, ◌∙◌, subst, false, not, ◌&&◌, Option, some, List, [], ◌∷◌,
  ◌++◌, arith, ◌==◌, if◌then◌else◌, Bool-cases, inl, inr,
}
use mathlib.Core.List.{append_assoc}
use small_lib_c.Allocator.{
  Header, Arena, Outcome, done, fault, spin, out_of_fuel, word, continue, modify, block_end,
  merge_next, merge_prev, coalesce, magic_free,
}
use small_lib_c.Allocator.Chain.{
  Block, magic_of, Snoc, empty, snoc, at_end, header_of, first_or, last_or, Seg, Seg-right,
}
use small_lib_c.Allocator.Layout.{Placed, Layout, Layout-right, top}
use small_lib_c.Allocator.Link.{with_headers, load-some}
use small_lib_c.Allocator.Invariant.{Backed, live, live-append, live_unused}
use small_lib_c.Allocator.Search.{magic-test}
use small_lib_c.Allocator.Malloc.{first_or-middle}
use small_lib_c.Allocator.Merge.{join, joining, joining-Seg, join-Layout, join-Backed}

pub continue_assoc :
    {A B C : Type 0} (o : Outcome A) (f : A → Arena → Outcome B) (g : B → Arena → Outcome C)
    → continue (continue o f) g ≡ continue o (λ x h. continue (f x h) g)
continue_assoc (done x h) f g = refl
continue_assoc fault f g = refl
continue_assoc spin f g = refl
continue_assoc out_of_fuel f g = refl

-- The linked blocks of an arena, whether or not it is locked.
abbrev pub Linked : Arena → List Block → Type 0
Linked h bs = Seg h.headers 0 bs 0 × Layout bs × Backed h.bytes bs

-- The end that the code computes is the next block's address just when the blocks are adjacent.
pub block_end-eq : (b : Block) → Placed b → block_end b.at b.size ≡ top b % 2 ^ 32
unfolding block_end
block_end-eq b p = omega arith

module _ (h : Arena) (pre : List Block) (b : Block) where
  -- What merge_next leaves: a block at the same place, with the same state.
  abbrev pub After : (post : List Block) → Type 0
  After post =
      (hs : ℕ → Option Header) × (b' : Block) × (post' : List Block) × (merge_next b.at h
        ≡ done tt (with_headers h hs))
      × Linked (with_headers h hs) (pre ++ b' ∷ post')
      × (b'.at ≡ b.at)
      × (b'.used ≡ b.used)
      × (live post' ≡ live post)

  merge_next_test :
      (c : Block) (cs : List Block)
      → Linked h (pre ++ b ∷ c ∷ cs)
      → merge_next b.at h ≡ (
          if not c.used && (block_end b.at b.size == c.at)
          then joining b.at c.size (first_or cs 0) h
          else done tt h)
  unfolding merge_next
  merge_next_test c cs (s, l, k) =
      let here = Seg-right h.headers 0 pre (b ∷ c ∷ cs) 0 s in
      let placed : Placed c = (Layout-right pre (b ∷ c ∷ cs) l).2.0 in
      let live_block : (c.at == 0) ≡ false = ground (arith, placed) in
      rw (load-some b.at h here.0, live_block, load-some c.at h here.1.0, magic-test c.used)
        (elim (Bool-cases (not c.used && (block_end b.at b.size == c.at))) [
          | inl y ↦ rw y
          | inr y ↦ rw y
        ])

  pub merge_next_lem : (post : List Block) → Linked h (pre ++ b ∷ post) → After post
  unfolding merge_next
  merge_next_lem [] (s, l, k) =
      let here = Seg-right h.headers 0 pre (b ∷ []) 0 s in
      (h.headers, b, [], rw (load-some b.at h here.0), (s, l, k), refl, refl, refl)
  merge_next_lem (c ∷ cs) (s, l, k) =
      let test = merge_next_test c cs (s, l, k) in
      elim (Bool-cases (not c.used && (block_end b.at b.size == c.at))) [
        | inl hit ↦
            let (pb, _, (pc, _, _)) = Layout-right pre (b ∷ c ∷ cs) l in
            let unused : c.used ≡ false = ground (arith, hit) in
            let meet : block_end b.at b.size ≡ c.at = ground (arith, hit) in
            let adjacent : top b ≡ c.at = omega (arith, block_end-eq b pb, meet) in
            let (hs, e, s', same) = joining-Seg h pre cs b c adjacent l s in
            (
              hs,
              join b c,
              cs,
              test ∙ rw (hit, e),
              (
                s',
                join-Layout h pre cs b c adjacent l s,
                join-Backed h.bytes pre cs b c adjacent k,
              ),
              refl,
              refl,
              sym (live_unused c cs unused),
            )
        | inr miss ↦ (h.headers, b, c ∷ cs, test ∙ rw miss, (s, l, k), refl, refl, refl)
      ]

module _ (h : Arena) (b : Block) (post : List Block) where
  -- What merge_prev leaves: the same blocks in use, the same first address.
  abbrev pub Settled : (pre : List Block) → Type 0
  Settled pre =
      (r : ℕ) × (hs : ℕ → Option Header) × (bs : List Block) × (merge_prev b.at h
        ≡ done r (with_headers h hs))
      × Linked (with_headers h hs) bs
      × (first_or bs 0 ≡ first_or (pre ++ b ∷ post) 0)
      × (live bs ≡ live (pre ++ b ∷ post))
      × (hs b.at ≡ h.headers b.at)

  merge_prev_test :
      (init : List Block) (p : Block)
      → Linked h (init ++ p ∷ b ∷ post)
      → merge_prev b.at h ≡ (
          if not p.used && (block_end p.at p.size == b.at)
          then (λ (g : Arena). continue (joining p.at b.size (first_or post 0) g) (λ _. done p.at))
              h
          else done b.at h)
  unfolding merge_prev
  merge_prev_test init p (s, l, k) =
      let here = Seg-right h.headers 0 init (p ∷ b ∷ post) 0 s in
      let placed : Placed p = (Layout-right init (p ∷ b ∷ post) l).0 in
      let live_block : (p.at == 0) ≡ false = ground (arith, placed) in
      rw (load-some b.at h here.1.0, live_block, load-some p.at h here.0, magic-test p.used)
        (elim (Bool-cases (not p.used && (block_end p.at p.size == b.at))) [
          | inl y ↦ rw y (
              sym (
                continue_assoc
                  (modify p.at
                    (λ x. record x { size = (x.size + 32 + b.size) % word; next = first_or post 0 })
                    h)
                  _ _))
          | inr y ↦ rw y
        ])

  merge_prev_snoc :
      (init : List Block) (p : Block)
      → b.used ≡ false
      → Linked h (init ++ p ∷ b ∷ post)
      → Settled (init ++ p ∷ [])
  merge_prev_snoc init p unused (s, l, k) =
      let test = merge_prev_test init p (s, l, k) in
      rw (append_assoc init (p ∷ []) (b ∷ post))
        (elim (Bool-cases (not p.used && (block_end p.at p.size == b.at))) [
          | inl hit ↦
              let placed : Placed p = (Layout-right init (p ∷ b ∷ post) l).0 in
              let p_unused : p.used ≡ false = ground (arith, hit) in
              let meet : block_end p.at p.size ≡ b.at = ground (arith, hit) in
              let b_placed : Placed b = (Layout-right init (p ∷ b ∷ post) l).2.0 in
              let adjacent : top p ≡ b.at = omega (arith, block_end-eq p placed, meet) in
              let (hs, e, s', same) = joining-Seg h init post p b adjacent l s in
              (
                p.at,
                hs,
                init ++ join p b ∷ post,
                test ∙ rw (hit, e),
                (
                  s',
                  join-Layout h init post p b adjacent l s,
                  join-Backed h.bytes init post p b adjacent k,
                ),
                first_or-middle init (join p b ∷ post) (p ∷ b ∷ post) refl,
                live-append init (join p b ∷ post)
                    ∙ ap (λ t. live init ++ t)
                        (live_unused (join p b) post p_unused
                          ∙ sym (live_unused b post unused)
                          ∙ sym (live_unused p (b ∷ post) p_unused))
                    ∙ sym (live-append init (p ∷ b ∷ post)),
                same,
              )
          | inr miss ↦
              (b.at, h.headers, init ++ p ∷ b ∷ post, test ∙ rw miss, (s, l, k), refl, refl, refl)
        ])

  pub merge_prev_lem :
      (pre : List Block) → b.used ≡ false → Linked h (pre ++ b ∷ post) → Settled pre
  unfolding merge_prev
  merge_prev_lem pre unused linked = go (at_end pre) linked
    where
      go : {cs : List Block} → Snoc cs → Linked h (cs ++ b ∷ post) → Settled cs
      go empty (s, l, k) =
          (b.at, h.headers, b ∷ post, rw (load-some b.at h s.0), (s, l, k), refl, refl, refl)
      go (snoc init p) linked =
          merge_prev_snoc init p unused
            (subst (λ t. Linked h t) (append_assoc init (p ∷ []) (b ∷ post)) linked)

-- A block that is not in use is merged with its free neighbours.
pub coalesce_lem :
    (h : Arena) (pre post : List Block) (b : Block)
    → b.used ≡ false
    → Linked h (pre ++ b ∷ post)
    → (r : ℕ) × (hs : ℕ → Option Header) × (bs : List Block) × (coalesce b.at h
        ≡ done r (with_headers h hs))
      × Linked (with_headers h hs) bs
      × (first_or bs 0 ≡ first_or (pre ++ b ∷ post) 0)
      × (live bs ≡ live (pre ++ b ∷ post))
      × (b' : Header) × (hs b.at ≡ some b')
      × (b'.magic ≡ magic_free)
unfolding coalesce
coalesce_lem h pre post b unused linked =
    let (hs, b', post', e, after, place, state, lv) = merge_next_lem h pre b post linked in
    let unused' : b'.used ≡ false = state ∙ unused in
    let (r, hs', bs, e', settled, base, lv', same) =
      merge_prev_lem (with_headers h hs) b' post' pre unused' after in
    let here = (Seg-right hs 0 pre (b' ∷ post') 0 after.0).0 in
    (
      r,
      hs',
      bs,
      rw e (ap (λ a. merge_prev a (with_headers h hs)) (sym place) ∙ e'),
      settled,
      base ∙ first_or-middle pre (b' ∷ post') (b ∷ post) place,
      lv'
          ∙ live-append pre (b' ∷ post')
          ∙ ap (λ t. live pre ++ t)
              (live_unused b' post' unused' ∙ lv ∙ sym (live_unused b post unused))
          ∙ sym (live-append pre (b ∷ post)),
      header_of b' (first_or post' 0) (last_or 0 pre),
      ap hs' (sym place) ∙ same ∙ here,
      ap magic_of unused',
    )
