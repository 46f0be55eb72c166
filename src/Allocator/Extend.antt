-- ===== src/Allocator/Extend.antt =====
-- What malloc does with a new mapping: extend_heap in malloc.c.
use small_lib_c.Allocator.Request.{
  zeroed, mapped_block, MmapFresh, page_align-eq, request_space_lem,
}
use small_lib_c.Base.{
  ℕ, ◌+◌, ◌-◌, ◌%◌, ◌^◌, ◌≤◌, ◌<◌, ◌≡◌, refl, sym, ap, ◌∙◌, subst, true, false, Option, some, List,
  [], ◌∷◌, ◌++◌, arith, ◌==◌, leb, Bool-cases, inl, inr,
}
use mathlib.Core.Path.{fun_ext}
use mathlib.Core.List.{append-nil}
use small_lib_c.Memory.Region.{Mapped}
use small_lib_c.Allocator.{
  Header, header, Arena, done, put, modify, unlock, payload, split_block, request_space, set_base,
  page_align, extend_heap, magic_used,
}
use small_lib_c.Allocator.Chain.{Block, header_of, magic_of, first_or, last_or, Seg, Seg-right}
use small_lib_c.Allocator.Layout.{Placed, Layout, AllApart, Between, Layout-append, Layout-left}
use small_lib_c.Allocator.Link.{with_headers, modify-some}
use small_lib_c.Allocator.Split.{rest, carve, split_block_lem}
use small_lib_c.Allocator.Invariant.{
  AllApart-live, Backed, IsHeap, live, live-append, live-carve, kept, Backed-append, Backed-carve,
}
use small_lib_c.Allocator.Malloc.{
  Untouched, Allocated, granted, payload-eq, kept_at, kept_size, kept_used, first_or-carve,
  first_or-middle,
}

carve_head :
    (hs : ℕ → Option Header) (prev n : ℕ) (b : Block) (post : List Block)
    → Seg hs prev (carve n b ++ post) 0
    → (next : ℕ) × (hs b.at ≡ some (header_of (kept n b) next prev))
carve_head hs prev n b post s = elim (Bool-cases (leb (n + 48) b.size)) [
  | inl big ↦ rw big ((rest n b).at, (rw big at s).0)
  | inr small ↦ rw small (first_or post 0, (rw small at s).0)
]

put_same : (hs : ℕ → Option Header) (p : ℕ) (b : Header) → hs p ≡ some b → put hs p b ≡ hs
unfolding put
put_same hs p b e = fun_ext λ a. ground arith

-- Marking a block in use that is in use already.
mark_again :
    (h : Arena) (b : Block) (next prev : ℕ)
    → b.used ≡ true
    → h.headers b.at ≡ some (header_of b next prev)
    → modify b.at (λ c. record c { magic = magic_used }) h ≡ done tt h
mark_again h b next prev used e =
    let same : header_of b next prev ≡ header b.size next prev magic_used =
      ap (λ u. header b.size next prev (magic_of u)) used in
    modify-some b.at (λ c. record c { magic = magic_used }) h e
    ∙ ap (λ hs. done tt (with_headers h hs))
        (put_same h.headers b.at (header b.size next prev magic_used) (e ∙ ap some same))

set_base_lem :
    (h : Arena) (bs : List Block) (nb : Block)
    → h.heap_base ≡ first_or bs 0
    → Layout bs
    → set_base nb.at h ≡ done tt (record h { heap_base = first_or (bs ++ nb ∷ []) 0 })
unfolding set_base
set_base_lem h [] nb e l = let null : (h.heap_base == 0) ≡ true = ground arith in rw null
set_base_lem h (b ∷ bs) nb e l =
    let live : (h.heap_base == 0) ≡ false = ground arith in rw (live, e)

Backed-zeroed :
    (h : Arena) (a n : ℕ) (bs : List Block) → Backed h.bytes bs → Backed (zeroed h a n).bytes bs
Backed-zeroed h a n [] k = tt
Backed-zeroed h a n (b ∷ bs) k =
    (λ x lo hi. ground (arith, k.0 x lo hi), Backed-zeroed h a n bs k.1)

Untouched-zeroed :
    (h : Arena) (a n : ℕ) (bs : List Block)
    → AllApart (mapped_block a n) bs
    → 32 ≤ n
    → Untouched h.bytes (zeroed h a n).bytes bs
Untouched-zeroed h a n [] apart whole = tt
Untouched-zeroed h a n (b ∷ bs) apart whole =
    (λ x lo hi. ground (arith, apart), Untouched-zeroed h a n bs apart.1 whole)

Mapped-zeroed : (h : Arena) (a n : ℕ) → Mapped (zeroed h a n).bytes a n
Mapped-zeroed h a n x lo hi = ground arith

AllApart→Between : (b : Block) (bs : List Block) → AllApart b bs → Between bs (b ∷ [])
AllApart→Between b bs k = (k, tt)

mapped_block-Placed :
    (a n : ℕ)
    → a % 4096 ≡ 0
    → 4096 ≤ a
    → a + n ≤ 2 ^ 32
    → n % 4096 ≡ 0
    → 4096 ≤ n
    → Placed (mapped_block a n)
mapped_block-Placed a n pages low high whole room = record {
  above_zero_page = low;
  aligned_at = omega arith;
  aligned_size = omega arith;
  not_empty = omega arith;
  in_space = omega arith;
}

-- The steps of extend_heap after a mapping that is granted.
extend_run :
    (mmap : ℕ → Option ℕ) (last n a : ℕ) (h1 h2 h3 h4 : Arena)
    → request_space mmap last n h1 ≡ done a h2
    → (a == 0) ≡ false
    → set_base a h2 ≡ done tt h3
    → split_block a n h3 ≡ done tt h4
    → modify a (λ c. record c { magic = magic_used }) h4 ≡ done tt h4
    → payload a ≡ a + 32
    → extend_heap mmap last n h1 ≡ done (a + 32) (record h4 { malloc_lock = false })
unfolding extend_heap unlock
extend_run mmap last n a h1 h2 h3 h4 e1 e2 e3 e4 e5 e6 = rw (e1, e2, e3, e4, e5, e6)

-- The arena once the new block is linked, and the base set.
abbrev based : Arena → (a n : ℕ) → (ℕ → Option Header) → (base : ℕ) → Arena
based h a n hs base = record (with_headers (zeroed h a n) hs) { heap_base = base }

module _ (mmap : ℕ → Option ℕ) (h : Arena) (bs : List Block) (a n : ℕ)
    (base : h.heap_base ≡ first_or bs 0) (chain : Seg h.headers 0 bs 0) (n_size : 16 ≤ n)
    (n_aligned : n % 16 ≡ 0) (small : n + 4127 < 2 ^ 32)
    (answer : mmap (page_align (n + 32)) ≡ some a)
    (placed : Placed (mapped_block a (page_align (n + 32))))
    (layout : Layout (bs ++ mapped_block a (page_align (n + 32)) ∷ [])) where
  abbrev fresh_block : Block
  fresh_block = mapped_block a (page_align (n + 32))

  abbrev all_blocks : List Block
  all_blocks = bs ++ (carve n fresh_block ++ [])

  marked :
      (g : Arena)
      → Seg g.headers 0 all_blocks 0
      → modify a (λ c. record c { magic = magic_used }) g ≡ done tt g
  marked g s =
      let (next, head) =
        carve_head g.headers (last_or 0 bs) n fresh_block []
          (Seg-right g.headers 0 bs (carve n fresh_block ++ []) 0 s) in
      subst (λ p. modify p (λ c. record c { magic = magic_used }) g ≡ done tt g)
        (kept_at n fresh_block)
        (mark_again g (kept n fresh_block) next (last_or 0 bs) (kept_used n fresh_block)
          (ap g.headers (kept_at n fresh_block) ∙ head))

  extend_steps :
      (hs : ℕ → Option Header) × (extend_heap mmap (last_or 0 bs) n h
        ≡ done
            (a + 32)
            (record (based h a (page_align (n + 32)) hs (first_or (bs ++ fresh_block ∷ []) 0)) {
              malloc_lock = false;
            }))
      × Seg hs 0 all_blocks 0
      × Layout all_blocks
  extend_steps =
      let rounded = page_align-eq (n + 32) (omega arith) in
      let (hs, e, s) = request_space_lem mmap h bs a n layout chain small answer in
      let h2 : Arena = with_headers (zeroed h a (page_align (n + 32))) hs in
      let h3 : Arena = record h2 { heap_base = first_or (bs ++ fresh_block ∷ []) 0 } in
      let (hs', e', s', l') =
        split_block_lem h3 bs [] fresh_block n s layout n_size n_aligned (omega (arith, rounded)) in
      let live_block : (a == 0) ≡ false = ground arith in
      (
        hs',
        extend_run mmap (last_or 0 bs) n a h h2 h3 (with_headers h3 hs') e live_block
            (set_base_lem h2 bs fresh_block base (Layout-left bs (fresh_block ∷ []) layout)) e'
            (marked (with_headers h3 hs') s') (payload-eq fresh_block placed),
        s',
        l',
      )

-- What extend_heap does with a mapping.
pub extend_granted :
    (mmap : ℕ → Option ℕ) (h : Arena) (bs : List Block) (a size n : ℕ)
    → IsHeap h bs
    → MmapFresh mmap bs
    → 16 ≤ n
    → n % 16 ≡ 0
    → size ≤ n
    → n + 4127 < 2 ^ 32
    → mmap (page_align (n + 32)) ≡ some a
    → Allocated mmap h.bytes bs size
        (extend_heap mmap (last_or 0 bs) n (record h { malloc_lock = true }))
unfolding live
extend_granted mmap h bs a size n heap fresh n_size n_aligned enough small answer =
    let len = page_align (n + 32) in
    let rounded = page_align-eq (n + 32) (omega arith) in
    let (pages, low, high, apart) = fresh len a answer in
    let nb : Block = mapped_block a len in
    let placed : Placed nb =
      mapped_block-Placed a len pages low high (omega (arith, rounded)) (omega (arith, rounded)) in
    let layout : Layout (bs ++ nb ∷ []) =
      Layout-append bs (nb ∷ []) heap.layout (placed, tt, tt) (apart, tt) in
    let (hs, e, s, l) =
      extend_steps mmap (record h { malloc_lock = true }) bs a n heap.base heap.chain n_size
        n_aligned small answer placed layout in
    let whole : 32 + (len - 32) ≡ len = omega (arith, rounded) in
    rw e (
      granted (bs ++ (carve n nb ++ [])) (live bs) [] (kept n nb)
        (record {
          base = first_or-middle bs (nb ∷ []) (carve n nb ++ []) (sym (first_or-carve n nb []));
          unlocked = refl;
          chain = s;
          layout = l;
          backed =
              Backed-append (zeroed h a len).bytes bs (carve n nb ++ [])
                (Backed-zeroed h a len bs heap.backed)
                (Backed-carve (zeroed h a len).bytes n nb []
                  (subst (λ k. Mapped (zeroed h a len).bytes a k) (sym whole)
                    (Mapped-zeroed h a len))
                  tt);
        })
        (ap (λ (t : ℕ). t + 32) (sym (kept_at n nb)))
        (kept_size n nb size enough (omega (arith, rounded))) (kept_used n nb)
        (sym (append-nil (live bs)))
        (live-append bs (carve n nb ++ []) ∙ ap (λ t. live bs ++ t) (live-carve n nb [] refl))
        (Untouched-zeroed h a len (live bs) (AllApart-live nb bs apart) (omega (arith, rounded))))
