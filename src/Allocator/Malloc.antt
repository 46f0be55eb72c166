-- ===== src/Allocator/Malloc.antt =====
-- malloc: which block it returns, and what becomes of the heap.
use small_lib_c.Allocator.Search.{NoneFits}
use small_lib_c.Base.{
  ◌*◌, ◌/◌, ℕ, ◌+◌, ◌-◌, ◌%◌, ◌^◌, ◌≤◌, ◌<◌, ◌≡◌, refl, sym, ap, ◌∙◌, true, false, Option, none,
  List, [], ◌∷◌, ◌++◌, ◌⊎◌, arith,
}
use native.Mathlib.Nat.{mod-eq_of_lt}
use small_lib_c.Base.Bits.{round_down_16}
use small_lib_c.Allocator.{
  Memory, Header, Arena, Outcome, done, put, unlock, align, payload, take_block,
}
use small_lib_c.Allocator.Chain.{Block, header_of, first_or, last_or, Seg, Seg-right}
use small_lib_c.Allocator.Layout.{top, Placed, Layout, Layout-right}
use small_lib_c.Allocator.Link.{with_headers, modify-some, changed, Seg-changed, Layout-state}
use small_lib_c.Allocator.Split.{carve, split_block_lem}
use small_lib_c.Allocator.Invariant.{
  IsHeap, live, live-append, live-carve, live_unused, kept, Backed-append, Backed-left,
  Backed-right, Backed-carve,
}

-- The arena of a finished call.
abbrev pub ended : Arena → (ℕ → Option Header) → Arena
ended h hs = record h { headers = hs; malloc_lock = false }

pub payload-eq : (b : Block) → Placed b → payload b.at ≡ b.at + 32
unfolding payload
payload-eq b p = mod-eq_of_lt (omega arith)

take_block_lem :
    (h : Arena) (pre post : List Block) (b : Block) (n : ℕ)
    → Seg h.headers 0 (pre ++ b ∷ post) 0
    → Layout (pre ++ b ∷ post)
    → 16 ≤ n
    → n % 16 ≡ 0
    → n ≤ b.size
    → (hs : ℕ → Option Header) × (take_block b.at n h ≡ done (b.at + 32) (ended h hs))
      × Seg hs 0 (pre ++ (carve n (changed b b.size true) ++ post)) 0
      × Layout (pre ++ (carve n (changed b b.size true) ++ post))
unfolding take_block unlock
take_block_lem h pre post b n s l n_size n_aligned room =
    let here = (Seg-right h.headers 0 pre (b ∷ post) 0 s).0 in
    let placed : Placed b = (Layout-right pre (b ∷ post) l).0 in
    let hs : ℕ → Option Header =
      put h.headers b.at (header_of (changed b b.size true) (first_or post 0) (last_or 0 pre)) in
    let (hs', e, s', l') =
      split_block_lem (with_headers h hs) pre post (changed b b.size true) n
        (Seg-changed h.headers pre post b b.size true l s) (Layout-state pre post b true l) n_size
        n_aligned room in
    (hs', rw (modify-some b.at _ h here, e, payload-eq b placed), s', l')

-- A size that malloc does not turn down, rounded up to a multiple of 16.
pub align_bounds :
    (size : ℕ)
    → 0 < size
    → size ≤ 2 ^ 32 - 33
    → (size ≤ align size) × (align size ≤ size + 15) × (16 ≤ align size) × (align size % 16 ≡ 0)
unfolding align
align_bounds size lo hi =
    let small : (size + 15) % 2 ^ 32 ≡ size + 15 = mod-eq_of_lt (omega arith) in
    rw (small, round_down_16 (size + 15) (omega arith)) (omega arith)

pub first_or-carve : (n : ℕ) (b : Block) (post : List Block) → first_or (carve n b ++ post) 0 ≡ b.at
first_or-carve n b post = ground arith

pub first_or-middle :
    (pre xs ys : List Block)
    → first_or xs 0 ≡ first_or ys 0
    → first_or (pre ++ xs) 0 ≡ first_or (pre ++ ys) 0
first_or-middle [] xs ys e = e
first_or-middle (p ∷ pre) xs ys e = refl

-- The bytes of the blocks are what they were in `m`.
abbrev pub Untouched : (m m' : Memory) → List Block → Type 0
Untouched m m' [] = Unit
Untouched m m' (b ∷ bs) = ((a : ℕ) → b.at ≤ a → a < top b → m' a ≡ m a) × Untouched m m' bs

Untouched-refl : (m : Memory) (bs : List Block) → Untouched m m bs
Untouched-refl m [] = tt
Untouched-refl m (b ∷ bs) = ((λ a lo hi. refl), Untouched-refl m bs)

-- A size up to a multiple of 16, and the whole pages that hold it and a header.
abbrev pub rounded : ℕ → ℕ
rounded size = (size + 15) / 16 * 16

abbrev pub pages : ℕ → ℕ
pages size = (rounded size + 32 + 4095) / 4096 * 4096

pub align-rounded : (size : ℕ) → size ≤ 2 ^ 32 - 33 → align size ≡ rounded size
unfolding align
align-rounded size hi =
    let small : (size + 15) % 2 ^ 32 ≡ size + 15 = mod-eq_of_lt (omega arith) in
    rw (small, round_down_16 (size + 15) (omega arith)) refl

-- Why there is no room for `size`: it is near the end of the address space, or no unused block has the
-- room, and the pages for it are more than there can be, or mmap, asked for them, refuses.
abbrev pub Refusal : (mmap : ℕ → Option ℕ) → List Block → (size : ℕ) → Type 0
Refusal mmap bs size =
    (2 ^ 32 - 33 < size)
    ⊎ (NoneFits (rounded size) bs × ((2 ^ 32 - 4127 ≤ size) ⊎ (mmap (pages size) ≡ none)))

-- What malloc promises of a heap with the blocks `bs`: either it returns null and the heap is as it
-- was, which takes a size of 0, or that there is no room, as `Refusal` says; or it returns the payload of a block that is large enough, and the blocks in use are those from before and
-- that block. No byte of those from before, `m` being the memory then, has changed.
pub data Allocated (mmap : ℕ → Option ℕ) (m : Memory) (bs : List Block) (size : ℕ)
    : Outcome ℕ → Type 0 where
  refused :
      {h : Arena}
      → IsHeap h bs
      → h.bytes ≡ m
      → (size ≡ 0) ⊎ Refusal mmap bs size
      → Allocated mmap m bs size (done 0 h)
  granted :
      {h : Arena} {p : ℕ} (bs' xs ys : List Block) (b : Block)
      → IsHeap h bs'
      → p ≡ b.at + 32
      → size ≤ b.size
      → b.used ≡ true
      → live bs ≡ xs ++ ys
      → live bs' ≡ xs ++ b ∷ ys
      → Untouched m h.bytes (live bs)
      → Allocated mmap m bs size (done p h)

pub kept_size : (n : ℕ) (b : Block) (size : ℕ) → size ≤ n → n ≤ b.size → size ≤ (kept n b).size
kept_size n b size h k = ground arith

pub kept_at : (n : ℕ) (b : Block) → (kept n b).at ≡ b.at
kept_at n b = ground arith

pub kept_used : (n : ℕ) (b : Block) → (kept n b).used ≡ b.used
kept_used n b = ground arith

pub malloc_reuse :
    (mmap : ℕ → Option ℕ) (h : Arena) (pre post : List Block) (b : Block) (size n : ℕ)
    → IsHeap h (pre ++ b ∷ post)
    → 16 ≤ n
    → n % 16 ≡ 0
    → n ≤ b.size
    → size ≤ n
    → b.used ≡ false
    → Allocated mmap h.bytes
        (pre ++ b ∷ post)
        size
        (take_block b.at n (record h { malloc_lock = true }))
malloc_reuse mmap h pre post b size n heap n_size n_aligned room enough unused =
    let h1 : Arena = record h { malloc_lock = true } in
    let b' : Block = changed b b.size true in
    let (hs, e, s, l) =
      take_block_lem h1 pre post b n heap.chain heap.layout n_size n_aligned room in
    let backed = heap.backed in
    let backed_b = Backed-right h.bytes pre (b ∷ post) backed in
    rw e (
      granted (pre ++ (carve n b' ++ post)) (live pre) (live post) (kept n b')
        (record {
          base =
              heap.base
              ∙ first_or-middle pre (b ∷ post) (carve n b' ++ post)
                  (sym (first_or-carve n b' post));
          unlocked = refl;
          chain = s;
          layout = l;
          backed =
              Backed-append h.bytes pre (carve n b' ++ post)
                (Backed-left h.bytes pre (b ∷ post) backed)
                (Backed-carve h.bytes n b' post backed_b.0 backed_b.1);
        })
        (ap (λ (t : ℕ). t + 32) (sym (kept_at n b'))) (kept_size n b' size enough room)
        (kept_used n b')
        (live-append pre (b ∷ post) ∙ ap (λ t. live pre ++ t) (live_unused b post unused))
        (live-append pre (carve n b' ++ post) ∙ ap (λ t. live pre ++ t) (live-carve n b' post refl))
        (Untouched-refl h.bytes (live (pre ++ b ∷ post))))
