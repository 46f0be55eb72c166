-- ===== src/Allocator/Calloc.antt =====
-- calloc: src/c/stdlib/calloc.c.
use small_lib_c.Base.{
  ℕ, ◌+◌, ◌*◌, ◌^◌, ◌≤◌, ◌<◌, ◌≡◌, refl, sym, ◌∙◌, subst, true, false, ◌||◌, Option, some, List, [],
  ◌∷◌, ◌⊎◌, arith, ◌==◌, if◌then◌else◌, leb, Bool-cases, inl, inr, length,
}
use small_lib_c.Memory.{Memory}
use small_lib_c.Memory.Region.{Mapped}
use small_lib_c.Strings.Block.{memset}
use small_lib_c.Strings.Block.Move.{filled, memset-bzero}
use small_lib_c.Allocator.{
  Arena, Outcome, Step, done, fault, spin, out_of_fuel, ◌>>=◌, ◌>>◌, continue, word, malloc,
}
use small_lib_c.Allocator.Chain.{Block}
use small_lib_c.Allocator.Layout.{AllApart, top}
use small_lib_c.Allocator.Invariant.{live-apart, IsHeap, live}
use small_lib_c.Allocator.Malloc.{Allocated, refused, granted, Untouched}
use small_lib_c.Allocator.Request.{MmapFresh}
use small_lib_c.Allocator.Answer.{malloc-Allocated}
use small_lib_c.Allocator.Bytes.{
  on_bytes, on_bytes-ok, StillMapped, IsHeap-bytes, live_block-Mapped,
}

-- `if(ptr) memset(ptr, 0, total_size); return ptr;`
pub clear : (ptr total_size : ℕ) → Step ℕ
clear ptr total_size =
    if ptr == 0 then done 0 else (do on_bytes (memset ptr 0 total_size); done ptr)

pub calloc : (fuel : ℕ) (mmap : ℕ → Option ℕ) (number size : ℕ) → Step ℕ
calloc fuel mmap number size =
    if number == 0 || size == 0
    then done 0
    else if leb word (number * size)
    then done 0
    else (do ptr ← malloc fuel mmap (number * size); clear ptr (number * size))

-- The n bytes at the address that is returned, if it is not null, are 0.
abbrev pub ZeroBytes : ℕ → Outcome ℕ → Type 0
ZeroBytes n (done p h) = (p ≡ 0) ⊎ ((a : ℕ) → p ≤ a → a < p + n → h.bytes a ≡ some 0)
ZeroBytes n fault = Unit
ZeroBytes n spin = Unit
ZeroBytes n out_of_fuel = Unit

StillMapped-filled : (m : Memory) (p n c : ℕ) → StillMapped m (filled m p n c)
unfolding filled
StillMapped-filled m p n c a h = ground (arith, h)

filled-zero : (m : Memory) (p n a : ℕ) → p ≤ a → a < p + n → filled m p n 0 a ≡ some 0
unfolding filled
filled-zero m p n a lo hi = ground arith

filled-outside : (m : Memory) (p n a : ℕ) → (a < p) ⊎ (p + n ≤ a) → filled m p n 0 a ≡ m a
unfolding filled
filled-outside m p n a out = ground arith

-- Writing to the payload of one block changes no byte of the blocks apart from it.
pub Untouched-inside :
    (m m' m2 : Memory) (b : Block) (cs : List Block)
    → AllApart b cs
    → ((a : ℕ) → (a < b.at) ⊎ (top b ≤ a) → m2 a ≡ m' a)
    → Untouched m m' cs
    → Untouched m m2 cs
Untouched-inside m m' m2 b [] apart outside k = tt
Untouched-inside m m' m2 b (c ∷ cs) apart outside k = (
  λ a lo hi. outside a (omega (arith, apart.0)) ∙ k.0 a lo hi,
  Untouched-inside m m' m2 b cs apart.1 outside k.1,
)

clear-Allocated :
    (mmap : ℕ → Option ℕ) (m : Memory) (bs : List Block) (n : ℕ) {o : Outcome ℕ}
    → Allocated mmap m bs n o
    → Allocated mmap m bs n (continue o (λ ptr. clear ptr n))
      × ZeroBytes n (continue o (λ ptr. clear ptr n))
unfolding clear
clear-Allocated mmap m bs n (refused heap same why) = (refused heap same why, inl refl)
clear-Allocated mmap m bs n (granted {h} {p} bs' xs ys b heap at room used l l' kept) =
    let (placed, mapped) = live_block-Mapped h bs' xs ys b heap l' in
    let live_ptr : (p == 0) ≡ false = ground (arith, at) in
    let there : Mapped h.bytes p n = λ a lo hi. mapped a (omega arith) (omega arith) in
    let e = on_bytes-ok (memset p 0 n) h (memset-bzero p 0 n h.bytes there).0 in
    let apart = subst (λ t. AllApart b t) (sym l) (live-apart bs' xs ys b heap.layout l') in
    rw (live_ptr, e)
      (
        granted bs' xs ys b (IsHeap-bytes h _ bs' (StillMapped-filled h.bytes p n 0) heap) at room
            used l l'
            (Untouched-inside m h.bytes _ b (live bs) apart
              (λ a out. filled-outside h.bytes p n a (omega arith)) kept),
        inr (λ a lo hi. filled-zero h.bytes p n a lo hi),
      )

no_product : (number size : ℕ) → number == 0 || size == 0 ≡ true → number * size ≡ 0
no_product number size h = elim (Bool-cases (number == 0)) [
  | inl y ↦ let e : number ≡ 0 = ground (arith, y) in rw e (omega arith)
  | inr y ↦ let e : size ≡ 0 = ground (arith, y, h) in rw e (omega arith)
]

-- On a well formed heap, given fuel for its blocks and a kernel that maps fresh pages, calloc
-- returns what malloc promises for the product of its arguments, and every byte of the payload that it
-- returns is 0: null is returned only for a product of 0 or above 2 ^ 32 - 33, or where no unused block has
-- room for the product up to a multiple of 16, and mmap refuses the pages for it and a header, or they
-- pass the address space.
pub calloc-ZeroBytes :
    (fuel : ℕ) (mmap : ℕ → Option ℕ) (h : Arena) (bs : List Block) (number size : ℕ)
    → IsHeap h bs
    → MmapFresh mmap bs
    → length bs < fuel
    → Allocated mmap h.bytes bs (number * size) (calloc fuel mmap number size h)
      × ZeroBytes (number * size) (calloc fuel mmap number size h)
unfolding calloc
calloc-ZeroBytes fuel mmap h bs number size heap fresh enough =
    let malloced = malloc-Allocated fuel mmap h bs (number * size) heap fresh enough in
    elim (Bool-cases (number == 0 || size == 0)) [
      | inl zero_test ↦
          rw zero_test (refused heap refl (inl (no_product number size zero_test)), inl refl)
      | inr positive ↦ elim (Bool-cases (leb (2 ^ 32) (number * size))) [
        | inl over ↦
            rw (positive, over) (refused heap refl (inr (inl (ground (arith, over)))), inl refl)
        | inr under ↦
            rw (positive, under) (clear-Allocated mmap h.bytes bs (number * size) malloced)
      ]
    ]
