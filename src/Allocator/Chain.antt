-- ===== src/Allocator/Chain.antt =====
-- The doubly linked list of blocks as a list of addresses, sizes and states.
use small_lib_c.Base.{
  ℕ, ◌≡◌, refl, ◌≢◌, Bool, true, false, Option, some, List, [], ◌∷◌, ◌++◌, arith,
}
use small_lib_c.Allocator.{Header, header, put, magic_free, magic_used}

-- A block: the address of its header, the size of its payload, and whether it is in use.
pub record Block : Type 0 where
  pub at : ℕ
  pub size : ℕ
  pub used : Bool

abbrev pub magic_of : Bool → ℕ
magic_of true = magic_used
magic_of false = magic_free

abbrev pub header_of : Block → (next prev : ℕ) → Header
header_of b next prev = header b.size next prev (magic_of b.used)

-- The address that a link to the list leads to, `next` being what comes after the list.
abbrev pub first_or : List Block → ℕ → ℕ
first_or [] next = next
first_or (b ∷ bs) next = b.at

abbrev pub last_or : ℕ → List Block → ℕ
last_or prev [] = prev
last_or prev (b ∷ bs) = last_or b.at bs

-- The headers of the blocks are there and linked both ways, from `prev` on to `next`.
abbrev pub Seg : (ℕ → Option Header) → (prev : ℕ) → List Block → (next : ℕ) → Type 0
Seg hs prev [] next = Unit
Seg hs prev (b ∷ bs) next =
    (hs b.at ≡ some (header_of b (first_or bs next) prev)) × Seg hs b.at bs next

abbrev pub Absent : ℕ → List Block → Type 0
Absent a [] = Unit
Absent a (b ∷ bs) = (b.at ≢ a) × Absent a bs

module _ (hs : ℕ → Option Header) where
  pub Seg-put :
      (a : ℕ) (h : Header) (prev : ℕ) (bs : List Block) (next : ℕ)
      → Absent a bs
      → Seg hs prev bs next
      → Seg (put hs a h) prev bs next
  unfolding put
  Seg-put a h prev [] next out s = tt
  Seg-put a h prev (b ∷ bs) next out s = (ground arith, Seg-put a h b.at bs next out.1 s.1)

  pub Seg-append :
      (prev : ℕ) (xs ys : List Block) (next : ℕ)
      → Seg hs prev xs (first_or ys next)
      → Seg hs (last_or prev xs) ys next
      → Seg hs prev (xs ++ ys) next
  Seg-append prev [] ys next s t = t
  Seg-append prev (x ∷ []) ys next s t = (s.0, t)
  Seg-append prev (x ∷ y ∷ xs) ys next s t = (s.0, Seg-append x.at (y ∷ xs) ys next s.1 t)

  pub Seg-left :
      (prev : ℕ) (xs ys : List Block) (next : ℕ)
      → Seg hs prev (xs ++ ys) next
      → Seg hs prev xs (first_or ys next)
  Seg-left prev [] ys next s = tt
  Seg-left prev (x ∷ []) ys next s = (s.0, tt)
  Seg-left prev (x ∷ y ∷ xs) ys next s = (s.0, Seg-left x.at (y ∷ xs) ys next s.1)

  pub Seg-right :
      (prev : ℕ) (xs ys : List Block) (next : ℕ)
      → Seg hs prev (xs ++ ys) next
      → Seg hs (last_or prev xs) ys next
  Seg-right prev [] ys next s = s
  Seg-right prev (x ∷ xs) ys next s = Seg-right x.at xs ys next s.1

pub Absent-left : (a : ℕ) (xs ys : List Block) → Absent a (xs ++ ys) → Absent a xs
Absent-left a [] ys h = tt
Absent-left a (x ∷ xs) ys h = (h.0, Absent-left a xs ys h.1)

pub Absent-right : (a : ℕ) (xs ys : List Block) → Absent a (xs ++ ys) → Absent a ys
Absent-right a [] ys h = h
Absent-right a (x ∷ xs) ys h = Absent-right a xs ys h.1

-- The list is empty or has a last block.
pub data Snoc : List Block → Type 0 where
  empty : Snoc []
  snoc : (init : List Block) (b : Block) → Snoc (init ++ b ∷ [])

pub at_end : (bs : List Block) → Snoc bs
at_end [] = empty
at_end (b ∷ bs) = add b (at_end bs)
  where
    add : (c : Block) {cs : List Block} → Snoc cs → Snoc (c ∷ cs)
    add c empty = snoc [] c
    add c (snoc init d) = snoc (c ∷ init) d

pub last_or-snoc : (prev : ℕ) (init : List Block) (b : Block) → last_or prev (init ++ b ∷ []) ≡ b.at
last_or-snoc prev [] b = refl
last_or-snoc prev (c ∷ init) b = last_or-snoc c.at init b
