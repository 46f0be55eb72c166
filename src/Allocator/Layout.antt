-- ===== src/Allocator/Layout.antt =====
-- Where the blocks of a heap stand: in the address space, aligned, and apart from one another.
use small_lib_c.Base.{ℕ, ◌+◌, ◌%◌, ◌^◌, ◌≤◌, ◌≡◌, List, [], ◌∷◌, ◌++◌, ◌⊎◌, inl, inr, arith}
use small_lib_c.Allocator.Chain.{Block, Absent}

abbrev pub top : Block → ℕ
top b = b.at + 32 + b.size

-- The first page is never mapped.
pub record Placed (b : Block) : Type 0 where
  pub above_zero_page : 4096 ≤ b.at
  pub aligned_at : b.at % 16 ≡ 0
  pub aligned_size : b.size % 16 ≡ 0
  pub not_empty : 16 ≤ b.size
  pub in_space : top b ≤ 2 ^ 32

abbrev pub Apart : Block → Block → Type 0
Apart b c = (top b ≤ c.at) ⊎ (top c ≤ b.at)

abbrev pub AllApart : Block → List Block → Type 0
AllApart b [] = Unit
AllApart b (c ∷ cs) = Apart b c × AllApart b cs

abbrev pub Between : List Block → List Block → Type 0
Between xs [] = Unit
Between xs (c ∷ cs) = AllApart c xs × Between xs cs

abbrev pub Layout : List Block → Type 0
Layout [] = Unit
Layout (b ∷ bs) = Placed b × AllApart b bs × Layout bs

pub Apart-sym : (b c : Block) → Apart b c → Apart c b
Apart-sym b c (inl h) = inr h
Apart-sym b c (inr h) = inl h

pub AllApart-append :
    (b : Block) (xs ys : List Block) → AllApart b xs → AllApart b ys → AllApart b (xs ++ ys)
AllApart-append b [] ys hx hy = hy
AllApart-append b (x ∷ xs) ys hx hy = (hx.0, AllApart-append b xs ys hx.1 hy)

pub AllApart-left : (b : Block) (xs ys : List Block) → AllApart b (xs ++ ys) → AllApart b xs
AllApart-left b [] ys h = tt
AllApart-left b (x ∷ xs) ys h = (h.0, AllApart-left b xs ys h.1)

pub AllApart-right : (b : Block) (xs ys : List Block) → AllApart b (xs ++ ys) → AllApart b ys
AllApart-right b [] ys h = h
AllApart-right b (x ∷ xs) ys h = AllApart-right b xs ys h.1

Between-nil : (ys : List Block) → Between [] ys
Between-nil [] = tt
Between-nil (y ∷ ys) = (tt, Between-nil ys)

Between-cons :
    (b : Block) (xs ys : List Block) → AllApart b ys → Between xs ys → Between (b ∷ xs) ys
Between-cons b xs [] h k = tt
Between-cons b xs (y ∷ ys) h k = ((Apart-sym b y h.0, k.0), Between-cons b xs ys h.1 k.1)

Between-head : (b : Block) (xs ys : List Block) → Between (b ∷ xs) ys → AllApart b ys
Between-head b xs [] k = tt
Between-head b xs (y ∷ ys) k = (Apart-sym y b k.0.0, Between-head b xs ys k.1)

Between-tail : (b : Block) (xs ys : List Block) → Between (b ∷ xs) ys → Between xs ys
Between-tail b xs [] k = tt
Between-tail b xs (y ∷ ys) k = (k.0.1, Between-tail b xs ys k.1)

pub Layout-append : (xs ys : List Block) → Layout xs → Layout ys → Between xs ys → Layout (xs ++ ys)
Layout-append [] ys hx hy k = hy
Layout-append (x ∷ xs) ys hx hy k = (
  hx.0,
  AllApart-append x xs ys hx.1 (Between-head x xs ys k),
  Layout-append xs ys hx.2 hy (Between-tail x xs ys k),
)

pub Layout-left : (xs ys : List Block) → Layout (xs ++ ys) → Layout xs
Layout-left [] ys h = tt
Layout-left (x ∷ xs) ys h = (h.0, AllApart-left x xs ys h.1, Layout-left xs ys h.2)

pub Layout-right : (xs ys : List Block) → Layout (xs ++ ys) → Layout ys
Layout-right [] ys h = h
Layout-right (x ∷ xs) ys h = Layout-right xs ys h.2

pub Layout-between : (xs ys : List Block) → Layout (xs ++ ys) → Between xs ys
Layout-between [] ys h = Between-nil ys
Layout-between (x ∷ xs) ys h =
    Between-cons x xs ys (AllApart-right x xs ys h.1) (Layout-between xs ys h.2)

Between-right : (xs ys zs : List Block) → Between xs (ys ++ zs) → Between xs zs
Between-right xs [] zs k = k
Between-right xs (y ∷ ys) zs k = Between-right xs ys zs k.1

Between-left : (xs ys zs : List Block) → Between xs (ys ++ zs) → Between xs ys
Between-left xs [] zs k = tt
Between-left xs (y ∷ ys) zs k = (k.0, Between-left xs ys zs k.1)

Between-append : (xs ys zs : List Block) → Between xs ys → Between xs zs → Between xs (ys ++ zs)
Between-append xs [] zs h k = k
Between-append xs (y ∷ ys) zs h k = (h.0, Between-append xs ys zs h.1 k)

-- New blocks that are apart from whatever the old ones are apart from.
abbrev pub Covers : (old new : List Block) → Type 0
Covers old new = (c : Block) → Placed c → AllApart c old → AllApart c new

Between-sym : (xs ys : List Block) → Between xs ys → Between ys xs
Between-sym [] ys k = tt
Between-sym (x ∷ xs) ys k = (Between-head x xs ys k, Between-sym xs ys (Between-tail x xs ys k))

Between-Covers :
    (old new ys : List Block) → Covers old new → Layout ys → Between old ys → Between new ys
Between-Covers old new [] covers h k = tt
Between-Covers old new (y ∷ ys) covers h k =
    (covers y h.0 k.0, Between-Covers old new ys covers h.2 k.1)

-- A part of a heap may be replaced by blocks that it covers.
pub Layout-replace :
    (pre old new post : List Block)
    → Covers old new
    → Layout new
    → Layout (pre ++ (old ++ post))
    → Layout (pre ++ (new ++ post))
Layout-replace pre old new post covers fresh h =
    let rest = Layout-right pre (old ++ post) h in
    let between = Layout-between pre (old ++ post) h in
    let hpre = Layout-left pre (old ++ post) h in
    let hpost = Layout-right old post rest in
    let new_post = Between-Covers old new post covers hpost (Layout-between old post rest) in
    let old_pre = Between-sym pre old (Between-left pre old post between) in
    let new_pre = Between-Covers old new pre covers hpre old_pre in
    Layout-append pre (new ++ post) hpre (Layout-append new post fresh hpost new_post) (
      Between-append pre new post (Between-sym new pre new_pre)
        (Between-right pre old post between))

-- Blocks apart have different addresses.
pub AllApart-Absent :
    (b : Block) (bs : List Block) → Placed b → Layout bs → AllApart b bs → Absent b.at bs
AllApart-Absent b [] p h k = tt
AllApart-Absent b (c ∷ cs) p h k = (omega arith, AllApart-Absent b cs p h.2 k.1)
