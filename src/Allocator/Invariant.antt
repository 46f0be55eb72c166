-- ===== src/Allocator/Invariant.antt =====
-- A well formed heap, and the abstract view of it: the list of the blocks in use.
use small_lib_c.Base.{
  subst, ℕ, ◌+◌, ◌≤◌, ◌≡◌, refl, sym, ap, ◌∙◌, true, false, List, [], ◌∷◌, ◌++◌, arith,
  if◌then◌else◌, leb, Bool-cases, inl, inr,
}
use mathlib.Core.List.{cons-eq-cons, cons≢nil}
use small_lib_c.Memory.{Memory}
use small_lib_c.Memory.Region.{Mapped}
use small_lib_c.Allocator.{Arena}
use small_lib_c.Allocator.Chain.{Block, first_or, Seg}
use small_lib_c.Allocator.Layout.{Layout, AllApart, AllApart-append, Layout-between, Layout-right}
use small_lib_c.Allocator.Split.{front, carve}

-- The bytes of the blocks are there, those of their headers too.
abbrev pub Backed : Memory → List Block → Type 0
Backed m [] = Unit
Backed m (b ∷ bs) = Mapped m b.at (32 + b.size) × Backed m bs

pub record IsHeap (h : Arena) (bs : List Block) : Type 0 where
  pub base : h.heap_base ≡ first_or bs 0
  pub unlocked : h.malloc_lock ≡ false
  pub chain : Seg h.headers 0 bs 0
  pub layout : Layout bs
  pub backed : Backed h.bytes bs

-- The abstract view.
unfoldable pub live : List Block → List Block
live [] = []
live (b ∷ bs) = if b.used then b ∷ live bs else live bs

pub live-append : (xs ys : List Block) → live (xs ++ ys) ≡ live xs ++ live ys
unfolding live
live-append [] ys = refl
live-append (x ∷ xs) ys = ground (arith, live-append xs ys)

pub live_used : (b : Block) (bs : List Block) → b.used ≡ true → live (b ∷ bs) ≡ b ∷ live bs
unfolding live
live_used b bs h = ground arith

pub live_unused : (b : Block) (bs : List Block) → b.used ≡ false → live (b ∷ bs) ≡ live bs
unfolding live
live_unused b bs h = ground arith

pub AllApart-live : (b : Block) (bs : List Block) → AllApart b bs → AllApart b (live bs)
unfolding live
AllApart-live b [] h = tt
AllApart-live b (c ∷ bs) h = elim (Bool-cases c.used) [
  | inl y ↦ rw y (h.0, AllApart-live b bs h.1)
  | inr y ↦ rw y (AllApart-live b bs h.1)
]

pub Layout-live : (bs : List Block) → Layout bs → Layout (live bs)
unfolding live
Layout-live [] l = tt
Layout-live (b ∷ bs) l = elim (Bool-cases b.used) [
  | inl y ↦
      subst (λ t. Layout t) (sym (live_used b bs y))
        (l.0, AllApart-live b bs l.1, Layout-live bs l.2)
  | inr y ↦ rw y (Layout-live bs l.2)
]

-- A block in use stands apart from the others in use.
pub live-apart :
    (bs xs ys : List Block) (b : Block) → Layout bs → live bs ≡ xs ++ b ∷ ys → AllApart b (xs ++ ys)
live-apart bs xs ys b l e =
    let l' : Layout (xs ++ b ∷ ys) = subst (λ t. Layout t) e (Layout-live bs l) in
    AllApart-append b xs ys (Layout-between xs (b ∷ ys) l').0 (Layout-right xs (b ∷ ys) l').1

pub Backed-append :
    (m : Memory) (xs ys : List Block) → Backed m xs → Backed m ys → Backed m (xs ++ ys)
Backed-append m [] ys hx hy = hy
Backed-append m (x ∷ xs) ys hx hy = (hx.0, Backed-append m xs ys hx.1 hy)

pub Backed-left : (m : Memory) (xs ys : List Block) → Backed m (xs ++ ys) → Backed m xs
Backed-left m [] ys h = tt
Backed-left m (x ∷ xs) ys h = (h.0, Backed-left m xs ys h.1)

pub Backed-right : (m : Memory) (xs ys : List Block) → Backed m (xs ++ ys) → Backed m ys
Backed-right m [] ys h = h
Backed-right m (x ∷ xs) ys h = Backed-right m xs ys h.1

-- The block that stands for `b` after a cut at `n`.
abbrev pub kept : ℕ → Block → Block
kept n b = if leb (n + 48) b.size then front n b else b

-- A cut adds no block in use.
pub live-carve :
    (n : ℕ) (b : Block) (post : List Block)
    → b.used ≡ true
    → live (carve n b ++ post) ≡ kept n b ∷ live post
unfolding live
live-carve n b post h = ground arith

pub Backed-carve :
    (m : Memory) (n : ℕ) (b : Block) (post : List Block)
    → Mapped m b.at (32 + b.size)
    → Backed m post
    → Backed m (carve n b ++ post)
Backed-carve m n b post h k = elim (Bool-cases (leb (n + 48) b.size)) [
  | inl big ↦
      let room : n + 48 ≤ b.size = ground arith in
      rw big (
        (λ a lo hi. h a (omega arith) (omega arith)),
        (λ a lo hi. h a (omega arith) (omega arith), k),
      )
  | inr small ↦ rw small (h, k)
]

-- Where a block in use stands among all blocks.
abbrev pub Splits : List Block → (xs : List Block) → Block → (ys : List Block) → Type 0
Splits bs xs b ys =
    (pre : List Block) × (post : List Block) × (bs ≡ pre ++ b ∷ post)
    × (live pre ≡ xs)
    × (live post ≡ ys)
    × (b.used ≡ true)

Splits-cons :
    (c : Block) (bs xs : List Block) (b : Block) (ys : List Block)
    → c.used ≡ true
    → Splits bs xs b ys
    → Splits (c ∷ bs) (c ∷ xs) b ys
Splits-cons c bs xs b ys used (pre, post, e, l, r, u) =
    (c ∷ pre, post, ap (λ t. c ∷ t) e, live_used c pre used ∙ ap (λ t. c ∷ t) l, r, u)

Splits-skip :
    (c : Block) (bs xs : List Block) (b : Block) (ys : List Block)
    → c.used ≡ false
    → Splits bs xs b ys
    → Splits (c ∷ bs) xs b ys
Splits-skip c bs xs b ys unused (pre, post, e, l, r, u) =
    (c ∷ pre, post, ap (λ t. c ∷ t) e, live_unused c pre unused ∙ l, r, u)

pub live-Splits :
    (bs xs : List Block) (b : Block) (ys : List Block) → live bs ≡ xs ++ b ∷ ys → Splits bs xs b ys
unfolding live
live-Splits [] [] b ys e = absurd (cons≢nil (sym e))
live-Splits [] (x ∷ xs) b ys e = absurd (cons≢nil (sym e))
live-Splits (c ∷ bs) xs b ys e = elim (Bool-cases c.used) [
  | inl used ↦ used_case xs used (λ zs. live-Splits bs zs b ys) (sym (live_used c bs used) ∙ e)
  | inr unused ↦
      Splits-skip c bs xs b ys unused (live-Splits bs xs b ys (sym (live_unused c bs unused) ∙ e))
]
  where
    used_case :
        (zs : List Block)
        → c.used ≡ true
        → ((zs : List Block) → live bs ≡ zs ++ b ∷ ys → Splits bs zs b ys)
        → c ∷ live bs ≡ zs ++ b ∷ ys
        → Splits (c ∷ bs) zs b ys
    used_case [] used split h =
        (let (e1, e2) = cons-eq-cons.0 h in
          ([], bs, ap (λ t. t ∷ bs) e1, refl, e2, sym (ap (λ (t : Block). t.used) e1) ∙ used))
    used_case (z ∷ zs) used split h =
        (let (e1, e2) = cons-eq-cons.0 h in
          subst (λ t. Splits (c ∷ bs) (t ∷ zs) b ys) e1
            (Splits-cons c bs zs b ys used (split zs e2)))
