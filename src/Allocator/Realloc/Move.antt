-- ===== src/Allocator/Realloc/Move.antt =====
-- Resizing by a new block, a copy and a free.
use small_lib_c.Base.{
  ℕ, ◌+◌, ◌-◌, ◌≤◌, ◌<◌, ◌≡◌, refl, sym, ap, ◌∙◌, subst, false, some, List, [], ◌∷◌, ◌++◌, ◌⊎◌,
  arith, ◌==◌, Bool-cases, inl, inr,
}
use mathlib.Core.List.{append_assoc, cons-eq-cons}
use small_lib_c.Memory.{Memory}
use small_lib_c.Memory.Region.{Mapped}
use small_lib_c.Strings.Block.{memcpy}
use small_lib_c.Strings.Block.Move.{moved, memcpy_lem}
use small_lib_c.Allocator.{inside, Arena, done}
use small_lib_c.Allocator.Chain.{Block, header_of, first_or, last_or, Seg-right}
use small_lib_c.Allocator.Layout.{Placed, Apart, AllApart, top}
use small_lib_c.Allocator.Link.{load-some}
use small_lib_c.Allocator.Invariant.{IsHeap, live, live-Splits}
use small_lib_c.Allocator.Malloc.{Untouched}
use small_lib_c.Allocator.Bytes.{on_bytes-ok, StillMapped, IsHeap-bytes, live_block-Mapped}
use small_lib_c.Allocator.Free.{free-releases}
use small_lib_c.Allocator.Realloc.{copy_size, move_to}

-- One list cut at a place and at an element: the element is in one of the two parts.
abbrev Cut : (us vs xs : List Block) → Block → (ys : List Block) → Type 0
Cut us vs xs b ys =
    ((ws : List Block) × (us ≡ xs ++ b ∷ ws) × (ws ++ vs ≡ ys))
    ⊎ ((ws : List Block) × (xs ≡ us ++ ws) × (vs ≡ ws ++ b ∷ ys))

Cut-cons :
    (c : Block) (us vs xs : List Block) (b : Block) (ys : List Block)
    → Cut us vs xs b ys
    → Cut (c ∷ us) vs (c ∷ xs) b ys
Cut-cons c us vs xs b ys (inl (ws, e, k)) = inl (ws, ap (λ t. c ∷ t) e, k)
Cut-cons c us vs xs b ys (inr (ws, e, k)) = inr (ws, ap (λ t. c ∷ t) e, k)

append-Cut :
    (us vs xs : List Block) (b : Block) (ys : List Block)
    → us ++ vs ≡ xs ++ b ∷ ys
    → Cut us vs xs b ys
append-Cut [] vs xs b ys e = inr (xs, refl, e)
append-Cut (u ∷ us) vs [] b ys e =
    let (e1, e2) = cons-eq-cons.0 e in inl (us, ap (λ t. t ∷ us) e1, e2)
append-Cut (u ∷ us) vs (x ∷ xs) b ys e =
    let (e1, e2) = cons-eq-cons.0 e in
    subst (λ t. Cut (u ∷ us) vs (t ∷ xs) b ys) e1
      (Cut-cons u us vs xs b ys (append-Cut us vs xs b ys e2))

-- The heap after malloc: the old block and the new one, and what is left when the old one goes.
abbrev Exchange : (us vs xs : List Block) → (b c : Block) → (ys : List Block) → Type 0
Exchange us vs xs b c ys =
    (ls rs ps qs : List Block) × (us ++ c ∷ vs ≡ ls ++ b ∷ rs)
    × (ls ++ rs ≡ ps ++ c ∷ qs)
    × (ps ++ qs ≡ xs ++ ys)

pub exchange :
    (us vs xs : List Block) (b c : Block) (ys : List Block)
    → us ++ vs ≡ xs ++ b ∷ ys
    → Exchange us vs xs b c ys
exchange us vs xs b c ys e = elim (append-Cut us vs xs b ys e) [
  | inl (ws, e1, e2) ↦ (
    xs,
    ws ++ c ∷ vs,
    xs ++ ws,
    vs,
    ap (λ t. t ++ c ∷ vs) e1 ∙ append_assoc xs (b ∷ ws) (c ∷ vs),
    sym (append_assoc xs ws (c ∷ vs)),
    append_assoc xs ws vs ∙ ap (λ t. xs ++ t) e2,
  )
  | inr (ws, e1, e2) ↦ (
    us ++ c ∷ ws,
    ys,
    us,
    ws ++ ys,
    ap (λ t. us ++ c ∷ t) e2 ∙ sym (append_assoc us (c ∷ ws) (b ∷ ys)),
    append_assoc us (c ∷ ws) ys,
    sym (append_assoc us ws ys) ∙ ap (λ t. t ++ ys) (sym e1),
  )
]

pub Untouched-without :
    (m m' : Memory) (xs : List Block) (b : Block) (ys : List Block)
    → Untouched m m' (xs ++ b ∷ ys)
    → ((a : ℕ) → b.at ≤ a → a < top b → m' a ≡ m a) × Untouched m m' (xs ++ ys)
Untouched-without m m' [] b ys k = k
Untouched-without m m' (x ∷ xs) b ys k =
    let (here, others) = Untouched-without m m' xs b ys k.1 in (here, (k.0, others))

pub AllApart-without :
    (c : Block) (xs : List Block) (b : Block) (ys : List Block)
    → AllApart c (xs ++ b ∷ ys)
    → Apart c b × AllApart c (xs ++ ys)
AllApart-without c [] b ys k = k
AllApart-without c (x ∷ xs) b ys k =
    let (here, others) = AllApart-without c xs b ys k.1 in (here, (k.0, others))

header_here :
    (h : Arena) (bs ls rs : List Block) (b : Block)
    → IsHeap h bs
    → live bs ≡ ls ++ b ∷ rs
    → (next prev : ℕ) × (h.headers b.at ≡ some (header_of b next prev))
header_here h bs ls rs b heap e =
    let (pre, post, split, left, right, used) = live-Splits bs ls b rs e in
    let heap' : IsHeap h (pre ++ b ∷ post) = subst (λ t. IsHeap h t) split heap in
    (first_or post 0, last_or 0 pre, (Seg-right h.headers 0 pre (b ∷ post) 0 heap'.chain).0)

pub moved_inside : (m : Memory) (d s n i : ℕ) → i < n → moved m d s n (d + i) ≡ m (s + i)
unfolding moved
moved_inside m d s n i h =
    let same : s + (d + i - d) ≡ s + i = omega arith in ground (arith, ap m same)

pub moved_outside : (m : Memory) (d s n a : ℕ) → (a < d) ⊎ (d + n ≤ a) → moved m d s n a ≡ m a
unfolding moved
moved_outside m d s n a out = ground arith

StillMapped-moved : (m : Memory) (d s n : ℕ) → Mapped m s n → StillMapped m (moved m d s n)
unfolding moved
StillMapped-moved m d s n from a h = elim (Bool-cases (inside d n a)) [
  | inl y ↦ rw y (from (s + (a - d)) (omega arith) (ground (arith, y)))
  | inr y ↦ rw y h
]

-- The steps after malloc has returned a payload, on the heap that it left.
module _ (h : Arena) (bs ls rs : List Block) (b c : Block) (size : ℕ) (heap : IsHeap h bs)
    (l : live bs ≡ ls ++ b ∷ rs) (c_placed : Placed c)
    (c_mapped : Mapped h.bytes (c.at + 32) c.size) (apart : Apart c b) (room : size ≤ c.size) where
  abbrev copied : Memory
  copied = moved h.bytes (c.at + 32) (b.at + 32) (copy_size b.size size)

  pub count : (copy_size b.size size ≤ b.size) × (copy_size b.size size ≤ c.size)
  count = ground arith

  pub move_run :
      (h' : Arena) × (bs' : List Block) × (move_to b.at (b.at + 32) size (c.at + 32) h
        ≡ done (c.at + 32) h')
      × IsHeap h' bs'
      × (live bs' ≡ ls ++ rs)
      × (h'.bytes ≡ copied)
  unfolding move_to
  move_run =
      let (placed, mapped) = live_block-Mapped h bs ls rs b heap l in
      let (next, prev, here) = header_here h bs ls rs b heap l in
      let (n_old, n_new) = count in
      let live_ptr : (c.at + 32 == 0) ≡ false = ground arith in
      let from : Mapped h.bytes (b.at + 32) (copy_size b.size size) =
        λ a lo hi. mapped a lo (omega (arith, n_old)) in
      let to : Mapped h.bytes (c.at + 32) (copy_size b.size size) =
        λ a lo hi. c_mapped a lo (omega (arith, n_new)) in
      let copy = on_bytes-ok (memcpy (c.at + 32) (b.at + 32) (copy_size b.size size)) h (
        memcpy_lem (c.at + 32) (b.at + 32) (copy_size b.size size) h.bytes to from
          (omega (arith, apart, n_old, n_new))) in
      let still = IsHeap-bytes h copied bs (StillMapped-moved h.bytes _ _ _ from) heap in
      let (h', bs', run, heap', lv, same, again) =
        free-releases (record h { bytes = copied }) bs ls rs b still l in
      (h', bs', rw (live_ptr, load-some b.at h here, copy, run), heap', lv, same)
